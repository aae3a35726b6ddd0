-- ===== src/Prelude/Bits.antt =====
-- `bit_and` at variables: one digit at a time, then whole masks.
use Prim.Native.Nat.{
  ℕ, zero, suc, ◌+◌, ◌-◌, ◌*◌, ◌/◌, ◌%◌, ◌^◌, ◌≤◌, ◌<◌, min, bit_and, digits, bit_and-bitwise,
}
use mathlib.Core.Path.{◌≡◌, refl, ap, ◌∙◌}
use native.Mathlib.Nat.{pow-suc, one-le-pow, div-div-eq-div-mul}
use native.Mathlib.Omega.{arith}

-- What the native operation computes, on any number of rounds.
abbrev rounds : ℕ → ℕ → ℕ → ℕ
rounds n = digits (λ _. zero) min n

-- The rounds past the size of the first operand add nothing.
rounds-eq : (n k : ℕ) (x y : ℕ) → x ≤ n → x ≤ k → rounds n x y ≡ rounds k x y
rounds-eq zero zero x y hn hk = refl
rounds-eq zero (suc k) zero y hn hk = refl
rounds-eq zero (suc k) (suc x) y hn hk = absurd (omega arith)
rounds-eq (suc n) zero zero y hn hk = refl
rounds-eq (suc n) zero (suc x) y hn hk = absurd (omega arith)
rounds-eq (suc n) (suc k) zero y hn hk = refl
rounds-eq (suc n) (suc k) (suc x) y hn hk =
    omega (arith, rounds-eq n k (suc x / 2) (y / 2) (omega arith) (omega arith))

-- The lowest digit of a conjunction, and the rest.
pub bit_and-digit : (x y : ℕ) → bit_and x y ≡ bit_and (x / 2) (y / 2) * 2 + min (x % 2) (y % 2)
bit_and-digit zero y = omega (arith, bit_and-bitwise 0 y, bit_and-bitwise 0 (y / 2))
bit_and-digit (suc x) y =
    let half = suc x / 2 in
    omega (
      arith,
      bit_and-bitwise (suc x) y,
      bit_and-bitwise half (y / 2),
      rounds-eq x half half (y / 2) (omega arith) (omega arith),
    )

zero-bit_and : (y : ℕ) → bit_and 0 y ≡ 0
zero-bit_and y = bit_and-bitwise 0 y

idem_below : (n x : ℕ) → x ≤ n → bit_and x x ≡ x
idem_below n zero h = zero-bit_and 0
idem_below zero (suc x) h = absurd (omega arith)
idem_below (suc n) (suc x) h =
    omega (arith, bit_and-digit (suc x) (suc x), idem_below n (suc x / 2) (omega arith))

pub bit_and_idem : (x : ℕ) → bit_and x x ≡ x
bit_and_idem x = idem_below x x (omega arith)

double : (k m : ℕ) → m * 2 ^ suc k ≡ 2 * (m * 2 ^ k)
double k m = omega (arith, ap (λ (t : ℕ). m * t) (pow-suc 2 k))

halve : (k x : ℕ) → x / 2 / 2 ^ k ≡ x / 2 ^ suc k
halve k x = div-div-eq-div-mul x 2 (2 ^ k) ∙ ap (λ t. x / t) (omega (arith, pow-suc 2 k))

-- A mask with `k` low zeros acts on the digits above them.
pub bit_and-shifted : (k x m : ℕ) → bit_and x (m * 2 ^ k) ≡ bit_and (x / 2 ^ k) m * 2 ^ k
bit_and-shifted zero x m =
    let e : m * 1 ≡ m = omega arith in let e' : x / 1 ≡ x = omega arith in rw (e, e') (omega arith)
bit_and-shifted (suc k) x m =
    let low = m * 2 ^ k in
    let step = bit_and-shifted k (x / 2) m in
    rw (double k m, ← halve k x)
      (omega (
        arith,
        bit_and-digit x (2 * low),
        ap (bit_and (x / 2)) (let e : 2 * low / 2 ≡ low = omega arith in e),
        step,
        double k (bit_and (x / 2 / 2 ^ k) m),
      ))

-- A mask of `k` ones keeps a number of `k` digits.
pub bit_and-ones : (k x : ℕ) → x < 2 ^ k → bit_and x (2 ^ k - 1) ≡ x
bit_and-ones zero x h = let e : x ≡ 0 = omega arith in rw e
bit_and-ones (suc k) x h =
    let half : (2 ^ suc k - 1) / 2 ≡ 2 ^ k - 1 = omega (arith, pow-suc 2 k, one-le-pow k 2) in
    omega (
      arith,
      bit_and-digit x (2 ^ suc k - 1),
      ap (bit_and (x / 2)) half,
      bit_and-ones k (x / 2) (omega (arith, pow-suc 2 k)),
      pow-suc 2 k,
      one-le-pow k 2,
    )
