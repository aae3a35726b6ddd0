-- ===== src/Slab/Align/Powers.antt =====
-- `is_power_of_two` of slaballoc/src/util.rs decides the powers of two.
use the_heap.Prelude.{
  ℕ, zero, suc, ◌+◌, ◌-◌, ◌/◌, ◌%◌, ◌^◌, ◌<◌, ◌≡◌, ◌↔◌, refl, arith, bit_and, true,
}
use the_heap.Prelude.Bits.{bit_and-digit, bit_and_idem}
use native.Mathlib.Nat.{pow-suc, one-le-pow}
use native.Mathlib.Decide.{dec_lt}
use the_heap.Slab.Align.{is_power_of_two, wrapping_pred}

-- Among the `k` lowest digits a power of two has only the one at the top.
disjoint_pred : (k : ℕ) → bit_and (2 ^ k) (2 ^ k - 1) ≡ 0
disjoint_pred zero = refl
disjoint_pred (suc k) =
    let a : 2 ^ suc k / 2 ≡ 2 ^ k = omega (arith, pow-suc 2 k) in
    let b : (2 ^ suc k - 1) / 2 ≡ 2 ^ k - 1 = omega (arith, pow-suc 2 k) in
    rw (bit_and-digit (2 ^ suc k) (2 ^ suc k - 1), a, b, disjoint_pred k)
      (omega (arith, pow-suc 2 k))

-- `fuel` bounds the number.
power_of_disjoint : (fuel x : ℕ) → x < fuel → 0 < x → bit_and x (x - 1) ≡ 0 → (k : ℕ) × (x ≡ 2 ^ k)
power_of_disjoint zero x b p e = absurd (omega arith)
power_of_disjoint (suc fuel) x b p e = elim (dec_lt (x % 2) 1) [
  | yes even ↦
      let below : (x - 1) / 2 ≡ x / 2 - 1 = omega arith in
      let high : bit_and (x / 2) ((x - 1) / 2) ≡ 0 = omega (arith, bit_and-digit x (x - 1)) in
      let (k, q) = power_of_disjoint fuel (x / 2) (omega arith) (omega arith) (rw below at high) in
      (suc k, omega (arith, pow-suc 2 k))
  | no odd ↦
      let same : (x - 1) / 2 ≡ x / 2 = omega arith in
      let high : bit_and (x / 2) ((x - 1) / 2) ≡ 0 = omega (arith, bit_and-digit x (x - 1)) in
      let half : bit_and (x / 2) (x / 2) ≡ 0 = rw same at high in
      (0, omega (arith, bit_and_idem (x / 2)))
]

-- For every word: the test passes exactly at the powers of two.
pub is_power_of_two_iff :
    (x : ℕ) → x < 2 ^ 64 → (is_power_of_two x ≡ true) ↔ ((k : ℕ) × (x ≡ 2 ^ k))
unfolding is_power_of_two
is_power_of_two_iff x w =
    let pred : 0 < x → wrapping_pred x ≡ x - 1 = λ p. omega arith in
    let digits : is_power_of_two x ≡ true → 0 < x → bit_and x (x - 1) ≡ 0 =
      λ t p. rw (← pred p) (ground arith) in
    (
      λ test.
          let p : 0 < x = ground arith in
          power_of_disjoint (x + 1) x (omega arith) p (digits test p),
      λ (k, e).
          let p : 0 < x = omega (arith, one-le-pow k 2 (omega arith)) in
          let apart : bit_and x (x - 1) ≡ 0 = rw e (disjoint_pred k) in
          rw (pred p, apart) (ground arith),
    )
