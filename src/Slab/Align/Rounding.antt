-- ===== src/Slab/Align/Rounding.antt =====
-- `align_up` of slaballoc/src/util.rs rounds up to a multiple of a power of two.
use the_heap.Prelude.{
  ℕ, zero, suc, ◌+◌, ◌-◌, ◌*◌, ◌/◌, ◌%◌, ◌^◌, ◌≤◌, ◌<◌, ◌≡◌, ap, ◌∙◌, arith, bit_and,
}
use the_heap.Prelude.Bits.{bit_and-shifted, bit_and-ones}
use native.Mathlib.Nat.{pow-suc, one-le-pow}
use the_heap.Slab.Align.{align_up, wrapping_pred, complement}

pub pow-add : (j k : ℕ) → 2 ^ (j + k) ≡ 2 ^ j * 2 ^ k
pow-add j zero = let e : j + 0 ≡ j = omega arith in rw e (omega arith)
pow-add j (suc k) =
    let e : j + suc k ≡ suc (j + k) = omega arith in
    rw e (omega (arith, pow-suc 2 (j + k), pow-add j k, ap (λ (t : ℕ). 2 ^ j * t) (pow-suc 2 k)))

pred-mul : (j k : ℕ) → 1 ≤ j → (j - 1) * k ≡ j * k - k
pred-mul zero k h = absurd (omega arith)
pred-mul (suc j) k h = let e : suc j - 1 ≡ j = omega arith in rw e (omega arith)

div-lt : (y j k : ℕ) → y < j * k → y / k < j
div-lt y j k h = grind arith

-- The quotient of `x + p - 1` by `p` is rounded up.
module _ (x p : ℕ) (pos : 0 < p) where
  abbrev up : ℕ
  up = (x + p - 1) / p * p

  up_bounds : (x ≤ up) × (up < x + p) × (up % p ≡ 0)
  up_bounds = (omega arith, omega arith, grind arith)

  up_min : (y : ℕ) → x ≤ y → y % p ≡ 0 → up ≤ y
  up_min y h e = grind arith

-- A mask that clears the low `k` of the `j + k` bits of a word rounds down.
clear_low : (j k y w : ℕ) → w ≡ 2 ^ j * 2 ^ k → y < w → bit_and y (w - 2 ^ k) ≡ y / 2 ^ k * 2 ^ k
clear_low j k y w e h =
    let mask : w - 2 ^ k ≡ (2 ^ j - 1) * 2 ^ k =
      omega (arith, pred-mul (2 ^ j) (2 ^ k) (one-le-pow j 2 (omega arith))) in
    let high : y / 2 ^ k < 2 ^ j = div-lt y (2 ^ j) (2 ^ k) (rw e at h) in
    rw (mask, bit_and-shifted k y (2 ^ j - 1))
      (ap (λ t. t * 2 ^ k) (bit_and-ones j (y / 2 ^ k) high))

module _ (x k : ℕ) (small : k < 64) (fits : x + 2 ^ k ≤ 2 ^ 64) where
  -- For a power of two, where the sum does not wrap, the code rounds by division.
  pub align_up-eq : align_up x (2 ^ k) ≡ (x + 2 ^ k - 1) / 2 ^ k * 2 ^ k
  unfolding align_up
  align_up-eq =
      let pos = one-le-pow k 2 in
      let word : 2 ^ 64 ≡ 2 ^ (64 - k) * 2 ^ k =
        ap (λ t. 2 ^ t) (let e : 64 ≡ 64 - k + k = omega arith in e) ∙ pow-add (64 - k) k in
      let low : wrapping_pred ((x + 2 ^ k) % 2 ^ 64) ≡ x + 2 ^ k - 1 = omega arith in
      let mask : complement (wrapping_pred (2 ^ k)) ≡ 2 ^ 64 - 2 ^ k = omega arith in
      rw (low, mask) (clear_low (64 - k) k (x + 2 ^ k - 1) (2 ^ 64) word (omega arith))

  -- For the alignment `2 ^ k` of a word, where `x + 2 ^ k` does not pass the word: `align_up` gives
  -- the least multiple of the alignment that is not below `x`, and it is less than `x + 2 ^ k`.
  pub align_up_least :
      (x ≤ align_up x (2 ^ k))
      × (align_up x (2 ^ k) < x + 2 ^ k)
      × (align_up x (2 ^ k) % 2 ^ k ≡ 0)
      × ((y : ℕ) → x ≤ y → y % 2 ^ k ≡ 0 → align_up x (2 ^ k) ≤ y)
  align_up_least =
      let b = up_bounds x (2 ^ k) (one-le-pow k 2 (omega arith)) in
      rw align_up-eq (b.0, b.1, b.2, up_min x (2 ^ k) (one-le-pow k 2 (omega arith)))
