-- ===== src/Slab/Ownership/Divides.antt =====
-- The size classes are powers of two, so a block of a class is aligned for every layout of it.
use the_heap.Prelude.{ℕ, zero, suc, ◌+◌, ◌-◌, ◌%◌, ◌^◌, ◌≤◌, ◌<◌, ◌≡◌, refl, ap, ◌∙◌, arith}
use native.Mathlib.Decide.{dec_lt}
use native.Mathlib.Nat.{one-le-pow, mul-mod_left, pow-le-pow_right, pow-suc}
use the_heap.Slab.Align.Rounding.{pow-add}
use the_heap.Slab.Allocator.{class_size}
use the_heap.Slab.Ownership.Claim.{mod_trans}

pow_dvd : (k j : ℕ) → 2 ^ k ≤ 2 ^ j → 2 ^ j % 2 ^ k ≡ 0
pow_dvd k j le = elim (dec_lt j k) [
  | yes lt ↦ absurd (
      omega (
        arith,
        pow-le-pow_right {n = 2} (omega arith) {i = suc j} {j = k} lt,
        pow-suc 2 j,
        one-le-pow j 2 (omega arith),
      ))
  | no ge ↦
      let e : j ≡ j - k + k = omega arith in
      ap (λ t. 2 ^ t % 2 ^ k) e
      ∙ ap (λ t. t % 2 ^ k) (pow-add (j - k) k)
      ∙ mul-mod_left (2 ^ (j - k)) (2 ^ k)
]

pub class_size-pow : (i : ℕ) → i < 10 → class_size i ≡ 2 ^ (3 + i)
unfolding class_size
class_size-pow zero h = refl
class_size-pow (suc zero) h = refl
class_size-pow (suc (suc zero)) h = refl
class_size-pow (suc (suc (suc zero))) h = refl
class_size-pow (suc (suc (suc (suc zero)))) h = refl
class_size-pow (suc (suc (suc (suc (suc zero))))) h = refl
class_size-pow (suc (suc (suc (suc (suc (suc zero)))))) h = refl
class_size-pow (suc (suc (suc (suc (suc (suc (suc zero))))))) h = refl
class_size-pow (suc (suc (suc (suc (suc (suc (suc (suc zero)))))))) h = refl
class_size-pow (suc (suc (suc (suc (suc (suc (suc (suc (suc zero))))))))) h = refl
class_size-pow (suc (suc (suc (suc (suc (suc (suc (suc (suc (suc i)))))))))) h =
    absurd (omega arith)

pub class_aligned :
    (p i k : ℕ) → i < 10 → 2 ^ k ≤ class_size i → p % class_size i ≡ 0 → p % 2 ^ k ≡ 0
class_aligned p i k h le e =
    let pow = class_size-pow i h in
    mod_trans p (2 ^ (3 + i)) (2 ^ k) (rw (← pow) e) (pow_dvd k (3 + i) (rw (← pow) le))
