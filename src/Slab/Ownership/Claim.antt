-- ===== src/Slab/Ownership/Claim.antt =====
-- The bytes behind the blocks are free to be handed out: a chunk is cut into blocks of a class, or
-- a large block is taken whole.
use the_heap.Prelude.{
  ℕ, ◌+◌, ◌-◌, ◌%◌, ◌≤◌, ◌<◌, ◌≡◌, ◌≢◌, refl, inl, inr, Bool, true, ◌&&◌, ltb, leb, ◌==◌,
  if◌then◌else◌, arith, Bool-cases,
}
use mathlib.Core.Path.{subst}
use native.Mathlib.Nat.{mod-eq-zero_of_dvd, dvd-add, dvd_trans, dvd_of_mod-eq-zero}
use the_heap.Slab.Allocator.{chunk_size, class_size}
use the_heap.Slab.Allocator.Classes.{class_size_lem}
use the_heap.Slab.Ownership.{unused, used, extent, Blocks, Statuses}
use the_heap.Slab.Ownership.Extend.{Origin, fresh, old, FreshApart}
use the_heap.Slab.Ownership.Relabel.{InClass-extent, InClass-unique}

-- Multiples of `p` that differ are `p` apart.
pub multiples_apart : (x y p : ℕ) → x % p ≡ 0 → y % p ≡ 0 → x < y → x + p ≤ y
multiples_apart x y p hx hy lt = grind arith

mod-add : (x y p : ℕ) → x % p ≡ 0 → y % p ≡ 0 → (x + y) % p ≡ 0
mod-add x y p hx hy =
    mod-eq-zero_of_dvd p (dvd-add p (dvd_of_mod-eq-zero _ hx) (dvd_of_mod-eq-zero _ hy))

pub mod_trans : (x n p : ℕ) → x % n ≡ 0 → n % p ≡ 0 → x % p ≡ 0
mod_trans x n p hx hn =
    mod-eq-zero_of_dvd p (dvd_trans p (dvd_of_mod-eq-zero _ hn) (dvd_of_mod-eq-zero _ hx))

-- The start of a block of class `i` in the chunk at `start`.
abbrev pub is_cut : ℕ → ℕ → ℕ → Bool
is_cut start i a = leb start a && (ltb a (start + chunk_size) && ((a - start) % class_size i == 0))

-- The chunk is cut into blocks of class `i`.
abbrev pub claim : Statuses → ℕ → ℕ → Statuses
claim st start i a = if is_cut start i a then used i else st a

module _ {st : Statuses} {lo hi : ℕ} (blocks : Blocks st lo hi) (start i : ℕ) (behind : hi ≤ start)
    (page : start % chunk_size ≡ 0) (class_lt : i < 10) where
  used-extent : extent (used i) ≡ class_size i
  used-extent = (InClass-extent (used i) i (inr refl)).0

  -- The blocks fill the chunk and are aligned.
  cut_bounds :
      (a : ℕ)
      → is_cut start i a ≡ true
      → (start ≤ a) × (a + class_size i ≤ start + chunk_size) × (a % class_size i ≡ 0)
  cut_bounds a c =
      let size = class_size_lem i class_lt in
      let from : start ≤ a = ground arith in
      let to : a < start + chunk_size = ground arith in
      let cut_at : (a - start) % class_size i ≡ 0 = ground arith in
      let room =
        multiples_apart (a - start) chunk_size (class_size i) cut_at size.2 (omega arith) in
      let whole : start + (a - start) ≡ a = omega arith in
      let paged = mod_trans start chunk_size (class_size i) page size.2 in
      (from, omega arith, rw whole at (mod-add start (a - start) (class_size i) paged cut_at))

  pub claim-Origin : (a : ℕ) → Origin st (claim st start i) start (start + chunk_size) a
  claim-Origin a = elim (Bool-cases (is_cut start i a)) [
    | inl c ↦
        let b = cut_bounds a c in
        let size = class_size_lem i class_lt in
        let e : claim st start i a ≡ used i = rw c in
        fresh b.0 (rw (e, used-extent) (omega arith)) (rw (e, used-extent) b.1) (
          rw e λ j cl.
            subst (λ k. (k < 10) × (a % class_size k ≡ 0))
              (InClass-unique (used i) i j (inr refl) cl) (class_lt, b.2))
    | inr c ↦ old (rw c)
  ]

  -- Behind `start` every block of the new map is cut from the chunk.
  is_new : (a : ℕ) → start ≤ a → claim st start i a ≢ unused → is_cut start i a ≡ true
  is_new a from u = elim (Bool-cases (is_cut start i a)) [
    | inl c ↦ c
    | inr c ↦
        let ne : st a ≢ unused = rw c at u in
        let w = blocks.within a ne in let z = blocks.sized a ne in absurd (omega arith)
  ]

  pub claim-FreshApart : FreshApart (claim st start i) start
  claim-FreshApart a b from lt ua ub =
      let ca = is_new a from ua in
      let cb = is_new b (omega arith) ub in
      let e : claim st start i a ≡ used i = rw ca in
      rw (e, used-extent)
        (multiples_apart a b (class_size i) (cut_bounds a ca).2 (cut_bounds b cb).2 lt)
