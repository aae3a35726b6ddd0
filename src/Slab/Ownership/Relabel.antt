-- ===== src/Slab/Ownership/Relabel.antt =====
-- A block of a class changes hands and stays where it is.
use the_heap.Prelude.{
  ℕ, ◌+◌, ◌≤◌, ◌<◌, ◌≡◌, ◌≢◌, ◌⊎◌, inl, inr, arith, ◌==◌, Bool-cases, ==_iff, refl, ap, sym, ◌∙◌,
}
use mathlib.Core.Path.{subst}
use native.Mathlib.Decide.{dec_lt}
use the_heap.Slab.Allocator.{class_size}
use the_heap.Slab.Allocator.Classes.{class_size_lem}
use the_heap.Slab.Ownership.{Status, unused, free, used, extent, Blocks, Statuses, InClass}
use the_heap.Slab.Ownership.Update.{update}

pub InClass-extent : (s : Status) (i : ℕ) → InClass s i → (extent s ≡ class_size i) × (s ≢ unused)
unfolding extent
InClass-extent s i (inl e) = rw e (refl, λ u. cc)
InClass-extent s i (inr e) = rw e (refl, λ u. cc)

pub InClass-unique : (s : Status) (i j : ℕ) → InClass s i → InClass s j → i ≡ j
InClass-unique s i j a b = ground arith

module _ {st : Statuses} {lo hi : ℕ} (blocks : Blocks st lo hi) where
  open blocks use {sized, within, apart, aligned}

  pub Blocks-relabel :
      (st' : Statuses)
      → ((a : ℕ) → extent (st' a) ≡ extent (st a))
      → ((a : ℕ) → st' a ≢ unused → st a ≢ unused)
      → ((a i : ℕ) → InClass (st' a) i → InClass (st a) i)
      → Blocks st' lo hi
  Blocks-relabel st' same kept class = record {
    sized = λ a u. rw (same a) (sized a (kept a u));
    within = λ a u. rw (same a) (within a (kept a u));
    apart = λ a b lt ua ub. rw (same a) (apart a b lt (kept a ua) (kept b ub));
    aligned = λ a i c. aligned a i (class a i c);
  }

  pub update-Blocks :
      (p i : ℕ) (s : Status) → InClass (st p) i → InClass s i → Blocks (update st p s) lo hi
  update-Blocks p i s old new =
      let o = InClass-extent (st p) i old in
      let n = InClass-extent s i new in
      Blocks-relabel (update st p s)
        (λ a. elim (Bool-cases (p == a)) [
          | inl e ↦ rw e (n.0 ∙ sym o.0 ∙ ap (λ x. extent (st x)) ((==_iff p a).0 e))
          | inr e ↦ rw e
        ])
        (λ a u. elim (Bool-cases (p == a)) [
          | inl e ↦ subst (λ x. st x ≢ unused) ((==_iff p a).0 e) o.1
          | inr e ↦ rw e at u
        ])
        (λ a j c. elim (Bool-cases (p == a)) [
          | inl e ↦
              let q = InClass-unique s i j new (rw e at c) in
              subst (λ x. InClass (st x) j) ((==_iff p a).0 e) (subst (InClass (st p)) q old)
          | inr e ↦ rw e at c
        ])

  -- Two blocks of which one is free and one is not lie eight bytes apart.
  pub free_apart :
      (p i a j : ℕ)
      → st p ≡ used i
      → st a ≡ free j
      → (b : ℕ) → a ≤ b
      → b < a + 8
      → (b < p) ⊎ (p + 8 ≤ b)
  free_apart p i a j held e b lo hi =
      let ci = InClass-extent (st p) i (inr held) in
      let cj = InClass-extent (st a) j (inl e) in
      let si = class_size_lem i (aligned p i (inr held)).0 in
      let sj = class_size_lem j (aligned a j (inl e)).0 in
      elim (dec_lt a p) [
        | yes lt ↦ let d = apart a p lt cj.1 ci.1 in inl (omega arith)
        | no ge ↦
            let ne : p ≢ a = λ q. cc (ap st q) in
            let d = apart p a (omega arith) ci.1 cj.1 in inr (omega arith)
      ]
