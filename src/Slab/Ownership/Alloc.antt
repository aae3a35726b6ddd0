-- ===== src/Slab/Ownership/Alloc.antt =====
-- `alloc` for a size class: the fast path, and a refill before it.
use the_heap.Prelude.{
  true, false, ℕ, ◌+◌, ◌-◌, ◌%◌, ◌≤◌, ◌<◌, ◌≡◌, ◌≢◌, refl, sym, ap, ◌∙◌, ◌⊎◌, inl, inr, Option,
  none, some, arith, Option-cases, List, [], ◌∷◌, get_or, All,
}
use mathlib.Core.Path.{subst}
use the_heap.Bytes.{Memory}
use the_heap.Slab.Allocator.Nodes.{Linked}
use the_heap.Slab.Align.{align_up}
use native.Mathlib.Nat.{mod-eq_of_lt}
use the_heap.Slab.Allocator.{
  Heap, chunk_size, class_size, carve, pop_node, refill_cache, carve_chunk, pop_refilled,
  alloc_class, alloc_from_bump,
}
use the_heap.Slab.Allocator.Classes.{class_size_lem}
use the_heap.Slab.Ownership.{Status, unused, free, used, IsLive, Inv, Statuses, FreeLists}
use the_heap.Slab.Ownership.Bump.{Bumped, bumped, alloc_from_bump_lem}
use the_heap.Slab.Ownership.Extend.{kept, bumped-Inv}
use the_heap.Slab.Ownership.Claim.{claim, claim-Origin, claim-FreshApart}
use the_heap.Slab.Ownership.Pop.{pop_node-Inv}
use the_heap.Slab.Ownership.Refill.{IsNonEmpty, Carved, carve-Carved}
use the_heap.Slab.Ownership.Update.{update, update_self, update_ne}

-- The call returned a block of class `i` that no caller held, and whoever held a block still does.
pub record Granted (st : Statuses) (i : ℕ) (r : ℕ × Heap) : Type 0 where
  pub st' : Statuses
  pub lists' : FreeLists
  pub inv : Inv r.1 st' lists'
  pub taken : st' r.0 ≡ used i
  pub unheld : ¬ IsLive (st r.0)
  pub kept : (a : ℕ) → IsLive (st a) → st' a ≡ st a

Granted-mono :
    {st mid : Statuses} {i : ℕ} {r : ℕ × Heap}
    → ((a : ℕ) → IsLive (st a) → mid a ≡ st a)
    → Granted mid i r
    → Granted st i r
Granted-mono same g = record {
  st' = g.st';
  lists' = g.lists';
  inv = g.inv;
  taken = g.taken;
  unheld = λ live. g.unheld (subst IsLive (sym (same _ live)) live);
  kept = λ a live. g.kept a (subst IsLive (sym (same a live)) live) ∙ same a live;
}

free_not-IsLive : (s : Status) (i : ℕ) → s ≡ free i → ¬ IsLive s
free_not-IsLive s i e live = subst IsLive e live

shape : (xs : List ℕ) → IsNonEmpty xs → (a : ℕ) × (rest : List ℕ) × (xs ≡ a ∷ rest)
shape [] n = absurd n
shape (a ∷ rest) n = (a, rest, refl)

pub pop_node-Granted :
    {h : Heap} {st : Statuses} {lists : FreeLists}
    → Inv h st lists
    → (i : ℕ) → i < 10
    → IsNonEmpty (lists i)
    → Granted st i (pop_node i h)
pop_node-Granted {st} {lists} inv i class_lt n =
    let (a, rest, e) = shape (lists i) n in
    let p = pop_node-Inv inv i a rest class_lt e in
    let was : st a ≡ free i =
      (subst (All λ x. st x ≡ free i) e (inv.free_lists i class_lt).listed).0 in
    record {
      st' = update st a (used i);
      lists' = update lists i rest;
      inv = p.1;
      taken = rw p.0 (update_self st a (used i));
      unheld = rw p.0 (free_not-IsLive (st a) i was);
      kept = λ b live.
          update_ne st a b (used i) (λ q. free_not-IsLive (st b) i (ap st (sym q) ∙ was) live);
    }

has_head :
    (m : Memory) {o : Option ℕ} {a : ℕ} (xs : List ℕ) → Linked m o xs → o ≡ some a → IsNonEmpty xs
has_head m [] l e = cc
has_head m (x ∷ xs) l e = tt

module _ {h : Heap} {st : Statuses} {lists : FreeLists} (inv : Inv h st lists) (i : ℕ)
    (class_lt : i < 10) where
  -- The chunk at `start`, cut and handed to the free list.
  module _ (start : ℕ) (behind : h.bump ≤ start) (page : start % chunk_size ≡ 0)
      (room : start + chunk_size ≤ h.heap_end) where
    claimed-Inv : Inv (bumped h start chunk_size) (claim st start i) lists
    claimed-Inv =
        bumped-Inv inv (claim st start i) start chunk_size behind room
          (claim-Origin inv.blocks start i behind page class_lt)
          (claim-FreshApart inv.blocks start i behind page class_lt)

    abbrev chunked : Heap
    chunked =
        carve chunk_size i (class_size i) (start + chunk_size) start (bumped h start chunk_size)

    refilled : Carved (claim st start i) lists i start (start + chunk_size) chunked
    refilled =
        let s = class_size_lem i class_lt in
        let whole : start + chunk_size - start ≡ chunk_size = omega arith in
        carve-Carved i (start + chunk_size) class_lt (omega (arith, inv.top)) chunk_size start
          (bumped h start chunk_size) (claim st start i) lists claimed-Inv
          (λ a lo hi e. ground arith) (omega arith) (rw whole s.2) (omega arith)

    -- The blocks that are held lie below the chunk.
    held_stays : (a : ℕ) → IsLive (st a) → refilled.st' a ≡ st a
    held_stays a live =
        let u : st a ≢ unused = λ q. subst IsLive q live in
        let w = inv.blocks.within a u in
        let z = inv.blocks.sized a u in
        refilled.outside a (inl (omega arith))
        ∙ kept inv.blocks (claim st start i) start (start + chunk_size) inv.started behind
            (omega arith) (claim-Origin inv.blocks start i behind page class_lt)
            (claim-FreshApart inv.blocks start i behind page class_lt) a u

    -- The end of the chunk does not wrap around.
    carve_chunk-chunked : carve_chunk i (some start, bumped h start chunk_size) ≡ (true, chunked)
    unfolding carve_chunk
    carve_chunk-chunked =
        ap (λ end. (true, carve chunk_size i (class_size i) end start (bumped h start chunk_size)))
          (mod-eq_of_lt (omega (arith, inv.top)))

    refilled-Granted : Granted st i (pop_node i chunked)
    refilled-Granted =
        let s = class_size_lem i class_lt in
        let c = refilled in
        Granted-mono held_stays (pop_node-Granted c.inv i class_lt (c.grows (inl (omega arith))))

  -- What `alloc` does for this class.
  abbrev pub AllocClass : ℕ × Heap → Type 0
  AllocClass r =
      ((r ≡ (0, h)) × (h.heap_end < align_up h.bump chunk_size + chunk_size)) ⊎ Granted st i r

  bump_result :
      Bumped h chunk_size 12 (alloc_from_bump (record { size = chunk_size; align = chunk_size }) h)
  bump_result =
      alloc_from_bump_lem h chunk_size 12 (omega (arith, inv.started, inv.start))
        (omega (arith, inv.top)) (omega arith) (omega (arith, inv.top, inv.room))

  listed_head : {a : ℕ} → get_or h.caches i none ≡ some a → IsNonEmpty (lists i)
  listed_head e = has_head h.memory (lists i) (inv.free_lists i class_lt).linked e

  -- The refill fails and changes nothing, or leaves the chunk in the free list.
  refill_cache_lem :
      ((refill_cache i h ≡ (false, h)) × (h.heap_end < align_up h.bump chunk_size + chunk_size))
      ⊎ ((g : Heap) × (refill_cache i h ≡ (true, g)) × Granted st i (pop_node i g))
  unfolding refill_cache
  refill_cache_lem = elim bump_result [
    | inl (full, r) ↦ inl (ap (carve_chunk i) r, full)
    | inr (room, behind, page, r) ↦ inr (
      chunked _ behind page room,
      ap (carve_chunk i) r ∙ carve_chunk-chunked _ behind page room,
      refilled-Granted _ behind page room,
    )
  ]

  -- On a well-formed heap, for a class below the ten, `alloc` gives a block that nobody held and keeps the invariant; or
  -- it gives the null pointer, changes nothing, and no chunk fits the heap any more.
  pub alloc_class-AllocClass : AllocClass (alloc_class i h)
  unfolding alloc_class
  alloc_class-AllocClass = elim (Option-cases (get_or h.caches i none)) [
    | inr (a, e) ↦ rw (e, alloc_class) (inr (pop_node-Granted inv i class_lt (listed_head e)))
    | inl e ↦
        let eq : alloc_class i h ≡ pop_refilled i (refill_cache i h) = rw (e, alloc_class) in
        elim refill_cache_lem [
          | inl (r, full) ↦ inl (eq ∙ ap (pop_refilled i) r, full)
          | inr (g, r, granted) ↦
              inr (subst (Granted st i) (sym (eq ∙ ap (pop_refilled i) r)) granted)
        ]
  ]
