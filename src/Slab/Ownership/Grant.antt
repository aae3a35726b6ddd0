-- ===== src/Slab/Ownership/Grant.antt =====
-- `alloc` and `dealloc` for every layout: the small ones by class, the large ones by the bump path.
use the_heap.Prelude.{
  refl, ◌∷◌, ℕ, ◌+◌, ◌%◌, ◌^◌, ◌≤◌, ◌<◌, ◌≡◌, ◌≢◌, sym, ap, ◌∙◌, ◌⊎◌, inl, inr, Option, none, some,
  arith, Bool-cases, Option-cases, ◌==◌, ==_iff,
}
use mathlib.Core.Path.{subst}
use the_heap.Slab.Allocator.{
  Heap, Layout, alloc, alloc_from_bump, alloc_class, as_ptr, class_index_for, alloc_as,
  alloc-alloc_as, dealloc_as, dealloc, dealloc-dealloc_as,
}
use the_heap.Slab.Allocator.Classes.{Chosen, class_index_for-Chosen}
use the_heap.Slab.Ownership.{
  Status, unused, used, large, IsLive, extent, Inv, Statuses, FreeLists, free,
}
use the_heap.Slab.Ownership.Alloc.{Granted, alloc_class-AllocClass}
use the_heap.Slab.Ownership.Bump.{bumped, alloc_from_bump_lem}
use the_heap.Slab.Ownership.Divides.{class_aligned}
use the_heap.Slab.Ownership.Extend.{Origin, fresh, old, FreshApart, bumped-Inv}
use the_heap.Slab.Ownership.Update.{update, update_self, update_ne}
use the_heap.Slab.Ownership.Push.{push_node-Inv}

-- A layout that the laws allow on a heap that ends at `end`. As in the contract of `GlobalAlloc`,
-- the alignment is a power of two and the size is not zero; beyond it, the end of the heap rounds
-- up to the alignment without a wrap.
pub record IsLayout (end : ℕ) (l : Layout) : Type 0 where
  pub shift : ℕ
  pub align_eq : l.align ≡ 2 ^ shift
  pub small : shift < 64
  pub sized : 0 < l.size
  pub fits : end + 2 ^ shift ≤ 2 ^ 64

abbrev class_status : Option ℕ → ℕ → Status
class_status none n = large n
class_status (some i) n = used i

-- How a block for the layout is held.
pub held_as : Layout → Status
held_as l = class_status (class_index_for l) l.size

-- The call returned a block for the layout that no caller held, and who held a block still does.
pub record Grant (st : Statuses) (l : Layout) (r : ℕ × Heap) : Type 0 where
  pub st' : Statuses
  pub lists' : FreeLists
  pub inv : Inv r.1 st' lists'
  pub taken : st' r.0 ≡ held_as l
  pub nonzero : 0 < r.0
  pub aligned : r.0 % l.align ≡ 0
  pub unheld : ¬ IsLive (st r.0)
  pub kept : (a : ℕ) → IsLive (st a) → st' a ≡ st a

fits_class :
    (l : Layout) (s : Status) (o : Option ℕ)
    → Chosen l o
    → s ≡ class_status o l.size
    → (l.size ≤ extent s) × IsLive s
unfolding extent
fits_class l s none c q = rw q (omega arith, tt)
fits_class l s (some i) c q = rw q (c.1, tt)

-- A block for a layout is live and has room for it.
pub held_as-extent : (l : Layout) (s : Status) → s ≡ held_as l → (l.size ≤ extent s) × IsLive s
unfolding held_as
held_as-extent l s e = fits_class l s (class_index_for l) (class_index_for-Chosen l) e

module _ {h : Heap} {st : Statuses} {lists : FreeLists} (inv : Inv h st lists) (l : Layout)
    (lay : IsLayout h.heap_end l) where
  -- A large block at `start`.
  large_map : ℕ → Statuses
  large_map start = update st start (large l.size)

  large-Origin : (start : ℕ) (a : ℕ) → Origin st (large_map start) start (start + l.size) a
  unfolding large_map extent
  large-Origin start a = elim (Bool-cases (start == a)) [
    | inl e ↦
        let here : start ≡ a = (==_iff start a).0 e in
        let st_a : update st start (large l.size) a ≡ large l.size = rw e in
        fresh (omega arith) (rw st_a lay.sized) (rw st_a (omega arith))
          (rw st_a λ i c. elim c [ inl q ↦ cc | inr q ↦ cc ])
    | inr e ↦ old (rw e)
  ]

  large_apart : (start : ℕ) → h.bump ≤ start → FreshApart (large_map start) start
  unfolding large_map
  large_apart start behind a b from lt ua ub =
      let ne : start ≢ b = omega arith in
      let ub' : st b ≢ unused = rw (update_ne st start b (large l.size) ne) at ub in
      let w = inv.blocks.within b ub' in absurd (omega arith)

  -- Behind the bump pointer nobody holds a block.
  not_behind : (a : ℕ) → IsLive (st a) → a < h.bump
  not_behind a live =
      let u : st a ≢ unused = λ q. subst IsLive q live in
      let w = inv.blocks.within a u in let z = inv.blocks.sized a u in omega arith

  large_grant :
      class_index_for l ≡ none
      → (start : ℕ) → h.bump ≤ start
      → start + l.size ≤ h.heap_end
      → start % l.align ≡ 0
      → Grant st l (start, bumped h start l.size)
  unfolding large_map held_as
  large_grant e start behind room al = record {
    st' = large_map start;
    lists' = lists;
    inv =
        bumped-Inv inv (large_map start) start l.size behind room (large-Origin start)
          (large_apart start behind);
    taken = rw e (update_self st start (large l.size));
    nonzero = omega (arith, inv.start, inv.started);
    aligned = al;
    unheld = λ live. let b = not_behind start live in omega arith;
    kept = λ a live. let b = not_behind a live in update_ne st start a (large l.size) (omega arith);
  }

  bump_call :
      alloc_from_bump l h ≡ alloc_from_bump (record { size = l.size; align = 2 ^ lay.shift }) h
  bump_call = ap (λ a. alloc_from_bump (record { size = l.size; align = a }) h) lay.align_eq

  alloc_large :
      class_index_for l ≡ none → (alloc_as none l h ≡ (0, h)) ⊎ Grant st l (alloc_as none l h)
  unfolding alloc_as
  alloc_large e =
      let bumped_at =
        alloc_from_bump_lem h l.size lay.shift (omega (arith, inv.start, inv.started))
          (omega (arith, inv.top)) lay.small (omega (arith, lay.fits, inv.room)) in
      elim bumped_at [
        | inl (full, r) ↦ inl (ap as_ptr (bump_call ∙ r))
        | inr (room, behind, al, r) ↦ inr (
            subst (Grant st l) (sym (ap as_ptr (bump_call ∙ r)))
              (large_grant e _ behind room (rw lay.align_eq al)))
      ]

  class_grant :
      (i : ℕ) → class_index_for l ≡ some i → (r : ℕ × Heap) → Granted st i r → Grant st l r
  unfolding held_as
  class_grant i e r g =
      let c : Chosen l (some i) = subst (Chosen l) e (class_index_for-Chosen l) in
      let block = g.inv.blocks.aligned r.0 i (inr g.taken) in
      let w = g.inv.blocks.within r.0 (λ q. cc (g.taken)) in
      record {
        st' = g.st';
        lists' = g.lists';
        inv = g.inv;
        taken = rw e g.taken;
        nonzero = omega (arith, g.inv.start);
        aligned =
            rw lay.align_eq
              (class_aligned r.0 i lay.shift block.0 (rw lay.align_eq at c.2) block.1);
        unheld = g.unheld;
        kept = g.kept;
      }

  alloc_small :
      (i : ℕ)
      → class_index_for l ≡ some i
      → (alloc_as (some i) l h ≡ (0, h)) ⊎ Grant st l (alloc_as (some i) l h)
  unfolding alloc_as
  alloc_small i e =
      let c : Chosen l (some i) = subst (Chosen l) e (class_index_for-Chosen l) in
      elim (alloc_class-AllocClass inv i c.0) [
        | inl (r, full) ↦ inl r
        | inr g ↦ inr (class_grant i e (alloc_class i h) g)
      ]

  Allocated : ℕ × Heap → Type 0
  Allocated r = (r ≡ (0, h)) ⊎ Grant st l r

  -- On a well-formed heap, for a layout with a power of two as alignment, a size that is not zero,
  -- and no wrap where the heap's end is rounded up: `alloc` gives the null pointer and changes
  -- nothing, or it gives a pointer that is not null, aligned as asked, where nobody held a block;
  -- the heap is well formed again, with a block for the layout held there, and every block that
  -- was held is held as before.
  pub alloc-Grant : (alloc l h ≡ (0, h)) ⊎ Grant st l (alloc l h)
  unfolding Allocated
  alloc-Grant =
      subst Allocated (sym (alloc-alloc_as l h inv.ready))
        (elim (Option-cases (class_index_for l)) [
          | inl e ↦ rw e (alloc_large e)
          | inr (i, e) ↦ rw e (alloc_small i e)
        ])

-- The block is given back, and nothing else changes hands.
pub record Released (st : Statuses) (p : ℕ) (h' : Heap) : Type 0 where
  pub st' : Statuses
  pub lists' : FreeLists
  pub inv : Inv h' st' lists'
  pub others : (a : ℕ) → p ≢ a → st' a ≡ st a

module _ {h : Heap} {st : Statuses} {lists : FreeLists} (inv : Inv h st lists) (p : ℕ) (l : Layout)
    (pos : 0 < p) where
  release : (o : Option ℕ) → st p ≡ class_status o l.size → Released st p (dealloc_as o p h)
  unfolding dealloc_as
  release none e = record { st' = st; lists' = lists; inv = inv; others = λ a ne. refl }
  release (some i) e = record {
    st' = update st p (free i);
    lists' = update lists i (p ∷ lists i);
    inv = push_node-Inv inv i p e;
    others = λ a ne. update_ne st p a (free i) ne;
  }

  -- On a well-formed heap, for a block that is held as `alloc` held it for the layout: `dealloc`
  -- leaves the heap well formed, and no block at another address changes hands.
  pub dealloc-Released : st p ≡ held_as l → Released st p (dealloc p l h)
  unfolding held_as
  dealloc-Released e =
      subst (Released st p) (sym (dealloc-dealloc_as p l h inv.ready pos))
        (release (class_index_for l) e)
