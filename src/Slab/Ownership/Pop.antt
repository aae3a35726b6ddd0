-- ===== src/Slab/Ownership/Pop.antt =====
-- The head of a free list goes to a caller: the fast path of `alloc`.
use the_heap.Prelude.{
  All-map, ℕ, ◌<◌, ◌≡◌, ◌≢◌, refl, ap, ◌∙◌, inl, inr, Option, none, List, ◌∷◌, ◌==◌, arith, get_or,
  set, All, Bool-cases, get_or-set_self, get_or-set_ne, length-set, ==_iff,
}
use mathlib.Core.Path.{subst}
use the_heap.Slab.Allocator.{Heap, pop_node, load_next}
use the_heap.Slab.Ownership.{free, used, IsFreeList, Inv, Statuses, FreeLists}
use the_heap.Slab.Ownership.Update.{update, update_self, update_ne, All-update}
use the_heap.Slab.Ownership.Relabel.{update-Blocks}

module _ {h : Heap} {st : Statuses} {lists : FreeLists} (inv : Inv h st lists) (i a : ℕ)
    (rest : List ℕ) (class_lt : i < 10) (shape : lists i ≡ a ∷ rest) where
  open inv use {blocks, free_lists, classes}

  mine : IsFreeList st h.memory i (get_or h.caches i none) (a ∷ rest)
  mine = subst (IsFreeList st h.memory i (get_or h.caches i none)) shape (free_lists i class_lt)

  popped :
      pop_node i h
      ≡ (a, record h { slab = record (h.slab) { caches = set h.caches i (load_next h.memory a) } })
  unfolding pop_node
  popped = rw (mine.linked.0, pop_node)

  lent : Statuses
  lent = update st a (used i)

  others :
      (j : ℕ) (o : Option ℕ) (xs : List ℕ)
      → All (λ x. a ≢ x) xs
      → IsFreeList st h.memory j o xs
      → IsFreeList lent h.memory j o xs
  unfolding lent
  others j o xs out f = record {
    linked = f.linked;
    listed = All-update st a (used i) (free j) xs out f.listed;
    distinct = f.distinct;
  }

  pop_lists :
      (j : ℕ)
      → j < 10
      → IsFreeList lent h.memory j
          (get_or (set h.caches i (load_next h.memory a)) j none)
          (update lists i rest j)
  pop_lists j hj = elim (Bool-cases (i == j)) [
    | inl e ↦
        subst
          (λ k.
            IsFreeList lent h.memory k (get_or (set h.caches i (load_next h.memory a)) k none)
              (update lists i rest k))
          ((==_iff i j).0 e)
          (rw
            (
              get_or-set_self h.caches i (load_next h.memory a) none (omega arith),
              update_self lists i rest,
            )
            (others i (load_next h.memory a) rest mine.distinct.0 (record {
              linked = mine.linked.1;
              listed = mine.listed.1;
              distinct = mine.distinct.1;
            })))
    | inr e ↦
        let ne : i ≢ j = ground arith in
        let f = free_lists j hj in
        rw (get_or-set_ne h.caches i j (load_next h.memory a) none ne, update_ne lists i j rest ne)
          (others j (get_or h.caches j none) (lists j)
            (All-map (lists j) (λ x e q. ne (cc (ap st q, mine.listed.0))) f.listed) f)
  ]

  -- The block is the head of the list, and nothing else changes hands.
  pub pop_node-Inv :
      ((pop_node i h).0 ≡ a) × Inv (pop_node i h).1 (update st a (used i)) (update lists i rest)
  unfolding lent
  pop_node-Inv = rw popped (
    refl,
    record {
      ready = inv.ready;
      classes = length-set h.caches i (load_next h.memory a) ∙ classes;
      start = inv.start;
      started = inv.started;
      room = inv.room;
      top = inv.top;
      blocks = update-Blocks blocks a i (used i) (inl mine.listed.0) (inr refl);
      free_lists = pop_lists;
    },
  )
