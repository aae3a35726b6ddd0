-- ===== src/Slab/Ownership/Push.antt =====
-- A held block goes back to the free list of its class: `dealloc`, and each round of
-- `refill_cache`.
use the_heap.Prelude.{
  All-map, ℕ, ◌<◌, ◌≡◌, ◌≢◌, refl, sym, ap, ◌∙◌, inl, inr, Option, none, some, List, ◌∷◌, ◌==◌,
  arith, get_or, set, All, Bool-cases, get_or-set_self, get_or-set_ne, length-set, ==_iff,
}
use mathlib.Core.Path.{subst}
use the_heap.Slab.Ownership.Bounds.{address_bounds, IsFreeList-IsLink}
use the_heap.Slab.Allocator.{Heap, push_node, store_next, non_null}
use the_heap.Slab.Allocator.Nodes.{Linked-frame, load_next-store_next, store_next-outside}
use the_heap.Slab.Ownership.{free, used, IsFreeList, Inv, Statuses, FreeLists}
use the_heap.Slab.Ownership.Update.{update, update_self, update_ne, All-update}
use the_heap.Slab.Ownership.Relabel.{update-Blocks, free_apart}

module _ {h : Heap} {st : Statuses} {lists : FreeLists} (inv : Inv h st lists) (i p : ℕ)
    (held : st p ≡ used i) where
  open inv use {blocks, free_lists, start, room, top, classes}

  next : Option ℕ
  next = get_or h.caches i none

  freed : Statuses
  freed = update st p (free i)

  class_lt : i < 10
  class_lt = (blocks.aligned p i (inr held)).0

  -- The free lists do not hold the block.
  not_listed : (j : ℕ) (xs : List ℕ) → All (λ a. st a ≡ free j) xs → All (λ a. p ≢ a) xs
  not_listed j xs = All-map xs λ a e q. cc (ap st q)

  -- Every list survives the write and the change of owner.
  frame :
      (j : ℕ) (o : Option ℕ) (xs : List ℕ)
      → IsFreeList st h.memory j o xs
      → IsFreeList freed (store_next h.memory p next) j o xs
  unfolding freed
  frame j o xs f = record {
    linked =
        Linked-frame h.memory _ o xs
          (All-map xs
            (λ a e b lo hi.
              sym (store_next-outside h.memory p next b (free_apart blocks p i a j held e b lo hi)))
            f.listed)
          f.linked;
    listed = All-update st p (free i) (free j) xs (not_listed j xs f.listed) f.listed;
    distinct = f.distinct;
  }

  non_null_head : non_null p ≡ some p
  non_null_head = ground (arith, address_bounds inv p (λ u. cc))

  -- The block heads the list of its class.
  head_list : IsFreeList freed (store_next h.memory p next) i (non_null p) (p ∷ lists i)
  unfolding freed next
  head_list =
      let f = free_lists i class_lt in
      let rest = frame i (get_or h.caches i none) (lists i) f in
      record {
        linked = (
          non_null_head,
          rw (load_next-store_next h.memory p next (IsFreeList-IsLink inv f)) rest.linked,
        );
        listed = (update_self st p (free i), rest.listed);
        distinct = (not_listed i (lists i) f.listed, f.distinct);
      }

  push_lists :
      (j : ℕ)
      → j < 10
      → IsFreeList freed
          (push_node i p h).memory
          j
          (get_or (push_node i p h).caches j none)
          (update lists i (p ∷ lists i) j)
  unfolding push_node next
  push_lists j hj = elim (Bool-cases (i == j)) [
    | inl e ↦
        subst
          (λ k.
            IsFreeList freed (store_next h.memory p next) k
              (get_or (set h.caches i (non_null p)) k none) (update lists i (p ∷ lists i) k))
          ((==_iff i j).0 e)
          (rw
            (
              get_or-set_self h.caches i (non_null p) none (omega (arith, class_lt)),
              update_self lists i (p ∷ lists i),
            )
            head_list)
    | inr e ↦
        let ne : i ≢ j = ground arith in
        rw (get_or-set_ne h.caches i j (non_null p) none ne, update_ne lists i j (p ∷ lists i) ne)
          (frame j (get_or h.caches j none) (lists j) (free_lists j hj))
  ]

  -- Nothing else changes hands.
  pub push_node-Inv : Inv (push_node i p h) (update st p (free i)) (update lists i (p ∷ lists i))
  unfolding push_node freed
  push_node-Inv = record {
    ready = inv.ready;
    classes = length-set h.caches i (non_null p) ∙ classes;
    start = start;
    started = inv.started;
    room = room;
    top = top;
    blocks = update-Blocks blocks p i (free i) (inr held) (inl refl);
    free_lists = push_lists;
  }
