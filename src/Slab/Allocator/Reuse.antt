-- ===== src/Slab/Allocator/Reuse.antt =====
-- `dealloc` then `alloc`: the free lists are last in, first out.
use the_heap.Prelude.{
  ℕ, zero, suc, ◌<◌, ◌≡◌, refl, ap, ◌∙◌, Option, none, some, List, [], ◌∷◌, arith, length, get_or,
  set, true, get_or-set_self,
}
use the_heap.Slab.Allocator.{
  Heap, Layout, alloc, dealloc, class_index_for, alloc-alloc_as, dealloc-dealloc_as, alloc_as,
  dealloc_as, push_node, pop_node, alloc_class, pop_refilled, non_null, load_next, SlabAllocator,
}
use the_heap.Slab.Allocator.Nodes.{IsLink, load_next-store_next}

set_back :
    (xs : List (Option ℕ)) (i : ℕ) (a : Option ℕ) → set (set xs i a) i (get_or xs i none) ≡ xs
set_back [] i a = refl
set_back (x ∷ xs) zero a = refl
set_back (x ∷ xs) (suc i) a = ap (λ t. x ∷ t) (set_back xs i a)

module _ (h : Heap) (i p : ℕ) (room : i < length h.caches) (link : IsLink (get_or h.caches i none))
    (ptr : IsLink (some p)) where
  pushed : non_null p ≡ some p
  pushed = ground (arith, ptr.0)

  head : get_or (push_node i p h).caches i none ≡ some p
  unfolding push_node
  head = get_or-set_self h.caches i (non_null p) none room ∙ pushed

  reloaded : load_next (push_node i p h).memory p ≡ get_or h.caches i none
  unfolding push_node
  reloaded = load_next-store_next h.memory p (get_or h.caches i none) link

  with_caches : List (Option ℕ) → SlabAllocator
  with_caches cs = record (h.slab) { caches = cs }

  restored : set (push_node i p h).caches i (get_or h.caches i none) ≡ h.caches
  unfolding push_node
  restored = set_back h.caches i (non_null p)

  popped : ((pop_node i (push_node i p h)).0 ≡ p) × ((pop_node i (push_node i p h)).1.slab ≡ h.slab)
  unfolding pop_node push_node with_caches
  popped =
      rw (head, pop_node)
        (refl, ap with_caches (ap (set (push_node i p h).caches i) reloaded ∙ restored))

  called : alloc_class i (push_node i p h) ≡ pop_node i (push_node i p h)
  unfolding alloc_class pop_refilled
  called = rw (head, alloc_class) refl

-- On an allocator that is set up, for a layout that a class serves, a block that is not null, and
-- a list head that a node can store: the block that `dealloc` takes back is the block that the
-- next `alloc` for the layout hands out, and the allocator's fields are those from before.
pub alloc-dealloc :
    (h : Heap) (l : Layout) (i p : ℕ)
    → h.initialized ≡ true
    → class_index_for l ≡ some i
    → i < length h.caches
    → IsLink (get_or h.caches i none)
    → IsLink (some p)
    → ((alloc l (dealloc p l h)).0 ≡ p) × ((alloc l (dealloc p l h)).1.slab ≡ h.slab)
unfolding dealloc_as alloc_as push_node
alloc-dealloc h l i p ready cls room link ptr =
    let freed : dealloc p l h ≡ push_node i p h =
      dealloc-dealloc_as p l h ready ptr.0 ∙ ap (λ o. dealloc_as o p h) cls ∙ refl in
    let taken : alloc l (push_node i p h) ≡ pop_node i (push_node i p h) =
      alloc-alloc_as l (push_node i p h) ready
      ∙ ap (λ o. alloc_as o l (push_node i p h)) cls
      ∙ called h i p room link ptr in
    let whole = ap (alloc l) freed ∙ taken in
    let d = popped h i p room link ptr in
    (ap (λ r. r.0) whole ∙ d.0, ap (λ r. r.1.slab) whole ∙ d.1)
