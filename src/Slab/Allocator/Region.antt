-- ===== src/Slab/Allocator/Region.antt =====
-- The heap's bounds are set once: no allocation moves them.
use the_heap.Prelude.{
  false, ◌==◌, ◌||◌, not, ℕ, zero, suc, ◌+◌, ◌≡◌, refl, arith, Bool-cases, inl, inr, leb, ◌∙◌,
  Option-cases, Bool, Option, some, get_or, none, true, if◌then◌else◌, ◌%◌, ◌^◌,
}
use the_heap.Slab.Allocator.{
  Heap, Layout, alloc_from_bump, carve, push_node, dealloc, alloc, carve_chunk, alloc_as,
  pop_refilled, pop_node, refill_cache, dealloc_as, alloc_class, chunk_size, class_index_for,
  class_size,
}

abbrev pub SameRegion : Heap → Heap → Type 0
SameRegion h g = (g.heap_start ≡ h.heap_start) × (g.heap_end ≡ h.heap_end)

carve-SameRegion :
    (fuel idx size end off : ℕ) (h : Heap) → SameRegion h (carve fuel idx size end off h)
unfolding carve
carve-SameRegion zero idx size end off h = (refl, refl)
carve-SameRegion (suc fuel) idx size end off h =
    elim (Bool-cases (leb ((off + size) % 2 ^ 64) end)) [
      | inl more ↦
          rw more (carve-SameRegion fuel idx size end ((off + size) % 2 ^ 64) (push_node idx off h))
      | inr full ↦ rw full (refl, refl)
    ]

alloc_from_bump-SameRegion : (l : Layout) (h : Heap) → SameRegion h (alloc_from_bump l h).1
unfolding alloc_from_bump
alloc_from_bump-SameRegion l h = ground arith

SameRegion-trans : (h g k : Heap) → SameRegion h g → SameRegion g k → SameRegion h k
SameRegion-trans h g k a b = (b.0 ∙ a.0, b.1 ∙ a.1)

carve_chunk-SameRegion :
    (idx : ℕ) (h : Heap) (r : Option ℕ × Heap)
    → SameRegion h r.1
    → SameRegion h (carve_chunk idx r).1
unfolding carve_chunk
carve_chunk-SameRegion idx h (none, g) s = s
carve_chunk-SameRegion idx h (some c, g) s =
    SameRegion-trans h g (carve chunk_size idx (class_size idx) ((c + chunk_size) % 2 ^ 64) c g) s
      (carve-SameRegion chunk_size idx (class_size idx) ((c + chunk_size) % 2 ^ 64) c g)

pop_node-SameRegion : (idx : ℕ) (h : Heap) → SameRegion h (pop_node idx h).1
unfolding pop_node
pop_node-SameRegion idx h = elim (Option-cases (get_or h.caches idx none)) [
  | inl e ↦ rw (e, pop_node) (refl, refl)
  | inr (a, e) ↦ rw (e, pop_node) (refl, refl)
]

pop_refilled-SameRegion :
    (idx : ℕ) (h : Heap) (r : Bool × Heap) → SameRegion h r.1 → SameRegion h (pop_refilled idx r).1
unfolding pop_refilled
pop_refilled-SameRegion idx h (true, g) s =
    SameRegion-trans h g (pop_node idx g).1 s (pop_node-SameRegion idx g)
pop_refilled-SameRegion idx h (false, g) s = s

refill_cache-SameRegion : (idx : ℕ) (h : Heap) → SameRegion h (refill_cache idx h).1
unfolding refill_cache
refill_cache-SameRegion idx h =
    carve_chunk-SameRegion idx h
      (alloc_from_bump (record { size = chunk_size; align = chunk_size }) h)
      (alloc_from_bump-SameRegion (record { size = chunk_size; align = chunk_size }) h)

alloc_class-SameRegion : (idx : ℕ) (h : Heap) → SameRegion h (alloc_class idx h).1
unfolding alloc_class
alloc_class-SameRegion idx h = elim (Option-cases (get_or h.caches idx none)) [
  | inl e ↦
      rw (e, alloc_class)
        (pop_refilled-SameRegion idx h (refill_cache idx h) (refill_cache-SameRegion idx h))
  | inr (a, e) ↦ rw (e, alloc_class) (pop_refilled-SameRegion idx h (true, h) (refl, refl))
]

alloc_as-SameRegion : (o : Option ℕ) (l : Layout) (h : Heap) → SameRegion h (alloc_as o l h).1
unfolding alloc_as
alloc_as-SameRegion none l h = alloc_from_bump-SameRegion l h
alloc_as-SameRegion (some idx) l h = alloc_class-SameRegion idx h

SameRegion-if :
    (h : Heap) (b : Bool) (x y : Heap)
    → SameRegion h x
    → SameRegion h y
    → SameRegion h (if b then x else y)
SameRegion-if h true x y a c = a
SameRegion-if h false x y a c = c

alloc_if :
    (h : Heap) (b : Bool) (x y : ℕ × Heap)
    → SameRegion h x.1
    → SameRegion h y.1
    → SameRegion h (if b then x else y).1
alloc_if h true x y a c = a
alloc_if h false x y a c = c

pub alloc-SameRegion : (l : Layout) (h : Heap) → SameRegion h (alloc l h).1
unfolding alloc
alloc-SameRegion l h =
    alloc_if h (not h.initialized) (0, h) (alloc_as (class_index_for l) l h) (refl, refl)
      (alloc_as-SameRegion (class_index_for l) l h)

dealloc_as-SameRegion : (o : Option ℕ) (p : ℕ) (h : Heap) → SameRegion h (dealloc_as o p h)
unfolding dealloc_as
dealloc_as-SameRegion none p h = (refl, refl)
dealloc_as-SameRegion (some idx) p h = (refl, refl)

pub dealloc-SameRegion : (p : ℕ) (l : Layout) (h : Heap) → SameRegion h (dealloc p l h)
unfolding dealloc
dealloc-SameRegion p l h =
    SameRegion-if h ((p == 0) || not h.initialized) h (dealloc_as (class_index_for l) p h)
      (refl, refl) (dealloc_as-SameRegion (class_index_for l) p h)
