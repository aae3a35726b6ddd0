-- ===== src/Slab/Allocator.antt =====
-- `SlabAllocator` of slaballoc/src/allocator.rs. The nodes of the free lists stand in the heap
-- region itself, so an operation takes and returns the allocator and the memory. Addresses are
-- numbers, 0 is the null pointer, and `None` of `Option<NonNull<FreeNode>>` is stored as 0, eight
-- bytes wide (the layout that Rust guarantees for it).
pub mod Classes
pub mod Nodes
pub mod Region
pub mod Reuse
use the_heap.Prelude.{
  ◌≡◌, arith, ◌<◌, ℕ, zero, suc, ◌+◌, ◌%◌, ◌^◌, max, Bool, true, false, ◌||◌, not, Option, none,
  some, List, [], ◌∷◌, ltb, leb, ◌==◌, if◌then◌else◌, get_or, set, replicate,
}
use the_heap.Bytes.{Memory, copy_from_slice, fill, slice, from_le_bytes, to_le_bytes}
use the_heap.Slab.Align.{align_up}

abbrev pub chunk_size : ℕ
chunk_size = 4096

abbrev pub size_classes : List ℕ
size_classes = 8 ∷ 16 ∷ 32 ∷ 64 ∷ 128 ∷ 256 ∷ 512 ∷ 1024 ∷ 2048 ∷ 4096 ∷ []

-- `core::alloc::Layout`.
pub record Layout : Type 0 where
  pub size : ℕ
  pub align : ℕ

-- `caches[i]` is the head of the free list of class `i`.
pub record SlabAllocator : Type 0 where
  pub heap_start : ℕ
  pub heap_end : ℕ
  pub bump : ℕ
  pub caches : List (Option ℕ)
  pub initialized : Bool

pub record Heap : Type 0 where
  pub slab : SlabAllocator
  pub open slab use *
  pub memory : Memory

unfoldable pub new : SlabAllocator
new = record {
  heap_start = 0;
  heap_end = 0;
  bump = 0;
  caches = replicate 10 none;
  initialized = false;
}

unfoldable pub init : ℕ → ℕ → SlabAllocator → SlabAllocator
init heap_start heap_size s = record s {
  heap_start = heap_start;
  heap_end = (heap_start + heap_size) % 2 ^ 64;
  bump = heap_start;
  initialized = true;
}

-- The loop of `class_index_for`: `i` counts the classes passed.
unfoldable pub first_fit : ℕ → ℕ → List ℕ → Option ℕ
first_fit size i [] = none
first_fit size i (cls ∷ classes) =
    let rest = first_fit size (i + 1) classes in if leb size cls then some i else rest

unfoldable pub class_index_for : Layout → Option ℕ
unfolding first_fit
class_index_for layout = first_fit (max layout.size layout.align) 0 size_classes

-- `SIZE_CLASSES[i]`.
unfoldable pub class_size : ℕ → ℕ
class_size i = get_or size_classes i 0

-- `NonNull::new`.
abbrev pub non_null : ℕ → Option ℕ
non_null p = if p == 0 then none else some p

abbrev pub or_null : Option ℕ → ℕ
or_null none = 0
or_null (some p) = p

-- `(*node).next` read and written.
unfoldable pub load_next : Memory → ℕ → Option ℕ
unfolding slice from_le_bytes
load_next m node = non_null (from_le_bytes (slice m node 8))

unfoldable pub store_next : Memory → ℕ → Option ℕ → Memory
unfolding copy_from_slice to_le_bytes
store_next m node next = copy_from_slice m node (to_le_bytes 8 (or_null next))

-- The block, if there is room, and the heap behind the call. The two `debug_assert`s are not part
-- of a release build.
unfoldable pub alloc_from_bump : Layout → Heap → Option ℕ × Heap
unfolding fill
alloc_from_bump layout h =
    let start = align_up h.bump layout.align in
    let end = start + layout.size in
    if leb (2 ^ 64) end then (none, h) else if ltb h.heap_end end then (none, h) else (
      non_null start,
      record h {
        slab = record (h.slab) { bump = end };
        memory = fill h.memory start layout.size 0;
      },
    )

-- A block becomes the head of a free list: the two assignments of `refill_cache` and `dealloc`.
unfoldable pub push_node : ℕ → ℕ → Heap → Heap
unfolding store_next
push_node idx node h = record h {
  slab = record (h.slab) { caches = set h.caches idx (non_null node) };
  memory = store_next h.memory node (get_or h.caches idx none);
}

-- The `while` loop of `refill_cache`. It makes `chunk_size / block_size` rounds where the sums do
-- not wrap around, so `chunk_size` rounds of fuel are enough there. On a chunk that ends a block
-- below 2^64 the source's loop does not end, and here the fuel runs out.
unfoldable pub carve : ℕ → ℕ → ℕ → ℕ → ℕ → Heap → Heap
unfolding push_node
carve zero idx block_size chunk_end off h = h
carve (suc fuel) idx block_size chunk_end off h =
    let next = (off + block_size) % 2 ^ 64 in
    let rest = carve fuel idx block_size chunk_end next (push_node idx off h) in
    if leb next chunk_end then rest else h

-- What `refill_cache` does with the chunk, if it got one.
unfoldable pub carve_chunk : ℕ → Option ℕ × Heap → Bool × Heap
unfolding carve class_size
carve_chunk idx (none, h) = (false, h)
carve_chunk idx (some chunk, h) =
    (true, carve chunk_size idx (class_size idx) ((chunk + chunk_size) % 2 ^ 64) chunk h)

unfoldable pub refill_cache : ℕ → Heap → Bool × Heap
unfolding alloc_from_bump carve_chunk
refill_cache idx h =
    carve_chunk idx (alloc_from_bump (record { size = chunk_size; align = chunk_size }) h)

-- The head of a free list is taken off it.
unfoldable pub pop_node : ℕ → Heap → ℕ × Heap
unfolding load_next
pop_node idx h = elim (get_or h.caches idx none) [
  | none ↦ (0, h)
  | some head ↦ (
    head,
    record h { slab = record (h.slab) { caches = set h.caches idx (load_next h.memory head) } },
  )
]

-- What `alloc` does behind the test of the free list: a failed refill gives the null pointer.
unfoldable pub pop_refilled : ℕ → Bool × Heap → ℕ × Heap
unfolding pop_node
pop_refilled idx (true, h) = pop_node idx h
pop_refilled idx (false, h) = (0, h)

unfoldable pub alloc_class : ℕ → Heap → ℕ × Heap
unfolding refill_cache pop_refilled
alloc_class idx h = elim (get_or h.caches idx none) [
  | none ↦ pop_refilled idx (refill_cache idx h)
  | some _ ↦ pop_refilled idx (true, h)
]

-- `.map(|p| p.as_ptr()).unwrap_or(null_mut())`.
abbrev pub as_ptr : Option ℕ × Heap → ℕ × Heap
as_ptr (p, h) = (or_null p, h)

-- The two branches of `alloc`, on the class of the layout.
unfoldable pub alloc_as : Option ℕ → Layout → Heap → ℕ × Heap
unfolding alloc_class alloc_from_bump
alloc_as (some idx) layout h = alloc_class idx h
alloc_as none layout h = as_ptr (alloc_from_bump layout h)

unfoldable pub alloc : Layout → Heap → ℕ × Heap
unfolding alloc_as class_index_for
alloc layout h = if not h.initialized then (0, h) else alloc_as (class_index_for layout) layout h

-- The two branches of `dealloc`: a large block is not taken back.
unfoldable pub dealloc_as : Option ℕ → ℕ → Heap → Heap
unfolding push_node
dealloc_as (some idx) ptr h = push_node idx ptr h
dealloc_as none ptr h = h

unfoldable pub dealloc : ℕ → Layout → Heap → Heap
unfolding dealloc_as class_index_for
dealloc ptr layout h =
    if (ptr == 0) || not h.initialized then h else dealloc_as (class_index_for layout) ptr h

pub alloc-alloc_as :
    (l : Layout) (h : Heap) → h.initialized ≡ true → alloc l h ≡ alloc_as (class_index_for l) l h
unfolding alloc
alloc-alloc_as l h e = rw e

pub dealloc-dealloc_as :
    (p : ℕ) (l : Layout) (h : Heap)
    → h.initialized ≡ true
    → 0 < p
    → dealloc p l h ≡ dealloc_as (class_index_for l) p h
unfolding dealloc
dealloc-dealloc_as p l h e pos = let z : (p == 0) ≡ false = ground arith in rw (z, e)
