-- ===== src/Slab/Tests.antt =====
-- The unit tests of slaballoc/src/lib.rs, each with its assertions as a Boolean, and their runs.
-- The buffer of a test stands at address 0x10000.
use the_heap.Prelude.{
  ℕ, zero, suc, ◌≡◌, ◌%◌, refl, Bool, true, false, not, ◌&&◌, Option, none, some, List, [], ◌∷◌,
  ◌==◌,
}
use the_heap.Slab.Align.{align_up}
use the_heap.Slab.Allocator.{Layout, new}
use the_heap.Slab.Lock
use the_heap.Slab.Lock.{LockedAlloc}

abbrev layout : ℕ → ℕ → Layout
layout size align = record { size = size; align = align }

-- A call that gets the lock; spinning for ever fails the test.
abbrev called : {A : Type 0} → Option (A × LockedAlloc) → (A → LockedAlloc → Bool) → Bool
called none k = false
called (some (a, s)) k = k a s

-- `LockedAlloc::new`, set up on a buffer of `size` bytes.
on_heap : ℕ → (LockedAlloc → Bool) → Bool
unfolding Lock.init Lock.alloc Lock.dealloc align_up new
on_heap size k = called (Lock.init 0x10000 size (Lock.new (λ a. 0))) (λ u s. k s)

-- `n` blocks in a row, none of them null; and their release.
alloc_all : Layout → ℕ → LockedAlloc → (List ℕ → LockedAlloc → Bool) → Bool
unfolding on_heap
alloc_all l zero s k = k [] s
alloc_all l (suc n) s k =
    called (Lock.alloc l s) λ p t. not (p == 0) && alloc_all l n t (λ ps u. k (p ∷ ps) u)

dealloc_all : Layout → List ℕ → LockedAlloc → (LockedAlloc → Bool) → Bool
unfolding on_heap
dealloc_all l [] s k = k s
dealloc_all l (p ∷ ps) s k = called (Lock.dealloc p l s) (λ u t. dealloc_all l ps t k)

small_alloc_dealloc : Bool
unfolding on_heap alloc_all dealloc_all
small_alloc_dealloc =
    let l = layout 32 8 in
    on_heap 8192 λ s. alloc_all l 1 s λ ps t. dealloc_all l ps t λ u. alloc_all l 1 u λ qs v. true

refill_many_objects : Bool
unfolding on_heap alloc_all dealloc_all
refill_many_objects =
    let l = layout 16 8 in
    on_heap 0x10000
      λ s. alloc_all l 200 s λ ps t. dealloc_all l ps t λ u. alloc_all l 200 u λ qs v. true

alignment_constraints_respected : Bool
unfolding on_heap
alignment_constraints_respected =
    on_heap 0x8000 λ s. called (Lock.alloc (layout 24 32) s) λ p t. not (p == 0) && (p % 32 == 0)

boundary_classes_and_large : Bool
unfolding on_heap
boundary_classes_and_large = on_heap 0x20000 λ s. called (Lock.alloc (layout 4096 64) s) λ p1 t.
    called (Lock.alloc (layout 4097 8) t) λ q1 u.
      called (Lock.alloc (layout 4097 8) u)
        λ q2 v. not (p1 == 0) && not (q1 == 0) && not (q2 == 0) && not (q1 == q2)

freelist_reuse_lifo : Bool
unfolding on_heap
freelist_reuse_lifo =
    let l = layout 64 8 in
    on_heap 0x8000 λ s. called (Lock.alloc l s) λ a t. called (Lock.alloc l t) λ b u.
      called (Lock.dealloc a l u)
        λ _ v. called (Lock.dealloc b l v) λ _ w. called (Lock.alloc l w) λ c x. c == b

-- All but the long one, in one go.
unit_tests :
    (small_alloc_dealloc ≡ true)
    × (alignment_constraints_respected ≡ true)
    × (boundary_classes_and_large ≡ true)
    × (freelist_reuse_lifo ≡ true)
unfolding small_alloc_dealloc alignment_constraints_respected boundary_classes_and_large
    freelist_reuse_lifo
unit_tests = (refl, refl, refl, refl)

refill_many_objects_passes : refill_many_objects ≡ true
unfolding refill_many_objects
refill_many_objects_passes = refl
