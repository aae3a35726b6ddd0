-- ===== src/Slab/Witnesses.antt =====
-- The properties of the allocator at concrete inputs: a heap of 0x8000 bytes at 0x10000.
use the_heap.Prelude.{
  ℕ, ◌≡◌, refl, arith, ◌⊎◌, [], ◌∷◌, All, ◌≤◌, inl, ap, ◌^◌, true, ◌↔◌, ◌<◌, inr, ◌+◌, ◌%◌,
}
use the_heap.Slab.Align.{align_up, is_power_of_two}
use the_heap.Slab.Allocator.{Layout, alloc, dealloc, init, new, class_index_for, alloc_class}
use the_heap.Slab.Allocator.Reuse.{alloc-dealloc}
use the_heap.Slab.Ownership.{unused}
use the_heap.Slab.Ownership.Grant.{IsLayout, alloc-Grant, Grant, Released, dealloc-Released}
use the_heap.Slab.Client.{System, booted, Reach, here, next, granted, AllApart}
use the_heap.Slab.Client.Boot.{booted-Inv}
use the_heap.Slab.Client.Holders.{Inside}
use the_heap.Slab.Client.Safe.{Reach-Inside}
use the_heap.Slab.Allocator.Classes.{Chosen, class_index_for-Chosen}
use the_heap.Slab.Ownership.Alloc.{AllocClass, alloc_class-AllocClass}
use the_heap.Slab.Align.Powers.{is_power_of_two_iff}
use the_heap.Slab.Align.Rounding.{align_up_least}

abbrev bytes : ℕ → ℕ
bytes _ = 0xAA

abbrev start : System
start = booted 0x10000 0x8000 bytes

abbrev layout : Layout
layout = record { size = 64; align = 8 }

layout-IsLayout : IsLayout 0x18000 layout
layout-IsLayout = record {
  shift = 3;
  align_eq = refl;
  small = omega arith;
  sized = omega arith;
  fits = omega arith;
}

-- One block of 64 bytes is handed out.
one_held : System
one_held = record {
  heap = (alloc layout start.heap).1;
  held = ((alloc layout start.heap).0, layout) ∷ [];
}

first_block : (alloc layout start.heap).0 ≡ 0x10fc0
unfolding alloc align_up init new
first_block = refl

reached : Reach start one_held
unfolding one_held init
reached =
    next here (granted start layout layout-IsLayout (λ e. absurd (omega (arith, first_block, e))))

Reach-Inside_example : All (Inside 0x10000 0x18000) one_held.held × AllApart one_held.held
Reach-Inside_example = Reach-Inside 0x10000 0x8000 bytes (omega arith) (omega arith) reached

alloc-Grant_example :
    (alloc layout start.heap ≡ (0, start.heap))
    ⊎ Grant (λ _. unused) layout (alloc layout start.heap)
unfolding init
alloc-Grant_example =
    alloc-Grant (booted-Inv 0x10000 0x8000 bytes (omega arith) (omega arith)) layout layout-IsLayout

-- A block of the callers, and no free block yet.
alloc-dealloc_example :
    ((alloc layout (dealloc 0x10fc0 layout start.heap)).0 ≡ 0x10fc0)
    × ((alloc layout (dealloc 0x10fc0 layout start.heap)).1.slab ≡ start.heap.slab)
unfolding class_index_for init new
alloc-dealloc_example =
    alloc-dealloc start.heap layout 3 0x10fc0 refl refl (omega arith) tt (omega arith)

-- The heap behind the first `alloc`, with its block held.
first_grant : Grant (λ _. unused) layout (alloc layout start.heap)
unfolding init
first_grant =
    elim (alloc-Grant (booted-Inv 0x10000 0x8000 bytes (omega arith) (omega arith)) layout
      layout-IsLayout) [ inl e ↦ absurd (omega (arith, first_block, ap (λ r. r.0) e)) | inr g ↦ g ]

dealloc-Released_example :
    Released first_grant.st'
      (alloc layout start.heap).0
      (dealloc (alloc layout start.heap).0 layout (alloc layout start.heap).1)
dealloc-Released_example =
    dealloc-Released first_grant.inv (alloc layout start.heap).0 layout first_grant.nonzero
      first_grant.taken

align_up_least_example :
    (13 ≤ align_up 13 (2 ^ 3))
    × (align_up 13 (2 ^ 3) < 13 + 2 ^ 3)
    × (align_up 13 (2 ^ 3) % 2 ^ 3 ≡ 0)
    × ((y : ℕ) → 13 ≤ y → y % 2 ^ 3 ≡ 0 → align_up 13 (2 ^ 3) ≤ y)
align_up_least_example = align_up_least 13 3 (omega arith) (omega arith)

is_power_of_two_iff_example : (is_power_of_two 64 ≡ true) ↔ ((k : ℕ) × (64 ≡ 2 ^ k))
is_power_of_two_iff_example = is_power_of_two_iff 64 (omega arith)

class_index_for-Chosen_example : Chosen layout (class_index_for layout)
class_index_for-Chosen_example = class_index_for-Chosen layout

alloc_class-AllocClass_example :
    AllocClass
      (booted-Inv 0x10000 0x8000 bytes (omega arith) (omega arith))
      3
      (omega arith)
      (alloc_class 3 start.heap)
alloc_class-AllocClass_example =
    alloc_class-AllocClass (booted-Inv 0x10000 0x8000 bytes (omega arith) (omega arith)) 3
      (omega arith)
