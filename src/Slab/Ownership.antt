-- ===== src/Slab/Ownership.antt =====
-- Who owns the bytes of the heap region of slaballoc/src/allocator.rs: a map from block addresses
-- to their status, and the invariant that ties it to the allocator and its free lists. The map is
-- not part of the program; it says which blocks the callers hold.
pub mod Update
pub mod Relabel
pub mod Bounds
pub mod Push
pub mod Pop
pub mod Bump
pub mod Extend
pub mod Claim
pub mod Refill
pub mod Alloc
pub mod Divides
pub mod Grant
use the_heap.Prelude.{
  ℕ, ◌+◌, ◌%◌, ◌^◌, ◌≤◌, ◌<◌, ◌≡◌, ◌≢◌, ◌⊎◌, Bool, true, Option, none, List, [], ◌∷◌, ◌==◌,
  if◌then◌else◌, length, get_or, All,
}
use the_heap.Bytes.{Memory}
use the_heap.Slab.Allocator.{Heap, class_size, chunk_size}
use the_heap.Slab.Allocator.Nodes.{Linked}

-- A block is in the free list of its class, or held by a caller: `used i` from class `i`,
-- `large n` from the bump path, with `n` bytes. A large block
-- that is given back stays `large`: the allocator never hands it out again. No block starts at any other address.
pub data Status : Type 0 where
  unused : Status
  free : ℕ → Status
  used : ℕ → Status
  large : ℕ → Status

unfoldable pub extent : Status → ℕ
extent unused = 0
extent (free i) = class_size i
extent (used i) = class_size i
extent (large n) = n

abbrev pub IsLive : Status → Type 0
IsLive unused = ⊥
IsLive (free i) = ⊥
IsLive (used i) = Unit
IsLive (large n) = Unit

-- The class of a block that has one.
abbrev pub InClass : Status → ℕ → Type 0
InClass s i = (s ≡ free i) ⊎ (s ≡ used i)

-- No member stands twice.
abbrev pub Distinct : List ℕ → Type 0
Distinct [] = Unit
Distinct (x ∷ xs) = All (λ y. x ≢ y) xs × Distinct xs

abbrev pub Statuses : Type 0
Statuses = ℕ → Status

abbrev pub FreeLists : Type 0
FreeLists = ℕ → List ℕ

-- The blocks lie in the part of the heap that is handed out, they do not overlap, and those of a
-- class are aligned to its size.
pub record Blocks (st : Statuses) (lo hi : ℕ) : Type 0 where
  pub sized : (a : ℕ) → st a ≢ unused → 0 < extent (st a)
  pub within : (a : ℕ) → st a ≢ unused → (lo ≤ a) × (a + extent (st a) ≤ hi)
  pub apart : (a b : ℕ) → a < b → st a ≢ unused → st b ≢ unused → a + extent (st a) ≤ b
  pub aligned : (a i : ℕ) → InClass (st a) i → (i < 10) × (a % class_size i ≡ 0)

-- The list `xs` of class `i` stands in memory from the head `o` on, and holds free blocks.
pub record IsFreeList (st : Statuses) (m : Memory) (i : ℕ) (o : Option ℕ) (xs : List ℕ)
    : Type 0 where
  pub linked : Linked m o xs
  pub listed : All (λ a. st a ≡ free i) xs
  pub distinct : Distinct xs

pub record Inv (h : Heap) (st : Statuses) (lists : FreeLists) : Type 0 where
  pub ready : h.initialized ≡ true
  pub classes : length h.caches ≡ 10
  pub start : 0 < h.heap_start
  pub started : h.heap_start ≤ h.bump
  pub room : h.bump ≤ h.heap_end
  pub top : h.heap_end + chunk_size < 2 ^ 64
  pub blocks : Blocks st h.heap_start h.bump
  pub free_lists : (i : ℕ) → i < 10 → IsFreeList st h.memory i (get_or h.caches i none) (lists i)
