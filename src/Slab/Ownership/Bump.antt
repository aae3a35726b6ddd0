-- ===== src/Slab/Ownership/Bump.antt =====
-- `alloc_from_bump`: when it succeeds, and what it returns and changes.
use the_heap.Prelude.{
  ℕ, ◌+◌, ◌%◌, ◌^◌, ◌≤◌, ◌<◌, ◌≡◌, ◌⊎◌, inl, inr, false, Option, none, some, ltb, leb, ◌==◌, arith,
  Bool-cases,
}
use the_heap.Bytes.{fill}
use the_heap.Slab.Align.{align_up}
use the_heap.Slab.Align.Rounding.{align_up_least}
use the_heap.Slab.Allocator.{Heap, alloc_from_bump}

-- The heap behind a successful bump allocation of `n` bytes at `start`.
abbrev pub bumped : Heap → ℕ → ℕ → Heap
bumped h start n = record h {
  slab = record (h.slab) { bump = start + n };
  memory = fill h.memory start n 0;
}

-- Either there is no room and nothing changes, or the least aligned address behind the blocks is
-- returned.
abbrev pub Bumped : Heap → ℕ → ℕ → Option ℕ × Heap → Type 0
Bumped h size k r =
    let start = align_up h.bump (2 ^ k) in
    ((h.heap_end < start + size) × (r ≡ (none, h)))
    ⊎ ((start + size ≤ h.heap_end)
        × (h.bump ≤ start)
        × (start % 2 ^ k ≡ 0)
        × (r ≡ (some start, bumped h start size)))

module _ (h : Heap) (size k : ℕ) (started : 0 < h.bump) (top : h.heap_end < 2 ^ 64) (small : k < 64)
    (fits : h.bump + 2 ^ k ≤ 2 ^ 64) where
  pub alloc_from_bump_lem :
      Bumped h size k (alloc_from_bump (record { size = size; align = 2 ^ k }) h)
  unfolding alloc_from_bump
  alloc_from_bump_lem =
      let start = align_up h.bump (2 ^ k) in
      let least = align_up_least h.bump k small fits in
      elim (Bool-cases (ltb h.heap_end (start + size))) [
        | inl full ↦ inl (
          ground arith,
          elim (Bool-cases (leb (2 ^ 64) (start + size))) [
            | inl wraps ↦ rw wraps
            | inr fits ↦ rw (fits, full)
          ],
        )
        | inr room ↦
            let within : leb (2 ^ 64) (start + size) ≡ false = ground arith in
            let pos : (start == 0) ≡ false = ground arith in
            inr (ground arith, least.0, least.2, rw (within, room, pos))
      ]
