-- ===== src/Slab/Client/Boot.antt =====
-- The heap behind `SlabAllocator::init` of slaballoc/src/allocator.rs.
use the_heap.Prelude.{
  ℕ, zero, suc, ◌+◌, ◌%◌, ◌^◌, ◌<◌, ◌≡◌, refl, inl, inr, arith, [], none, Option, get_or, replicate,
}
use the_heap.Slab.Allocator.{chunk_size, init, new}
use the_heap.Slab.Client.{booted}
use the_heap.Slab.Ownership.{unused, Blocks, Inv}

abbrev empty_cache : Option ℕ
empty_cache = none

all_none : (n i : ℕ) → get_or (replicate n empty_cache) i none ≡ none
all_none zero i = refl
all_none (suc n) zero = refl
all_none (suc n) (suc i) = all_none n i

none-Blocks : (lo hi : ℕ) → Blocks (λ _. unused) lo hi
none-Blocks lo hi = record {
  sized = λ a u. absurd (u refl);
  within = λ a u. absurd (u refl);
  apart = λ a b lt u v. absurd (u refl);
  aligned = λ a i c. elim c [ inl q ↦ cc | inr q ↦ cc ];
}

-- The heap behind `init` is well formed, with no block.
pub booted-Inv :
    (lo size : ℕ) (m : ℕ → ℕ)
    → 0 < lo
    → lo + size + chunk_size < 2 ^ 64
    → Inv (booted lo size m).heap (λ _. unused) (λ _. [])
unfolding init new
booted-Inv lo size m pos top =
    let end : (lo + size) % 2 ^ 64 ≡ lo + size = omega arith in
    record {
      ready = refl;
      classes = refl;
      start = pos;
      started = omega arith;
      room = omega arith;
      top = omega arith;
      blocks = none-Blocks lo lo;
      free_lists = λ i lt. record { linked = all_none 10 i; listed = tt; distinct = tt };
    }
