-- ===== src/Slab/Allocator/Classes.antt =====
-- The size classes of slaballoc/src/allocator.rs, and which one a layout gets.
use the_heap.Prelude.{
  Bool-cases, leb, List, [], ◌∷◌, All, length, inl, inr, ◌⊎◌, ap, ◌∙◌, ℕ, zero, suc, ◌+◌, ◌%◌, ◌≤◌,
  ◌<◌, max, ◌≡◌, refl, Option, none, some, arith, get_or,
}
use the_heap.Slab.Allocator.{
  Layout, class_index_for, class_size, chunk_size, first_fit, size_classes,
}

-- A block of each class holds a node, and blocks fill a chunk exactly.
pub class_size_lem :
    (i : ℕ)
    → i < 10
    → (8 ≤ class_size i) × (class_size i ≤ chunk_size) × (chunk_size % class_size i ≡ 0)
unfolding class_size
class_size_lem zero h = omega arith
class_size_lem (suc zero) h = omega arith
class_size_lem (suc (suc zero)) h = omega arith
class_size_lem (suc (suc (suc zero))) h = omega arith
class_size_lem (suc (suc (suc (suc zero)))) h = omega arith
class_size_lem (suc (suc (suc (suc (suc zero))))) h = omega arith
class_size_lem (suc (suc (suc (suc (suc (suc zero)))))) h = omega arith
class_size_lem (suc (suc (suc (suc (suc (suc (suc zero))))))) h = omega arith
class_size_lem (suc (suc (suc (suc (suc (suc (suc (suc zero)))))))) h = omega arith
class_size_lem (suc (suc (suc (suc (suc (suc (suc (suc (suc zero))))))))) h = omega arith
class_size_lem (suc (suc (suc (suc (suc (suc (suc (suc (suc (suc i)))))))))) h =
    absurd (omega arith)

-- `r` is the least class that holds the size and the alignment, or none does.
abbrev pub Chosen : Layout → Option ℕ → Type 0
Chosen l none = chunk_size < max l.size l.align
Chosen l (some i) =
    (i < 10)
    × (l.size ≤ class_size i)
    × (l.align ≤ class_size i)
    × ((j : ℕ) → j < i → class_size j < max l.size l.align)

-- What the loop finds in any list of classes.
first_fit_lem :
    (n i : ℕ) (classes : List ℕ)
    → ((first_fit n i classes ≡ none) × All (λ c. c < n) classes)
      ⊎ ((j : ℕ) × (first_fit n i classes ≡ some (i + j))
          × (j < length classes)
          × (n ≤ get_or classes j 0)
          × ((k : ℕ) → k < j → get_or classes k 0 < n))
unfolding first_fit
first_fit_lem n i [] = inl (refl, tt)
first_fit_lem n i (c ∷ cs) = elim (Bool-cases (leb n c)) [
  | inl fits ↦
      inr (
        0,
        rw fits (ap some (omega arith)),
        omega arith,
        ground arith,
        λ k lt. absurd (omega arith),
      )
  | inr small ↦ elim (first_fit_lem n (i + 1) cs) [
    | inl (e, all) ↦ inl (rw small e, (ground arith, all))
    | inr (j, e, lt, fits, before) ↦ inr (
      suc j,
      rw small (e ∙ ap some (omega arith)),
      omega arith,
      fits,
      elim [ zero ↦ λ _. ground arith | suc k ↦ λ lt. before k (omega arith) ],
    )
  ]
]

-- For every layout: the class that `class_index_for` gives is the least that holds both the size
-- and the alignment, and where it gives none, one of the two is over a chunk.
pub class_index_for-Chosen : (l : Layout) → Chosen l (class_index_for l)
unfolding class_index_for class_size
class_index_for-Chosen l = elim (first_fit_lem (max l.size l.align) 0 size_classes) [
  | inl (e, all) ↦ rw e (omega arith)
  | inr (j, e, lt, fits, before) ↦
      let zero_add : 0 + j ≡ j = omega arith in
      rw (e, zero_add) (omega arith, omega arith, omega arith, before)
]
