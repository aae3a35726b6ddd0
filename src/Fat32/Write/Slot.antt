-- ===== src/Fat32/Write/Slot.antt =====
-- A free slot of a directory's cluster against the search for a name, both of fat32/src/lib.rs: where
-- the name is not in the cluster, an entry in the first free slot is what the search then finds.
use the_heap.Prelude.{
  ℕ, zero, suc, ◌+◌, ◌-◌, ◌*◌, ◌≤◌, ◌<◌, ◌≡◌, refl, sym, ◌∙◌, arith, ◌⊎◌, inl, inr, Bool, true,
  false, Option, none, some, List, [], ◌∷◌, get_or, ◌==◌, Bool-cases,
}
use mathlib.Core.Path.{subst}
use the_heap.Bytes.{Memory, slice}
use the_heap.Bytes.Region.{slice_ext}
use the_heap.Fat32.DirEntry
use the_heap.Fat32.DirEntry.{DirEntry}
use the_heap.Fat32.Write.{Search, end_of_dir, found_at, next_cluster, search_chunks, free_chunk}
use the_heap.Fat32.Write.Lookup.{pieces, IsSlot, matches, search_hit, search_miss, Passed}

-- The search ended without a place.
abbrev pub Missed : Search → Type 0
Missed end_of_dir = Unit
Missed (found_at i parsed) = ⊥
Missed next_cluster = Unit

pair_inj : {i j : ℕ} {a b : Bool} → ◌≡◌ {A = Option (ℕ × Bool)} (some (i, a)) (some (j, b)) → i ≡ j
pair_inj h = cc

free_chunk-cases :
    (i : ℕ) (c : List ℕ) (cs : List (List ℕ))
    → ((was_end : Bool) × (free_chunk i (c ∷ cs) ≡ some (i, was_end)))
      ⊎ (((get_or c 0 0 == 0x00) ≡ false)
          × ((get_or c 0 0 == 0xE5) ≡ false)
          × (free_chunk i (c ∷ cs) ≡ free_chunk (i + 1) cs))
unfolding free_chunk
free_chunk-cases i c cs = elim (Bool-cases (get_or c 0 0 == 0x00)) [
  | inl last ↦ inl (true, rw last refl)
  | inr more ↦ elim (Bool-cases (get_or c 0 0 == 0xE5)) [
    | inl gone ↦ inl (false, rw (more, gone) refl)
    | inr there ↦ inr (more, there, rw (more, there) refl)
  ]
]

none_free : (i j : ℕ) (was_end : Bool) → free_chunk i [] ≡ some (j, was_end) → ⊥
unfolding free_chunk
none_free i j was_end h = cc

some_free : {i : ℕ} {b : Bool} → ◌≡◌ {A = Option (ℕ × Bool)} (some (i, b)) none → ⊥
some_free h = cc

later_free :
    (i : ℕ) (cs : List (List ℕ)) (j : ℕ) (was_end : Bool)
    → free_chunk i cs ≡ some (j, was_end)
    → i ≤ j
later_free i [] j was_end h = absurd (none_free i j was_end h)
later_free i (c ∷ cs) j was_end h = elim (free_chunk-cases i c cs) [
  | inl (_, here) ↦ omega (arith, pair_inj (sym here ∙ h))
  | inr (_, _, later) ↦ omega (arith, later_free (i + 1) cs j was_end (sym later ∙ h))
]

pub free_chunk-lt :
    (n i : ℕ) (m : Memory) (off j : ℕ) (was_end : Bool)
    → free_chunk i (pieces n m off) ≡ some (j, was_end)
    → j < i + n
unfolding pieces
free_chunk-lt zero i m off j was_end h = absurd (none_free i j was_end h)
free_chunk-lt (suc n) i m off j was_end h =
    elim (free_chunk-cases i (slice m off 32) (pieces n m (off + 32))) [
      | inl (_, here) ↦ omega (arith, pair_inj (sym here ∙ h))
      | inr (_, _, later) ↦
          omega (arith, free_chunk-lt n (i + 1) m (off + 32) j was_end (sym later ∙ h))
    ]

module _ (name_raw ext_raw src : List ℕ) (slot : IsSlot name_raw ext_raw src) where
  abbrev search_from : ℕ → List (List ℕ) → Search
  search_from = search_chunks name_raw ext_raw

  in_use-cases :
      (i : ℕ) (c : List ℕ) (cs : List (List ℕ))
      → (get_or c 0 0 == 0x00) ≡ false
      → (get_or c 0 0 == 0xE5) ≡ false
      → (search_from i (c ∷ cs) ≡ found_at i (DirEntry.parse c))
        ⊎ Passed name_raw ext_raw src slot c
  unfolding search_chunks
  in_use-cases i c cs more there = elim (Bool-cases (matches name_raw ext_raw c)) [
    | inl hit ↦ inl (rw (more, there, hit) refl)
    | inr miss ↦ inr (more, inr (there, miss))
  ]

  -- The cluster has a slot, and no entry with the name before it.
  pub search_chunks-slot :
      (n i : ℕ) (m k : Memory) (off j : ℕ) (was_end : Bool)
      → free_chunk i (pieces n m off) ≡ some (j, was_end)
      → Missed (search_from i (pieces n m off))
      → ((a : ℕ) → off ≤ a → a < off + (j - i) * 32 → k a ≡ m a)
      → slice k (off + (j - i) * 32) 32 ≡ src
      → (i ≤ j) × (j < i + n) × (search_from i (pieces n k off) ≡ found_at j (DirEntry.parse src))
  unfolding pieces
  search_chunks-slot zero i m k off j was_end e miss same written = absurd (none_free i j was_end e)
  search_chunks-slot (suc n) i m k off j was_end e miss same written =
      let c = slice m off 32 in
      let cs = pieces n m (off + 32) in
      elim (free_chunk-cases i c cs) [
        | inl (_, here) ↦
            let q : i ≡ j = pair_inj (sym here ∙ e) in
            let at_off : off + (j - i) * 32 ≡ off = omega (arith, q) in
            let src_here : slice k off 32 ≡ src = rw at_off at written in
            (
              omega (arith, q),
              omega (arith, q),
              rw (src_here, ← q) (search_hit name_raw ext_raw src slot i (pieces n k (off + 32))),
            )
        | inr (more, there, later) ↦ elim (in_use-cases i c cs more there) [
          | inl hit ↦ absurd (subst Missed hit miss)
          | inr passed ↦
              let step = search_miss name_raw ext_raw src slot i c cs passed in
              let lo = later_free (i + 1) cs j was_end (sym later ∙ e) in
              let gap : off + (j - i) * 32 ≡ off + 32 + (j - (i + 1)) * 32 = omega (arith, lo) in
              let c_same : slice k off 32 ≡ c =
                slice_ext k m off 32 (λ a from to. same a from (omega (arith, lo))) in
              let (_, hi, found) =
                search_chunks-slot n (i + 1) m k (off + 32) j was_end (sym later ∙ e)
                  (subst Missed step miss)
                  (λ a from to. same a (omega (arith, from)) (omega (arith, to, gap)))
                  (rw gap at written) in
              (
                omega (arith, lo),
                omega (arith, hi),
                rw c_same (
                    search_miss name_raw ext_raw src slot i c (pieces n k (off + 32)) passed
                    ∙ found),
              )
        ]
      ]

  -- A cluster without a slot has no end marker: a search that finds nothing goes on behind it.
  pub search_chunks-full :
      (i : ℕ) (cs : List (List ℕ))
      → free_chunk i cs ≡ none
      → Missed (search_from i cs)
      → search_from i cs ≡ next_cluster
  unfolding search_chunks
  search_chunks-full i [] e miss = refl
  search_chunks-full i (c ∷ cs) e miss = elim (free_chunk-cases i c cs) [
    | inl (was_end, here) ↦ absurd (some_free (sym here ∙ e))
    | inr (more, there, later) ↦ elim (in_use-cases i c cs more there) [
      | inl hit ↦ absurd (subst Missed hit miss)
      | inr passed ↦
          let step = search_miss name_raw ext_raw src slot i c cs passed in
          step ∙ search_chunks-full (i + 1) cs (sym later ∙ e) (subst Missed step miss)
    ]
  ]
