-- ===== src/Fat32/Write/Lookup.antt =====
-- A directory entry written where the search of fat32/src/lib.rs found the old one: the search
-- within one cluster.
use the_heap.Prelude.{
  ℕ, zero, suc, ◌+◌, ◌-◌, ◌*◌, ◌/◌, ◌≤◌, ◌<◌, ◌≡◌, refl, sym, ap, ◌∙◌, arith, ◌⊎◌, inl, inr, Bool,
  true, false, ◌&&◌, Option, List, [], ◌∷◌, drop, length, get_or, ◌==◌, list_eq, Bool-cases,
}
use the_heap.Bytes.{Memory, slice, copy_from_slice}
use the_heap.Bytes.Region.{
  slice_ext, slice-copy_from_slice, slice-copy_from_slice_apart, length-slice,
}
use the_heap.Fat32.DirEntry
use the_heap.Fat32.DirEntry.{DirEntry, field}
use the_heap.Fat32.Read.{chunks, full_chunks}
use the_heap.Fat32.Write.{end_of_dir, found_at, search_chunks}
use the_heap.Fat32.Write.Content.{take-slice}
use mathlib.Core.Path.{subst}

-- The 32-byte pieces of a buffer.
unfoldable pub pieces : ℕ → Memory → ℕ → List (List ℕ)
pieces zero m off = []
pieces (suc n) m off = slice m off 32 ∷ pieces n m (off + 32)

drop-slice : (m : Memory) (off n k : ℕ) → n ≤ k → drop n (slice m off k) ≡ slice m (off + n) (k - n)
unfolding slice
drop-slice m off zero k le =
    let e : off + 0 ≡ off = omega arith in let all : k - 0 ≡ k = omega arith in rw (e, all) refl
drop-slice m off (suc n) zero le = absurd (omega arith)
drop-slice m off (suc n) (suc k) le =
    let e : off + suc n ≡ off + 1 + n = omega arith in
    let left : suc k - suc n ≡ k - n = omega arith in
    rw (e, left) (drop-slice m (off + 1) n k (omega arith))

chunks-slice :
    (n : ℕ) (m : Memory) (off len : ℕ) → n * 32 ≤ len → chunks n (slice m off len) ≡ pieces n m off
unfolding chunks pieces
chunks-slice zero m off len h = refl
chunks-slice (suc n) m off len h =
    rw (take-slice m off 32 len (omega arith), drop-slice m off 32 len (omega arith))
      (ap (λ t. slice m off 32 ∷ t) (chunks-slice n m (off + 32) (len - 32) (omega arith)))

pub full_chunks-slice :
    (m : Memory) (off len : ℕ) → full_chunks (slice m off len) ≡ pieces (len / 32) m off
unfolding full_chunks
full_chunks-slice m off len =
    rw (length-slice m off len) (chunks-slice (len / 32) m off len (omega arith))

pub pieces_ext :
    (n : ℕ) (m k : Memory) (off : ℕ)
    → ((a : ℕ) → off ≤ a → a < off + n * 32 → m a ≡ k a)
    → pieces n m off ≡ pieces n k off
unfolding pieces
pieces_ext zero m k off h = refl
pieces_ext (suc n) m k off h = cc (
  slice_ext m k off 32 (λ a lo hi. h a lo (omega arith)),
  pieces_ext n m k (off + 32) (λ a lo hi. h a (omega arith) (omega arith)),
)

-- The test of a piece for the name.
abbrev pub matches : List ℕ → List ℕ → List ℕ → Bool
matches name_raw ext_raw c = list_eq (field c 0 8) name_raw && list_eq (field c 8 3) ext_raw

-- The bytes of an entry with the name that is searched for.
pub record IsSlot (name_raw ext_raw src : List ℕ) : Type 0 where
  pub size : length src ≡ 32
  pub used : (get_or src 0 0 == 0x00) ≡ false
  pub kept : (get_or src 0 0 == 0xE5) ≡ false
  pub named : matches name_raw ext_raw src ≡ true

pub slice_written :
    (m : Memory) (off : ℕ) (src : List ℕ)
    → length src ≡ 32
    → slice (copy_from_slice m off src) off 32 ≡ src
slice_written m off src e =
    subst (λ n. slice (copy_from_slice m off src) off n ≡ src) e (slice-copy_from_slice m off src)

module _ (name_raw ext_raw src : List ℕ) (slot : IsSlot name_raw ext_raw src) where
  none_found :
      (i j : ℕ) (parsed : Option DirEntry)
      → search_chunks name_raw ext_raw i [] ≡ found_at j parsed
      → ⊥
  unfolding search_chunks
  none_found i j parsed h = cc

  -- The search stands at the slot.
  pub search_hit :
      (i : ℕ) (rest : List (List ℕ))
      → search_chunks name_raw ext_raw i (src ∷ rest) ≡ found_at i (DirEntry.parse src)
  unfolding search_chunks
  search_hit i rest = rw (slot.used, slot.kept, slot.named) refl

  -- A piece that the search passes by.
  abbrev pub Passed : List ℕ → Type 0
  Passed c =
      ((get_or c 0 0 == 0x00) ≡ false)
      × (((get_or c 0 0 == 0xE5) ≡ true)
          ⊎ (((get_or c 0 0 == 0xE5) ≡ false) × (matches name_raw ext_raw c ≡ false)))

  pub search_miss :
      (i : ℕ) (c : List ℕ) (rest : List (List ℕ))
      → Passed c
      → search_chunks name_raw ext_raw i (c ∷ rest) ≡ search_chunks name_raw ext_raw (i + 1) rest
  unfolding search_chunks
  search_miss i c rest (more, inl gone) = rw (more, gone) refl
  search_miss i c rest (more, inr (there, miss)) = rw (more, there, miss) refl

  data Look (i : ℕ) (c : List ℕ) (rest : List (List ℕ)) : Type 0 where
    stops : search_chunks name_raw ext_raw i (c ∷ rest) ≡ end_of_dir → Look i c rest
    hits :
        search_chunks name_raw ext_raw i (c ∷ rest) ≡ found_at i (DirEntry.parse c) → Look i c rest
    passes : Passed c → Look i c rest

  look : (i : ℕ) (c : List ℕ) (rest : List (List ℕ)) → Look i c rest
  unfolding search_chunks
  look i c rest = elim (Bool-cases (get_or c 0 0 == 0x00)) [
    | inl last ↦ stops (rw last refl)
    | inr more ↦ elim (Bool-cases (get_or c 0 0 == 0xE5)) [
      | inl gone ↦ passes (more, inl gone)
      | inr there ↦ elim (Bool-cases (matches name_raw ext_raw c)) [
        | inl hit ↦ hits (rw (more, there, hit) refl)
        | inr miss ↦ passes (more, inr (there, miss))
      ]
    ]
  ]

  -- Where the search ends with a place, that place is one of the pieces, and with the slot
  -- written there the search ends there again.
  abbrev pub Again : ℕ → ℕ → Memory → ℕ → ℕ → Type 0
  Again n i m off j =
      (i ≤ j)
      × (j < i + n)
      × (search_chunks name_raw ext_raw i
            (pieces n (copy_from_slice m (off + (j - i) * 32) src) off)
          ≡ found_at j (DirEntry.parse src))

  Again-here : (n i : ℕ) (m : Memory) (off : ℕ) → Again (suc n) i m off i
  unfolding pieces
  Again-here n i m off =
      let e : off + (i - i) * 32 ≡ off = omega arith in
      (
        omega arith,
        omega arith,
        rw (e, slice_written m off src slot.size)
            (search_hit i (pieces n (copy_from_slice m off src) (off + 32))),
      )

  Again-later :
      (n i : ℕ) (m : Memory) (off j : ℕ)
      → Passed (slice m off 32)
      → Again n (i + 1) m (off + 32) j
      → Again (suc n) i m off j
  unfolding pieces
  Again-later n i m off j passed (lo, hi, found) =
      let e : off + (j - i) * 32 ≡ off + 32 + (j - (i + 1)) * 32 = omega arith in
      let target = off + 32 + (j - (i + 1)) * 32 in
      let k = copy_from_slice m target src in
      let first : slice k off 32 ≡ slice m off 32 =
        slice-copy_from_slice_apart m target src off 32 (inl (omega arith)) in
      (
        omega arith,
        omega arith,
        rw (e, first) (search_miss i (slice m off 32) (pieces n k (off + 32)) passed ∙ found),
      )

  found_inj : {i j : ℕ} {a b : Option DirEntry} → found_at i a ≡ found_at j b → i ≡ j
  found_inj h = cc

  pub search_chunks-Again :
      (n i : ℕ) (m : Memory) (off j : ℕ) (parsed : Option DirEntry)
      → search_chunks name_raw ext_raw i (pieces n m off) ≡ found_at j parsed
      → Again n i m off j
  unfolding pieces
  search_chunks-Again zero i m off j parsed h = absurd (none_found i j parsed h)
  search_chunks-Again (suc n) i m off j parsed h =
      elim (look i (slice m off 32) (pieces n m (off + 32))) [
        | stops e ↦ let q : end_of_dir ≡ found_at j parsed = sym e ∙ h in cc
        | hits e ↦
            let same : i ≡ j = found_inj (sym e ∙ h) in
            subst (Again (suc n) i m off) same (Again-here n i m off)
        | passes p ↦ Again-later n i m off j p (
            search_chunks-Again n (i + 1) m (off + 32) j parsed
              (sym (search_miss i (slice m off 32) (pieces n m (off + 32)) p) ∙ h))
      ]
