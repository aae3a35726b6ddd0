-- ===== src/Fat32/Write/Named.antt =====
-- The search for one name past the entries of another: `find_dir_entry_offset_by_short_name` of
-- fat32/src/lib.rs in one cluster.
use the_heap.Prelude.{
  ℕ, zero, suc, ◌+◌, ◌-◌, ◌*◌, ◌≤◌, ◌<◌, ◌≡◌, refl, sym, ◌∙◌, arith, ◌⊎◌, inl, inr, Bool, true,
  false, ◌&&◌, Option, List, [], ◌∷◌, get_or, ◌==◌, list_eq, Bool-cases, eq_of_list_eq,
}
use mathlib.Core.Path.{subst}
use the_heap.Bytes.{Memory, slice}
use the_heap.Fat32.DirEntry.{DirEntry, field}
use the_heap.Fat32.Write.{end_of_dir, found_at, search_chunks}
use the_heap.Fat32.Write.Lookup.{pieces, matches}

-- An entry in use with the raw name.
abbrev pub Named : List ℕ → List ℕ → List ℕ → Type 0
Named name_raw ext_raw c =
    ((get_or c 0 0 == 0x00) ≡ false)
    × ((get_or c 0 0 == 0xE5) ≡ false)
    × (matches name_raw ext_raw c ≡ true)

-- Another raw name.
abbrev pub IsOther : List ℕ → List ℕ → List ℕ → List ℕ → Type 0
IsOther name_raw ext_raw name ext = (list_eq name_raw name && list_eq ext_raw ext) ≡ false

and-both : (a b : Bool) → (a && b) ≡ true → (a ≡ true) × (b ≡ true)
and-both a b h = (ground arith, ground arith)

Named-other :
    (name_raw ext_raw name ext c : List ℕ)
    → Named name_raw ext_raw c
    → IsOther name_raw ext_raw name ext
    → matches name ext c ≡ false
Named-other name_raw ext_raw name ext c (_, _, hit) other =
    let (a, b) = and-both (list_eq (field c 0 8) name_raw) (list_eq (field c 8 3) ext_raw) hit in
    rw (eq_of_list_eq (field c 0 8) name_raw a, eq_of_list_eq (field c 8 3) ext_raw b) other

-- The search passes by a named entry of another name.
search_past :
    (name_raw ext_raw name ext : List ℕ) (i : ℕ) (c : List ℕ) (cs : List (List ℕ))
    → Named name_raw ext_raw c
    → IsOther name_raw ext_raw name ext
    → search_chunks name ext i (c ∷ cs) ≡ search_chunks name ext (i + 1) cs
unfolding search_chunks
search_past name_raw ext_raw name ext i c cs (more, there, hit) other =
    rw (more, there, Named-other name_raw ext_raw name ext c (more, there, hit) other) refl

search_cons :
    (name ext : List ℕ) (i : ℕ) (c : List ℕ) (cs ds : List (List ℕ))
    → search_chunks name ext (i + 1) cs ≡ search_chunks name ext (i + 1) ds
    → search_chunks name ext i (c ∷ cs) ≡ search_chunks name ext i (c ∷ ds)
unfolding search_chunks
search_cons name ext i c cs ds same = elim (Bool-cases (get_or c 0 0 == 0x00)) [
  | inl last ↦ rw last refl
  | inr more ↦ elim (Bool-cases (get_or c 0 0 == 0xE5)) [
    | inl gone ↦ rw (more, gone) same
    | inr there ↦ elim (Bool-cases (matches name ext c)) [
      | inl hit ↦ rw (more, there, hit) refl
      | inr miss ↦ rw (more, there, miss) same
    ]
  ]
]

-- A piece that is the same in both memories, or an entry of the name in both.
abbrev pub SamePiece : List ℕ → List ℕ → Memory → Memory → ℕ → Type 0
SamePiece name_raw ext_raw m k q =
    (slice k q 32 ≡ slice m q 32)
    ⊎ (Named name_raw ext_raw (slice m q 32) × Named name_raw ext_raw (slice k q 32))

pub search_chunks-other :
    (name_raw ext_raw name ext : List ℕ) (n i : ℕ) (m k : Memory) (off : ℕ)
    → IsOther name_raw ext_raw name ext
    → ((j : ℕ) → j < n → SamePiece name_raw ext_raw m k (off + j * 32))
    → search_chunks name ext i (pieces n k off) ≡ search_chunks name ext i (pieces n m off)
unfolding pieces
search_chunks-other name_raw ext_raw name ext zero i m k off other p = refl
search_chunks-other name_raw ext_raw name ext (suc n) i m k off other p =
    let here : off + 0 * 32 ≡ off = omega arith in
    let rest = search_chunks-other name_raw ext_raw name ext n (i + 1) m k (off + 32) other (λ j lt.
      let e : off + suc j * 32 ≡ off + 32 + j * 32 = omega arith in
      subst (SamePiece name_raw ext_raw m k) e (p (suc j) (omega arith))) in
    elim (subst (SamePiece name_raw ext_raw m k) here (p 0 (omega arith))) [
      | inl same ↦ rw same (
          search_cons name ext i (slice m off 32) (pieces n k (off + 32)) (pieces n m (off + 32))
            rest)
      | inr (was, is_now) ↦
          search_past name_raw ext_raw name ext i (slice k off 32) (pieces n k (off + 32)) is_now
            other
          ∙ rest
          ∙ sym (
              search_past name_raw ext_raw name ext i (slice m off 32) (pieces n m (off + 32)) was
                other)
    ]

not_found :
    (name ext : List ℕ) (i j : ℕ) (p : Option DirEntry)
    → search_chunks name ext i [] ≡ found_at j p
    → ⊥
unfolding search_chunks
not_found name ext i j p h = cc

end_found : {j : ℕ} {p : Option DirEntry} → end_of_dir ≡ found_at j p → ⊥
end_found h = cc

found_inj : {i j : ℕ} {a b : Option DirEntry} → found_at i a ≡ found_at j b → i ≡ j
found_inj h = cc

-- Where the search ends with an entry, or how it goes on.
search_ends :
    (name ext : List ℕ) (i j : ℕ) (p : Option DirEntry) (c : List ℕ) (cs : List (List ℕ))
    → search_chunks name ext i (c ∷ cs) ≡ found_at j p
    → ((i ≡ j) × Named name ext c) ⊎ (search_chunks name ext (i + 1) cs ≡ found_at j p)
unfolding search_chunks
search_ends name ext i j p c cs h = elim (Bool-cases (get_or c 0 0 == 0x00)) [
  | inl last ↦ absurd (end_found (rw last at h))
  | inr more ↦ elim (Bool-cases (get_or c 0 0 == 0xE5)) [
    | inl gone ↦ inr (rw (more, gone) at h)
    | inr there ↦ elim (Bool-cases (matches name ext c)) [
      | inl hit ↦ inl (found_inj (rw (more, there, hit) at h), (more, there, hit))
      | inr miss ↦ inr (rw (more, there, miss) at h)
    ]
  ]
]

later_found :
    (name ext : List ℕ) (i j : ℕ) (p : Option DirEntry) (cs : List (List ℕ))
    → search_chunks name ext i cs ≡ found_at j p
    → i ≤ j
later_found name ext i j p [] h = absurd (not_found name ext i j p h)
later_found name ext i j p (c ∷ cs) h = elim (search_ends name ext i j p c cs h) [
  | inl (e, _) ↦ omega (arith, e)
  | inr more ↦ omega (arith, later_found name ext (i + 1) j p cs more)
]

-- The search ends at an entry with the name.
pub search_chunks-Named :
    (name ext : List ℕ) (n i j : ℕ) (m : Memory) (off : ℕ) (p : Option DirEntry)
    → search_chunks name ext i (pieces n m off) ≡ found_at j p
    → Named name ext (slice m (off + (j - i) * 32) 32)
unfolding pieces
search_chunks-Named name ext zero i j m off p h = absurd (not_found name ext i j p h)
search_chunks-Named name ext (suc n) i j m off p h =
    elim (search_ends name ext i j p (slice m off 32) (pieces n m (off + 32)) h) [
      | inl (e, named) ↦
          let q : off ≡ off + (j - i) * 32 = omega (arith, e) in
          subst (λ a. Named name ext (slice m a 32)) q named
      | inr more ↦
          let le = later_found name ext (i + 1) j p (pieces n m (off + 32)) more in
          let q : off + 32 + (j - (i + 1)) * 32 ≡ off + (j - i) * 32 = omega (arith, le) in
          subst (λ a. Named name ext (slice m a 32)) q
            (search_chunks-Named name ext n (i + 1) j m (off + 32) p more)
    ]
