-- ===== src/Fat32/Write/Listing.antt =====
-- The listing of a directory, by which the reading side of fat32/src/lib.rs finds a name, against the
-- search by raw name of the writing side.
pub mod Clusters
pub mod Written
use the_heap.Prelude.{
  ℕ, zero, suc, ◌+◌, ◌-◌, ◌*◌, ◌/◌, ◌≤◌, ◌<◌, ◌≡◌, refl, sym, ap, ◌∙◌, arith, ◌⊎◌, inl, inr, true,
  false, Bool, ◌||◌, ◌==◌, ltb, Option, none, some, List, [], ◌∷◌, ◌++◌, get_or, length, All,
  list_eq, Bool-cases, Option-cases, if◌then◌else◌,
}
use mathlib.Core.Path.{subst}
use the_heap.Bytes.{Memory, slice}
use the_heap.Fat32.DirEntry
use the_heap.Fat32.DirEntry.{DirEntry}
use the_heap.Fat32.Error
use the_heap.Fat32.Error.{ok, Result}
use the_heap.Fat32.Read.{
  scan_chunks, find_entry, list_clusters, list_dir_cluster, full_chunks, push_some,
}
use the_heap.Fat32.Text.{Text, normalize_name}
use the_heap.Fat32.Volume.{Volume, cluster_size, cluster_start, read_cluster, max_chain}
use the_heap.Fat32.Write.{with_bytes, Search, end_of_dir, found_at, next_cluster, search_chunks}
use the_heap.Fat32.Write.Content.{InBuffer, read_cluster-InBuffer}
use the_heap.Fat32.Write.Found.{after_search, look_in, find_in, find_step}
use the_heap.Fat32.Write.Lookup.{pieces, matches, full_chunks-slice}

-- The entry answers to the name.
abbrev pub Answers : Text → DirEntry → Type 0
Answers target e = list_eq (normalize_name e.name) target ≡ true

-- Of the entry's bytes, only the raw name is read as the name.
abbrev pub Canonical : List ℕ → List ℕ → Text → List ℕ → Type 0
Canonical name_raw ext_raw target c =
    (e : DirEntry)
    → DirEntry.parse c ≡ some e
    → Answers target e
    → matches name_raw ext_raw c ≡ true

parse-deleted : (c : List ℕ) → (get_or c 0 0 == 0xE5) ≡ true → DirEntry.parse c ≡ none
unfolding DirEntry.parse
parse-deleted c gone = elim (Bool-cases (ltb (length c) 32)) [
  | inl short ↦ rw short refl
  | inr long ↦ elim (Bool-cases (get_or c 0 0 == 0x00)) [
    | inl last ↦ rw (long, last) refl
    | inr more ↦ rw (long, more, gone) refl
  ]
]

pub parse-end : (c : List ℕ) → (get_or c 0 0 == 0x00) ≡ true → DirEntry.parse c ≡ none
unfolding DirEntry.parse
parse-end c last = elim (Bool-cases (ltb (length c) 32)) [
  | inl short ↦ rw short refl
  | inr long ↦ rw (long, last) refl
]

find_entry-hit :
    (target : Text) (e : DirEntry) (es : List DirEntry)
    → Answers target e
    → find_entry target (e ∷ es) ≡ some e
unfolding find_entry
find_entry-hit target e es h = rw h refl

find_entry-miss :
    (target : Text) (e : DirEntry) (es : List DirEntry)
    → list_eq (normalize_name e.name) target ≡ false
    → find_entry target (e ∷ es) ≡ find_entry target es
unfolding find_entry
find_entry-miss target e es h = rw h refl

pub find_entry-append :
    (target : Text) (xs ys : List DirEntry)
    → ((find_entry target xs ≡ none) × (find_entry target (xs ++ ys) ≡ find_entry target ys))
      ⊎ ((e : DirEntry) × (find_entry target xs ≡ some e) × (find_entry target (xs ++ ys) ≡ some e))
unfolding find_entry
find_entry-append target [] ys = inl (refl, refl)
find_entry-append target (x ∷ xs) ys = elim (Bool-cases (list_eq (normalize_name x.name) target)) [
  | inl hit ↦ inr (x, rw hit refl, rw hit refl)
  | inr miss ↦ elim (find_entry-append target xs ys) [
    | inl (n, e) ↦ inl (rw miss n, rw miss e)
    | inr (y, a, b) ↦ inr (y, rw miss a, rw miss b)
  ]
]

module _ (name_raw ext_raw : List ℕ) (target : Text) where
  -- A piece that does not stop the search adds no entry with the name.
  push-miss :
      (o : Option DirEntry) (es : List DirEntry)
      → ((e : DirEntry) → o ≡ some e → Answers target e → ⊥)
      → find_entry target (push_some o es) ≡ find_entry target es
  push-miss none es silent = refl
  push-miss (some e) es silent = elim (Bool-cases (list_eq (normalize_name e.name) target)) [
    | inl hit ↦ absurd (silent e refl hit)
    | inr miss ↦ find_entry-miss target e es miss
  ]

  nothing_listed : find_entry target [] ≡ none
  unfolding find_entry
  nothing_listed = refl

  -- What the search in a cluster says of the listing of the cluster.
  abbrev pub Agree : Search → List DirEntry × Bool → Type 0
  Agree end_of_dir l = Unit
  Agree (found_at j none) l = Unit
  Agree (found_at j (some e)) l = Answers target e → find_entry target l.0 ≡ some e
  Agree next_cluster l = (find_entry target l.0 ≡ none) × (l.1 ≡ false)

  Agree-skip :
      (r : Search) (o : Option DirEntry) (l : List DirEntry × Bool)
      → find_entry target (push_some o l.0) ≡ find_entry target l.0
      → Agree r l
      → Agree r (push_some o l.0, l.1)
  Agree-skip end_of_dir o l e h = tt
  Agree-skip (found_at j none) o l e h = tt
  Agree-skip (found_at j (some p)) o l e h = λ a. e ∙ h a
  Agree-skip next_cluster o l e h = (e ∙ h.0, h.1)

  Agree-hit :
      (i : ℕ) (o : Option DirEntry) (l : List DirEntry × Bool)
      → Agree (found_at i o) (push_some o l.0, l.1)
  Agree-hit i none l = tt
  Agree-hit i (some e) l = λ a. find_entry-hit target e l.0 a

  scan_more :
      (c : List ℕ) (cs : List (List ℕ))
      → (get_or c 0 0 == 0x00) ≡ false
      → scan_chunks (c ∷ cs) ≡ (push_some (DirEntry.parse c) (scan_chunks cs).0, (scan_chunks cs).1)
  unfolding scan_chunks
  scan_more c cs more = rw more refl

  search_skip :
      (i : ℕ) (c : List ℕ) (cs : List (List ℕ))
      → (get_or c 0 0 == 0x00) ≡ false
      → ((get_or c 0 0 == 0xE5) ≡ true)
        ⊎ (((get_or c 0 0 == 0xE5) ≡ false) × (matches name_raw ext_raw c ≡ false))
      → search_chunks name_raw ext_raw i (c ∷ cs) ≡ search_chunks name_raw ext_raw (i + 1) cs
  unfolding search_chunks
  search_skip i c cs more (inl gone) = rw (more, gone) refl
  search_skip i c cs more (inr (there, miss)) = rw (more, there, miss) refl

  Agree-next :
      (i : ℕ) (c : List ℕ) (cs : List (List ℕ))
      → (get_or c 0 0 == 0x00) ≡ false
      → ((get_or c 0 0 == 0xE5) ≡ true)
        ⊎ (((get_or c 0 0 == 0xE5) ≡ false) × (matches name_raw ext_raw c ≡ false))
      → ((e : DirEntry) → DirEntry.parse c ≡ some e → Answers target e → ⊥)
      → Agree (search_chunks name_raw ext_raw (i + 1) cs) (scan_chunks cs)
      → Agree (search_chunks name_raw ext_raw i (c ∷ cs)) (scan_chunks (c ∷ cs))
  Agree-next i c cs more skips silent rest =
      rw (search_skip i c cs more skips, scan_more c cs more)
        (Agree-skip (search_chunks name_raw ext_raw (i + 1) cs) (DirEntry.parse c) (scan_chunks cs)
          (push-miss (DirEntry.parse c) (scan_chunks cs).0 silent) rest)

  search_end :
      (i : ℕ) (c : List ℕ) (cs : List (List ℕ))
      → (get_or c 0 0 == 0x00) ≡ true
      → search_chunks name_raw ext_raw i (c ∷ cs) ≡ end_of_dir
  unfolding search_chunks
  search_end i c cs last = rw last refl

  search_match :
      (i : ℕ) (c : List ℕ) (cs : List (List ℕ))
      → (get_or c 0 0 == 0x00) ≡ false
      → (get_or c 0 0 == 0xE5) ≡ false
      → matches name_raw ext_raw c ≡ true
      → search_chunks name_raw ext_raw i (c ∷ cs) ≡ found_at i (DirEntry.parse c)
  unfolding search_chunks
  search_match i c cs more there hit = rw (more, there, hit) refl

  Agree-nil : (i : ℕ) → Agree (search_chunks name_raw ext_raw i []) (scan_chunks [])
  unfolding search_chunks scan_chunks
  Agree-nil i = (nothing_listed, refl)

  pub search_chunks-Agree :
      (i : ℕ) (cs : List (List ℕ))
      → All (Canonical name_raw ext_raw target) cs
      → Agree (search_chunks name_raw ext_raw i cs) (scan_chunks cs)
  search_chunks-Agree i [] h = Agree-nil i
  search_chunks-Agree i (c ∷ cs) h =
      let rest = search_chunks-Agree (i + 1) cs h.1 in
      elim (Bool-cases (get_or c 0 0 == 0x00)) [
        | inl last ↦ rw (search_end i c cs last) tt
        | inr more ↦ elim (Bool-cases (get_or c 0 0 == 0xE5)) [
          | inl gone ↦
              Agree-next i c cs more (inl gone)
                (λ e p a. let q = sym (parse-deleted c gone) ∙ p in cc) rest
          | inr there ↦ elim (Bool-cases (matches name_raw ext_raw c)) [
            | inl hit ↦
                rw (search_match i c cs more there hit, scan_more c cs more)
                  (Agree-hit i (DirEntry.parse c) (scan_chunks cs))
            | inr miss ↦
                Agree-next i c cs more (inr (there, miss))
                  (λ e p a. let q = sym (h.0 e p a) ∙ miss in cc) rest
          ]
        ]
      ]
