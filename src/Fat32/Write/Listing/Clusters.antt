-- ===== src/Fat32/Write/Listing/Clusters.antt =====
-- `list_dir_cluster` of fat32/src/lib.rs over the clusters of a directory.
use the_heap.Prelude.{
  ℕ, ◌+◌, ◌*◌, ◌/◌, ◌<◌, ◌≡◌, refl, sym, ap, ◌∙◌, inl, inr, false, Bool, none, some, List, [], ◌∷◌,
  ◌++◌, All, Bool-cases, if◌then◌else◌,
}
use the_heap.Bytes.{Memory}
use the_heap.Fat32.DirEntry.{DirEntry}
use the_heap.Fat32.Error
use the_heap.Fat32.Error.{ok, Result, ok_inj}
use the_heap.Fat32.Read.{scan_chunks, find_entry, list_clusters}
use the_heap.Fat32.Text.{Text}
use the_heap.Fat32.Volume.{Volume, cluster_size, cluster_start}
use the_heap.Fat32.Write.{with_bytes, found_at, next_cluster}
use the_heap.Fat32.Write.Content.{InBuffer, read_cluster-InBuffer}
use the_heap.Fat32.Write.Found.{Place, after_search, look_in, find_in, find_step, not_in_nil}
use the_heap.Fat32.Write.Listing.{Answers, Canonical, Agree, search_chunks-Agree, find_entry-append}
use the_heap.Fat32.Write.Lookup.{pieces, full_chunks-slice}
use the_heap.Fat32.Write.Put.{Search-cases}

-- What the loop makes of the entries of a cluster.
abbrev after_scan : List DirEntry × Bool → Result (List DirEntry) → Result (List DirEntry)
after_scan l rest = let more = Error.◌>>=◌ rest λ es. ok (l.0 ++ es) in if l.1 then ok l.0 else more

module _ (v : Volume) (pos : 0 < cluster_size v.bpb) (m : Memory) where
  abbrev pub pieces_of : ℕ → List (List ℕ)
  pieces_of cl = pieces (cluster_size v.bpb / 32) m (cluster_start v.bpb cl)

  abbrev list_in : List ℕ → Result (List DirEntry)
  list_in cs = list_clusters (with_bytes v m) cs

  list_step :
      (cl : ℕ) (cs : List ℕ)
      → InBuffer v cl
      → list_in (cl ∷ cs) ≡ after_scan (scan_chunks (pieces_of cl)) (list_in cs)
  unfolding list_clusters
  list_step cl cs b =
      rw
        (
          read_cluster-InBuffer (with_bytes v m) cl pos b,
          full_chunks-slice m (cluster_start v.bpb cl) (cluster_size v.bpb),
        )
        refl

  list_nil : list_in [] ≡ ok []
  unfolding list_clusters
  list_nil = refl

  list_total : (cs : List ℕ) → All (InBuffer v) cs → (es : List DirEntry) × (list_in cs ≡ ok es)
  list_total [] b = ([], list_nil)
  list_total (cl ∷ cs) b =
      let (more, e) = list_total cs b.1 in
      let l = scan_chunks (pieces_of cl) in
      let step = list_step cl cs b.0 ∙ ap (after_scan l) e in
      elim (Bool-cases l.1) [
        | inl end ↦ (l.0, step ∙ rw end refl)
        | inr on ↦ (l.0 ++ more, step ∙ rw on refl)
      ]

  module _ (name_raw ext_raw : List ℕ) (target : Text) (off : ℕ) (entry : DirEntry)
      (answers : Answers target entry) where
    abbrev Listed : List ℕ → Type 0
    Listed cs = (es : List DirEntry) × (list_in cs ≡ ok es) × (find_entry target es ≡ some entry)

    -- The entry is in this cluster's part of the listing.
    Listed-here :
        (cl : ℕ) (cs : List ℕ)
        → All (InBuffer v) (cl ∷ cs)
        → find_entry target (scan_chunks (pieces_of cl)).0 ≡ some entry
        → Listed (cl ∷ cs)
    Listed-here cl cs b h =
        let (more, e) = list_total cs b.1 in
        let l = scan_chunks (pieces_of cl) in
        let step = list_step cl cs b.0 ∙ ap (after_scan l) e in
        elim (Bool-cases l.1) [
          | inl end ↦ (l.0, step ∙ rw end refl, h)
          | inr on ↦ (
            l.0 ++ more,
            step ∙ rw on refl,
            elim (find_entry-append target l.0 more) [
              | inl (n, _) ↦ let q = sym n ∙ h in cc
              | inr (x, a, both) ↦ both ∙ (sym a ∙ h)
            ],
          )
        ]

    Listed-later :
        (cl : ℕ) (cs : List ℕ)
        → InBuffer v cl
        → find_entry target (scan_chunks (pieces_of cl)).0 ≡ none
        → (scan_chunks (pieces_of cl)).1 ≡ false
        → Listed cs
        → Listed (cl ∷ cs)
    Listed-later cl cs b nothing on (more, e, h) =
        let l = scan_chunks (pieces_of cl) in
        let step = list_step cl cs b ∙ ap (after_scan l) e in
        (
          l.0 ++ more,
          step ∙ rw on refl,
          elim (find_entry-append target l.0 more) [
            | inl (_, both) ↦ both ∙ h
            | inr (x, a, _) ↦ let q = sym nothing ∙ a in cc
          ],
        )

    pub find_in-Listed :
        (cs : List ℕ)
        → All (InBuffer v) cs
        → All (λ cl. All (Canonical name_raw ext_raw target) (pieces_of cl)) cs
        → find_in v name_raw ext_raw pos m cs ≡ ok (some off, some entry)
        → Listed cs
    find_in-Listed [] b canon h = absurd (not_in_nil v name_raw ext_raw pos m off (some entry) h)
    find_in-Listed (cl ∷ cs) b canon h =
        let start = cluster_start v.bpb cl in
        let rest = find_in v name_raw ext_raw pos m cs in
        let step = find_step v name_raw ext_raw pos m cl cs b.0 in
        let agree = search_chunks-Agree name_raw ext_raw target 0 (pieces_of cl) canon.0 in
        elim (Search-cases (look_in v name_raw ext_raw pos m cl)) [
          | inl e ↦ let z = sym (step ∙ ap (after_search start rest) e) ∙ h in cc
          | inr (inl (j, p, e)) ↦
              let z : ◌≡◌ {A = Place} (some (start + j * 32), p) (some off, some entry) =
                ok_inj (sym (step ∙ ap (after_search start rest) e) ∙ h) in
              let q : p ≡ some entry = ap (λ t. t.1) z in
              let here : Agree name_raw ext_raw target (found_at j (some entry))
                  (scan_chunks (pieces_of cl)) =
                rw (e, q) at agree in
              Listed-here cl cs b (here answers)
          | inr (inr e) ↦
              let on : Agree name_raw ext_raw target next_cluster (scan_chunks (pieces_of cl)) =
                rw e at agree in
              Listed-later cl cs b.0 on.0 on.1
                (find_in-Listed cs b.1 canon.1 (sym (step ∙ ap (after_search start rest) e) ∙ h))
        ]
