-- ===== src/Fat32/Write/Found.antt =====
-- A directory entry written where the search of fat32/src/lib.rs found the old one: the search
-- through the directory's clusters finds the new one.
use the_heap.Prelude.{
  ℕ, ◌+◌, ◌-◌, ◌*◌, ◌/◌, ◌≤◌, ◌<◌, ◌≡◌, ◌≢◌, refl, sym, ap, ◌∙◌, arith, inl, inr, Option, none,
  some, List, [], ◌∷◌, All,
}
use the_heap.Bytes.{Memory, slice, copy_from_slice}
use the_heap.Bytes.Region.{copy_from_slice-outside}
use the_heap.Fat32.DirEntry
use the_heap.Fat32.DirEntry.{DirEntry, field}
use the_heap.Fat32.Error.{ok_inj, Result, ok}
use the_heap.Fat32.Read.{full_chunks}
use the_heap.Fat32.Volume.{Volume, cluster_size, cluster_start, data_start_byte}
use the_heap.Fat32.Write.{
  with_bytes, Search, end_of_dir, found_at, next_cluster, search_chunks, find_in_clusters,
}
use the_heap.Fat32.Write.Content.{InBuffer, clusters_apart}
use the_heap.Fat32.Write.Keep.{dir_cluster-InBuffer}
use the_heap.Fat32.Write.Lookup.{pieces, pieces_ext, full_chunks-slice, IsSlot, search_chunks-Again}

abbrev pub Place : Type 0
Place = Option ℕ × Option DirEntry

-- What the outer loop makes of the search in a cluster that starts at `start`.
abbrev pub after_search : ℕ → Result Place → Search → Result Place
after_search start rest end_of_dir = ok (none, none)
after_search start rest (found_at i parsed) = ok (some (start + i * 32), parsed)
after_search start rest next_cluster = rest

pub place_inj :
    {a b : ℕ} {p q : Option DirEntry}
    → ◌≡◌ {A = Result Place} (ok (some a, p)) (ok (some b, q))
    → (a ≡ b) × (p ≡ q)
place_inj {a} {b} {p} {q} h =
    let pair : ◌≡◌ {A = Place} (some a, p) (some b, q) = ok_inj h in
    let first : some a ≡ some b = ap (λ r. r.0) pair in (cc, ap (λ r. r.1) pair)

after_search-elim :
    (start : ℕ) (rest : Result Place) (r : Search)
    → ◌≡◌ {A = Result Place}
        (elim r [
          | end_of_dir ↦ ok (none, none)
          | found_at i parsed ↦ ok (some (start + i * 32), parsed)
          | next_cluster ↦ rest
        ])
        (after_search start rest r)
after_search-elim start rest end_of_dir = refl
after_search-elim start rest (found_at i parsed) = refl
after_search-elim start rest next_cluster = refl

module _ (v : Volume) (name_raw ext_raw : List ℕ) (pos : 0 < cluster_size v.bpb) where
  -- The search in one cluster, on a memory.
  abbrev pub look_in : Memory → ℕ → Search
  look_in m cl =
      search_chunks name_raw ext_raw 0 (pieces (cluster_size v.bpb / 32) m (cluster_start v.bpb cl))

  abbrev pub find_in : Memory → List ℕ → Result Place
  find_in m cs = find_in_clusters (with_bytes v m) name_raw ext_raw cs

  pub find_step :
      (m : Memory) (cl : ℕ) (cs : List ℕ)
      → InBuffer v cl
      → find_in m (cl ∷ cs) ≡ after_search (cluster_start v.bpb cl) (find_in m cs) (look_in m cl)
  unfolding find_in_clusters
  find_step m cl cs b =
      let start = cluster_start v.bpb cl in
      rw (dir_cluster-InBuffer v m cl pos b) (
        after_search-elim start (find_in m cs)
          (search_chunks name_raw ext_raw 0 (full_chunks (slice m start (cluster_size v.bpb))))
        ∙ ap (λ t. after_search start (find_in m cs) (search_chunks name_raw ext_raw 0 t))
            (full_chunks-slice m start (cluster_size v.bpb)))

  pub not_in_nil :
      (m : Memory) (off : ℕ) (old : Option DirEntry) → find_in m [] ≡ ok (some off, old) → ⊥
  unfolding find_in_clusters
  not_in_nil m off old h = cc

  -- The place is in a cluster, where the search stops.
  pub record Located (m : Memory) (off : ℕ) (old : Option DirEntry) : Type 0 where
    pub cluster : ℕ
    pub index : ℕ
    pub inside : InBuffer v cluster
    pub place : off ≡ cluster_start v.bpb cluster + index * 32
    pub within : (index + 1) * 32 ≤ cluster_size v.bpb
    pub stops : look_in m cluster ≡ found_at index old

  module _ (src : List ℕ) (slot : IsSlot name_raw ext_raw src) where
    -- The search stops again where it stopped, at the entry written there.
    pub look_again :
        (m : Memory) (cl j : ℕ) (old : Option DirEntry)
        → look_in m cl ≡ found_at j old
        → ((j + 1) * 32 ≤ cluster_size v.bpb)
          × (look_in (copy_from_slice m (cluster_start v.bpb cl + j * 32) src) cl
              ≡ found_at j (DirEntry.parse src))
    look_again m cl j old h =
        let (lo, hi, found) =
          search_chunks-Again name_raw ext_raw src slot (cluster_size v.bpb / 32) 0 m
            (cluster_start v.bpb cl) j old h in
        let e : j - 0 ≡ j = omega arith in (omega arith, rw e at found)

    Located-after_search :
        (m : Memory) (cl : ℕ) (off : ℕ) (old : Option DirEntry) (rest : Result Place) (r : Search)
        → InBuffer v cl
        → look_in m cl ≡ r
        → (rest ≡ ok (some off, old) → Located m off old)
        → after_search (cluster_start v.bpb cl) rest r ≡ ok (some off, old)
        → Located m off old
    Located-after_search m cl off old rest end_of_dir b e ih h = cc
    Located-after_search m cl off old rest (found_at j parsed) b e ih h =
        let place : cluster_start v.bpb cl + j * 32 ≡ off = (place_inj h).0 in
        let same : parsed ≡ old = (place_inj h).1 in
        record {
          cluster = cl;
          index = j;
          inside = b;
          place = sym place;
          within = (look_again m cl j parsed e).0;
          stops = rw (← same) e;
        }
    Located-after_search m cl off old rest next_cluster b e ih h = ih h

    pub find_in-Located :
        (m : Memory) (cs : List ℕ) (off : ℕ) (old : Option DirEntry)
        → All (InBuffer v) cs
        → find_in m cs ≡ ok (some off, old)
        → Located m off old
    find_in-Located m [] off old b h = absurd (not_in_nil m off old h)
    find_in-Located m (cl ∷ cs) off old b h =
        Located-after_search m cl off old (find_in m cs) (look_in m cl) b.0 refl
          (find_in-Located m cs off old b.1) (sym (find_step m cl cs b.0) ∙ h)

    -- A cluster that the search passed by is searched with the same end.
    look_elsewhere :
        (m : Memory) (cl : ℕ) (off : ℕ) (old : Option DirEntry)
        → InBuffer v cl
        → look_in m cl ≡ next_cluster
        → Located m off old
        → look_in (copy_from_slice m off src) cl ≡ next_cluster
    look_elsewhere m cl off old b e l =
        let start = cluster_start v.bpb cl in
        let other : cl ≢ l.cluster = λ q.
          let z : next_cluster ≡ found_at l.index old = sym e ∙ ap (look_in m) q ∙ l.stops in cc in
        let same =
          pieces_ext (cluster_size v.bpb / 32) (copy_from_slice m off src) m start λ a lo hi.
            copy_from_slice-outside m off src a
              (elim (clusters_apart v cl l.cluster a b.0 l.inside.0 other lo (omega arith)) [
                | inl before ↦ inl (omega (arith, l.place))
                | inr behind ↦ inr (omega (arith, l.place, l.within, slot.size))
              ]) in
        ap (search_chunks name_raw ext_raw 0) same ∙ e

    -- The place lies in the buffer, behind the FATs.
    pub find_in-place :
        (m : Memory) (cs : List ℕ) (off : ℕ) (old : Option DirEntry)
        → All (InBuffer v) cs
        → find_in m cs ≡ ok (some off, old)
        → (data_start_byte v.bpb ≤ off) × (off + 32 ≤ v.disk.len)
    find_in-place m cs off old b h =
        let l = find_in-Located m cs off old b h in
        (omega (arith, l.place), omega (arith, l.place, l.within, l.inside.1))

    again_from :
        (m : Memory) (cl : ℕ) (off : ℕ) (old : Option DirEntry) (rest rest' : Result Place)
        (r : Search)
        → InBuffer v cl
        → look_in m cl ≡ r
        → (rest ≡ ok (some off, old)
            → Located m off old × (rest' ≡ ok (some off, DirEntry.parse src)))
        → after_search (cluster_start v.bpb cl) rest r ≡ ok (some off, old)
        → after_search (cluster_start v.bpb cl) rest' (look_in (copy_from_slice m off src) cl)
          ≡ ok (some off, DirEntry.parse src)
    again_from m cl off old rest rest' end_of_dir b e ih h = cc
    again_from m cl off old rest rest' (found_at j parsed) b e ih h =
        let place : cluster_start v.bpb cl + j * 32 ≡ off = (place_inj h).0 in
        let found = (look_again m cl j parsed e).1 in
        let found' : look_in (copy_from_slice m off src) cl ≡ found_at j (DirEntry.parse src) =
          rw place at found in
        rw found' (ap (λ t. ok (some t, DirEntry.parse src)) place)
    again_from m cl off old rest rest' next_cluster b e ih h =
        let (l, found) = ih h in let passed = look_elsewhere m cl off old b e l in rw passed found

    pub find_again :
        (m : Memory) (cs : List ℕ) (off : ℕ) (old : Option DirEntry)
        → All (InBuffer v) cs
        → find_in m cs ≡ ok (some off, old)
        → find_in (copy_from_slice m off src) cs ≡ ok (some off, DirEntry.parse src)
    find_again m [] off old b h = absurd (not_in_nil m off old h)
    find_again m (cl ∷ cs) off old b h =
        find_step (copy_from_slice m off src) cl cs b.0
        ∙ again_from m cl off old (find_in m cs) (find_in (copy_from_slice m off src) cs)
            (look_in m cl) b.0 refl
            (λ q. (find_in-Located m cs off old b.1 q, find_again m cs off old b.1 q))
            (sym (find_step m cl cs b.0) ∙ h)
