-- ===== src/Fat32/Write/Insert.antt =====
-- A new entry of a directory: `find_free_dir_entry_slot` of fat32/src/lib.rs over the clusters of
-- the directory, and the search for a name behind the write.
pub mod Again
use the_heap.Prelude.{
  ℕ, ◌+◌, ◌*◌, ◌/◌, ◌<◌, ◌≡◌, refl, sym, ap, ◌∙◌, ◌⊎◌, inl, inr, Bool, Option, none, some, List, [],
  ◌∷◌, All, Option-cases, ◌≤◌, arith,
}
use the_heap.Bytes.{Memory, slice}
use the_heap.Fat32.DirEntry
use the_heap.Fat32.DirEntry.{DirEntry}
use the_heap.Fat32.Error.{ok_inj, Result, ok, err, no_space_left}
use the_heap.Fat32.Read.{full_chunks}
use the_heap.Fat32.Volume.{Volume, cluster_size, cluster_start}
use the_heap.Fat32.Write.{
  with_bytes, Search, end_of_dir, found_at, next_cluster, free_chunk, free_in_clusters,
}
use the_heap.Fat32.Write.Content.{InBuffer, OutsideData}
use the_heap.Fat32.Write.Found.{Place, after_search}
use the_heap.Fat32.Write.Keep.{dir_cluster-InBuffer}
use the_heap.Fat32.Write.Lookup.{pieces, full_chunks-slice}
use the_heap.Fat32.Write.Slot.{Missed, free_chunk-lt}

abbrev pub Free : Type 0
Free = ℕ × Bool × ℕ

-- What the loop makes of the first free entry of a cluster.
abbrev pub after_free : ℕ → ℕ → Result Free → Option (ℕ × Bool) → Result Free
after_free start size rest (some (i, was_end)) = ok (start + i * 32, was_end, start + size)
after_free start size rest none = rest

after_free-elim :
    (start size : ℕ) (rest : Result Free) (r : Option (ℕ × Bool))
    → ◌≡◌ {A = Result Free}
        (elim r [ some (i, was_end) ↦ ok (start + i * 32, was_end, start + size) | none ↦ rest ])
        (after_free start size rest r)
after_free-elim start size rest none = refl
after_free-elim start size rest (some (i, was_end)) = refl

pub free_inj :
    {a b c d : ℕ} {p q : Bool}
    → ◌≡◌ {A = Result Free} (ok (a, p, c)) (ok (b, q, d))
    → (a ≡ b) × (c ≡ d)
free_inj {a} {b} {c} {d} {p} {q} h =
    let triple : ◌≡◌ {A = Free} (a, p, c) (b, q, d) = ok_inj h in
    (ap (λ t. t.0) triple, ap (λ t. t.2) triple)

pub Missed-after_search :
    (start : ℕ) (rest : Result Place) (r : Search) (p : Option DirEntry)
    → after_search start rest r ≡ ok (none, p)
    → Missed r
Missed-after_search start rest end_of_dir p h = tt
Missed-after_search start rest (found_at i q) p h =
    let pair : ◌≡◌ {A = Place} (some (start + i * 32), q) (none, p) = ok_inj h in
    let z : some (start + i * 32) ≡ none = ap (λ t. t.0) pair in cc
Missed-after_search start rest next_cluster p h = tt

module _ (v : Volume) (pos : 0 < cluster_size v.bpb) where
  -- The first free entry of a cluster, on a memory.
  abbrev pub free_of : Memory → ℕ → Option (ℕ × Bool)
  free_of m cl = free_chunk 0 (pieces (cluster_size v.bpb / 32) m (cluster_start v.bpb cl))

  abbrev pub free_in : Memory → List ℕ → Result Free
  free_in m cs = free_in_clusters (with_bytes v m) cs

  pub free_step :
      (m : Memory) (cl : ℕ) (cs : List ℕ)
      → InBuffer v cl
      → free_in m (cl ∷ cs)
        ≡ after_free (cluster_start v.bpb cl) (cluster_size v.bpb) (free_in m cs) (free_of m cl)
  unfolding free_in_clusters
  free_step m cl cs b =
      let start = cluster_start v.bpb cl in
      rw (dir_cluster-InBuffer v m cl pos b) (
        after_free-elim start (cluster_size v.bpb) (free_in m cs)
          (free_chunk 0 (full_chunks (slice m start (cluster_size v.bpb))))
        ∙ ap (λ t. after_free start (cluster_size v.bpb) (free_in m cs) (free_chunk 0 t))
            (full_chunks-slice m start (cluster_size v.bpb)))

  pub not_in_nil :
      (m : Memory) (off stop : ℕ) (was_end : Bool) → free_in m [] ≡ ok (off, was_end, stop) → ⊥
  unfolding free_in_clusters
  not_in_nil m off stop was_end h = cc

  -- The scan gives a slot, or there is no space.
  pub free_in-cases :
      (m : Memory) (cs : List ℕ)
      → All (InBuffer v) cs
      → (free_in m cs ≡ err no_space_left)
        ⊎ ((off : ℕ) × (was_end : Bool) × (stop : ℕ) × (free_in m cs ≡ ok (off, was_end, stop)))
  unfolding free_in_clusters
  free_in-cases m [] b = inl refl
  free_in-cases m (cl ∷ cs) b =
      let step = free_step m cl cs b.0 in
      let start = cluster_start v.bpb cl in
      let size = cluster_size v.bpb in
      elim (Option-cases (free_of m cl)) [
        | inl e ↦
            let skip = step ∙ ap (after_free start size (free_in m cs)) e in
            elim (free_in-cases m cs b.1) [
              | inl full ↦ inl (skip ∙ full)
              | inr (off, was_end, stop, q) ↦ inr (off, was_end, stop, skip ∙ q)
            ]
        | inr ((i, was_end), e) ↦ inr (
          start + i * 32,
          was_end,
          start + size,
          step ∙ ap (after_free start size (free_in m cs)) e,
        )
      ]

  -- The cluster with the slot.
  pub record FreeSlot (m : Memory) (cs : List ℕ) (off stop : ℕ) : Type 0 where
    pub cluster : ℕ
    pub index : ℕ
    pub was_end : Bool
    pub inside : InBuffer v cluster
    pub free : free_of m cluster ≡ some (index, was_end)
    pub place : off ≡ cluster_start v.bpb cluster + index * 32
    pub end : stop ≡ cluster_start v.bpb cluster + cluster_size v.bpb
    pub member : (a : ℕ) → All (OutsideData v a) cs → OutsideData v a cluster

  pub free_in-FreeSlot :
      (m : Memory) (cs : List ℕ) (off stop : ℕ) (was_end : Bool)
      → All (InBuffer v) cs
      → free_in m cs ≡ ok (off, was_end, stop)
      → FreeSlot m cs off stop
  free_in-FreeSlot m [] off stop was_end b h = absurd (not_in_nil m off stop was_end h)
  free_in-FreeSlot m (cl ∷ cs) off stop was_end b h =
      let step = free_step m cl cs b.0 in
      let start = cluster_start v.bpb cl in
      let size = cluster_size v.bpb in
      elim (Option-cases (free_of m cl)) [
        | inl e ↦
            let skip = step ∙ ap (after_free start size (free_in m cs)) e in
            let l = free_in-FreeSlot m cs off stop was_end b.1 (sym skip ∙ h) in
            record {
              cluster = l.cluster;
              index = l.index;
              was_end = l.was_end;
              inside = l.inside;
              free = l.free;
              place = l.place;
              end = l.end;
              member = λ a out. l.member a out.1;
            }
        | inr ((i, is_end), e) ↦
            let here = step ∙ ap (after_free start size (free_in m cs)) e in
            let q = free_inj (sym h ∙ here) in
            record {
              cluster = cl;
              index = i;
              was_end = is_end;
              inside = b.0;
              free = e;
              place = q.0;
              end = q.1;
              member = λ a out. out.0;
            }
      ]

  pub FreeSlot-room :
      (m : Memory) (cs : List ℕ) (off stop : ℕ)
      → FreeSlot m cs off stop
      → (off + 32 ≤ stop) × (stop ≤ v.disk.len)
  FreeSlot-room m cs off stop l =
      let lt =
        free_chunk-lt (cluster_size v.bpb / 32) 0 m (cluster_start v.bpb l.cluster) l.index
          l.was_end l.free in
      (omega (arith, lt, l.place, l.end), omega (arith, l.end, l.inside.1))
