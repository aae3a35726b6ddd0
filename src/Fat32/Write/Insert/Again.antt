-- ===== src/Fat32/Write/Insert/Again.antt =====
-- `add_entry`: an entry written to the free slot is found there.
use the_heap.Prelude.{
  ℕ, ◌+◌, ◌-◌, ◌*◌, ◌/◌, ◌≤◌, ◌<◌, ◌≡◌, ◌≢◌, sym, ap, ◌∙◌, arith, ◌⊎◌, inl, inr, Bool, Option, none,
  some, List, [], ◌∷◌, All, Option-cases,
}
use the_heap.Bytes.{Memory, slice}
use the_heap.Fat32.DirEntry
use the_heap.Fat32.DirEntry.{DirEntry}
use the_heap.Fat32.Error.{Result, ok}
use the_heap.Fat32.Volume.{Volume, cluster_size, cluster_start}
use the_heap.Fat32.Write.{Search, found_at, search_chunks}
use the_heap.Fat32.Write.Content.{InBuffer, clusters_apart}
use the_heap.Fat32.Write.Found.{Place, after_search, look_in, find_in, find_step}
use the_heap.Fat32.Write.Insert.{
  free_of, free_in, free_step, after_free, free_inj, FreeSlot, free_in-FreeSlot,
  Missed-after_search, not_in_nil,
}
use the_heap.Fat32.Write.Lookup.{pieces_ext, IsSlot}
use the_heap.Fat32.Write.Slot.{Missed, search_chunks-slot, search_chunks-full}

module _ (v : Volume) (name_raw ext_raw : List ℕ) (pos : 0 < cluster_size v.bpb) (src : List ℕ)
    (slot : IsSlot name_raw ext_raw src) (m k : Memory) (off stop : ℕ)
    (same : (a : ℕ) → (a < off) ⊎ (stop ≤ a) → k a ≡ m a) (written : slice k off 32 ≡ src) where
  abbrev look : Memory → ℕ → Search
  look = look_in v name_raw ext_raw pos

  abbrev find : Memory → List ℕ → Result Place
  find = find_in v name_raw ext_raw pos

  -- The slot's cluster.
  look_inserted :
      (cl j : ℕ) (was_end : Bool)
      → free_of v pos m cl ≡ some (j, was_end)
      → Missed (look m cl)
      → off ≡ cluster_start v.bpb cl + j * 32
      → look k cl ≡ found_at j (DirEntry.parse src)
  look_inserted cl j was_end free miss place =
      let e : cluster_start v.bpb cl + (j - 0) * 32 ≡ off = omega (arith, place) in
      let (_, _, found) =
        search_chunks-slot name_raw ext_raw src slot (cluster_size v.bpb / 32) 0 m k
          (cluster_start v.bpb cl) j was_end free miss
          (λ a lo lt. same a (inl (omega (arith, lt, place)))) (rw e written) in
      found

  -- A cluster before it.
  look_before :
      (cl : ℕ) (cs : List ℕ)
      → InBuffer v cl
      → free_of v pos m cl ≡ none
      → FreeSlot v pos m cs off stop
      → look k cl ≡ look m cl
  look_before cl cs b full l =
      let other : cl ≢ l.cluster = λ q.
        let z : ◌≡◌ {A = Option (ℕ × Bool)} none (some (l.index, l.was_end)) =
          sym full ∙ ap (free_of v pos m) q ∙ l.free in
        cc in
      ap (search_chunks name_raw ext_raw 0) (
        pieces_ext (cluster_size v.bpb / 32) k m (cluster_start v.bpb cl) λ a lo hi.
          same a (elim (clusters_apart v cl l.cluster a b.0 l.inside.0 other lo (omega arith)) [
            | inl before ↦ inl (omega (arith, l.place))
            | inr behind ↦ inr (omega (arith, l.end))
          ]))

  pub find_inserted :
      (cs : List ℕ) (was_end : Bool) (p : Option DirEntry)
      → All (InBuffer v) cs
      → free_in v pos m cs ≡ ok (off, was_end, stop)
      → find m cs ≡ ok (none, p)
      → find k cs ≡ ok (some off, DirEntry.parse src)
  find_inserted [] was_end p b free h = absurd (not_in_nil v pos m off stop was_end free)
  find_inserted (cl ∷ cs) was_end p b free h =
      let start = cluster_start v.bpb cl in
      let size = cluster_size v.bpb in
      let scan = free_step v pos m cl cs b.0 in
      let seek = find_step v name_raw ext_raw pos m cl cs b.0 in
      let again = find_step v name_raw ext_raw pos k cl cs b.0 in
      let miss = Missed-after_search start (find m cs) (look m cl) p (sym seek ∙ h) in
      elim (Option-cases (free_of v pos m cl)) [
        | inl full ↦
            let skip = scan ∙ ap (after_free start size (free_in v pos m cs)) full in
            let pass = search_chunks-full name_raw ext_raw src slot 0 _ full miss in
            let l = free_in-FreeSlot v pos m cs off stop was_end b.1 (sym skip ∙ free) in
            let found =
              find_inserted cs was_end p b.1 (sym skip ∙ free)
                (sym (seek ∙ ap (after_search start (find m cs)) pass) ∙ h) in
            again
            ∙ ap (after_search start (find k cs)) (look_before cl cs b.0 full l ∙ pass)
            ∙ found
        | inr ((j, is_end), e) ↦
            let here = scan ∙ ap (after_free start size (free_in v pos m cs)) e in
            let q = free_inj (sym free ∙ here) in
            again
            ∙ ap (after_search start (find k cs)) (look_inserted cl j is_end e miss q.0)
            ∙ ap (λ t. ok (some t, DirEntry.parse src)) (sym q.0)
      ]
