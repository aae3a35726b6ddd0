-- ===== src/Fat32/Write/Put.antt =====
-- `put_entry`, the last part of `write_file_by_path` of fat32/src/lib.rs: over the old entry of the
-- name, or (in the module below) in a free slot.
pub mod New
use the_heap.Prelude.{
  ℕ, ◌+◌, ◌*◌, ◌^◌, ◌≤◌, ◌<◌, ◌≡◌, refl, sym, ap, ◌∙◌, arith, ◌⊎◌, inl, inr, Option, some, List, [],
  ◌∷◌, All, Bool, none, ltb, false, Bool-cases, ◌&&◌, ◌-◌, ◌/◌,
}
use the_heap.Bytes.{Memory, slice, copy_from_slice}
use the_heap.Bytes.Region.{copy_from_slice-outside, slice-copy_from_slice_apart, slice_ext}
use the_heap.Fat32.DirEntry.{DirEntry, full_name, from_byte, entry_bytes}
use the_heap.Fat32.Error.{ok, err, no_space_left}
use the_heap.Fat32.Volume.{Volume, cluster_size, cluster_start, data_start_byte, max_chain}
use the_heap.Fat32.Volume.Chain.{follow_chain-IsChain}
use the_heap.Fat32.Write.{
  with_bytes, find_dir_entry_offset_by_short_name, find_free_dir_entry_slot, free_in_clusters,
  put_entry, Search, end_of_dir, found_at, next_cluster, Bool, none, add_entry,
  write_dir_entry_at_offset, failed, ltb, false,
}
use the_heap.Fat32.Write.Content.{InBuffer, OutsideData}
use the_heap.Fat32.Write.Effect.{done}
use the_heap.Fat32.Write.Found.{
  after_search, look_in, find_in, find_step, look_again, place_inj, not_in_nil, find_in-place,
  Located,
}
use the_heap.Fat32.Write.Lookup.{IsSlot, slice_written}
use the_heap.Fat32.Write.Replace.{
  IsDirectory, IsRawName, find-directory, entry_bytes-IsSlot, write_dir_entry_at_offset-find,
  before_data-IsDirectory,
}
use the_heap.Fat32.Write.Insert.Again.{find_inserted}
use the_heap.Fat32.Write.Insert.{free_in-FreeSlot, FreeSlot, FreeSlot-room, free_in-cases}
use the_heap.Fat32.DirEntry.Entry.{parse-entry_bytes}
use the_heap.Fat32.Write.Named.{Named, SamePiece, search_chunks-Named}
use the_heap.Fat32.Write.Spot.{pieces_apart, Piece, Slotted-Piece}
use the_heap.Fat32.Write.Found.{find_in-Located}
use mathlib.Core.Path.{subst}

-- The entry that is written.
abbrev pub new_entry : List ℕ → List ℕ → ℕ → ℕ → DirEntry
new_entry name_raw ext_raw first size = record {
  name = full_name name_raw ext_raw;
  attrs = from_byte 0x20;
  first_cluster = first;
  size = size;
}

-- The entry is found in the directory, and nothing but the directory's data changed.
pub record Placed (v : Volume) (dir : ℕ) (ds name_raw ext_raw : List ℕ) (entry : DirEntry)
    (m : Memory) : Type 0 where
  pub off : ℕ
  pub found :
      find_dir_entry_offset_by_short_name (with_bytes v m) dir name_raw ext_raw
      ≡ ok (some off, some entry)
  pub outside :
      (a : ℕ) → (a < data_start_byte v.bpb) ⊎ All (OutsideData v a) ds → m a ≡ v.disk.byte a
  pub pieces :
      (x i : ℕ)
      → 2 ≤ x
      → (i + 1) * 32 ≤ cluster_size v.bpb
      → Piece name_raw ext_raw v.disk.byte m (cluster_start v.bpb x + i * 32)
  pub replaced :
      (o : ℕ) (old : Option DirEntry)
      → find_dir_entry_offset_by_short_name v dir name_raw ext_raw ≡ ok (some o, old)
      → (x i : ℕ) → 2 ≤ x
      → (i + 1) * 32 ≤ cluster_size v.bpb
      → SamePiece name_raw ext_raw v.disk.byte m (cluster_start v.bpb x + i * 32)

pub Search-cases :
    (r : Search)
    → (r ≡ end_of_dir)
      ⊎ (((i : ℕ) × (p : Option DirEntry) × (r ≡ found_at i p)) ⊎ (r ≡ next_cluster))
Search-cases end_of_dir = inl refl
Search-cases (found_at i p) = inr (inl (i, p, refl))
Search-cases next_cluster = inr (inr refl)

module _ (v : Volume) (name_raw ext_raw : List ℕ) (pos : 0 < cluster_size v.bpb) (src : List ℕ)
    (slot : IsSlot name_raw ext_raw src) where
  -- The place that the search finds is in one of the clusters.
  find_in-outside :
      (m : Memory) (cs : List ℕ) (off a : ℕ) (old : Option DirEntry)
      → All (InBuffer v) cs
      → find_in v name_raw ext_raw pos m cs ≡ ok (some off, old)
      → All (OutsideData v a) cs
      → (a < off) ⊎ (off + 32 ≤ a)
  find_in-outside m [] off a old b h out = absurd (not_in_nil v name_raw ext_raw pos m off old h)
  find_in-outside m (cl ∷ cs) off a old b h out =
      let start = cluster_start v.bpb cl in
      let rest = find_in v name_raw ext_raw pos m cs in
      let step = find_step v name_raw ext_raw pos m cl cs b.0 in
      elim (Search-cases (look_in v name_raw ext_raw pos m cl)) [
        | inl e ↦ let z = sym (step ∙ ap (after_search start rest) e) ∙ h in cc
        | inr (inl (j, p, e)) ↦
            let z = sym (step ∙ ap (after_search start rest) e) ∙ h in
            let place : start + j * 32 ≡ off = (place_inj z).0 in
            let fits = (look_again v name_raw ext_raw pos src slot m cl j p e).0 in
            elim out.0 [
              | inl before ↦ inl (omega (arith, before, place))
              | inr behind ↦ inr (omega (arith, behind, place, fits))
            ]
        | inr (inr e) ↦
            find_in-outside m cs off a old b.1 (sym (step ∙ ap (after_search start rest) e) ∙ h)
              out.1
      ]

pub find_free-directory :
    (v : Volume) (dir : ℕ) (ds : List ℕ)
    → IsDirectory v dir ds
    → find_free_dir_entry_slot v dir ≡ free_in_clusters v ds
unfolding find_free_dir_entry_slot
find_free-directory v dir ds d =
    rw (follow_chain-IsChain v dir max_chain ds d.start d.chain d.short) refl

module _ (v : Volume) (dir : ℕ) (ds name_raw ext_raw : List ℕ) (first size : ℕ)
    (fats : 0 < v.num_fats) (pos : 0 < cluster_size v.bpb) (d : IsDirectory v dir ds)
    (r : IsRawName name_raw ext_raw) (first_lt : first < 2 ^ 32) (size_lt : size < 2 ^ 32) where
  abbrev pub src : List ℕ
  src = entry_bytes name_raw ext_raw first size

  pub src-IsSlot : IsSlot name_raw ext_raw src
  src-IsSlot = entry_bytes-IsSlot name_raw ext_raw first size r

  abbrev pub entry : DirEntry
  entry = new_entry name_raw ext_raw first size

  overwritten-SamePiece :
      (m : Memory) (off : ℕ) (old : Option DirEntry)
      → Located v name_raw ext_raw pos v.disk.byte off old
      → slice m off 32 ≡ src
      → ((a : ℕ) → (a < off) ⊎ (off + 32 ≤ a) → m a ≡ v.disk.byte a)
      → (x i : ℕ) → 2 ≤ x
      → (i + 1) * 32 ≤ cluster_size v.bpb
      → SamePiece name_raw ext_raw v.disk.byte m (cluster_start v.bpb x + i * 32)
  overwritten-SamePiece m off old l bytes same x i lo fits =
      let q = cluster_start v.bpb x + i * 32 in
      elim (pieces_apart v x l.cluster i l.index lo l.inside.0 fits l.within) [
        | inl before ↦ inl (
            slice_ext m v.disk.byte q 32
              (λ a from to. same a (inl (omega (arith, to, before, l.place)))))
        | inr (inl here) ↦
            let at_off : off ≡ q = omega (arith, here, l.place) in
            let at_index : cluster_start v.bpb l.cluster + (l.index - 0) * 32 ≡ q =
              omega (arith, here) in
            inr (
              subst (λ a. Named name_raw ext_raw (slice v.disk.byte a 32)) at_index
                  (search_chunks-Named name_raw ext_raw (cluster_size v.bpb / 32) 0 l.index
                    v.disk.byte (cluster_start v.bpb l.cluster) old l.stops),
              subst (λ a. Named name_raw ext_raw (slice m a 32)) at_off
                  (subst (Named name_raw ext_raw) (sym bytes)
                    (src-IsSlot.used, src-IsSlot.kept, src-IsSlot.named)),
            )
        | inr (inr behind) ↦ inl (
            slice_ext m v.disk.byte q 32
              (λ a from to. same a (inr (omega (arith, from, behind, l.place)))))
      ]

  pub put_entry-existing :
      (off : ℕ) (old : Option DirEntry)
      → find_dir_entry_offset_by_short_name v dir name_raw ext_raw ≡ ok (some off, old)
      → (m : Memory) × (put_entry dir (some off) name_raw ext_raw first size v
          ≡ done tt (with_bytes v m))
        × Placed v dir ds name_raw ext_raw entry m
  unfolding put_entry
  put_entry-existing off old h =
      let (m, e, found, bytes, same) =
        write_dir_entry_at_offset-find v dir ds name_raw ext_raw off old first size fats pos d r
          first_lt size_lt h in
      let here = sym (find-directory v dir ds name_raw ext_raw d) ∙ h in
      let place =
        find_in-place v name_raw ext_raw pos src src-IsSlot v.disk.byte ds off old d.data_inside
          here in
      let l =
        find_in-Located v name_raw ext_raw pos src src-IsSlot v.disk.byte ds off old d.data_inside
          here in
      (
        m,
        e,
        record {
          off = off;
          found = found;
          outside = λ a out. same a (elim out [
            | inl lo ↦ inl (omega (arith, lo, place.0))
            | inr away ↦
                find_in-outside v name_raw ext_raw pos src src-IsSlot v.disk.byte ds off a old
                  d.data_inside here away
          ]);
          replaced = λ o was _. overwritten-SamePiece m off old l bytes same;
          pieces =
              Slotted-Piece v name_raw ext_raw src v.disk.byte m off (off + 32) src-IsSlot
                (record {
                  cluster = l.cluster;
                  index = l.index;
                  inside = l.inside;
                  place = l.place;
                  room = omega arith;
                  end = omega (arith, l.place, l.within);
                })
                (record {
                  same = same;
                  written = bytes;
                  mark = inl (same (off + 32) (inr (omega arith)));
                  tail = λ a hi. same a (inr (omega (arith, hi)));
                });
        },
      )
