-- ===== src/Fat32/Write/Put/New.antt =====
-- `put_entry` for a name that the directory does not have: `add_entry` of fat32/src/lib.rs.
use the_heap.Prelude.{
  ℕ, ◌+◌, ◌^◌, ◌<◌, ◌≡◌, refl, sym, ap, ◌∙◌, arith, ◌⊎◌, inl, inr, Option, some, List, [], ◌∷◌, All,
  Bool, none, ltb, false, Bool-cases, ◌&&◌,
}
use the_heap.Bytes.{Memory, copy_from_slice}
use the_heap.Fat32.DirEntry.{DirEntry, entry_bytes}
use the_heap.Fat32.Write.Found.{Place}
use the_heap.Fat32.Error.{Result, ok_inj, ok, err, no_space_left}
use the_heap.Fat32.Volume.{Volume, cluster_size, data_start_byte}
use the_heap.Fat32.Write.{
  with_bytes, find_dir_entry_offset_by_short_name, find_free_dir_entry_slot, free_in_clusters,
  put_entry, Bool, none, add_entry, write_dir_entry_at_offset, failed, ltb, false,
}
use the_heap.Fat32.Write.Content.{OutsideData}
use the_heap.Fat32.Write.Effect.{done}
use the_heap.Fat32.Write.Found.{find_in}
use the_heap.Fat32.Write.Lookup.{IsSlot}
use the_heap.Fat32.Write.Replace.{
  IsDirectory, IsRawName, find-directory, entry_bytes-IsSlot, before_data-IsDirectory,
}
use the_heap.Fat32.Write.Insert.Again.{find_inserted}
use the_heap.Fat32.Write.Insert.{free_in-FreeSlot, FreeSlot, FreeSlot-room, free_in-cases}
use the_heap.Fat32.DirEntry.Entry.{parse-entry_bytes}
use the_heap.Fat32.Write.Put.{Placed, new_entry, find_free-directory}
use the_heap.Fat32.Write.Spot.{Spot, Slotted, Slotted-Piece, entry-Slotted, marker-Slotted}

not_there :
    {o : ℕ} {p q : Option DirEntry} → ◌≡◌ {A = Result Place} (ok (none, p)) (ok (some o, q)) → ⊥
not_there {o} {p} {q} h =
    let pair : ◌≡◌ {A = Place} (none, p) (some o, q) = ok_inj h in
    let z : ◌≡◌ {A = Option ℕ} none (some o) = ap (λ t. t.0) pair in cc

module _ (v : Volume) (dir : ℕ) (ds name_raw ext_raw : List ℕ) (first size : ℕ)
    (fats : 0 < v.num_fats) (pos : 0 < cluster_size v.bpb) (d : IsDirectory v dir ds)
    (r : IsRawName name_raw ext_raw) (first_lt : first < 2 ^ 32) (size_lt : size < 2 ^ 32) where
  abbrev src : List ℕ
  src = entry_bytes name_raw ext_raw first size

  src-IsSlot : IsSlot name_raw ext_raw src
  src-IsSlot = entry_bytes-IsSlot name_raw ext_raw first size r

  abbrev entry : DirEntry
  entry = new_entry name_raw ext_raw first size

  module _ (off stop : ℕ) (was_end : Bool) (p : Option DirEntry)
      (free : find_free_dir_entry_slot v dir ≡ ok (off, was_end, stop))
      (h : find_dir_entry_offset_by_short_name v dir name_raw ext_raw ≡ ok (none, p)) where
    slot_free : free_in_clusters v ds ≡ ok (off, was_end, stop)
    slot_free = sym (find_free-directory v dir ds d) ∙ free

    free_slot : FreeSlot v pos v.disk.byte ds off stop
    free_slot = free_in-FreeSlot v pos v.disk.byte ds off stop was_end d.data_inside slot_free

    free-Spot : Spot v off stop
    free-Spot = record {
      cluster = free_slot.cluster;
      index = free_slot.index;
      inside = free_slot.inside;
      place = free_slot.place;
      room = (FreeSlot-room v pos v.disk.byte ds off stop free_slot).0;
      end = omega (arith, free_slot.end);
    }

    inserted :
        (k : Memory)
        → Slotted v.disk.byte k src off stop
        → find_in v name_raw ext_raw pos k ds ≡ ok (some off, some entry)
    inserted k s =
        find_inserted v name_raw ext_raw pos src src-IsSlot v.disk.byte k off stop s.same s.written
          ds was_end p d.data_inside slot_free
          (sym (find-directory v dir ds name_raw ext_raw d) ∙ h)
        ∙ ap (λ t. ok (some off, t))
            (parse-entry_bytes name_raw ext_raw first size r.name r.ext r.used r.kept first_lt
              size_lt)

    Slotted-Placed :
        (k : Memory) → Slotted v.disk.byte k src off stop → Placed v dir ds name_raw ext_raw entry k
    Slotted-Placed k s =
        let l = free_slot in
        let outside = λ (a : ℕ) (out : (a < data_start_byte v.bpb) ⊎ All (OutsideData v a) ds).
          s.same a (elim out [
            | inl lo ↦ inl (omega (arith, lo, l.place))
            | inr away ↦ elim (l.member a away) [
              | inl before ↦ inl (omega (arith, before, l.place))
              | inr behind ↦ inr (omega (arith, behind, l.end))
            ]
          ]) in
        let kept = before_data-IsDirectory v k dir ds fats (λ a lt. outside a (inl lt)) d in
        record {
          off = off;
          found = find-directory (with_bytes v k) dir ds name_raw ext_raw kept ∙ inserted k s;
          outside = outside;
          replaced = λ o was there. absurd (not_there (sym h ∙ there));
          pieces =
              Slotted-Piece v name_raw ext_raw src v.disk.byte k off stop src-IsSlot free-Spot s;
        }

    add_entry-slot :
        (k : Memory) × (add_entry dir name_raw ext_raw first size v ≡ done tt (with_bytes v k))
        × Placed v dir ds name_raw ext_raw entry k
    unfolding add_entry write_dir_entry_at_offset
    add_entry-slot =
        let room = FreeSlot-room v pos v.disk.byte ds off stop free_slot in
        let inside : ltb v.disk.len (off + 32) ≡ false = ground (arith, room.0, room.1) in
        let k = copy_from_slice v.disk.byte off src in
        let s = entry-Slotted v.disk.byte src off stop src-IsSlot.size room.0 in
        elim (Bool-cases (was_end && ltb (off + 32) stop)) [
          | inl marks ↦ (
            copy_from_slice k (off + 32) (0x00 ∷ []),
            (let next : ltb v.disk.len (off + 32 + 1) ≡ false =
                  ground (arith, marks, room.0, room.1) in
                rw (free, inside, marks, next) refl),
            Slotted-Placed _ (marker-Slotted v.disk.byte k src off stop (ground (arith, marks)) s),
          )
          | inr no_mark ↦ (k, rw (free, inside, no_mark) refl, Slotted-Placed k s)
        ]

  pub put_entry-new :
      (p : Option DirEntry)
      → find_dir_entry_offset_by_short_name v dir name_raw ext_raw ≡ ok (none, p)
      → ((find_free_dir_entry_slot v dir ≡ err no_space_left)
          × (put_entry dir none name_raw ext_raw first size v ≡ failed no_space_left v))
        ⊎ ((m : Memory) × (put_entry dir none name_raw ext_raw first size v
              ≡ done tt (with_bytes v m))
            × Placed v dir ds name_raw ext_raw entry m)
  unfolding put_entry add_entry
  put_entry-new p h =
      let slots = find_free-directory v dir ds d in
      elim (free_in-cases v pos v.disk.byte ds d.data_inside) [
        | inl full ↦ inl (slots ∙ full, rw (slots ∙ full) refl)
        | inr (off, was_end, stop, e) ↦ inr (add_entry-slot off stop was_end p (slots ∙ e) h)
      ]
