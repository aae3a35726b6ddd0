-- ===== src/Fat32/Write/Replace.antt =====
-- A directory entry that is written again: the search of fat32/src/lib.rs by which the writing side
-- finds an entry, behind `write_dir_entry_at_offset`.
use the_heap.Prelude.{
  get_or-append_head, ℕ, ◌+◌, ◌^◌, ◌≤◌, ◌<◌, ◌≡◌, ◌≢◌, refl, sym, ap, ◌∙◌, arith, ◌⊎◌, inl, inr,
  true, false, Option, some, List, ◌++◌, length, get_or, take, drop, list_eq_refl, All, ltb,
  length-append, take-append, drop-append, All-map,
}
use the_heap.Bytes.{Memory, copy_from_slice, slice}
use the_heap.Bytes.Region.{copy_from_slice-outside}
use the_heap.Fat32.DirEntry.{DirEntry, field, entry_bytes, full_name, from_byte}
use the_heap.Fat32.DirEntry.Entry.{parse-entry_bytes}
use the_heap.Fat32.Error.{ok}
use the_heap.Fat32.Volume.{Volume, cluster_size, max_chain, data_start_byte, read_fat_entry}
use the_heap.Fat32.Volume.Chain.{IsChain, follow_chain-IsChain}
use the_heap.Fat32.Write.{
  with_bytes, find_dir_entry_offset_by_short_name, find_in_clusters, write_dir_entry_at_offset,
}
use the_heap.Fat32.Write.Content.{InBuffer}
use the_heap.Fat32.Write.Effect.{done}
use the_heap.Fat32.Write.Found.{find_again, find_in-place}
use the_heap.Fat32.Write.Lookup.{IsSlot, matches, slice_written}
use the_heap.Fat32.Write.Keep.{read_fat_entry_ext, IsChain-ext}
use the_heap.Fat32.Write.Table.{InTable}
use mathlib.Core.Path.{subst}

-- A short name as it stands on the disk, of an entry that is in use.
pub record IsRawName (name_raw ext_raw : List ℕ) : Type 0 where
  pub name : length name_raw ≡ 8
  pub ext : length ext_raw ≡ 3
  pub used : get_or name_raw 0 0 ≢ 0x00
  pub kept : get_or name_raw 0 0 ≢ 0xE5

append-matches :
    (name_raw ext_raw rest : List ℕ)
    → IsRawName name_raw ext_raw
    → matches name_raw ext_raw (name_raw ++ (ext_raw ++ rest)) ≡ true
append-matches name_raw ext_raw rest r =
    let name : field (name_raw ++ (ext_raw ++ rest)) 0 8 ≡ name_raw =
      subst (λ t. take t (name_raw ++ (ext_raw ++ rest)) ≡ name_raw) r.name
        (take-append name_raw (ext_raw ++ rest)) in
    let behind : drop 8 (name_raw ++ (ext_raw ++ rest)) ≡ ext_raw ++ rest =
      subst (λ t. drop (t + 0) (name_raw ++ (ext_raw ++ rest)) ≡ ext_raw ++ rest) r.name
        (drop-append name_raw (ext_raw ++ rest) 0) in
    let ext : take 3 (ext_raw ++ rest) ≡ ext_raw =
      subst (λ t. take t (ext_raw ++ rest) ≡ ext_raw) r.ext (take-append ext_raw rest) in
    rw (name, behind, ext, list_eq_refl name_raw, list_eq_refl ext_raw) refl

IsSlot-append :
    (name_raw ext_raw rest : List ℕ)
    → IsRawName name_raw ext_raw
    → length rest ≡ 21
    → IsSlot name_raw ext_raw (name_raw ++ (ext_raw ++ rest))
IsSlot-append name_raw ext_raw rest r n =
    let head = get_or-append_head name_raw (ext_raw ++ rest) 0 (omega (arith, r.name)) in
    record {
      size = omega (
        arith,
        length-append name_raw (ext_raw ++ rest),
        length-append ext_raw rest,
        r.name,
        r.ext,
      );
      used = rw head (ground (arith, r.used));
      kept = rw head (ground (arith, r.kept));
      named = append-matches name_raw ext_raw rest r;
    }

pub entry_bytes-IsSlot :
    (name_raw ext_raw : List ℕ) (first size : ℕ)
    → IsRawName name_raw ext_raw
    → IsSlot name_raw ext_raw (entry_bytes name_raw ext_raw first size)
unfolding entry_bytes
entry_bytes-IsSlot name_raw ext_raw first size r = IsSlot-append name_raw ext_raw _ r refl

-- The directory's clusters, from `dir` on, with their entries in the FAT and their data in the
-- buffer.
pub record IsDirectory (v : Volume) (dir : ℕ) (cs : List ℕ) : Type 0 where
  pub start : 2 ≤ dir
  pub chain : IsChain v dir cs
  pub short : length cs ≤ max_chain
  pub entries : All (InTable v) cs
  pub data_inside : All (InBuffer v) cs

pub find-directory :
    (v : Volume) (dir : ℕ) (cs name_raw ext_raw : List ℕ)
    → IsDirectory v dir cs
    → find_dir_entry_offset_by_short_name v dir name_raw ext_raw
      ≡ find_in_clusters v name_raw ext_raw cs
unfolding find_dir_entry_offset_by_short_name
find-directory v dir cs name_raw ext_raw d =
    rw (follow_chain-IsChain v dir max_chain cs d.start d.chain d.short) refl

pub IsDirectory-with_bytes :
    (v : Volume) (m : Memory) (dir : ℕ) (cs : List ℕ)
    → All (λ d. read_fat_entry (with_bytes v m) d ≡ read_fat_entry v d) cs
    → IsDirectory v dir cs
    → IsDirectory (with_bytes v m) dir cs
IsDirectory-with_bytes v m dir cs same d = record {
  start = d.start;
  chain = IsChain-ext v v.disk.byte m dir cs same d.chain;
  short = d.short;
  entries = d.entries;
  data_inside = d.data_inside;
}

-- No byte before the data area changed.
pub before_data-IsDirectory :
    (v : Volume) (m : Memory) (dir : ℕ) (cs : List ℕ)
    → 0 < v.num_fats
    → ((a : ℕ) → a < data_start_byte v.bpb → m a ≡ v.disk.byte a)
    → IsDirectory v dir cs
    → IsDirectory (with_bytes v m) dir cs
before_data-IsDirectory v m dir cs fats same d =
    IsDirectory-with_bytes v m dir cs
      (All-map cs (λ c inside. read_fat_entry_ext v v.disk.byte m c fats inside same) d.entries) d

-- In a directory whose clusters lie in the volume, with a FAT or more: where the search finds a
-- place for a raw name of 8 and 3 bytes that is in use, writing an entry with that name there is
-- done, the search then ends at the same place with the entry written, as a file with the given
-- cluster and size, the 32 bytes of the place are the entry's, and no other byte changed.
pub write_dir_entry_at_offset-find :
    (v : Volume) (dir : ℕ) (cs name_raw ext_raw : List ℕ) (off : ℕ) (old : Option DirEntry)
    (first size : ℕ)
    → 0 < v.num_fats
    → 0 < cluster_size v.bpb
    → IsDirectory v dir cs
    → IsRawName name_raw ext_raw
    → first < 2 ^ 32
    → size < 2 ^ 32
    → find_dir_entry_offset_by_short_name v dir name_raw ext_raw ≡ ok (some off, old)
    → (m : Memory) × (write_dir_entry_at_offset off name_raw ext_raw first size v
        ≡ done tt (with_bytes v m))
      × (find_dir_entry_offset_by_short_name (with_bytes v m) dir name_raw ext_raw
          ≡ ok (
            some off,
            some (record {
              name = full_name name_raw ext_raw;
              attrs = from_byte 0x20;
              first_cluster = first;
              size = size;
            }),
          ))
      × (slice m off 32 ≡ entry_bytes name_raw ext_raw first size)
      × ((a : ℕ) → (a < off) ⊎ (off + 32 ≤ a) → m a ≡ v.disk.byte a)
unfolding write_dir_entry_at_offset
write_dir_entry_at_offset-find v dir cs name_raw ext_raw off old first size fats pos d r lc ls h =
    let src = entry_bytes name_raw ext_raw first size in
    let slot = entry_bytes-IsSlot name_raw ext_raw first size r in
    let found = sym (find-directory v dir cs name_raw ext_raw d) ∙ h in
    let place =
      find_in-place v name_raw ext_raw pos src slot v.disk.byte cs off old d.data_inside found in
    let m = copy_from_slice v.disk.byte off src in
    let again =
      find_again v name_raw ext_raw pos src slot v.disk.byte cs off old d.data_inside found in
    let outside = λ (a : ℕ) (out : (a < off) ⊎ (off + 32 ≤ a)).
      copy_from_slice-outside v.disk.byte off src a
        (elim out [ inl lo ↦ inl lo | inr hi ↦ inr (omega (arith, slot.size)) ]) in
    let kept =
      before_data-IsDirectory v m dir cs fats (λ a lt. outside a (inl (omega (arith, place.0))))
        d in
    let room : ltb v.disk.len (off + 32) ≡ false = ground (arith, place.1) in
    (
      m,
      rw room refl,
      find-directory (with_bytes v m) dir cs name_raw ext_raw kept
          ∙ again
          ∙ ap (λ t. ok (some off, t))
              (parse-entry_bytes name_raw ext_raw first size r.name r.ext r.used r.kept lc ls),
      slice_written v.disk.byte off src slot.size,
      outside,
    )
