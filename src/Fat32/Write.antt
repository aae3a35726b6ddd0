-- ===== src/Fat32/Write.antt =====
-- The writing operations of `Fat32Mut` in fat32/src/lib.rs. They change the buffer in place, so a
-- run keeps the volume also where it fails: what was written before an error stays written.
pub mod Effect
pub mod Table
pub mod Find
pub mod Link
pub mod Allocate
pub mod Release
pub mod Content
pub mod Keep
pub mod Store
pub mod Safe
pub mod Calm
pub mod Plan
pub mod Lookup
pub mod Found
pub mod Replace
pub mod Slot
pub mod Insert
pub mod Spot
pub mod Named
pub mod Put
pub mod Sibling
pub mod Stay
pub mod Listing
pub mod Steps
pub mod Wrote
pub mod Whole
pub mod ByPath
pub mod Refuse
use the_heap.Prelude.{
  ℕ, zero, suc, ◌+◌, ◌-◌, ◌*◌, ◌/◌, ◌%◌, ◌^◌, Bool, true, false, ◌&&◌, ◌||◌, not, Option, none,
  some, List, [], ◌∷◌, ltb, leb, ◌==◌, if◌then◌else◌, length, get_or, take, drop, is_empty, list_eq,
}
use the_heap.Bytes.{Memory, copy_from_slice, fill, slice, to_le_bytes}
use the_heap.Fat32.Error
use the_heap.Fat32.Error.{
  panic, FatError, Result, ok, err, ok_or, invalid_cluster, out_of_bounds, no_space_left, other,
  not_a_file, not_a_directory, path_not_found,
}
use the_heap.Fat32.Text.{Text, slash, root_path, starts_with, split_parent, encode_short_name_8_3}
use the_heap.Fat32.DirEntry
use the_heap.Fat32.DirEntry.{DirEntry, is_dir, entry_bytes, field}
use the_heap.Fat32.Volume.{
  read_range, Volume, fat32_eoc, max_chain, cluster_size, fat_start_byte, fat_bytes_len,
  cluster_to_offset, read_fat_entry, follow_chain, max_cluster_number,
}
use the_heap.Fat32.Read.{full_chunks, open_path}
use Effect.{Run, done, failed, panicked, Cmd, pure, fail, ◌>>=◌, ◌>>◌, reading}

-- `self.disk` with new bytes.
abbrev pub with_bytes : Volume → Memory → Volume
with_bytes v m = record v { disk = record (v.disk) { byte = m } }

-- A write to `self.disk[off..off + n]`, which panics where the range passes the buffer.
unfoldable pub write_range : ℕ → ℕ → (Memory → Memory) → Cmd (Unit {0})
write_range off n f v =
    if ltb v.disk.len (off + n) then panicked v else done tt (with_bytes v (f v.disk.byte))

-- Where the entry of a cluster stands in FAT number `i`.
abbrev pub fat_offset : Volume → ℕ → ℕ → ℕ
fat_offset v i cluster = fat_start_byte v.bpb + i * fat_bytes_len v.bpb + cluster * 4

-- The loop of `write_fat_entry_all` over the FATs from number `i` on.
unfoldable pub write_fats : ℕ → ℕ → ℕ → List ℕ → Cmd (Unit {0})
unfolding write_range
write_fats zero i cluster bytes v = done tt v
write_fats (suc n) i cluster bytes v =
    let off = fat_offset v i cluster in
    let rest = write_fats n (i + 1) cluster bytes in
    let store = write_range off 4 (λ m. copy_from_slice m off bytes) in
    if ltb v.disk.len (off + 4) then failed out_of_bounds v else (store >> rest) v

unfoldable pub write_fat_entry_all : ℕ → ℕ → Cmd (Unit {0})
unfolding write_fats to_le_bytes
write_fat_entry_all cluster value v =
    write_fats v.num_fats 0 cluster (to_le_bytes 4 (value % 2 ^ 28)) v

-- The loop of `free_chain`.
unfoldable pub clear_entries : List ℕ → Cmd (Unit {0})
clear_entries [] = pure tt
clear_entries (cl ∷ chain) = write_fat_entry_all cl 0 >> clear_entries chain

unfoldable pub free_chain : ℕ → Cmd (Unit {0})
unfolding clear_entries
free_chain start_cluster =
    if ltb start_cluster 2
    then pure tt
    else do chain ← reading (λ v. follow_chain v start_cluster max_chain); clear_entries chain

-- The scan of `alloc_chain`: `rounds` clusters from `cl` on are left to try, `missing` are still
-- needed (`needed - found.len()`, never zero here).
unfoldable pub find_free : Volume → ℕ → ℕ → ℕ → Result (List ℕ)
find_free v zero cl missing = ok []
find_free v (suc rounds) cl missing = Error.◌>>=◌ (read_fat_entry v cl) λ value.
    let last : Bool = missing == 1 in
    let taken = Error.◌>>=◌ (find_free v rounds (cl + 1) (missing - 1)) λ found. ok (cl ∷ found) in
    let skipped = find_free v rounds (cl + 1) missing in
    if value == 0 then (if last then ok (cl ∷ []) else taken) else skipped

-- The last loop of `alloc_chain`: each cluster points to the next, the last one ends the chain.
unfoldable pub link_chain : List ℕ → Cmd (Unit {0})
link_chain [] = pure tt
link_chain (c ∷ []) = write_fat_entry_all c fat32_eoc
link_chain (c ∷ d ∷ chain) = write_fat_entry_all c d >> link_chain (d ∷ chain)

-- The clusters 2, ..., `max_cl` are tried in order: `max_cl - 1` rounds.
unfoldable pub alloc_chain : ℕ → Cmd (List ℕ)
unfolding find_free link_chain
alloc_chain needed = if needed == 0 then pure [] else do
  max_cl ← reading max_cluster_number
  found ← reading (λ v. find_free v (max_cl - 1) 2 needed)
  if not (length found == needed) then fail no_space_left else (link_chain found >> pure found)

-- The loop of `write_chain_data`: `content` is what stands behind `pos` in the source.
unfoldable pub write_chain_data : List ℕ → List ℕ → Cmd (Unit {0})
unfolding write_range
write_chain_data [] content v = done tt v
write_chain_data (cl ∷ chain) content v =
    let cs = cluster_size v.bpb in
    let chunk = take cs content in
    let rest = drop cs content in
    elim (cluster_to_offset v cl) [
      | err e ↦ failed e v
      | panic ↦ panicked v
      | ok off ↦
          let copy = write_range off (length chunk) (λ m. copy_from_slice m off chunk) in
          let behind = off + length chunk in
          let left_over = cs - length chunk in
          let clear = write_range behind left_over (λ m. fill m behind left_over 0) in
          let more = write_chain_data chain rest in
          if ltb v.disk.len (off + cs)
          then failed out_of_bounds v
          else (copy >> (clear >> (if is_empty rest then pure tt else more))) v
    ]

-- How the search for a name ends in one cluster: at the end of the directory, at entry `i`, or
-- with the next cluster.
pub data Search : Type 0 where
  end_of_dir : Search
  found_at : ℕ → Option DirEntry → Search
  next_cluster : Search

unfoldable pub search_chunks : List ℕ → List ℕ → ℕ → List (List ℕ) → Search
search_chunks name_raw ext_raw i [] = next_cluster
search_chunks name_raw ext_raw i (c ∷ cs) =
    let rest = search_chunks name_raw ext_raw (i + 1) cs in
    if get_or c 0 0 == 0x00
    then end_of_dir
    else if get_or c 0 0 == 0xE5
    then rest
    else if list_eq (field c 0 8) name_raw && list_eq (field c 8 3) ext_raw
    then found_at i (DirEntry.parse c)
    else rest

-- The bytes of a cluster of a directory, and their offset.
unfoldable pub dir_cluster : Volume → ℕ → Result (ℕ × List ℕ)
unfolding read_range
dir_cluster v cl = Error.◌>>=◌ (cluster_to_offset v cl) λ off.
    let cs = cluster_size v.bpb in
    if ltb v.disk.len (off + cs)
    then err out_of_bounds
    else Error.◌>>=◌ (read_range v.disk off cs) λ bytes. ok (off, bytes)

unfoldable pub find_in_clusters :
    Volume → List ℕ → List ℕ → List ℕ → Result (Option ℕ × Option DirEntry)
unfolding dir_cluster search_chunks
find_in_clusters v name_raw ext_raw [] = ok (none, none)
find_in_clusters v name_raw ext_raw (cl ∷ chain) = Error.◌>>=◌ (dir_cluster v cl) λ at.
    elim (search_chunks name_raw ext_raw 0 (full_chunks at.1)) [
      | end_of_dir ↦ ok (none, none)
      | found_at i parsed ↦ ok (some (at.0 + i * 32), parsed)
      | next_cluster ↦ find_in_clusters v name_raw ext_raw chain
    ]

unfoldable pub find_dir_entry_offset_by_short_name :
    Volume → ℕ → List ℕ → List ℕ → Result (Option ℕ × Option DirEntry)
unfolding find_in_clusters
find_dir_entry_offset_by_short_name v dir_cluster name_raw ext_raw =
    Error.◌>>=◌ (follow_chain v dir_cluster max_chain)
      λ chain. find_in_clusters v name_raw ext_raw chain

-- The first free entry of a cluster, and whether it was an end marker.
unfoldable pub free_chunk : ℕ → List (List ℕ) → Option (ℕ × Bool)
free_chunk i [] = none
free_chunk i (c ∷ cs) =
    let rest = free_chunk (i + 1) cs in
    if get_or c 0 0 == 0x00
    then some (i, true)
    else if get_or c 0 0 == 0xE5
    then some (i, false)
    else rest

-- The offset of a free slot, whether it was an end marker, and the end of its cluster.
unfoldable pub free_in_clusters : Volume → List ℕ → Result (ℕ × Bool × ℕ)
unfolding dir_cluster free_chunk
free_in_clusters v [] = err no_space_left
free_in_clusters v (cl ∷ chain) = Error.◌>>=◌ (dir_cluster v cl) λ at.
    elim (free_chunk 0 (full_chunks at.1)) [
      | some (i, was_end) ↦ ok (at.0 + i * 32, was_end, at.0 + cluster_size v.bpb)
      | none ↦ free_in_clusters v chain
    ]

unfoldable pub find_free_dir_entry_slot : Volume → ℕ → Result (ℕ × Bool × ℕ)
unfolding free_in_clusters
find_free_dir_entry_slot v dir_cluster =
    Error.◌>>=◌ (follow_chain v dir_cluster max_chain) λ chain. free_in_clusters v chain

unfoldable pub write_dir_entry_at_offset : ℕ → List ℕ → List ℕ → ℕ → ℕ → Cmd (Unit {0})
unfolding write_range entry_bytes
write_dir_entry_at_offset offset name_raw ext_raw first_cluster size v =
    if ltb v.disk.len (offset + 32)
    then failed out_of_bounds v
    else write_range offset 32
        (λ m. copy_from_slice m offset (entry_bytes name_raw ext_raw first_cluster size)) v

unfoldable pub div_ceil : ℕ → ℕ → ℕ
div_ceil a b = if b == 0 then 0 else (a + b - 1) / b

-- The parent's cluster.
unfoldable pub parent_cluster : Volume → Text → Result ℕ
parent_cluster v parent_path =
    if list_eq parent_path root_path
    then ok v.root_cluster
    else Error.◌>>=◌ (open_path v parent_path) λ found.
      Error.◌>>=◌ (ok_or found path_not_found)
        λ entry. if not (is_dir entry) then err not_a_directory else ok entry.first_cluster

-- An existing entry gives its old chain back.
unfoldable pub release_existing : Option DirEntry → Cmd (Unit {0})
unfolding free_chain
release_existing none = pure tt
release_existing (some e) =
    if is_dir e
    then fail not_a_file
    else if leb 2 e.first_cluster
    then free_chain e.first_cluster
    else pure tt

-- `chain[0]`, an index out of range on an empty chain.
unfoldable pub first_of_chain : List ℕ → Cmd ℕ
first_of_chain [] = panicked
first_of_chain (c ∷ chain) = pure c

-- The content goes into a new chain, and its first cluster is the result.
unfoldable pub store_content : List ℕ → Cmd ℕ
unfolding alloc_chain write_chain_data first_of_chain div_ceil
store_content content = if is_empty content then pure 0 else do
  needed ← reading (λ v. ok (div_ceil (length content) (cluster_size v.bpb)))
  chain ← alloc_chain needed
  write_chain_data chain content
  first_of_chain chain

-- A new entry in a free slot; behind a former end marker the next entry gets the marker.
unfoldable pub add_entry : ℕ → List ℕ → List ℕ → ℕ → ℕ → Cmd (Unit {0})
unfolding find_free_dir_entry_slot write_dir_entry_at_offset write_range
add_entry dir_cluster name_raw ext_raw first_cluster size = do
  (free_off, was_end_marker, entry_end) ← reading (λ v. find_free_dir_entry_slot v dir_cluster)
  write_dir_entry_at_offset free_off name_raw ext_raw first_cluster size
  if was_end_marker && ltb (free_off + 32) entry_end
      then write_range (free_off + 32) 1 (λ m. copy_from_slice m (free_off + 32) (0x00 ∷ []))
      else pure tt

unfoldable pub put_entry : ℕ → Option ℕ → List ℕ → List ℕ → ℕ → ℕ → Cmd (Unit {0})
unfolding add_entry
put_entry dir_cluster (some off) name_raw ext_raw first_cluster size =
    write_dir_entry_at_offset off name_raw ext_raw first_cluster size
put_entry dir_cluster none name_raw ext_raw first_cluster size =
    add_entry dir_cluster name_raw ext_raw first_cluster size

unfoldable pub write_file_by_path : Text → List ℕ → Cmd (Unit {0})
unfolding parent_cluster find_dir_entry_offset_by_short_name release_existing store_content
    put_entry
write_file_by_path path content =
    if not (starts_with path slash) || list_eq path root_path then fail other else do
      (parent_path, file_name) ← reading (λ v. split_parent path)
      (name_raw, ext_raw) ← reading (λ v. encode_short_name_8_3 file_name)
      dir ← reading (λ v. parent_cluster v parent_path)
      (existing_off, existing_entry) ←
          reading (λ v. find_dir_entry_offset_by_short_name v dir name_raw ext_raw)
      release_existing existing_entry
      first_cluster ← store_content content
      put_entry dir existing_off name_raw ext_raw first_cluster (length content % 2 ^ 32)
