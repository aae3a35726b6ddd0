-- ===== src/Fat32/Read.antt =====
-- The reading operations of `Fat32` in fat32/src/lib.rs: listing a directory, resolving a path,
-- reading a file.
pub mod Safe
use the_heap.Prelude.{
  ℕ, zero, suc, ◌-◌, ◌/◌, min, Bool, true, false, not, Option, none, some, List, [], ◌∷◌, ◌++◌, ltb,
  ◌==◌, if◌then◌else◌, length, get_or, take, drop, list_eq,
}
use the_heap.Fat32.Error.{
  Result, ok, err, ◌>>=◌, ok_or, invalid_cluster, not_a_file, not_a_directory, path_not_found,
  other,
}
use the_heap.Fat32.Text.{Text, slash, root_path, starts_with, split, non_empty, normalize_name}
use the_heap.Fat32.DirEntry
use the_heap.Fat32.DirEntry.{DirEntry, is_dir, is_file}
use the_heap.Fat32.Volume.{Volume, max_chain, cluster_size, read_cluster, follow_chain}

-- The first `n` pieces of 32 bytes.
unfoldable pub chunks : ℕ → List ℕ → List (List ℕ)
chunks zero xs = []
chunks (suc n) xs = take 32 xs ∷ chunks n (drop 32 xs)

-- The pieces that `data.chunks(32)` gives the loops before their test `chunk.len() < 32`.
unfoldable pub full_chunks : List ℕ → List (List ℕ)
unfolding chunks
full_chunks bytes = chunks (length bytes / 32) bytes

abbrev pub push_some : Option DirEntry → List DirEntry → List DirEntry
push_some none es = es
push_some (some e) es = e ∷ es

-- One cluster of a directory: its entries, and `end_seen`.
unfoldable pub scan_chunks : List (List ℕ) → List DirEntry × Bool
scan_chunks [] = ([], false)
scan_chunks (c ∷ cs) =
    let rest = scan_chunks cs in
    if get_or c 0 0 == 0x00 then ([], true) else (push_some (DirEntry.parse c) rest.0, rest.1)

unfoldable pub list_clusters : Volume → List ℕ → Result (List DirEntry)
unfolding scan_chunks full_chunks
list_clusters v [] = ok []
list_clusters v (cl ∷ chain) = do
  bytes ← read_cluster v cl
  let found = scan_chunks (full_chunks bytes)
  let rest = (do more ← list_clusters v chain; ok (found.0 ++ more))
  if found.1 then ok found.0 else rest

unfoldable pub list_dir_cluster : Volume → ℕ → Result (List DirEntry)
unfolding list_clusters
list_dir_cluster v start_cluster = do
  chain ← follow_chain v start_cluster max_chain
  list_clusters v chain

unfoldable pub list_root : Volume → Result (List DirEntry)
unfolding list_dir_cluster
list_root v = list_dir_cluster v v.root_cluster

-- The inner loop of `open_path`: the first entry with the name.
unfoldable pub find_entry : Text → List DirEntry → Option DirEntry
find_entry target [] = none
find_entry target (e ∷ es) =
    let rest = find_entry target es in
    if list_eq (normalize_name e.name) target then some e else rest

-- The outer loop of `open_path`, with its variables `current_cluster` and `last_entry`.
unfoldable pub walk : Volume → ℕ → Option DirEntry → List Text → Result (Option DirEntry)
unfolding find_entry
walk v current_cluster last_entry [] = ok last_entry
walk v current_cluster last_entry (part ∷ parts) = do
  entries ← list_dir_cluster v current_cluster
  elim (find_entry (normalize_name part) entries) [
    | none ↦ ok none
    | some e ↦ walk v e.first_cluster (some e) parts
  ]

unfoldable pub open_path : Volume → Text → Result (Option DirEntry)
unfolding walk split non_empty
open_path v path =
    if not (starts_with path slash)
    then err other
    else if list_eq path root_path
    then ok none
    else walk v v.root_cluster none (non_empty (split path slash))

unfoldable pub list_dir_path : Volume → Text → Result (List DirEntry)
unfolding open_path list_root
list_dir_path v path = if list_eq path root_path then list_root v else do
  found ← open_path v path
  entry ← ok_or found path_not_found
  if not (is_dir entry) then err not_a_directory else list_dir_cluster v entry.first_cluster

-- The loop of `read_file`, with its variable `remaining`.
unfoldable pub read_clusters : Volume → ℕ → List ℕ → Result (List ℕ)
read_clusters v remaining [] = ok []
read_clusters v remaining (cl ∷ chain) = do
  cluster ← read_cluster v cl
  let piece = take (min remaining (cluster_size v.bpb)) cluster
  let left = remaining - min remaining (cluster_size v.bpb)
  let rest = (do more ← read_clusters v left chain; ok (piece ++ more))
  if left == 0 then ok piece else rest

unfoldable pub read_file : Volume → DirEntry → Result (List ℕ)
unfolding read_clusters
read_file v entry =
    if not (is_file entry)
    then err not_a_file
    else if entry.size == 0
    then ok []
    else if ltb entry.first_cluster 2
    then err invalid_cluster
    else (do chain ← follow_chain v entry.first_cluster max_chain; read_clusters v entry.size chain)

unfoldable pub read_file_by_path : Volume → Text → Result (Option (List ℕ))
unfolding open_path read_file
read_file_by_path v path = do
  found ← open_path v path
  elim found [
    | none ↦ ok none
    | some entry ↦
        if not (is_file entry)
        then err not_a_file
        else (do bytes ← read_file v entry; ok (some bytes))
  ]
