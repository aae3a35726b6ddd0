-- ===== src/Fat32/Read/Safe.antt =====
-- Panics of listing, path resolution and file reading of fat32/src/lib.rs.
use the_heap.Prelude.{
  ℕ, ◌-◌, Option, none, some, if◌then◌else◌, List, [], ◌∷◌, ltb, ◌==◌, not, list_eq, take, min,
}
use the_heap.Fat32.Error.{
  ok, err, NoPanic, ◌>>=◌, >>=-NoPanic, if-NoPanic, option-NoPanic, ok_or-NoPanic, ok_or,
  not_a_file, not_a_directory, invalid_cluster, other, path_not_found,
}
use the_heap.Fat32.Text.{Text, slash, root_path, starts_with, split, non_empty, normalize_name}
use the_heap.Fat32.DirEntry.{DirEntry, is_dir, is_file}
use the_heap.Fat32.Volume.{Volume, read_cluster, follow_chain, max_chain, cluster_size}
use the_heap.Fat32.Volume.Safe.{read_cluster-NoPanic, follow_chain-NoPanic}
use the_heap.Fat32.Read.{
  list_clusters, list_dir_cluster, list_root, walk, open_path, list_dir_path, read_clusters,
  read_file, read_file_by_path, scan_chunks, full_chunks, find_entry,
}

list_clusters-NoPanic : (v : Volume) (cs : List ℕ) → NoPanic (list_clusters v cs)
unfolding list_clusters
list_clusters-NoPanic v [] = tt
list_clusters-NoPanic v (c ∷ cs) =
    >>=-NoPanic (read_cluster v c) _ (read_cluster-NoPanic v c) (λ bytes.
      let found = scan_chunks (full_chunks bytes) in
      if-NoPanic found.1 (ok found.0) _ tt
        (>>=-NoPanic (list_clusters v cs) _ (list_clusters-NoPanic v cs) (λ more. tt)))

list_dir_cluster-NoPanic : (v : Volume) (c : ℕ) → NoPanic (list_dir_cluster v c)
unfolding list_dir_cluster
list_dir_cluster-NoPanic v c =
    >>=-NoPanic (follow_chain v c max_chain) (list_clusters v) (follow_chain-NoPanic v c max_chain)
      (list_clusters-NoPanic v)

walk-NoPanic :
    (v : Volume) (c : ℕ) (last : Option DirEntry) (parts : List Text)
    → NoPanic (walk v c last parts)
unfolding walk
walk-NoPanic v c last [] = tt
walk-NoPanic v c last (part ∷ parts) =
    >>=-NoPanic (list_dir_cluster v c) _ (list_dir_cluster-NoPanic v c) (λ entries.
      option-NoPanic (find_entry (normalize_name part) entries) (ok none) _ tt
        (λ e. walk-NoPanic v e.first_cluster (some e) parts))

pub open_path-NoPanic : (v : Volume) (path : Text) → NoPanic (open_path v path)
unfolding open_path
open_path-NoPanic v path = if-NoPanic (not (starts_with path slash)) (err other) _ tt (
    if-NoPanic (list_eq path root_path) (ok none) _ tt
      (walk-NoPanic v v.root_cluster none (non_empty (split path slash))))

pub list_dir_path-NoPanic : (v : Volume) (path : Text) → NoPanic (list_dir_path v path)
unfolding list_dir_path list_root
list_dir_path-NoPanic v path =
    if-NoPanic (list_eq path root_path) (list_dir_cluster v v.root_cluster) _
      (list_dir_cluster-NoPanic v v.root_cluster)
      (>>=-NoPanic (open_path v path) _ (open_path-NoPanic v path) (λ found.
        >>=-NoPanic (ok_or found path_not_found) _ (ok_or-NoPanic found path_not_found) (λ entry.
          if-NoPanic (not (is_dir entry)) (err not_a_directory) _ tt
            (list_dir_cluster-NoPanic v entry.first_cluster))))

read_clusters-NoPanic : (v : Volume) (n : ℕ) (cs : List ℕ) → NoPanic (read_clusters v n cs)
unfolding read_clusters
read_clusters-NoPanic v n [] = tt
read_clusters-NoPanic v n (c ∷ cs) =
    >>=-NoPanic (read_cluster v c) _ (read_cluster-NoPanic v c) (λ cluster.
      let left = n - min n (cluster_size v.bpb) in
      if-NoPanic (left == 0) (ok (take (min n (cluster_size v.bpb)) cluster)) _ tt
        (>>=-NoPanic (read_clusters v left cs) _ (read_clusters-NoPanic v left cs) (λ more. tt)))

read_file-NoPanic : (v : Volume) (e : DirEntry) → NoPanic (read_file v e)
unfolding read_file
read_file-NoPanic v e = if-NoPanic (not (is_file e)) (err not_a_file) _ tt (
    if-NoPanic (e.size == 0) (ok []) _ tt (
      if-NoPanic (ltb e.first_cluster 2) (err invalid_cluster) _ tt (
        >>=-NoPanic (follow_chain v e.first_cluster max_chain) _
          (follow_chain-NoPanic v e.first_cluster max_chain) (read_clusters-NoPanic v e.size))))

found-NoPanic :
    (v : Volume) (e : DirEntry)
    → NoPanic
        (if not (is_file e) then err not_a_file else (do bytes ← read_file v e; ok (some bytes)))
found-NoPanic v e =
    if-NoPanic (not (is_file e)) (err not_a_file) _ tt
      (>>=-NoPanic (read_file v e) _ (read_file-NoPanic v e) (λ bytes. tt))

pub read_file_by_path-NoPanic : (v : Volume) (path : Text) → NoPanic (read_file_by_path v path)
unfolding read_file_by_path
read_file_by_path-NoPanic v path =
    >>=-NoPanic (open_path v path) _ (open_path-NoPanic v path)
      (λ found. option-NoPanic found (ok none) _ tt (found-NoPanic v))
