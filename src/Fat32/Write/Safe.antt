-- ===== src/Fat32/Write/Safe.antt =====
-- Panics of the searches of `Fat32Mut` of fat32/src/lib.rs, and of the names of its paths.
use the_heap.Prelude.{
  ℕ, zero, suc, ◌+◌, ◌-◌, ◌*◌, Bool-cases, inl, inr, Option, none, some, if◌then◌else◌, List, [],
  ◌∷◌, ltb, leb, ◌==◌, ◌||◌, not, list_eq, is_empty, length,
}
use the_heap.Fat32.Error.{
  Result, ok, err, NoPanic, >>=-NoPanic, if-NoPanic, option-NoPanic, ok_or-NoPanic, ok_or,
  not_a_directory, invalid_name, other, path_not_found,
}
use the_heap.Fat32.Text.{
  Text, slash, dot, root_path, split_parent, encode_bytes, split_extension, encode_short_name_8_3,
  trim_end_matches, rsplit_once, contains,
}
use the_heap.Fat32.DirEntry.{DirEntry, is_dir}
use the_heap.Fat32.Volume.{
  Volume, cluster_to_offset, follow_chain, max_chain, cluster_size, read_fat_entry,
}
use the_heap.Fat32.Volume.Safe.{
  cluster_to_offset-NoPanic, follow_chain-NoPanic, read_fat_entry-NoPanic,
}
use the_heap.Fat32.Read.{open_path, full_chunks}
use the_heap.Fat32.Read.Safe.{open_path-NoPanic}
use the_heap.Fat32.Write.{
  find_free, dir_cluster, find_in_clusters, find_dir_entry_offset_by_short_name, search_chunks,
  free_in_clusters, free_chunk, find_free_dir_entry_slot, parent_cluster, Search, end_of_dir,
  found_at, next_cluster,
}

pub find_free-NoPanic : (v : Volume) (n cl missing : ℕ) → NoPanic (find_free v n cl missing)
unfolding find_free
find_free-NoPanic v zero cl missing = tt
find_free-NoPanic v (suc n) cl missing =
    >>=-NoPanic (read_fat_entry v cl) _ (read_fat_entry-NoPanic v cl) (λ value.
      if-NoPanic (value == 0) _ _
        (if-NoPanic (missing == 1) (ok (cl ∷ [])) _ tt (
          >>=-NoPanic (find_free v n (cl + 1) (missing - 1)) _
            (find_free-NoPanic v n (cl + 1) (missing - 1)) (λ found. tt)))
        (find_free-NoPanic v n (cl + 1) missing))

dir_cluster-NoPanic : (v : Volume) (c : ℕ) → NoPanic (dir_cluster v c)
unfolding dir_cluster
dir_cluster-NoPanic v c =
    >>=-NoPanic (cluster_to_offset v c) _ (cluster_to_offset-NoPanic v c) (λ off.
      elim (Bool-cases (ltb v.disk.len (off + cluster_size v.bpb))) [
        | inl short ↦ rw short tt
        | inr long ↦ rw long tt
      ])

search-NoPanic :
    (start : ℕ) (rest : Result (Option ℕ × Option DirEntry)) (r : Search)
    → NoPanic rest
    → NoPanic {T = Option ℕ × Option DirEntry} (elim r [
      | end_of_dir ↦ ok (none, none)
      | found_at i parsed ↦ ok (some (start + i * 32), parsed)
      | next_cluster ↦ rest
    ])
search-NoPanic start rest end_of_dir h = tt
search-NoPanic start rest (found_at i parsed) h = tt
search-NoPanic start rest next_cluster h = h

find_in_clusters-NoPanic :
    (v : Volume) (n e : List ℕ) (cs : List ℕ) → NoPanic (find_in_clusters v n e cs)
unfolding find_in_clusters
find_in_clusters-NoPanic v n e [] = tt
find_in_clusters-NoPanic v n e (c ∷ cs) =
    >>=-NoPanic (dir_cluster v c) _ (dir_cluster-NoPanic v c) (λ at.
      search-NoPanic at.0 (find_in_clusters v n e cs) (search_chunks n e 0 (full_chunks at.1))
        (find_in_clusters-NoPanic v n e cs))

pub find_dir_entry_offset_by_short_name-NoPanic :
    (v : Volume) (dir : ℕ) (n e : List ℕ) → NoPanic (find_dir_entry_offset_by_short_name v dir n e)
unfolding find_dir_entry_offset_by_short_name
find_dir_entry_offset_by_short_name-NoPanic v dir n e =
    >>=-NoPanic (follow_chain v dir max_chain) (find_in_clusters v n e)
      (follow_chain-NoPanic v dir max_chain) (find_in_clusters-NoPanic v n e)

free_in_clusters-NoPanic : (v : Volume) (cs : List ℕ) → NoPanic (free_in_clusters v cs)
unfolding free_in_clusters
free_in_clusters-NoPanic v [] = tt
free_in_clusters-NoPanic v (c ∷ cs) =
    >>=-NoPanic (dir_cluster v c) _ (dir_cluster-NoPanic v c) (λ at.
      option-NoPanic (free_chunk 0 (full_chunks at.1)) (free_in_clusters v cs) _
        (free_in_clusters-NoPanic v cs) (λ slot. tt))

pub find_free_dir_entry_slot-NoPanic :
    (v : Volume) (dir : ℕ) → NoPanic (find_free_dir_entry_slot v dir)
unfolding find_free_dir_entry_slot
find_free_dir_entry_slot-NoPanic v dir =
    >>=-NoPanic (follow_chain v dir max_chain) (free_in_clusters v)
      (follow_chain-NoPanic v dir max_chain) (free_in_clusters-NoPanic v)

pub parent_cluster-NoPanic : (v : Volume) (parent : Text) → NoPanic (parent_cluster v parent)
unfolding parent_cluster
parent_cluster-NoPanic v parent = if-NoPanic (list_eq parent root_path) (ok v.root_cluster) _ tt (
    >>=-NoPanic (open_path v parent) _ (open_path-NoPanic v parent) (λ found.
      >>=-NoPanic (ok_or found path_not_found) _ (ok_or-NoPanic found path_not_found) (λ entry.
        if-NoPanic (not (is_dir entry)) (err not_a_directory) (ok entry.first_cluster) tt tt)))

pub split_parent-NoPanic : (path : Text) → NoPanic (split_parent path)
unfolding split_parent
split_parent-NoPanic path =
    let trimmed = trim_end_matches path slash in
    let split_at = if list_eq trimmed root_path then none else rsplit_once trimmed slash in
    >>=-NoPanic (ok_or split_at other) _ (ok_or-NoPanic split_at other)
      (λ p. if-NoPanic (is_empty p.1) (err other) (ok _) tt tt)

encode_bytes-NoPanic : (cs : Text) → NoPanic (encode_bytes cs)
unfolding encode_bytes
encode_bytes-NoPanic [] = tt
encode_bytes-NoPanic (c ∷ cs) =
    if-NoPanic (leb 128 c || (c == slash)) (err invalid_name) _ tt
      (>>=-NoPanic (encode_bytes cs) _ (encode_bytes-NoPanic cs) (λ r. tt))

pub encode_short_name_8_3-NoPanic : (name : Text) → NoPanic (encode_short_name_8_3 name)
unfolding encode_short_name_8_3
encode_short_name_8_3-NoPanic name =
    let p = split_extension name in
    if-NoPanic (is_empty p.0 || ltb 8 (length p.0) || ltb 3 (length p.1)) (err invalid_name) _ tt (
      if-NoPanic (contains p.0 dot || contains p.1 dot) (err invalid_name) _ tt (
        >>=-NoPanic (encode_bytes p.0) _ (encode_bytes-NoPanic p.0)
          (λ n. >>=-NoPanic (encode_bytes p.1) _ (encode_bytes-NoPanic p.1) (λ e. tt))))
