-- ===== src/Fat32/Write/Refuse.antt =====
-- The errors of `write_file_by_path` of fat32/src/lib.rs, and what they leave behind.
use the_heap.Prelude.{
  ℕ, zero, suc, ◌+◌, ◌-◌, ◌≤◌, ◌<◌, ◌≡◌, arith, List, length, All, inl, inr, ◌⊎◌, true, false, some,
  none, Option, ltb, leb, is_empty, ◌||◌, not, list_eq, refl, ◌∙◌, ◌*◌,
}
use the_heap.Bytes.{Memory}
use the_heap.Fat32.DirEntry.{DirEntry, is_dir}
use the_heap.Fat32.Error.{
  ok, err, FatError, other, not_a_file, no_space_left, invalid_name, path_not_found,
  not_a_directory, ◌>>=◌,
}
use the_heap.Fat32.Read.{open_path}
use the_heap.Fat32.Text.{
  split_parent, split_extension, encode_short_name_8_3, Text, slash, root_path, starts_with,
}
use the_heap.Fat32.Volume.{
  Volume, cluster_size, fat_bytes_len, eoc_min, max_chain, max_cluster_number,
}
use the_heap.Fat32.Volume.Bounds.{max_cluster_number-Limits}
use the_heap.Fat32.Volume.Chain.{IsChain}
use the_heap.Fat32.Write.{
  parent_cluster, find_dir_entry_offset_by_short_name, release_existing, store_content,
  write_file_by_path, with_bytes, div_ceil,
}
use the_heap.Fat32.Write.Allocate.{alloc_chain-Allocated}
use the_heap.Fat32.Write.Effect.{failed}
use the_heap.Fat32.Write.Find.{count_free}
use the_heap.Fat32.Write.Plan.{Target, target, IsFilePath, write_file_by_path-target}
use the_heap.Fat32.Write.Release.{Cleared, free_chain-Cleared}
use the_heap.Fat32.Write.Table.{InTable}
use the_heap.Fat32.Write.Store.{is_empty-pos}

-- A path of a file, with its parent and its name in the form of the disk.
pub record Parsed (path parent : Text) (raw : List ℕ × List ℕ) : Type 0 where
  pub file : IsFilePath path
  pub name : Text
  pub split : split_parent path ≡ ok (parent, name)
  pub encoded : encode_short_name_8_3 name ≡ ok raw

-- The directory that a parent names: the root, or an entry that is a directory.
abbrev pub IsParent : Volume → Text → ℕ → Type 0
IsParent v parent dir =
    ((list_eq parent root_path ≡ true) × (dir ≡ v.root_cluster))
    ⊎ ((d : DirEntry) × (list_eq parent root_path ≡ false)
        × (open_path v parent ≡ ok (some d))
        × (is_dir d ≡ true)
        × (dir ≡ d.first_cluster))

-- Nothing before the last dot, more than 8 characters there, or more than 3 behind it.
abbrev pub IsMisfit : Text → Type 0
IsMisfit name =
    (is_empty (split_extension name).0 ≡ true)
    ⊎ ((8 < length (split_extension name).0) ⊎ (3 < length (split_extension name).1))

-- Why a call is refused, with the error that the case has.
pub data Refused (path : Text) (v : Volume) : FatError → Type 0 where
  relative : starts_with path slash ≡ false → Refused path v other
  is_root : list_eq path root_path ≡ true → Refused path v other
  misfit :
      (parent name : Text)
      → IsFilePath path
      → split_parent path ≡ ok (parent, name)
      → IsMisfit name
      → Refused path v invalid_name
  missing_parent :
      (parent : Text) (raw : List ℕ × List ℕ)
      → Parsed path parent raw
      → list_eq parent root_path ≡ false
      → open_path v parent ≡ ok none
      → Refused path v path_not_found
  parent_is_file :
      (parent : Text) (raw : List ℕ × List ℕ) (d : DirEntry)
      → Parsed path parent raw
      → list_eq parent root_path ≡ false
      → open_path v parent ≡ ok (some d)
      → is_dir d ≡ false
      → Refused path v not_a_directory
  broken_parent :
      (parent : Text) (raw : List ℕ × List ℕ) (e : FatError)
      → Parsed path parent raw
      → list_eq parent root_path ≡ false
      → open_path v parent ≡ err e
      → Refused path v e
  broken_directory :
      (parent : Text) (raw : List ℕ × List ℕ) (dir : ℕ) (e : FatError)
      → Parsed path parent raw
      → IsParent v parent dir
      → find_dir_entry_offset_by_short_name v dir raw.0 raw.1 ≡ err e
      → Refused path v e
  is_directory :
      (parent : Text) (raw : List ℕ × List ℕ) (dir : ℕ) (off : Option ℕ) (d : DirEntry)
      → Parsed path parent raw
      → IsParent v parent dir
      → find_dir_entry_offset_by_short_name v dir raw.0 raw.1 ≡ ok (off, some d)
      → is_dir d ≡ true
      → Refused path v not_a_file

release_directory :
    (d : DirEntry) (v : Volume)
    → is_dir d ≡ true
    → release_existing (some d) v ≡ failed not_a_file v
unfolding release_existing
release_directory d v e = rw e refl

IsMisfit-encode : (name : Text) → IsMisfit name → encode_short_name_8_3 name ≡ err invalid_name
unfolding encode_short_name_8_3
IsMisfit-encode name bad =
    let p = split_extension name in
    let refused : (is_empty p.0 || ltb 8 (length p.0) || ltb 3 (length p.1)) ≡ true =
      ground (arith, bad) in
    rw refused refl

IsParent-parent_cluster :
    (v : Volume) (parent : Text) (dir : ℕ)
    → IsParent v parent dir
    → parent_cluster v parent ≡ ok dir
unfolding parent_cluster
IsParent-parent_cluster v parent dir (inl (root, e)) = rw (root, e) refl
IsParent-parent_cluster v parent dir (inr (d, below, found, is, e)) = rw (below, found, is, e) refl

-- A name that parses leaves the searches.
Parsed-target :
    (path parent : Text) (raw : List ℕ × List ℕ) (v : Volume)
    → Parsed path parent raw
    → target path v ≡ (do
      dir ← parent_cluster v parent
      found ← find_dir_entry_offset_by_short_name v dir raw.0 raw.1
      ok (record { dir = dir; name = raw; off = found.0; entry = found.1 }))
Parsed-target path parent raw v p = rw (p.split, p.encoded) refl

no_parent :
    (path parent : Text) (raw : List ℕ × List ℕ) (content : List ℕ) (v : Volume) (e : FatError)
    → Parsed path parent raw
    → parent_cluster v parent ≡ err e
    → write_file_by_path path content v ≡ failed e v
no_parent path parent raw content v e p h =
    let q : target path v ≡ err e = Parsed-target path parent raw v p ∙ rw h refl in
    write_file_by_path-target path content v p.file ∙ rw q refl

-- Where the path has no leading slash or is the root, the error is `Other`; a name with more than
-- 8 characters before its last dot, with none there, or with more than 3 behind it gives
-- `InvalidName`; a parent that is not there
-- `PathNotFound`, one that is no directory `NotADirectory`, one whose search fails the error of
-- the search; a directory whose search fails the error of that; and a directory in the place of
-- the file `NotAFile`. In each of these cases, for every content, `write_file_by_path` fails with
-- that error and the volume is untouched.
pub write_file_by_path-Refused :
    (path : Text) (content : List ℕ) (v : Volume) (e : FatError)
    → Refused path v e
    → write_file_by_path path content v ≡ failed e v
unfolding write_file_by_path parent_cluster
write_file_by_path-Refused path content v e (relative bad) =
    let prefix : (not (starts_with path slash) || list_eq path root_path) ≡ true = ground arith in
    rw prefix refl
write_file_by_path-Refused path content v e (is_root bad) =
    let prefix : (not (starts_with path slash) || list_eq path root_path) ≡ true = ground arith in
    rw prefix refl
write_file_by_path-Refused path content v e (misfit parent name file split bad) =
    let q : target path v ≡ err invalid_name = rw (split, IsMisfit-encode name bad) refl in
    write_file_by_path-target path content v file ∙ rw q refl
write_file_by_path-Refused path content v e (missing_parent parent raw p below none_there) =
    no_parent path parent raw content v path_not_found p (rw (below, none_there) refl)
write_file_by_path-Refused path content v e (parent_is_file parent raw d p below found file) =
    no_parent path parent raw content v not_a_directory p (rw (below, found, file) refl)
write_file_by_path-Refused path content v e (broken_parent parent raw why p below broken) =
    no_parent path parent raw content v why p (rw (below, broken) refl)
write_file_by_path-Refused path content v e (broken_directory parent raw dir why p is broken) =
    let q : target path v ≡ err why =
      Parsed-target path parent raw v p
      ∙ rw (IsParent-parent_cluster v parent dir is, broken) refl in
    write_file_by_path-target path content v p.file ∙ rw q refl
write_file_by_path-Refused path content v e (is_directory parent raw dir off d p is there dir_d) =
    let t : Target = record { dir = dir; name = raw; off = off; entry = some d } in
    let q : target path v ≡ ok t =
      Parsed-target path parent raw v p
      ∙ rw (IsParent-parent_cluster v parent dir is, there) refl in
    write_file_by_path-target path content v p.file ∙ rw (q, release_directory d v dir_d) refl

count_free-le : (v : Volume) (n cl : ℕ) → count_free v n cl ≤ n
unfolding count_free
count_free-le v zero cl = omega arith
count_free-le v (suc n) cl = let ih = count_free-le v n (cl + 1) in ground arith

-- The bound depends on the length of the buffer and the parameters only.
max_cluster_number_ext :
    (v : Volume) (m : Memory) → max_cluster_number (with_bytes v m) ≡ max_cluster_number v
unfolding max_cluster_number
max_cluster_number_ext v m = refl

store_too_much :
    (v : Volume) (content : List ℕ) (max_cl : ℕ)
    → 0 < v.num_fats
    → fat_bytes_len v.bpb ≤ 4 * eoc_min
    → max_cluster_number v ≡ ok max_cl
    → 0 < length content
    → max_cl - 1 < div_ceil (length content) (cluster_size v.bpb)
    → store_content content v ≡ failed no_space_left v
unfolding store_content
store_too_much v content max_cl fats small known pos much =
    let needed = div_ceil (length content) (cluster_size v.bpb) in
    let some_content : is_empty content ≡ false = is_empty-pos content pos in
    let few = count_free-le v (max_cl - 1) 2 in
    elim (alloc_chain-Allocated v max_cl fats small known needed (omega arith)) [
      | inl (lt, e) ↦ rw (some_content, e) refl
      | inr (enough, _, _, _, _) ↦ absurd (omega arith)
    ]

-- The old file is lost where the new content is too large. With a FAT or more, FATs of fewer
-- entries than there are cluster numbers, and a file's entry at the path whose chain has at most
-- 4096 clusters, each with its entry inside a FAT: where the content needs more clusters than
-- the volume has, `write_file_by_path` fails with `NoSpaceLeft`, every cluster of the old chain
-- is free then, and no byte behind the FATs changed, so that the directory entry still points
-- there.
pub write_file_by_path-Cleared :
    (v : Volume) (path : Text) (content : List ℕ) (t : Target) (d : DirEntry) (cs : List ℕ)
    (max_cl : ℕ)
    → 0 < v.num_fats
    → fat_bytes_len v.bpb ≤ 4 * eoc_min
    → max_cluster_number v ≡ ok max_cl
    → IsFilePath path
    → target path v ≡ ok t
    → t.entry ≡ some d
    → is_dir d ≡ false
    → 2 ≤ d.first_cluster
    → IsChain v d.first_cluster cs
    → length cs ≤ max_chain
    → All (InTable v) cs
    → 0 < length content
    → max_cl - 1 < div_ceil (length content) (cluster_size v.bpb)
    → (m : Memory) × (write_file_by_path path content v ≡ failed no_space_left (with_bytes v m))
      × Cleared v cs m
unfolding release_existing
write_file_by_path-Cleared v path content t d cs max_cl fats small known file found some_d plain lo
      chain short inside pos much =
    let limits = max_cluster_number-Limits v max_cl known in
    let (m, e, c) =
      free_chain-Cleared v d.first_cluster cs (omega (arith, limits.data_lt)) fats lo chain short
        inside in
    let has_chain : leb 2 d.first_cluster ≡ true = ground arith in
    let full =
      store_too_much (with_bytes v m) content max_cl fats small (max_cluster_number_ext v m ∙ known)
        pos much in
    (
      m,
      write_file_by_path-target path content v file
          ∙ rw (found, some_d, plain, has_chain, e, full) refl,
      c,
    )
