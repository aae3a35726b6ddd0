-- ===== src/Fat32/Write/ByPath.antt =====
-- `write_file_by_path` and `read_file_by_path` of fat32/src/lib.rs on the same path, of a file in the
-- root directory.
use the_heap.Prelude.{
  ℕ, zero, suc, ◌+◌, ◌*◌, ◌≤◌, ◌<◌, ◌≡◌, refl, sym, ap, ◌∙◌, inl, inr, arith, true, not, Option,
  none, some, List, [], ◌∷◌, ◌==◌, Bool-cases, if◌then◌else◌, list_eq_refl, All, ◌≢◌, length, ◌^◌,
  ◌-◌, ◌⊎◌,
}
use mathlib.Core.Path.{subst}
use the_heap.Bytes.{Memory}
use the_heap.Fat32.DirEntry.{DirEntry, is_file, full_name}
use the_heap.Fat32.Error.{ok, err, Result, not_a_file, ◌>>=◌, ok_inj, no_space_left}
use the_heap.Fat32.Read.{
  read_file, read_file_by_path, open_path, walk, list_dir_cluster, find_entry,
}
use the_heap.Fat32.Text.{
  Text, slash, encode_short_name_8_3, normalize_name, trim_end_matches, dot, split_extension, space,
}
use the_heap.Fat32.Text.Paths.{
  IsComponent, split_parent-component, split-component, list_eq-root, normalize_name-normalize_name,
}
use the_heap.Fat32.Volume.{
  Volume, fat_bytes_len, eoc_min, max_cluster_number, cluster_size, max_chain,
}
use the_heap.Fat32.Write.{
  with_bytes, parent_cluster, find_dir_entry_offset_by_short_name, length, div_ceil,
  find_free_dir_entry_slot, write_file_by_path, done,
}
use the_heap.Fat32.Write.Find.{count_free, fat_value, read_fat_entry-fat_value}
use the_heap.Fat32.Write.Plan.{target, Target}
use the_heap.Fat32.Write.Release.{Cleared}
use the_heap.Fat32.Write.Table.{InTable, TablesFit}
use the_heap.Fat32.Write.Listing.Written.{CanonicalDirectory}
use the_heap.Fat32.Write.Listing.{Answers}
use the_heap.Fat32.Write.Whole.{write_file_by_path-Wrote}
use the_heap.Fat32.Write.Wrote.{Wrote}
use the_heap.Fat32.Write.Replace.{IsRawName, IsDirectory}
use the_heap.Fat32.Write.Steps.{OldChain}
use the_heap.Fat32.Text.Names.{full_name-encode}
use the_heap.Fat32.Volume.Bounds.{max_cluster_number-Limits}

-- The release of a chain takes no free cluster away.
module _ (v : Volume) (old : List ℕ) (m : Memory) (fit : TablesFit v) (fats : 0 < v.num_fats)
    (c : Cleared v old m) where
  stays_free : (d : ℕ) → InTable v d → fat_value v d ≡ 0 → fat_value (with_bytes v m) d ≡ 0
  stays_free d inside z =
      let before = read_fat_entry-fat_value v d fit fats inside ∙ ap ok z in
      let after = read_fat_entry-fat_value (with_bytes v m) d fit fats inside in
      ok_inj (sym after ∙ c.stay_free d inside before)

  count_free-Cleared :
      (n cl : ℕ)
      → (cl + n) * 4 ≤ fat_bytes_len v.bpb
      → count_free v n cl ≤ count_free (with_bytes v m) n cl
  unfolding count_free
  count_free-Cleared zero cl le = omega arith
  count_free-Cleared (suc n) cl le =
      let rest = count_free-Cleared n (cl + 1) (omega arith) in
      elim (Bool-cases (fat_value v cl == 0)) [
        | inl free ↦
            let z : fat_value (with_bytes v m) cl ≡ 0 =
              stays_free cl (omega arith) (ground (arith, free)) in
            let still : (fat_value (with_bytes v m) cl == 0) ≡ true = ground (arith, z) in
            rw (free, still) (omega (arith, rest))
        | inr used ↦ rw used (omega (arith, rest))
      ]

root_target :
    (v : Volume) (name n e : Text) (off : Option ℕ) (entry : Option DirEntry)
    → IsComponent name
    → encode_short_name_8_3 name ≡ ok (n, e)
    → find_dir_entry_offset_by_short_name v v.root_cluster n e ≡ ok (off, entry)
    → target (slash ∷ name) v
      ≡ ok (record { dir = v.root_cluster; name = (n, e); off = off; entry = entry })
unfolding parent_cluster
root_target v name n e off entry component encoded found =
    rw (split_parent-component name component, encoded, found) refl

-- The last round of the outer loop of `open_path`.
abbrev one_step : Volume → Option DirEntry → Result (Option DirEntry)
one_step v found = elim found [ none ↦ ok none | some e ↦ walk v e.first_cluster (some e) [] ]

open_path-listed :
    (v : Volume) (name : Text) (entry : DirEntry) (es : List DirEntry)
    → IsComponent name
    → list_dir_cluster v v.root_cluster ≡ ok es
    → find_entry (normalize_name name) es ≡ some entry
    → open_path v (slash ∷ name) ≡ ok (some entry)
unfolding open_path walk
open_path-listed v name entry es component listed found =
    rw (list_eq-root name component.0, split-component name component, listed)
      (ap (one_step v) found)

read_file_by_path-opened :
    (v : Volume) (path : Text) (entry : DirEntry) (content : List ℕ)
    → open_path v path ≡ ok (some entry)
    → is_file entry ≡ true
    → read_file v entry ≡ ok content
    → read_file_by_path v path ≡ ok (some content)
unfolding read_file_by_path
read_file_by_path-opened v path entry content opened file reads =
    let whole : (do bytes ← read_file v entry; ok (some bytes)) ≡ ok (some content) =
      ap (λ r. (do bytes ← r; ok (some bytes))) reads in
    rw opened (
      subst
        (λ b.
          (if not b then err not_a_file else (do bytes ← read_file v entry; ok (some bytes)))
          ≡ ok (some content))
        (sym file) whole)

-- A name that `full_name` gives back: no dot at its end, no space at the end of its parts.
abbrev pub IsShortName : Text → Type 0
IsShortName name =
    IsComponent name
    × (trim_end_matches name dot ≡ name)
    × (trim_end_matches (split_extension name).0 space ≡ (split_extension name).0)
    × (trim_end_matches (split_extension name).1 space ≡ (split_extension name).1)

Answers-normalize_name :
    (name n e : Text) (entry : DirEntry)
    → full_name n e ≡ normalize_name name
    → entry.name ≡ full_name n e
    → Answers (normalize_name name) entry
Answers-normalize_name name n e entry decoded named =
    rw (named, decoded, normalize_name-normalize_name name) (list_eq_refl (normalize_name name))

-- The file is there under its path.
Wrote-read :
    (v : Volume) (ds old content : List ℕ) (name n e : Text) (m : Memory)
    → IsComponent name
    → full_name n e ≡ normalize_name name
    → CanonicalDirectory v ds n e (normalize_name name)
    → Wrote v v.root_cluster ds n e content old m
    → read_file_by_path (with_bytes v m) (slash ∷ name) ≡ ok (some content)
Wrote-read v ds old content name n e m component decoded canon w =
    let (es, listed, found) =
      w.listed (normalize_name name) canon
        (Answers-normalize_name name n e w.entry decoded w.name) in
    read_file_by_path-opened (with_bytes v m) (slash ∷ name) w.entry content
      (open_path-listed (with_bytes v m) name w.entry es component listed found) w.file w.reads

-- On a volume that `max_cluster_number` accepts, with a FAT or more and FATs of fewer entries than
-- there are cluster numbers; for the path of a file in the root directory, its name a short one
-- that ends in no dot and whose parts end in no space, with a raw name that is in use; where the
-- directory's clusters lie in the volume and its entries answer to the name only with that raw
-- name; where the name has no entry there, or the one of a file without a cluster or with a chain
-- of at most 4096 clusters in the FAT, none of them a cluster of the directory; for content
-- shorter than `2 ^ 32` that needs at most 4096 clusters, with as many clusters free and a place
-- of the name or a free slot there: `write_file_by_path` succeeds, and `read_file_by_path` of that
-- path then gives the content.
pub write_file_by_path-read_file_by_path :
    (v : Volume) (max_cl : ℕ) (name n e : Text) (content ds old : List ℕ) (off : Option ℕ)
    (entry : Option DirEntry)
    → 0 < v.num_fats
    → fat_bytes_len v.bpb ≤ 4 * eoc_min
    → max_cluster_number v ≡ ok max_cl
    → IsShortName name
    → encode_short_name_8_3 name ≡ ok (n, e)
    → IsRawName n e
    → IsDirectory v v.root_cluster ds
    → CanonicalDirectory v ds n e (normalize_name name)
    → find_dir_entry_offset_by_short_name v v.root_cluster n e ≡ ok (off, entry)
    → OldChain v entry old
    → All (λ x. All (λ y. y ≢ x) old) ds
    → length content < 2 ^ 32
    → div_ceil (length content) (cluster_size v.bpb) ≤ max_chain
    → div_ceil (length content) (cluster_size v.bpb) ≤ count_free v (max_cl - 1) 2
    → (off ≢ none) ⊎ (find_free_dir_entry_slot v v.root_cluster ≢ err no_space_left)
    → (m : Memory) × (write_file_by_path (slash ∷ name) content v ≡ done tt (with_bytes v m))
      × (read_file_by_path (with_bytes v m) (slash ∷ name) ≡ ok (some content))
write_file_by_path-read_file_by_path v max_cl name n e content ds old off entry fats small known
      short encoded r d canon found chain apart lt fits enough slot =
    let (component, no_dot, base, ext) = short in
    let decoded = (full_name-encode name n e encoded no_dot base ext).0 in
    let l = max_cluster_number-Limits v max_cl known in
    let t : Target = record { dir = v.root_cluster; name = (n, e); off = off; entry = entry } in
    let (m1, c, result) =
      write_file_by_path-Wrote v max_cl (slash ∷ name) content t ds old fats small known
        (refl, list_eq-root name component.0)
        (root_target v name n e off entry component encoded found) d r chain apart lt fits in
    let kept =
      count_free-Cleared v old m1 (omega (arith, l.data_lt)) fats c (max_cl - 1) 2
        (omega (arith, l.by_fat, l.entries)) in
    elim result [
      | inl (few, _) ↦ absurd (omega (arith, few, kept, enough))
      | inr (inl (new, full, _, _, _, _)) ↦ elim slot [
        | inl other ↦ absurd (other new)
        | inr free ↦ absurd (free full)
      ]
      | inr (inr (m, written, w)) ↦
          (m, written, Wrote-read v ds old content name n e m component decoded canon w)
    ]
