-- ===== src/Fat32/Write/Wrote.antt =====
-- What `write_file_by_path` of fat32/src/lib.rs leaves where it succeeds, and how its last part gets
-- there.
use the_heap.Prelude.{
  ℕ, ◌≤◌, ◌<◌, ◌≡◌, refl, sym, ◌⊎◌, inl, inr, arith, true, Option, none, some, List, length, All,
  ◌≢◌, ◌^◌, All-map, All-both, ◌∙◌, ap, ◌+◌, ◌%◌,
}
use mathlib.Core.Path.{ap}
use the_heap.Bytes.{Memory}
use the_heap.Fat32.DirEntry.{DirEntry, full_name, is_file, from_byte}
use the_heap.Fat32.Error.{ok, err, no_space_left}
use the_heap.Fat32.Read.{read_file}
use the_heap.Fat32.Text.{Text}
use the_heap.Fat32.Volume.{Volume, cluster_size, read_fat_entry, cluster_start}
use the_heap.Fat32.Write.{
  with_bytes, find_dir_entry_offset_by_short_name, failed, find_free_dir_entry_slot, put_entry,
}
use the_heap.Fat32.Write.Effect.{done}
use the_heap.Fat32.Write.Release.{Cleared}
use the_heap.Fat32.Write.Store.{Stored}
use the_heap.Fat32.Write.Table.{InTable}
use the_heap.Fat32.Write.Replace.{IsDirectory, IsRawName}
use the_heap.Fat32.Write.Named.{IsOther}
use the_heap.Fat32.Write.Sibling.{Placed-siblings}
use the_heap.Fat32.Write.Stay.{
  SameDirectory, KeepsCluster, KeepsCluster-SameDirectory, Cleared-KeepsCluster, KeepsCluster-trans,
  Stored-KeepsCluster,
}
use the_heap.Fat32.Write.Keep.{IsChain-in_use, read_fat_entry_ext}
use the_heap.Fat32.Write.Listing.{Answers}
use the_heap.Fat32.Write.Listing.Written.{
  CanonicalDirectory, CanonicalDirectory-kept, Placed-Listed,
}
use the_heap.Fat32.Read.{list_dir_cluster, find_entry}
use the_heap.Fat32.Write.Put.New.{put_entry-new}
use the_heap.Fat32.Write.Put.{Placed, new_entry, put_entry-existing}
use the_heap.Fat32.Write.Content.{clusters_apart}

-- The file is there: the name is found in its directory, with an entry of a file by which the
-- content is read. The listing of the directory has that entry first under any name that only
-- entries with the raw name answer to, and that the entry answers to. Where the name had a place
-- before, every other name is found as before. Clusters in use that are neither of the old content nor of the directory keep
-- their FAT entry and their data.
pub record Wrote (v : Volume) (dir : ℕ) (ds name_raw ext_raw content old : List ℕ) (m : Memory)
    : Type 0 where
  pub off : ℕ
  pub entry : DirEntry
  pub found :
      find_dir_entry_offset_by_short_name (with_bytes v m) dir name_raw ext_raw
      ≡ ok (some off, some entry)
  pub name : entry.name ≡ full_name name_raw ext_raw
  pub file : is_file entry ≡ true
  pub reads : read_file (with_bytes v m) entry ≡ ok content
  pub listed :
      (target_name : Text)
      → CanonicalDirectory v ds name_raw ext_raw target_name
      → Answers target_name entry
      → (es : List DirEntry) × (list_dir_cluster (with_bytes v m) dir ≡ ok es)
        × (find_entry target_name es ≡ some entry)
  pub siblings :
      (o : ℕ) (was : Option DirEntry) (name_other ext_other : List ℕ)
      → find_dir_entry_offset_by_short_name v dir name_raw ext_raw ≡ ok (some o, was)
      → IsOther name_raw ext_raw name_other ext_other
      → find_dir_entry_offset_by_short_name (with_bytes v m) dir name_other ext_other
        ≡ find_dir_entry_offset_by_short_name v dir name_other ext_other
  pub others :
      (d : ℕ)
      → 2 ≤ d
      → InTable v d
      → read_fat_entry v d ≢ ok 0
      → All (λ x. x ≢ d) old
      → All (λ x. x ≢ d) ds
      → KeepsCluster v m d

-- What is left to do behind the release and the store, on the volume that they leave.
module _ (v : Volume) (dir : ℕ) (ds name_raw ext_raw content old : List ℕ) (fats : 0 < v.num_fats)
    (pos : 0 < cluster_size v.bpb) (d : IsDirectory v dir ds) (r : IsRawName name_raw ext_raw)
    (size_lt : length content < 2 ^ 32) (apart : All (λ x. All (λ y. y ≢ x) old) ds) (m1 : Memory)
    (c : Cleared v old m1) (first : ℕ) (m2 : Memory)
    (s : Stored (with_bytes v m1) content first m2) where
  abbrev v2 : Volume
  v2 = with_bytes v m2

  -- A cluster in use that is not of the old content keeps all, so far.
  stored-KeepsCluster :
      (x : ℕ)
      → 2 ≤ x
      → InTable v x
      → read_fat_entry v x ≢ ok 0
      → All (λ y. y ≢ x) old
      → KeepsCluster v m2 x
  stored-KeepsCluster x lo inside used other =
      let k = Cleared-KeepsCluster v old m1 x c inside other in
      KeepsCluster-trans v m1 m2 x k (
        Stored-KeepsCluster (with_bytes v m1) content first m2 x s lo inside
          (λ e. used (sym k.0 ∙ e)))

  directory_used : All (λ x. read_fat_entry v x ≢ ok 0) ds
  directory_used = IsChain-in_use v dir ds d.chain

  directory-kept : All (KeepsCluster v m2) ds
  directory-kept =
      All-map ds (λ x q. stored-KeepsCluster x q.0.0.0 q.0.1 q.1.0 q.1.1)
        (All-both _ _ ds (All-both _ _ ds d.data_inside d.entries)
          (All-both _ _ ds directory_used apart))

  same_directory : SameDirectory v dir ds m2
  same_directory = KeepsCluster-SameDirectory v dir ds m2 pos d directory-kept

  -- The directory's clusters were no free ones when the content was stored.
  not_free : (x : ℕ) → read_fat_entry (with_bytes v m1) x ≡ ok 0 → All (λ y. y ≢ x) ds
  not_free x free =
      All-map ds
        (λ y q e. q.1.0 (
          sym (Cleared-KeepsCluster v old m1 y c q.0 q.1.1).0
          ∙ ap (read_fat_entry (with_bytes v m1)) e
          ∙ free))
        (All-both _ _ ds d.entries (All-both _ _ ds directory_used apart))

  Placed-Wrote :
      (m : Memory)
      → Placed v2 dir ds name_raw ext_raw (new_entry name_raw ext_raw first (length content)) m
      → Wrote v dir ds name_raw ext_raw content old m
  unfolding is_file from_byte
  Placed-Wrote m p =
      let away =
        λ (x : ℕ) (lo : 2 ≤ x) (other : All (λ y. y ≢ x) ds) (a : ℕ)
            (from : cluster_start v.bpb x ≤ a)
            (to : a < cluster_start v.bpb x + cluster_size v.bpb).
          p.outside a (
            inr (
              All-map ds (λ y q. clusters_apart v x y a lo q.0.0 (λ e. q.1 (sym e)) from to)
                (All-both _ _ ds d.data_inside other))) in
      record {
        off = p.off;
        entry = new_entry name_raw ext_raw first (length content);
        found = p.found;
        name = refl;
        file = refl;
        reads =
            s.reads m (new_entry name_raw ext_raw first (length content))
              (λ a lt. p.outside a (inl lt), λ x lo free. away x lo (not_free x free)) refl refl
              refl;
        listed = λ target_name canon answers.
            Placed-Listed v2 dir ds name_raw ext_raw target_name
              (new_entry name_raw ext_raw first (length content)) m fats pos
              same_directory.directory p
              (CanonicalDirectory-kept v m2 ds name_raw ext_raw target_name
                (All-map ds (λ x q. q.1) directory-kept) canon)
              answers;
        siblings = λ o was name_other ext_other there is_other.
            Placed-siblings v2 dir ds name_raw ext_raw
              (new_entry name_raw ext_raw first (length content)) m o was name_other ext_other fats
              pos same_directory.directory p (same_directory.finds name_raw ext_raw ∙ there)
              is_other
            ∙ same_directory.finds name_other ext_other;
        others = λ x lo inside used other out.
            KeepsCluster-trans v m2 m x (stored-KeepsCluster x lo inside used other) (
              read_fat_entry_ext v m2 m x fats inside (λ a lt. p.outside a (inl lt)),
              away x lo out,
            );
      }

  pub put_entry-Wrote :
      (off : Option ℕ) (old_entry : Option DirEntry)
      → find_dir_entry_offset_by_short_name v dir name_raw ext_raw ≡ ok (off, old_entry)
      → ((off ≡ none)
          × (find_free_dir_entry_slot v dir ≡ err no_space_left)
          × (put_entry dir off name_raw ext_raw first (length content % 2 ^ 32) v2
              ≡ failed no_space_left v2))
        ⊎ ((m : Memory) × (put_entry dir off name_raw ext_raw first (length content % 2 ^ 32) v2
              ≡ done tt (with_bytes v m))
            × Wrote v dir ds name_raw ext_raw content old m)
  put_entry-Wrote none old_entry h =
      let size : length content % 2 ^ 32 ≡ length content = omega arith in
      let there = same_directory.finds name_raw ext_raw ∙ h in
      rw size
        (elim (put_entry-new v2 dir ds name_raw ext_raw first (length content) fats pos
          same_directory.directory r s.valid size_lt old_entry there) [
            | inl (full, e) ↦ inl (refl, sym same_directory.slots ∙ full, e)
            | inr (m, e, p) ↦ inr (m, e, Placed-Wrote m p)
          ])
  put_entry-Wrote (some off) old_entry h =
      let size : length content % 2 ^ 32 ≡ length content = omega arith in
      let there = same_directory.finds name_raw ext_raw ∙ h in
      let (m, e, p) =
        put_entry-existing v2 dir ds name_raw ext_raw first (length content) fats pos
          same_directory.directory r s.valid size_lt off old_entry there in
      inr (m, rw size e, Placed-Wrote m p)
