-- ===== src/Fat32/Write/Plan.antt =====
-- `write_file_by_path` of fat32/src/lib.rs in two parts: the searches, which only read, and what is
-- done with what they find.
use the_heap.Prelude.{
  ℕ, ◌≡◌, arith, List, length, true, false, Option, ◌||◌, not, list_eq, refl, ◌%◌, ◌^◌,
}
use the_heap.Fat32.DirEntry.{DirEntry}
use the_heap.Fat32.Error
use the_heap.Fat32.Error.{
  Result, ok, err, panic, FatError, other, not_a_file, no_space_left, >>=-ok,
}
use the_heap.Fat32.Text.{Text, split_parent, encode_short_name_8_3, slash, root_path, starts_with}
use the_heap.Fat32.Volume.{Volume}
use the_heap.Fat32.Write.{
  release_existing, store_content, put_entry, parent_cluster, find_dir_entry_offset_by_short_name,
  write_file_by_path,
}
use the_heap.Fat32.Write.Effect.{Cmd, ◌>>=◌, ◌>>◌, after, and_then}

-- Where a path leads: the directory's cluster, the raw name, and the entry that is there.
pub record Target : Type 0 where
  pub dir : ℕ
  pub name : List ℕ × List ℕ
  pub off : Option ℕ
  pub entry : Option DirEntry

-- The searches of `write_file_by_path`, which only read.
abbrev pub target : Text → Volume → Result Target
target path v = Error.◌>>=◌ (split_parent path) λ parts.
    Error.◌>>=◌ (encode_short_name_8_3 parts.1) λ name.
      Error.◌>>=◌ (parent_cluster v parts.0) λ dir.
        Error.◌>>=◌ (find_dir_entry_offset_by_short_name v dir name.0 name.1)
          λ found. ok (record { dir = dir; name = name; off = found.0; entry = found.1 })

-- What is done with the target.
abbrev pub commit : List ℕ → Target → Cmd (Unit {0})
commit content t =
    release_existing t.entry
    >> (store_content content >>= λ first.
        put_entry t.dir t.off t.name.0 t.name.1 first (length content % 2 ^ 32))

abbrev pub IsFilePath : Text → Type 0
IsFilePath path = (starts_with path slash ≡ true) × (list_eq path root_path ≡ false)

-- Reading steps in a row are one reading step.
after->>= :
    {A B C : Type 0} (r : Result A) (f : A → Result B) (k : B → Cmd C) (g : A → Cmd C) (v : Volume)
    → ((a : A) → g a v ≡ and_then (after (f a) v) k)
    → and_then (after r v) g ≡ and_then (after (Error.◌>>=◌ r f) v) k
after->>= (ok a) f k g v h = h a
after->>= (err e) f k g v h = refl
after->>= panic f k g v h = refl

pub write_file_by_path-target :
    (path : Text) (content : List ℕ) (v : Volume)
    → IsFilePath path
    → write_file_by_path path content v ≡ and_then (after (target path v) v) (commit content)
unfolding write_file_by_path
write_file_by_path-target path content v file =
    let prefix : (not (starts_with path slash) || list_eq path root_path) ≡ false =
      ground (arith, file.0, file.1) in
    rw prefix (
      after->>= (split_parent path) _ (commit content) _ v (λ parts.
        after->>= (encode_short_name_8_3 parts.1) _ (commit content) _ v (λ name.
          after->>= (parent_cluster v parts.0) _ (commit content) _ v (λ dir.
            after->>= (find_dir_entry_offset_by_short_name v dir name.0 name.1) _ (commit content) _
              v (λ found. refl)))))
