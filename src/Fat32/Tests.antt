-- ===== src/Fat32/Tests.antt =====
-- The unit tests of fat32/src/lib.rs, each with its assertions as a Boolean, and their runs.
pub mod Image
use the_heap.Prelude.{
  ℕ, ◌+◌, ◌*◌, ◌%◌, ◌^◌, ◌≡◌, refl, Bool, true, false, ◌&&◌, Option, none, some, List, [], ◌∷◌,
  length, replicate, leb, ◌==◌, list_eq, if◌then◌else◌,
}
use the_heap.Bytes.{fill, slice, from_le_bytes}
use the_heap.Fat32.Error.{
  panic, FatError, Result, ok, err, buffer_too_small, path_not_found, invalid_name, not_a_directory,
  not_a_file,
}
use the_heap.Fat32.Text.{Text, ascii, normalize_name, encode_short_name_8_3, split_parent}
use the_heap.Fat32.DirEntry.{DirEntry, is_dir, is_file, parse}
use the_heap.Fat32.Volume.{
  Disk, Volume, new, read_fat_entry, cluster_size, data_start_byte, fat_start_byte, fat_bytes_len,
  read_cluster, follow_chain, max_cluster_number,
}
use the_heap.Fat32.Read.{
  list_dir_cluster, open_path, list_root, read_file_by_path, list_dir_path, read_file,
}
use the_heap.Fat32.Write.{write_file_by_path, write_fat_entry_all}
use the_heap.Fat32.Write.Effect.{Run, done, failed, panicked}
use Image.{build_test_image}

-- `.unwrap()`, where a panic fails the test.
abbrev unwrap : {A : Type 0} → Result A → (A → Bool) → Bool
unwrap (ok a) k = k a
unwrap (err e) k = false
unwrap panic k = false

abbrev unwrap_some : {A : Type 0} → Result (Option A) → (A → Bool) → Bool
unwrap_some (ok (some a)) k = k a
unwrap_some (ok none) k = false
unwrap_some (err e) k = false
unwrap_some panic k = false

abbrev unwrap_err : {A : Type 0} → Result A → (FatError → Bool) → Bool
unwrap_err (ok a) k = false
unwrap_err (err e) k = k e
unwrap_err panic k = false

abbrev unwrap_done : Run (Unit {0}) → (Volume → Bool) → Bool
unwrap_done (done u v) k = k v
unwrap_done (failed e v) k = false
unwrap_done (panicked v) k = false

abbrev error_of : Run (Unit {0}) → Result (Unit {0})
error_of (done u v) = ok tt
error_of (failed e v) = err e
error_of (panicked v) = panic

-- `entries.iter().find(|e| e.name == name)`.
abbrev find_name : Text → List DirEntry → Result DirEntry
find_name name [] = err path_not_found
find_name name (e ∷ es) = let rest = find_name name es in if list_eq e.name name then ok e else rest

fat_entry_raw : Disk → ℕ → ℕ
unfolding from_le_bytes slice
fat_entry_raw disk cluster = from_le_bytes (slice disk.byte (512 + cluster * 4) 4) % 2 ^ 28

-- The image, mounted.
on_image : (Volume → Bool) → Bool
unfolding fill new build_test_image cluster_size data_start_byte fat_start_byte fat_bytes_len
    read_cluster read_fat_entry follow_chain max_cluster_number normalize_name encode_short_name_8_3
    split_parent is_dir is_file parse list_dir_cluster list_root list_dir_path open_path read_file
    read_file_by_path write_fat_entry_all write_file_by_path
on_image f = unwrap (new build_test_image) f

-- The file that was written, read back behind a second `Fat32::new`.
reads_back : Text → List ℕ → Volume → Bool
unfolding on_image
reads_back path content v =
    unwrap_done (write_file_by_path path content v)
      λ w. unwrap (new w.disk) λ ro. unwrap_some (read_file_by_path ro path) (list_eq content)

new_on_too_small_buffer_fails : Bool
unfolding on_image
new_on_too_small_buffer_fails =
    unwrap_err (new (record { len = 128; byte = λ a. 0 }))
      λ e. elim e [ buffer_too_small ↦ true | _ ↦ false ]

list_root_and_read_file : Bool
unfolding on_image
list_root_and_read_file = on_image λ v. unwrap (list_root v) λ root.
    unwrap (find_name (ascii "HELLO.TXT") root) λ hello.
      unwrap (find_name (ascii "DIR") root) λ dir.
        (length root == 2)
        && is_file hello
        && is_dir dir
        && unwrap_some (read_file_by_path v (ascii "/HELLO.TXT")) (list_eq (ascii "HELLO"))

list_dir_on_file_returns_not_a_directory : Bool
unfolding on_image
list_dir_on_file_returns_not_a_directory = on_image λ v.
    unwrap_err (list_dir_path v (ascii "/HELLO.TXT"))
      λ e. elim e [ not_a_directory ↦ true | _ ↦ false ]

read_file_on_directory_via_open_path_returns_not_a_file : Bool
unfolding on_image
read_file_on_directory_via_open_path_returns_not_a_file = on_image λ v.
    unwrap_some (open_path v (ascii "/DIR")) λ entry.
      is_dir entry && unwrap_err (read_file v entry) (λ e. elim e [ not_a_file ↦ true | _ ↦ false ])

open_path_is_case_insensitive_for_short_names : Bool
unfolding on_image
open_path_is_case_insensitive_for_short_names = on_image λ v.
    unwrap_some (open_path v (ascii "/hello.txt"))
      λ entry. list_eq entry.name (ascii "HELLO.TXT") && is_file entry

write_create_new_file_and_read_back : Bool
unfolding on_image reads_back
write_create_new_file_and_read_back = on_image (reads_back (ascii "/NEW.TXT") (ascii "ABC"))

write_overwrite_existing_file : Bool
unfolding on_image reads_back
write_overwrite_existing_file = on_image (reads_back (ascii "/HELLO.TXT") (ascii "HELLO WORLD"))

write_rejects_invalid_8_3_name : Bool
unfolding on_image
write_rejects_invalid_8_3_name = on_image λ v.
    unwrap_err (error_of (write_file_by_path (ascii "/TOO_LONG_NAME.TXT") (ascii "x") v))
      λ e. elim e [ invalid_name ↦ true | _ ↦ false ]

write_fails_when_parent_directory_missing : Bool
unfolding on_image
write_fails_when_parent_directory_missing = on_image λ v.
    unwrap_err (error_of (write_file_by_path (ascii "/NOPE/FILE.TXT") (ascii "x") v))
      λ e. elim e [ path_not_found ↦ true | _ ↦ false ]

-- The two clusters of BIG.TXT, once it has been written.
big_clusters : Volume → (ℕ → ℕ → Bool) → Bool
unfolding on_image fat_entry_raw
big_clusters v k = unwrap_some (open_path v (ascii "/BIG.TXT")) λ e.
    let c1 = e.first_cluster in
    let c2 = fat_entry_raw v.disk c1 in
    (e.size == 600) && leb 2 c1 && leb 2 c2 && leb 0x0FFFFFF8 (fat_entry_raw v.disk c2) && k c1 c2

overwrite_frees_old_clusters_in_fat : Bool
unfolding on_image big_clusters
overwrite_frees_old_clusters_in_fat = on_image λ v.
    unwrap_done (write_file_by_path (ascii "/BIG.TXT") (replicate 600 0x41) v) λ w.
      big_clusters w λ first_cluster second_cluster. unwrap (new w.disk) λ rw_again.
        unwrap_done (write_file_by_path (ascii "/BIG.TXT") [] rw_again) λ z.
          (fat_entry_raw z.disk first_cluster == 0)
          && (fat_entry_raw z.disk second_cluster == 0)
          && unwrap_some (open_path z (ascii "/BIG.TXT"))
              λ e. (e.size == 0) && (e.first_cluster == 0)

-- Every one passes.
unit_tests :
    (new_on_too_small_buffer_fails ≡ true)
    × (list_root_and_read_file ≡ true)
    × (list_dir_on_file_returns_not_a_directory ≡ true)
    × (read_file_on_directory_via_open_path_returns_not_a_file ≡ true)
    × (open_path_is_case_insensitive_for_short_names ≡ true)
    × (write_create_new_file_and_read_back ≡ true)
    × (write_overwrite_existing_file ≡ true)
    × (write_rejects_invalid_8_3_name ≡ true)
    × (write_fails_when_parent_directory_missing ≡ true)
    × (overwrite_frees_old_clusters_in_fat ≡ true)
unfolding new_on_too_small_buffer_fails list_root_and_read_file
    list_dir_on_file_returns_not_a_directory read_file_on_directory_via_open_path_returns_not_a_file
    open_path_is_case_insensitive_for_short_names write_create_new_file_and_read_back
    write_overwrite_existing_file write_rejects_invalid_8_3_name
    write_fails_when_parent_directory_missing overwrite_frees_old_clusters_in_fat
unit_tests = (refl, refl, refl, refl, refl, refl, refl, refl, refl, refl)
