-- ===== src/Kernel/Demo/Files.antt =====
-- What the demonstration of kernel/src/main.rs finds on its disk, before and behind its write.
use the_heap.Fat32.Write.{write_fat_entry_all}
use the_heap.Fat32.Text.{encode_short_name_8_3}
use the_heap.Fat32.Text.{split_parent}
use the_heap.Fat32.DirEntry.{is_file}
use the_heap.Prelude.{ℕ, ◌≡◌, refl, some, List, [], ◌∷◌}
use the_heap.Bytes.{slice, from_le_bytes, fill}
use the_heap.Fat32.DirEntry.{DirEntry, parse, from_byte}
use the_heap.Fat32.Error.{ok}
use the_heap.Fat32.Read.{list_root, read_file_by_path, list_dir_cluster, full_chunks}
use the_heap.Fat32.Text.{Text, ascii, normalize_name}
use the_heap.Fat32.Volume
use the_heap.Fat32.Volume.{Volume}
use the_heap.Fat32.Write.{write_file_by_path}
use the_heap.Fat32.Write.Effect.{done, left}
use the_heap.Kernel.Image.{build_test_image}

abbrev pub mounted : Volume
mounted = record {
  disk = build_test_image;
  bpb = record {
    bytes_per_sector = 512;
    sectors_per_cluster = 1;
    reserved_sectors = 1;
    num_fats = 1;
    sectors_per_fat = 1;
    root_cluster = 2;
  };
}

pub new-build_test_image : Volume.new build_test_image ≡ ok mounted
unfolding Volume.new build_test_image
new-build_test_image = refl

abbrev pub entry : Text → ℕ → ℕ → ℕ → DirEntry
entry name attr cluster size = record {
  name = name;
  attrs = from_byte attr;
  first_cluster = cluster;
  size = size;
}

abbrev pub root : List DirEntry
root = entry (ascii "HELLO.TXT") 0x20 3 5 ∷ entry (ascii "DIR") 0x10 4 0 ∷ []

pub list_root-mounted : list_root mounted ≡ ok root
unfolding list_root build_test_image Volume.follow_chain Volume.read_fat_entry Volume.fat_start_byte
    from_le_bytes slice Volume.read_cluster Volume.data_start_byte Volume.cluster_size parse
list_root-mounted = refl

pub read_hello : read_file_by_path mounted (ascii "/HELLO.TXT") ≡ ok (some (ascii "HELLO"))
unfolding read_file_by_path build_test_image list_dir_cluster Volume.follow_chain
    Volume.read_fat_entry Volume.fat_start_byte from_le_bytes slice Volume.read_cluster
    Volume.data_start_byte Volume.cluster_size parse normalize_name is_file
read_hello = refl

-- The volume behind the write.
unfoldable pub with_new : Volume
unfolding write_file_by_path build_test_image
with_new = left (write_file_by_path (ascii "/NEW.TXT") (ascii "NEW!") mounted)

pub write_new : write_file_by_path (ascii "/NEW.TXT") (ascii "NEW!") mounted ≡ done tt with_new
unfolding with_new write_file_by_path build_test_image split_parent encode_short_name_8_3
    Volume.follow_chain Volume.read_fat_entry Volume.fat_start_byte from_le_bytes slice
    Volume.cluster_to_offset Volume.data_start_byte Volume.cluster_size full_chunks
    Volume.max_cluster_number write_fat_entry_all fill
write_new = refl

pub new-with_new : Volume.new with_new.disk ≡ ok with_new
unfolding Volume.new with_new write_file_by_path build_test_image split_parent encode_short_name_8_3
    Volume.follow_chain Volume.read_fat_entry Volume.fat_start_byte Volume.cluster_to_offset
    Volume.data_start_byte Volume.cluster_size full_chunks Volume.max_cluster_number
    write_fat_entry_all fill
new-with_new = refl

abbrev pub root_with_new : List DirEntry
root_with_new =
    entry (ascii "HELLO.TXT") 0x20 3 5
    ∷ entry (ascii "DIR") 0x10 4 0
    ∷ entry (ascii "NEW.TXT") 0x20 5 4
    ∷ []

pub list_root-with_new : list_root with_new ≡ ok root_with_new
unfolding list_root with_new write_file_by_path build_test_image Volume.follow_chain split_parent
    encode_short_name_8_3 Volume.read_fat_entry Volume.fat_start_byte from_le_bytes slice
    Volume.cluster_to_offset Volume.data_start_byte Volume.cluster_size Volume.max_cluster_number
    write_fat_entry_all fill Volume.read_cluster parse
list_root-with_new = refl

pub read_new : read_file_by_path with_new (ascii "/NEW.TXT") ≡ ok (some (ascii "NEW!"))
unfolding read_file_by_path build_test_image list_dir_cluster Volume.follow_chain
    Volume.read_fat_entry Volume.fat_start_byte from_le_bytes slice Volume.read_cluster
    Volume.data_start_byte Volume.cluster_size parse normalize_name is_file list_root with_new
    write_file_by_path split_parent encode_short_name_8_3 Volume.cluster_to_offset
    Volume.max_cluster_number write_fat_entry_all fill full_chunks
read_new = refl
