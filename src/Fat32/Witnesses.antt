-- ===== src/Fat32/Witnesses.antt =====
-- The properties of the FAT32 crate at concrete inputs, most of them on the image of the kernel's
-- demonstration.
pub mod ByPath
use the_heap.Prelude.{
  ℕ, ◌+◌, ◌-◌, ◌*◌, ◌≤◌, ◌<◌, ◌≡◌, refl, arith, ◌⊎◌, some, List, [], ◌∷◌, length,
}
use the_heap.Bytes.{Memory, from_le_bytes, slice}
use the_heap.Fat32.Error.{ok, no_space_left, FatError, path_not_found}
use the_heap.Fat32.DirEntry.{DirEntry, is_dir}
use the_heap.Fat32.Write.{write_file_by_path}
use the_heap.Fat32.Write.Calm.File.{Readable, write_file_by_path-Readable}
use the_heap.Fat32.Write.Refuse.{
  Parsed, missing_parent, write_file_by_path-Refused, write_file_by_path-Cleared,
}
use the_heap.Fat32.Write.{write_dir_entry_at_offset}
use the_heap.Fat32.Write.Replace.{IsDirectory, IsRawName, write_dir_entry_at_offset-find}
use the_heap.Fat32.Write.Plan.{Target, target}
use the_heap.Fat32.Text.{split_parent}
use the_heap.Fat32.Write.{parent_cluster, find_dir_entry_offset_by_short_name}
use the_heap.Fat32.Read.{open_path, list_dir_cluster, full_chunks}
use the_heap.Fat32.Volume.{read_cluster}
use the_heap.Prelude.{inl, inr, replicate}
use the_heap.Fat32.Text.{split_extension, encode_short_name_8_3, normalize_name, trim_end_matches}
use the_heap.Fat32.Text.Names.{full_name-encode}
use the_heap.Fat32.DirEntry.{full_name, parse, entry_bytes, from_byte}
use the_heap.Fat32.DirEntry.Entry.{parse-entry_bytes}
use the_heap.Fat32.Volume.{
  Volume, BpbParams, fat_bytes_len, data_start_byte, cluster_size, cluster_start, cluster_to_offset,
  follow_chain, max_cluster_number, read_fat_entry, fat_start_byte,
}
use the_heap.Fat32.Volume.Chain.{IsChain, follow_chain-IsChain, IsChain-follow_chain}
use the_heap.Fat32.Volume.{new}
use the_heap.Fat32.Volume.Accept.{Usable, fields, new-Usable}
use the_heap.Fat32.Error.{err, buffer_too_small, not_fat32}
use the_heap.Fat32.Volume.Bounds.{max_cluster_number-inside}
use the_heap.Fat32.Write.{
  write_fat_entry_all, alloc_chain, free_chain, write_chain_data, store_content, with_bytes,
  div_ceil,
}
use the_heap.Fat32.Write.Table.{write_fat_entry_all-Written, Written}
use the_heap.Fat32.Write.Find.{count_free}
use the_heap.Fat32.Write.Allocate.{Allocated, alloc_chain-Allocated}
use the_heap.Fat32.Write.Release.{Cleared, free_chain-Cleared}
use the_heap.Fat32.Write.Content.{Filled, write_chain_data-Filled}
use the_heap.Fat32.Write.Store.{Stored, store_content-Stored}
use the_heap.Fat32.Write.Effect.{done, failed}
use the_heap.Fat32.Text.{ascii}
use the_heap.Fat32.Write.Whole.{write_file_by_path-Wrote}
use the_heap.Fat32.Write.Wrote.{Wrote}
use the_heap.Fat32.Write.{find_free_dir_entry_slot}
use the_heap.Prelude.{none}
use the_heap.Kernel.Image.{build_test_image}

pub image_bpb : BpbParams
image_bpb = record {
  bytes_per_sector = 512;
  sectors_per_cluster = 1;
  reserved_sectors = 1;
  num_fats = 1;
  sectors_per_fat = 1;
  root_cluster = 2;
}

pub image : Volume
image = record { disk = build_test_image; bpb = image_bpb }

-- 8 sectors of data, so clusters 2 to 9.
pub image_max : max_cluster_number image ≡ ok 9
unfolding image image_bpb build_test_image max_cluster_number data_start_byte cluster_size
    fat_bytes_len
image_max = refl

-- The file HELLO.TXT stands in cluster 3 alone.
image-IsChain : IsChain image 3 (3 ∷ [])
unfolding image image_bpb build_test_image read_fat_entry fat_start_byte from_le_bytes slice
image-IsChain = (refl, 0x0FFFFFF8, refl, omega arith)

write_fat_entry_all-Written_example :
    (m : Memory) × (write_fat_entry_all 5 0xF0000007 image ≡ done tt (with_bytes image m))
    × Written image 5 0xF0000007 m
unfolding image image_bpb build_test_image data_start_byte fat_bytes_len
write_fat_entry_all-Written_example =
    write_fat_entry_all-Written image (omega arith) (omega arith) 5 0xF0000007 (omega arith)

follow_chain-IsChain_example : follow_chain image 3 4096 ≡ ok (3 ∷ [])
follow_chain-IsChain_example =
    follow_chain-IsChain image 3 4096 (3 ∷ []) (omega arith) image-IsChain (omega arith)

abbrev hello_clusters : List ℕ
hello_clusters = 3 ∷ []

hello_followed : follow_chain image 3 4096 ≡ ok hello_clusters
unfolding image image_bpb build_test_image follow_chain read_fat_entry fat_start_byte from_le_bytes
    slice
hello_followed = refl

IsChain-follow_chain_example :
    (length hello_clusters ≡ 4096)
    ⊎ ((length hello_clusters < 4096) × IsChain image 3 hello_clusters)
IsChain-follow_chain_example = IsChain-follow_chain image 3 4096 hello_clusters hello_followed

max_cluster_number-inside_example :
    (cluster_to_offset image 9 ≡ ok (cluster_start image.bpb 9))
    × (cluster_start image.bpb 9 + cluster_size image.bpb ≤ image.disk.len)
    × (9 * 4 + 4 ≤ fat_bytes_len image.bpb)
max_cluster_number-inside_example =
    max_cluster_number-inside image 9 9 image_max (omega arith) (omega arith)

alloc_chain-Allocated_example :
    ((count_free image (9 - 1) 2 < 2) × (alloc_chain 2 image ≡ failed no_space_left image))
    ⊎ ((2 ≤ count_free image (9 - 1) 2)
        × (cs : List ℕ) × (m : Memory) × (alloc_chain 2 image ≡ done cs (with_bytes image m))
        × Allocated image 2 cs m)
unfolding image image_bpb build_test_image fat_bytes_len
alloc_chain-Allocated_example =
    alloc_chain-Allocated image 9 (omega arith) (omega arith) image_max 2 (omega arith)

free_chain-Cleared_example :
    (m : Memory) × (free_chain 3 image ≡ done tt (with_bytes image m)) × Cleared image (3 ∷ []) m
unfolding image image_bpb build_test_image data_start_byte fat_bytes_len
free_chain-Cleared_example =
    free_chain-Cleared image 3 (3 ∷ []) (omega arith) (omega arith) (omega arith) image-IsChain
      (omega arith) (omega arith, tt)

write_chain_data-Filled_example :
    (m : Memory) × (write_chain_data (5 ∷ 7 ∷ []) (ascii "ABC") image
      ≡ done tt (with_bytes image m))
    × Filled image (5 ∷ 7 ∷ []) (ascii "ABC") m
unfolding image image_bpb build_test_image data_start_byte cluster_size
write_chain_data-Filled_example =
    write_chain_data-Filled image (5 ∷ 7 ∷ []) (ascii "ABC") (omega arith)
      ((omega arith, omega arith), ((omega arith, omega arith), tt))
      ((λ e. absurd (omega arith), tt), (tt, tt)) (omega arith)

store_content-Stored_example :
    ((count_free image (9 - 1) 2 < 1)
      × (store_content (ascii "ABC") image ≡ failed no_space_left image))
    ⊎ ((first : ℕ) × (m : Memory) × (store_content (ascii "ABC") image
          ≡ done first (with_bytes image m))
        × Stored image (ascii "ABC") first m)
unfolding image image_bpb build_test_image fat_bytes_len cluster_size div_ceil
store_content-Stored_example =
    store_content-Stored image 9 (omega arith) (omega arith) image_max (ascii "ABC") (omega arith)
      (omega arith)

parse-entry_bytes_example :
    parse (entry_bytes (ascii "HELLO   ") (ascii "TXT") 0x12345 5)
    ≡ some (record {
      name = full_name (ascii "HELLO   ") (ascii "TXT");
      attrs = from_byte 0x20;
      first_cluster = 0x12345;
      size = 5;
    })
parse-entry_bytes_example =
    parse-entry_bytes (ascii "HELLO   ") (ascii "TXT") 0x12345 5 refl refl
      (λ e. absurd (omega (arith, e))) (λ e. absurd (omega (arith, e))) (omega arith) (omega arith)

name_encoded : encode_short_name_8_3 (ascii "hello.txt") ≡ ok (ascii "HELLO   ", ascii "TXT")
unfolding encode_short_name_8_3
name_encoded = refl

full_name-encode_example :
    (full_name (ascii "HELLO   ") (ascii "TXT") ≡ normalize_name (ascii "hello.txt"))
    × (length (ascii "HELLO   ") ≡ 8)
    × (length (ascii "TXT") ≡ 3)
unfolding split_extension trim_end_matches
full_name-encode_example =
    full_name-encode (ascii "hello.txt") (ascii "HELLO   ") (ascii "TXT") name_encoded refl refl
      refl

new-Usable_example :
    ((build_test_image.len < 512) × (new build_test_image ≡ err buffer_too_small))
    ⊎ (((512 ≤ build_test_image.len)
          × (¬ Usable build_test_image (fields build_test_image))
          × (new build_test_image ≡ err not_fat32))
        ⊎ (Usable build_test_image (fields build_test_image)
            × (new build_test_image
                ≡ ok (record { disk = build_test_image; bpb = fields build_test_image }))
            × (0 < cluster_size (fields build_test_image))
            × (0 < fat_bytes_len (fields build_test_image))))
new-Usable_example = new-Usable build_test_image

image_new : new build_test_image ≡ ok image
unfolding image image_bpb build_test_image new
image_new = refl

write_file_by_path-Readable_example :
    ((w : Volume) × (write_file_by_path (ascii "/NEW.TXT") (ascii "ABC") image ≡ done tt w)
      × Readable image w)
    ⊎ ((e : FatError) × (w : Volume) × (write_file_by_path (ascii "/NEW.TXT") (ascii "ABC") image
          ≡ failed e w)
        × Readable image w)
unfolding image image_bpb fat_start_byte
write_file_by_path-Readable_example =
    write_file_by_path-Readable build_test_image image (ascii "/NEW.TXT") (ascii "ABC") image_new
      (omega arith)

no_directory : open_path image (ascii "/NO") ≡ ok none
unfolding image image_bpb build_test_image open_path list_dir_cluster follow_chain read_fat_entry
    fat_start_byte from_le_bytes slice read_cluster data_start_byte cluster_size parse
    normalize_name
no_directory = refl

in_no_directory : Parsed (ascii "/NO/X.TXT") (ascii "/NO") (ascii "X       ", ascii "TXT")
unfolding split_parent encode_short_name_8_3
in_no_directory = record { file = (refl, refl); name = ascii "X.TXT"; split = refl; encoded = refl }

write_file_by_path-Refused_example :
    write_file_by_path (ascii "/NO/X.TXT") (ascii "ABC") image ≡ failed path_not_found image
write_file_by_path-Refused_example =
    write_file_by_path-Refused (ascii "/NO/X.TXT") (ascii "ABC") image path_not_found (
      missing_parent (ascii "/NO") (ascii "X       ", ascii "TXT") in_no_directory refl
        no_directory)

-- The entry of the file HELLO.TXT.
abbrev hello_entry : DirEntry
hello_entry = record {
  name = ascii "HELLO.TXT";
  attrs = from_byte 0x20;
  first_cluster = 3;
  size = 5;
}

abbrev hello_target : Target
hello_target = record {
  dir = 2;
  name = (ascii "HELLO   ", ascii "TXT");
  off = some 0x400;
  entry = some hello_entry;
}

hello_found : target (ascii "/HELLO.TXT") image ≡ ok hello_target
unfolding image image_bpb build_test_image split_parent encode_short_name_8_3 parent_cluster
    find_dir_entry_offset_by_short_name follow_chain read_fat_entry fat_start_byte from_le_bytes
    slice cluster_to_offset data_start_byte cluster_size full_chunks parse
hello_found = refl

abbrev six_thousand : List ℕ
six_thousand = replicate 6000 65

write_file_by_path-Cleared_example :
    (m : Memory) × (write_file_by_path (ascii "/HELLO.TXT") six_thousand image
      ≡ failed no_space_left (with_bytes image m))
    × Cleared image (3 ∷ []) m
unfolding image image_bpb build_test_image fat_bytes_len cluster_size div_ceil is_dir from_byte
write_file_by_path-Cleared_example =
    write_file_by_path-Cleared image (ascii "/HELLO.TXT") six_thousand hello_target hello_entry
      (3 ∷ []) 9 (omega arith) (omega arith) image_max (refl, refl) hello_found refl refl
      (omega arith) image-IsChain (omega arith) (omega arith, tt) (omega arith) (omega arith)

-- The entry of HELLO.TXT, written again.
pub root-IsDirectory : IsDirectory image 2 (2 ∷ [])
unfolding image image_bpb build_test_image read_fat_entry fat_start_byte from_le_bytes slice
    fat_bytes_len data_start_byte cluster_size
root-IsDirectory = record {
  start = omega arith;
  chain = (refl, 0x0FFFFFF8, refl, omega arith);
  short = omega arith;
  entries = (omega arith, tt);
  data_inside = ((omega arith, omega arith), tt);
}

hello-IsRawName : IsRawName (ascii "HELLO   ") (ascii "TXT")
hello-IsRawName = record {
  name = refl;
  ext = refl;
  used = λ e. absurd (omega (arith, e));
  kept = λ e. absurd (omega (arith, e));
}

hello_place :
    find_dir_entry_offset_by_short_name image 2 (ascii "HELLO   ") (ascii "TXT")
    ≡ ok (some 0x400, some hello_entry)
unfolding image image_bpb build_test_image find_dir_entry_offset_by_short_name follow_chain
    read_fat_entry fat_start_byte from_le_bytes slice cluster_to_offset data_start_byte cluster_size
    full_chunks parse
hello_place = refl

write_dir_entry_at_offset-find_example :
    (m : Memory) × (write_dir_entry_at_offset 0x400 (ascii "HELLO   ") (ascii "TXT") 7 900 image
      ≡ done tt (with_bytes image m))
    × (find_dir_entry_offset_by_short_name (with_bytes image m) 2 (ascii "HELLO   ") (ascii "TXT")
        ≡ ok (
          some 0x400,
          some (record {
            name = full_name (ascii "HELLO   ") (ascii "TXT");
            attrs = from_byte 0x20;
            first_cluster = 7;
            size = 900;
          }),
        ))
    × (slice m 0x400 32 ≡ entry_bytes (ascii "HELLO   ") (ascii "TXT") 7 900)
    × ((a : ℕ) → (a < 0x400) ⊎ (0x400 + 32 ≤ a) → m a ≡ image.disk.byte a)
unfolding image_bpb image cluster_size
write_dir_entry_at_offset-find_example =
    write_dir_entry_at_offset-find image 2 (2 ∷ []) (ascii "HELLO   ") (ascii "TXT") 0x400
      (some hello_entry) 7 900 (omega arith) (omega arith) root-IsDirectory hello-IsRawName
      (omega arith) (omega arith) hello_place

-- HELLO.TXT with new content.
write_file_by_path-Wrote_example :
    (m1 : Memory) × Cleared image (3 ∷ []) m1
    × (((count_free (with_bytes image m1) (9 - 1) 2 < 1)
          × (write_file_by_path (ascii "/HELLO.TXT") (ascii "ABC") image
              ≡ failed no_space_left (with_bytes image m1)))
        ⊎ (((hello_target.off ≡ none)
              × (find_free_dir_entry_slot image 2 ≡ err no_space_left)
              × (first : ℕ) × (m : Memory) × (write_file_by_path
                    (ascii "/HELLO.TXT")
                    (ascii "ABC")
                    image
                  ≡ failed no_space_left (with_bytes image m))
              × Stored (with_bytes image m1) (ascii "ABC") first m)
            ⊎ ((m : Memory) × (write_file_by_path (ascii "/HELLO.TXT") (ascii "ABC") image
                  ≡ done tt (with_bytes image m))
                × Wrote image 2
                    (2 ∷ [])
                    (ascii "HELLO   ")
                    (ascii "TXT")
                    (ascii "ABC")
                    (3 ∷ [])
                    m)))
unfolding image image_bpb build_test_image fat_bytes_len cluster_size div_ceil is_dir from_byte
write_file_by_path-Wrote_example =
    write_file_by_path-Wrote image 9 (ascii "/HELLO.TXT") (ascii "ABC") hello_target (2 ∷ [])
      (3 ∷ []) (omega arith) (omega arith) image_max (refl, refl) hello_found root-IsDirectory
      hello-IsRawName (refl, inr (omega arith, image-IsChain, omega arith, (omega arith, tt)))
      (((λ e. absurd (omega (arith, e))), tt), tt) (omega arith) (omega arith)
