-- ===== src/Fat32/Tests/Image.antt =====
-- `build_test_image` of the tests in fat32/src/lib.rs: the image of the kernel's demonstration but
-- for the end mark in the FAT, which is `FAT32_EOC` here.
use the_heap.Prelude.{ℕ, ◌*◌, ◌+◌, List, [], ◌∷◌, ◌++◌, replicate}
use the_heap.Bytes.{Memory, copy_from_slice, to_le_bytes}
use the_heap.Fat32.Text.{ascii}
use the_heap.Fat32.Volume.{Disk, fat32_eoc}

abbrev sector : ℕ
sector = 512

-- The bytes `hello` and `subdir`: the raw name, the attributes, the low half of the first cluster
-- and the low byte of the size.
abbrev short_entry : List ℕ → List ℕ → ℕ → ℕ → ℕ → List ℕ
short_entry name ext attr cluster size =
    name ++ (ext ++ (attr ∷ (replicate 14 0 ++ (cluster ∷ 0x00 ∷ (size ∷ replicate 3 0)))))

unfoldable pub build_test_image : Disk
unfolding copy_from_slice to_le_bytes
build_test_image =
    let m : Memory = λ _. 0 in
    let m = copy_from_slice m 11 (0x00 ∷ 0x02 ∷ []) in
    let m = copy_from_slice m 13 (0x01 ∷ []) in
    let m = copy_from_slice m 14 (0x01 ∷ 0x00 ∷ []) in
    let m = copy_from_slice m 16 (0x01 ∷ []) in
    let m = copy_from_slice m 36 (0x01 ∷ 0x00 ∷ 0x00 ∷ 0x00 ∷ []) in
    let m = copy_from_slice m 44 (0x02 ∷ 0x00 ∷ 0x00 ∷ 0x00 ∷ []) in
    let eoc_bytes = to_le_bytes 4 fat32_eoc in
    let m = copy_from_slice m (sector + 2 * 4) eoc_bytes in
    let m = copy_from_slice m (sector + 3 * 4) eoc_bytes in
    let m = copy_from_slice m (sector + 4 * 4) eoc_bytes in
    let hello = short_entry (ascii "HELLO   ") (ascii "TXT") 0x20 0x03 5 in
    let subdir = short_entry (ascii "DIR     ") (ascii "   ") 0x10 0x04 0 in
    let m = copy_from_slice m (2 * sector) hello in
    let m = copy_from_slice m (2 * sector + 32) subdir in
    let m = copy_from_slice m (2 * sector + 64) (0x00 ∷ []) in
    let m = copy_from_slice m (3 * sector) (ascii "HELLO") in
    record { len = sector * 10; byte = copy_from_slice m (4 * sector) (0x00 ∷ []) }
