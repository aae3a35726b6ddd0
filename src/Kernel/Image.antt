-- ===== src/Kernel/Image.antt =====
-- `build_test_image` of kernel/src/main.rs: 10 sectors of 512 bytes, one for the boot sector, one
-- for the FAT, and the clusters 2 (root, with HELLO.TXT and DIR), 3 ("HELLO") and 4 (DIR, empty).
-- The bytes that the source sets to zero again are zero already.
use the_heap.Prelude.{ℕ, ◌*◌, ◌+◌, List, [], ◌∷◌, ◌++◌, replicate}
use the_heap.Bytes.{Memory, copy_from_slice, to_le_bytes}
use the_heap.Fat32.Text.{ascii}
use the_heap.Fat32.Volume.{Disk}

abbrev sector_size : ℕ
sector_size = 512

-- The fields of the boot sector that are not zero, in their order.
unfoldable pub write_boot_sector : Memory → Memory
unfolding copy_from_slice
write_boot_sector m =
    let m = copy_from_slice m 11 (0x00 ∷ 0x02 ∷ []) in
    let m = copy_from_slice m 13 (0x01 ∷ []) in
    let m = copy_from_slice m 14 (0x01 ∷ 0x00 ∷ []) in
    let m = copy_from_slice m 16 (0x01 ∷ []) in
    let m = copy_from_slice m 36 (0x01 ∷ 0x00 ∷ 0x00 ∷ 0x00 ∷ []) in
    copy_from_slice m 44 (0x02 ∷ 0x00 ∷ 0x00 ∷ 0x00 ∷ [])

unfoldable pub write_fat_sector : Memory → Memory
unfolding copy_from_slice to_le_bytes
write_fat_sector m =
    let eoc = to_le_bytes 4 0x0F_FF_FF_F8 in
    let m = copy_from_slice m (sector_size + 2 * 4) eoc in
    let m = copy_from_slice m (sector_size + 3 * 4) eoc in
    copy_from_slice m (sector_size + 4 * 4) eoc

-- An entry of the root directory: name, extension, attributes, low cluster and size byte.
abbrev image_entry : List ℕ → ℕ → ℕ → ℕ → List ℕ
image_entry name attr cluster size =
    name ++ (attr ∷ (replicate 14 0 ++ (cluster ∷ 0 ∷ size ∷ (replicate 3 0))))

unfoldable pub write_root_dir : Memory → Memory
unfolding copy_from_slice
write_root_dir m =
    let m = copy_from_slice m (2 * sector_size) (image_entry (ascii "HELLO   TXT") 0x20 0x03 5) in
    copy_from_slice m (2 * sector_size + 32) (image_entry (ascii "DIR        ") 0x10 0x04 0)

unfoldable pub build_test_image : Disk
unfolding write_boot_sector write_fat_sector write_root_dir
build_test_image =
    let m = write_root_dir (write_fat_sector (write_boot_sector (λ _. 0))) in
    record { len = sector_size * 10; byte = copy_from_slice m (3 * sector_size) (ascii "HELLO") }
