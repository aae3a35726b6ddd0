-- ===== src/Fat32/Volume.antt =====
-- The volume behind both views of fat32/src/lib.rs: the boot sector (`parse_bpb`), the geometry
-- that it gives, and the reading of clusters, FAT entries and chains. `Fat32` and `Fat32Mut` have
-- the same fields and repeat these functions word for word, so one record stands for both and
-- `as_read` is the identity. A `usize` has 64 bits: with the field widths of the boot sector no
-- sum or product of offsets here reaches `2 ^ 64`, so none wraps.
pub mod Chain
pub mod Bounds
pub mod Accept
pub mod Safe
use the_heap.Prelude.{
  ℕ, zero, suc, ◌+◌, ◌-◌, ◌*◌, ◌/◌, ◌%◌, ◌^◌, min, ◌||◌, List, [], ◌∷◌, ltb, leb, ◌==◌,
  if◌then◌else◌,
}
use the_heap.Bytes.{Memory, slice, from_le_bytes}
use the_heap.Fat32.Error.{
  panic, Result, ok, err, ◌>>=◌, buffer_too_small, not_fat32, out_of_bounds, invalid_cluster,
}

-- The buffer: `disk.len()` and its bytes.
pub record Disk : Type 0 where
  pub len : ℕ
  pub byte : Memory

pub record BpbParams : Type 0 where
  pub bytes_per_sector : ℕ
  pub sectors_per_cluster : ℕ
  pub reserved_sectors : ℕ
  pub num_fats : ℕ
  pub sectors_per_fat : ℕ
  pub root_cluster : ℕ

pub record Volume : Type 0 where
  pub disk : Disk
  pub bpb : BpbParams
  pub open bpb use *

-- `FAT32_EOC`, and the least value that ends a chain.
abbrev pub fat32_eoc : ℕ
fat32_eoc = 0x0FFF_FFFF

abbrev pub eoc_min : ℕ
eoc_min = 0x0FFF_FFF8

-- The bound that every caller of `follow_chain` gives.
abbrev pub max_chain : ℕ
max_chain = 4096

-- `&self.disk[off..off + n]`, which panics where the range passes the buffer.
unfoldable pub read_range : Disk → ℕ → ℕ → Result (List ℕ)
unfolding slice
read_range disk off n = if ltb disk.len (off + n) then panic else ok (slice disk.byte off n)

-- The fields end at byte 48: on a shorter buffer, reading them panics.
unfoldable pub parse_bpb : Disk → Result BpbParams
unfolding slice from_le_bytes
parse_bpb disk =
    let bytes_per_sector = from_le_bytes (slice disk.byte 11 2) in
    let sectors_per_cluster = disk.byte 13 in
    let reserved_sectors = from_le_bytes (slice disk.byte 14 2) in
    let num_fats = disk.byte 16 in
    let sectors_per_fat = from_le_bytes (slice disk.byte 36 4) in
    let root_cluster = from_le_bytes (slice disk.byte 44 4) in
    if ltb disk.len 512
    then err buffer_too_small
    else if ltb disk.len 48
    then panic
    else if (bytes_per_sector == 0) || ((sectors_per_cluster == 0) || (num_fats == 0))
    then err not_fat32
    else if sectors_per_fat == 0
    then err not_fat32
    else ok (record {
      bytes_per_sector = bytes_per_sector;
      sectors_per_cluster = sectors_per_cluster;
      reserved_sectors = reserved_sectors;
      num_fats = num_fats;
      sectors_per_fat = sectors_per_fat;
      root_cluster = root_cluster;
    })

-- `Fat32::new` and `Fat32Mut::new`.
unfoldable pub new : Disk → Result Volume
unfolding parse_bpb
new disk = do p ← parse_bpb disk; ok (record { disk = disk; bpb = p })

unfoldable pub cluster_size : BpbParams → ℕ
cluster_size p = p.bytes_per_sector * p.sectors_per_cluster

unfoldable pub fat_start_byte : BpbParams → ℕ
fat_start_byte p = p.reserved_sectors * p.bytes_per_sector

unfoldable pub fat_bytes_len : BpbParams → ℕ
fat_bytes_len p = p.sectors_per_fat * p.bytes_per_sector

unfoldable pub data_start_byte : BpbParams → ℕ
unfolding fat_start_byte
data_start_byte p = fat_start_byte p + p.num_fats * p.sectors_per_fat * p.bytes_per_sector

-- Where the data of a cluster would stand.
abbrev pub cluster_start : BpbParams → ℕ → ℕ
cluster_start p cluster = data_start_byte p + (cluster - 2) * cluster_size p

unfoldable pub cluster_to_offset : Volume → ℕ → Result ℕ
cluster_to_offset v cluster =
    if ltb cluster 2
    then err invalid_cluster
    else let offset = cluster_start v.bpb cluster in
      if leb v.disk.len offset then err out_of_bounds else ok offset

unfoldable pub read_cluster : Volume → ℕ → Result (List ℕ)
unfolding cluster_to_offset read_range
read_cluster v cluster = do
  offset ← cluster_to_offset v cluster
  let size = cluster_size v.bpb
  if ltb v.disk.len (offset + size) then err out_of_bounds else read_range v.disk offset size

-- Where the entry of a cluster stands in the first FAT.
abbrev pub entry_offset : BpbParams → ℕ → ℕ
entry_offset p cluster = fat_start_byte p + cluster * 4

-- `val & 0x0FFF_FFFF` is the remainder by `2 ^ 28`.
unfoldable pub read_fat_entry : Volume → ℕ → Result ℕ
unfolding read_range
read_fat_entry v cluster =
    if ltb v.disk.len (entry_offset v.bpb cluster + 4) then err out_of_bounds else do
      bytes ← read_range v.disk (entry_offset v.bpb cluster) 4
      ok (from_le_bytes bytes % 2 ^ 28)

-- The loop of `follow_chain`, with the rounds that are left.
unfoldable pub follow_loop : Volume → ℕ → ℕ → Result (List ℕ)
follow_loop v zero current = ok []
follow_loop v (suc rounds) current = do
  next ← read_fat_entry v current
  let rest = (do chain ← follow_loop v rounds next; ok (current ∷ chain))
  if leb eoc_min next then ok (current ∷ []) else if ltb next 2 then err invalid_cluster else rest

unfoldable pub follow_chain : Volume → ℕ → ℕ → Result (List ℕ)
unfolding follow_loop
follow_chain v start_cluster max_clusters =
    if ltb start_cluster 2 then err invalid_cluster else follow_loop v max_clusters start_cluster

-- `max_cluster_number` of `Fat32Mut`, the last cluster that the data area and the FAT both have.
-- Its casts to `u32` drop the high bits, and its sum wraps.
unfoldable pub max_cluster_number : Volume → Result ℕ
unfolding cluster_size data_start_byte fat_bytes_len
max_cluster_number v =
    let data_start = data_start_byte v.bpb in
    let cs = cluster_size v.bpb in
    let data_clusters = (v.disk.len - data_start) / cs % 2 ^ 32 in
    let last_by_data = (2 + data_clusters + (2 ^ 32 - 1)) % 2 ^ 32 in
    let fat_entries = fat_bytes_len v.bpb / 4 % 2 ^ 32 in
    if leb v.disk.len data_start
    then err out_of_bounds
    else if cs == 0
    then err not_fat32
    else if data_clusters == 0
    then err not_fat32
    else if ltb fat_entries 3
    then err not_fat32
    else ok (min last_by_data (fat_entries - 1))
