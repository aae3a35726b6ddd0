-- ===== src/Fat32/Volume/Bounds.antt =====
-- The geometry of a volume that `parse_bpb` accepts, and the clusters up to
-- `max_cluster_number` (fat32/src/lib.rs).
use the_heap.Prelude.{ℕ, ◌+◌, ◌-◌, ◌*◌, ◌/◌, ◌≤◌, ◌<◌, ◌≡◌, arith, ltb, false, suc, leb}
use the_heap.Fat32.Error.{ok}
use the_heap.Prelude.{refl}
use the_heap.Fat32.Volume.{
  Volume, cluster_size, cluster_start, cluster_to_offset, fat_bytes_len, max_cluster_number,
  data_start_byte, suc, leb,
}

le-div : (j n k : ℕ) → 0 < k → j ≤ n / k → j * k ≤ n
le-div j n k pos h = grind arith

step_down : (c k : ℕ) → 2 ≤ c → (c - 1) * k ≡ (c - 2) * k + k
step_down c k h = let e : c - 1 ≡ suc (c - 2) = omega arith in rw e (omega arith)

pub record Limits (v : Volume) (max_cl : ℕ) : Type 0 where
  pub data_lt : data_start_byte v.bpb < v.disk.len
  pub size : 0 < cluster_size v.bpb
  pub by_data : max_cl ≤ (v.disk.len - data_start_byte v.bpb) / cluster_size v.bpb + 1
  pub entries : 3 ≤ fat_bytes_len v.bpb / 4
  pub by_fat : max_cl + 1 ≤ fat_bytes_len v.bpb / 4

pub max_cluster_number-Limits :
    (v : Volume) (max_cl : ℕ) → max_cluster_number v ≡ ok max_cl → Limits v max_cl
unfolding max_cluster_number
max_cluster_number-Limits v max_cl h = record {
  data_lt = ground (arith, h);
  size = ground (arith, h);
  by_data = ground (arith, h);
  entries = ground (arith, h);
  by_fat = ground (arith, h);
}

-- Every cluster up to the bound that `max_cluster_number` gives has its data in the buffer, and
-- its entry in the FAT.
pub max_cluster_number-inside :
    (v : Volume) (max_cl cluster : ℕ)
    → max_cluster_number v ≡ ok max_cl
    → 2 ≤ cluster
    → cluster ≤ max_cl
    → (cluster_to_offset v cluster ≡ ok (cluster_start v.bpb cluster))
      × (cluster_start v.bpb cluster + cluster_size v.bpb ≤ v.disk.len)
      × (cluster * 4 + 4 ≤ fat_bytes_len v.bpb)
unfolding max_cluster_number cluster_to_offset
max_cluster_number-inside v max_cl cluster h lo hi =
    let l = max_cluster_number-Limits v max_cl h in
    let d = l.data_lt in
    let z =
      le-div (cluster - 1) (v.disk.len - data_start_byte v.bpb) (cluster_size v.bpb) l.size
        (omega (arith, l.by_data)) in
    let e : (cluster - 1) * cluster_size v.bpb
        ≡ (cluster - 2) * cluster_size v.bpb + cluster_size v.bpb =
      step_down cluster (cluster_size v.bpb) lo in
    let small : ltb cluster 2 ≡ false = ground arith in
    let room : leb v.disk.len (cluster_start v.bpb cluster) ≡ false = ground arith in
    (rw (small, room) refl, omega arith, omega (arith, l.by_fat))
