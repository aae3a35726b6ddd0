-- ===== src/Fat32/Volume/Safe.antt =====
-- Panics of what fat32/src/lib.rs reads of the boot sector, the FAT and clusters: the ranges behind
-- the tests of their bounds.
use the_heap.Prelude.{
  ℕ, zero, suc, ◌+◌, ◌≤◌, ◌≡◌, arith, false, Bool-cases, inl, inr, ltb, leb, ◌==◌, if◌then◌else◌,
  List, [], ◌∷◌, ◌/◌, ◌%◌, ◌^◌, ◌-◌,
}
use the_heap.Bytes.{from_le_bytes}
use the_heap.Fat32.Error.{
  Result, ok, err, NoPanic, FatError, ◌>>=◌, >>=-NoPanic, if-NoPanic, out_of_bounds,
  invalid_cluster, not_fat32,
}
use the_heap.Fat32.Volume.{
  Disk, Volume, read_range, new, cluster_to_offset, read_cluster, read_fat_entry, follow_loop,
  follow_chain, max_cluster_number, cluster_size, data_start_byte, fat_bytes_len, entry_offset,
  eoc_min, cluster_start,
}
use the_heap.Fat32.Volume.Accept.{new-Usable}

read_range-NoPanic : (d : Disk) (off n : ℕ) → off + n ≤ d.len → NoPanic (read_range d off n)
unfolding read_range
read_range-NoPanic d off n le =
    let inside : ltb d.len (off + n) ≡ false = ground arith in rw inside tt

-- Behind the test that the range lies in the buffer.
pub guarded-NoPanic :
    {A : Type 0} (d : Disk) (off n : ℕ) (e : FatError) (k : List ℕ → Result A)
    → ((bytes : List ℕ) → NoPanic (k bytes))
    → NoPanic (if ltb d.len (off + n) then err e else (read_range d off n >>= k))
guarded-NoPanic d off n e k next = elim (Bool-cases (ltb d.len (off + n))) [
  | inl short ↦ rw short tt
  | inr long ↦
      rw long (>>=-NoPanic (read_range d off n) k (read_range-NoPanic d off n (ground arith)) next)
]

pub new-NoPanic : (d : Disk) → NoPanic (new d)
new-NoPanic d = elim (new-Usable d) [
  | inl (_, e) ↦ rw e tt
  | inr (inl (_, _, e)) ↦ rw e tt
  | inr (inr (_, e, _, _)) ↦ rw e tt
]

pub cluster_to_offset-NoPanic : (v : Volume) (c : ℕ) → NoPanic (cluster_to_offset v c)
unfolding cluster_to_offset
cluster_to_offset-NoPanic v c =
    if-NoPanic (ltb c 2) (err invalid_cluster) _ tt
      (if-NoPanic (leb v.disk.len (cluster_start v.bpb c)) (err out_of_bounds) _ tt tt)

pub read_cluster-NoPanic : (v : Volume) (c : ℕ) → NoPanic (read_cluster v c)
unfolding read_cluster
read_cluster-NoPanic v c =
    >>=-NoPanic (cluster_to_offset v c) _ (cluster_to_offset-NoPanic v c) (λ off.
      elim (Bool-cases (ltb v.disk.len (off + cluster_size v.bpb))) [
        | inl short ↦ rw short tt
        | inr long ↦ rw long tt
      ])

pub read_fat_entry-NoPanic : (v : Volume) (c : ℕ) → NoPanic (read_fat_entry v c)
unfolding read_fat_entry
read_fat_entry-NoPanic v c =
    guarded-NoPanic v.disk (entry_offset v.bpb c) 4 out_of_bounds
      (λ bytes. ok (from_le_bytes bytes % 2 ^ 28)) (λ bytes. tt)

follow_loop-NoPanic : (v : Volume) (n c : ℕ) → NoPanic (follow_loop v n c)
unfolding follow_loop
follow_loop-NoPanic v zero c = tt
follow_loop-NoPanic v (suc n) c =
    >>=-NoPanic (read_fat_entry v c) _ (read_fat_entry-NoPanic v c) (λ next.
      if-NoPanic (leb eoc_min next) (ok (c ∷ [])) _ tt (
        if-NoPanic (ltb next 2) (err invalid_cluster) _ tt
          (>>=-NoPanic (follow_loop v n next) _ (follow_loop-NoPanic v n next) (λ chain. tt))))

pub follow_chain-NoPanic : (v : Volume) (c n : ℕ) → NoPanic (follow_chain v c n)
unfolding follow_chain
follow_chain-NoPanic v c n =
    if-NoPanic (ltb c 2) (err invalid_cluster) _ tt (follow_loop-NoPanic v n c)

pub max_cluster_number-NoPanic : (v : Volume) → NoPanic (max_cluster_number v)
unfolding max_cluster_number
max_cluster_number-NoPanic v =
    let data_start = data_start_byte v.bpb in
    let cs = cluster_size v.bpb in
    let data_clusters = (v.disk.len - data_start) / cs % 2 ^ 32 in
    let fat_entries = fat_bytes_len v.bpb / 4 % 2 ^ 32 in
    if-NoPanic (leb v.disk.len data_start) (err out_of_bounds) _ tt (
      if-NoPanic (cs == 0) (err not_fat32) _ tt (
        if-NoPanic (data_clusters == 0) (err not_fat32) _ tt
          (if-NoPanic (ltb fat_entries 3) (err not_fat32) (ok _) tt tt)))
