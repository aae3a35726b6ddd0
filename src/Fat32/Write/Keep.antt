-- ===== src/Fat32/Write/Keep.antt =====
-- What the reading functions of fat32/src/lib.rs depend on: the bytes of the FAT, and the data of
-- the clusters that they read.
use the_heap.Prelude.{
  ℕ, ◌+◌, ◌-◌, ◌≤◌, ◌<◌, ◌≡◌, ◌≢◌, refl, sym, ◌∙◌, arith, List, [], ◌∷◌, All, min, ltb, false,
}
use native.Mathlib.Nat.{mul-le-mul_right}
use mathlib.Core.Path.{subst}
use the_heap.Bytes.{Memory, slice}
use the_heap.Bytes.Region.{slice_ext}
use the_heap.Fat32.Error.{ok, ok_inj}
use the_heap.Fat32.Volume.{
  Volume, cluster_size, cluster_start, data_start_byte, fat_bytes_len, read_fat_entry, entry_offset,
}
use the_heap.Fat32.Volume.Chain.{IsChain}
use the_heap.Fat32.Read.{read_clusters}
use the_heap.Fat32.Write.{with_bytes, dir_cluster}
use the_heap.Fat32.Write.Table.{InTable}
use the_heap.Fat32.Write.Content.{InBuffer, read_cluster-InBuffer, cluster_to_offset-InBuffer}

-- FAT entries read the same where the bytes before the data area do.
pub read_fat_entry_ext :
    (v : Volume) (m k : Memory) (d : ℕ)
    → 0 < v.num_fats
    → InTable v d
    → ((a : ℕ) → a < data_start_byte v.bpb → k a ≡ m a)
    → read_fat_entry (with_bytes v k) d ≡ read_fat_entry (with_bytes v m) d
unfolding read_fat_entry data_start_byte fat_bytes_len
read_fat_entry_ext v m k d fats inside same =
    let fits = mul-le-mul_right (fat_bytes_len v.bpb) fats in
    rw (slice_ext k m (entry_offset v.bpb d) 4 (λ a lo hi. same a (omega arith))) refl

pub IsChain-ext :
    (v : Volume) (m k : Memory) (c : ℕ) (cs : List ℕ)
    → All (λ d. read_fat_entry (with_bytes v k) d ≡ read_fat_entry (with_bytes v m) d) cs
    → IsChain (with_bytes v m) c cs
    → IsChain (with_bytes v k) c cs
IsChain-ext v m k c [] same h = h
IsChain-ext v m k c (x ∷ []) same h = (h.0, h.1, rw h.0 same.0 ∙ h.2, h.3)
IsChain-ext v m k c (x ∷ y ∷ cs) same h =
    (h.0, rw h.0 same.0 ∙ h.1, h.2, h.3, IsChain-ext v m k y (y ∷ cs) same.1 h.4)

-- The data of the cluster is the same in both memories.
abbrev pub SameData : Volume → ℕ → Memory → Memory → Type 0
SameData v c m k =
    (a : ℕ) → cluster_start v.bpb c ≤ a → a < cluster_start v.bpb c + cluster_size v.bpb → k a ≡ m a

pub read_clusters_ext :
    (v : Volume) (m k : Memory) (len : ℕ) (cs : List ℕ)
    → 0 < cluster_size v.bpb
    → All (InBuffer v) cs
    → All (λ c. SameData v c m k) cs
    → read_clusters (with_bytes v k) len cs ≡ read_clusters (with_bytes v m) len cs
unfolding read_clusters
read_clusters_ext v m k len [] pos inb same = refl
read_clusters_ext v m k len (c ∷ cs) pos inb same =
    rw
      (
        read_cluster-InBuffer (with_bytes v k) c pos inb.0,
        read_cluster-InBuffer (with_bytes v m) c pos inb.0,
        slice_ext k m (cluster_start v.bpb c) (cluster_size v.bpb) same.0,
        read_clusters_ext v m k (len - min len (cluster_size v.bpb)) cs pos inb.1 same.1,
      )
      refl

-- No cluster of a chain is free.
pub IsChain-in_use :
    (v : Volume) (c : ℕ) (cs : List ℕ) → IsChain v c cs → All (λ d. read_fat_entry v d ≢ ok 0) cs
IsChain-in_use v c [] h = absurd h
IsChain-in_use v c (x ∷ []) (e, n, r, last) = (
  λ z. let q = ok_inj (sym r ∙ subst (λ t. read_fat_entry v t ≡ ok 0) (sym e) z) in omega arith,
  tt,
)
IsChain-in_use v c (x ∷ y ∷ cs) (e, r, lo, hi, h) = (
  λ z. let q = ok_inj (sym r ∙ subst (λ t. read_fat_entry v t ≡ ok 0) (sym e) z) in omega arith,
  IsChain-in_use v y (y ∷ cs) h,
)

pub dir_cluster-InBuffer :
    (v : Volume) (m : Memory) (cl : ℕ)
    → 0 < cluster_size v.bpb
    → InBuffer v cl
    → dir_cluster (with_bytes v m) cl
      ≡ ok (cluster_start v.bpb cl, slice m (cluster_start v.bpb cl) (cluster_size v.bpb))
unfolding dir_cluster
dir_cluster-InBuffer v m cl pos b =
    let room : ltb v.disk.len (cluster_start v.bpb cl + cluster_size v.bpb) ≡ false =
      ground arith in
    rw (cluster_to_offset-InBuffer (with_bytes v m) cl pos b, room) refl
