-- ===== src/Fat32/Write/Stay.antt =====
-- What the writing operations of fat32/src/lib.rs leave alone: clusters in use, and with them the
-- searches of a directory.
use the_heap.Prelude.{
  ℕ, ◌/◌, ◌≤◌, ◌<◌, ◌≡◌, ◌≢◌, refl, sym, ap, ◌∙◌, inr, arith, List, [], ◌∷◌, All, All-map,
}
use the_heap.Bytes.{Memory}
use the_heap.Fat32.Error.{ok}
use the_heap.Fat32.Volume.{Volume, cluster_size, cluster_start, read_fat_entry}
use the_heap.Fat32.Write.{
  with_bytes, find_dir_entry_offset_by_short_name, find_free_dir_entry_slot, search_chunks,
  free_chunk, find_in_clusters, free_in_clusters,
}
use the_heap.Fat32.Write.Content.{InBuffer}
use the_heap.Fat32.Write.Found.{after_search, look_in, find_in, find_step}
use the_heap.Fat32.Write.Insert.{after_free, free_of, free_in, free_step}
use the_heap.Fat32.Write.Keep.{SameData}
use the_heap.Fat32.Write.Lookup.{pieces_ext}
use the_heap.Fat32.Write.Put.{find_free-directory}
use the_heap.Fat32.Write.Release.{Cleared}
use the_heap.Fat32.Write.Replace.{IsDirectory, IsDirectory-with_bytes, find-directory}
use the_heap.Fat32.Write.Store.{Stored}
use the_heap.Fat32.Write.Table.{InTable}

-- The cluster keeps its FAT entry and its data.
abbrev pub KeepsCluster : Volume → Memory → ℕ → Type 0
KeepsCluster v m d =
    (read_fat_entry (with_bytes v m) d ≡ read_fat_entry v d) × SameData v d v.disk.byte m

pub KeepsCluster-trans :
    (v : Volume) (m k : Memory) (d : ℕ)
    → KeepsCluster v m d
    → KeepsCluster (with_bytes v m) k d
    → KeepsCluster v k d
KeepsCluster-trans v m k d (e, same) (q, again) = (q ∙ e, λ a lo hi. again a lo hi ∙ same a lo hi)

pub Cleared-KeepsCluster :
    (v : Volume) (old : List ℕ) (m : Memory) (d : ℕ)
    → Cleared v old m
    → InTable v d
    → All (λ x. x ≢ d) old
    → KeepsCluster v m d
Cleared-KeepsCluster v old m d c inside other =
    (c.others d inside other, λ a lo hi. c.outside a (inr (omega arith)))

pub Stored-KeepsCluster :
    (v : Volume) (content : List ℕ) (first : ℕ) (m : Memory) (d : ℕ)
    → Stored v content first m
    → 2 ≤ d
    → InTable v d
    → read_fat_entry v d ≢ ok 0
    → KeepsCluster v m d
Stored-KeepsCluster v content first m d s lo inside used =
    (s.entries d inside used, λ a from to. s.in_use d a lo used from to)

nil_find :
    (v : Volume) (m k : Memory) (name_raw ext_raw : List ℕ)
    → find_in_clusters (with_bytes v k) name_raw ext_raw []
      ≡ find_in_clusters (with_bytes v m) name_raw ext_raw []
unfolding find_in_clusters
nil_find v m k name_raw ext_raw = refl

nil_free :
    (v : Volume) (m k : Memory)
    → free_in_clusters (with_bytes v k) [] ≡ free_in_clusters (with_bytes v m) []
unfolding free_in_clusters
nil_free v m k = refl

module _ (v : Volume) (m k : Memory) (pos : 0 < cluster_size v.bpb) where
  find_in_ext :
      (name_raw ext_raw cs : List ℕ)
      → All (InBuffer v) cs
      → All (λ d. SameData v d m k) cs
      → find_in v name_raw ext_raw pos k cs ≡ find_in v name_raw ext_raw pos m cs
  find_in_ext name_raw ext_raw [] b same = nil_find v m k name_raw ext_raw
  find_in_ext name_raw ext_raw (cl ∷ cs) b same =
      let start = cluster_start v.bpb cl in
      let found = find_in v name_raw ext_raw pos k cs in
      find_step v name_raw ext_raw pos k cl cs b.0
      ∙ ap (λ t. after_search start found (search_chunks name_raw ext_raw 0 t))
          (pieces_ext (cluster_size v.bpb / 32) k m start (λ a lo hi. same.0 a lo (omega arith)))
      ∙ ap (λ t. after_search start t (look_in v name_raw ext_raw pos m cl))
          (find_in_ext name_raw ext_raw cs b.1 same.1)
      ∙ sym (find_step v name_raw ext_raw pos m cl cs b.0)

  free_in_ext :
      (cs : List ℕ)
      → All (InBuffer v) cs
      → All (λ d. SameData v d m k) cs
      → free_in v pos k cs ≡ free_in v pos m cs
  free_in_ext [] b same = nil_free v m k
  free_in_ext (cl ∷ cs) b same =
      let start = cluster_start v.bpb cl in
      let size = cluster_size v.bpb in
      free_step v pos k cl cs b.0
      ∙ ap (λ t. after_free start size (free_in v pos k cs) (free_chunk 0 t))
          (pieces_ext (size / 32) k m start (λ a lo hi. same.0 a lo (omega arith)))
      ∙ ap (λ t. after_free start size t (free_of v pos m cl)) (free_in_ext cs b.1 same.1)
      ∙ sym (free_step v pos m cl cs b.0)

-- The directory is there, and the searches end as before.
pub record SameDirectory (v : Volume) (dir : ℕ) (ds : List ℕ) (m : Memory) : Type 0 where
  pub directory : IsDirectory (with_bytes v m) dir ds
  pub finds :
      (name_raw ext_raw : List ℕ)
      → find_dir_entry_offset_by_short_name (with_bytes v m) dir name_raw ext_raw
        ≡ find_dir_entry_offset_by_short_name v dir name_raw ext_raw
  pub slots : find_free_dir_entry_slot (with_bytes v m) dir ≡ find_free_dir_entry_slot v dir

pub KeepsCluster-SameDirectory :
    (v : Volume) (dir : ℕ) (ds : List ℕ) (m : Memory)
    → 0 < cluster_size v.bpb
    → IsDirectory v dir ds
    → All (KeepsCluster v m) ds
    → SameDirectory v dir ds m
KeepsCluster-SameDirectory v dir ds m pos d kept =
    let there = IsDirectory-with_bytes v m dir ds (All-map ds (λ c q. q.0) kept) d in
    let same = All-map ds (λ c q. q.1) kept in
    record {
      directory = there;
      finds = λ name_raw ext_raw.
          find-directory (with_bytes v m) dir ds name_raw ext_raw there
          ∙ find_in_ext v v.disk.byte m pos name_raw ext_raw ds d.data_inside same
          ∙ sym (find-directory v dir ds name_raw ext_raw d);
      slots =
          find_free-directory (with_bytes v m) dir ds there
          ∙ free_in_ext v v.disk.byte m pos ds d.data_inside same
          ∙ sym (find_free-directory v dir ds d);
    }
