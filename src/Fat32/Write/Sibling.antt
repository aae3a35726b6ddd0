-- ===== src/Fat32/Write/Sibling.antt =====
-- The other names of a directory behind the overwriting of an entry: the search of
-- fat32/src/lib.rs over the directory's clusters.
use the_heap.Prelude.{
  ℕ, ◌+◌, ◌*◌, ◌/◌, ◌≤◌, ◌<◌, ◌≡◌, refl, sym, ap, ◌∙◌, arith, List, [], ◌∷◌, All, Option, some, inl,
}
use the_heap.Bytes.{Memory}
use the_heap.Fat32.DirEntry.{DirEntry}
use the_heap.Fat32.Error.{ok}
use the_heap.Fat32.Volume.{Volume, cluster_size, cluster_start}
use the_heap.Fat32.Write.{with_bytes, find_in_clusters, find_dir_entry_offset_by_short_name}
use the_heap.Fat32.Write.Content.{InBuffer}
use the_heap.Fat32.Write.Found.{after_search, look_in, find_in, find_step}
use the_heap.Fat32.Write.Named.{IsOther, SamePiece, search_chunks-other}
use the_heap.Fat32.Write.Put.{Placed}
use the_heap.Fat32.Write.Replace.{IsDirectory, find-directory, before_data-IsDirectory}

nil_find :
    (v : Volume) (m k : Memory) (name ext : List ℕ)
    → find_in_clusters (with_bytes v k) name ext [] ≡ find_in_clusters (with_bytes v m) name ext []
unfolding find_in_clusters
nil_find v m k name ext = refl

module _ (v : Volume) (m k : Memory) (pos : 0 < cluster_size v.bpb)
    (name_raw ext_raw name ext : List ℕ) (other : IsOther name_raw ext_raw name ext)
    (same : (x i : ℕ)
      → 2 ≤ x
      → (i + 1) * 32 ≤ cluster_size v.bpb
      → SamePiece name_raw ext_raw m k (cluster_start v.bpb x + i * 32)) where
  find_in-other :
      (cs : List ℕ)
      → All (InBuffer v) cs
      → find_in v name ext pos k cs ≡ find_in v name ext pos m cs
  find_in-other [] b = nil_find v m k name ext
  find_in-other (cl ∷ cs) b =
      let start = cluster_start v.bpb cl in
      find_step v name ext pos k cl cs b.0
      ∙ ap (after_search start (find_in v name ext pos k cs)) (
          search_chunks-other name_raw ext_raw name ext (cluster_size v.bpb / 32) 0 m k start other
            (λ j lt. same cl j b.0.0 (omega arith)))
      ∙ ap (λ t. after_search start t (look_in v name ext pos m cl)) (find_in-other cs b.1)
      ∙ sym (find_step v name ext pos m cl cs b.0)

pub Placed-siblings :
    (v : Volume) (dir : ℕ) (ds name_raw ext_raw : List ℕ) (entry : DirEntry) (m : Memory) (off : ℕ)
    (old : Option DirEntry) (name ext : List ℕ)
    → 0 < v.num_fats
    → 0 < cluster_size v.bpb
    → IsDirectory v dir ds
    → Placed v dir ds name_raw ext_raw entry m
    → find_dir_entry_offset_by_short_name v dir name_raw ext_raw ≡ ok (some off, old)
    → IsOther name_raw ext_raw name ext
    → find_dir_entry_offset_by_short_name (with_bytes v m) dir name ext
      ≡ find_dir_entry_offset_by_short_name v dir name ext
Placed-siblings v dir ds name_raw ext_raw entry m off old name ext fats pos d p h other =
    let kept = before_data-IsDirectory v m dir ds fats (λ a lt. p.outside a (inl lt)) d in
    find-directory (with_bytes v m) dir ds name ext kept
    ∙ find_in-other v v.disk.byte m pos name_raw ext_raw name ext other (p.replaced off old h) ds
        d.data_inside
    ∙ sym (find-directory v dir ds name ext d)
