-- ===== src/Fat32/Write/Listing/Written.antt =====
-- The listing of a directory behind `put_entry` of fat32/src/lib.rs.
use the_heap.Prelude.{
  ℕ, zero, suc, ◌+◌, ◌*◌, ◌/◌, ◌<◌, ◌≡◌, sym, ◌∙◌, arith, inl, inr, some, List, All, All-map,
  All-both,
}
use mathlib.Core.Path.{subst}
use the_heap.Bytes.{Memory, slice}
use the_heap.Fat32.DirEntry.{DirEntry}
use the_heap.Fat32.Error.{ok}
use the_heap.Fat32.Read.{find_entry, list_dir_cluster}
use the_heap.Fat32.Text.{Text}
use the_heap.Fat32.Volume.{Volume, cluster_size, cluster_start, max_chain}
use the_heap.Fat32.Volume.Chain.{follow_chain-IsChain}
use the_heap.Fat32.Write.{with_bytes}
use the_heap.Fat32.Write.Keep.{SameData}
use the_heap.Fat32.Write.Listing.{Answers, Canonical, parse-end}
use the_heap.Fat32.Write.Listing.Clusters.{find_in-Listed}
use the_heap.Fat32.Write.Lookup.{pieces, pieces_ext}
use the_heap.Fat32.Write.Put.{Placed}
use the_heap.Fat32.Write.Replace.{IsDirectory, find-directory, before_data-IsDirectory}
use the_heap.Fat32.Write.Spot.{Piece}

-- In the directory, only entries with the raw name answer to the name.
abbrev pub CanonicalDirectory : Volume → List ℕ → List ℕ → List ℕ → Text → Type 0
CanonicalDirectory v ds name_raw ext_raw target =
    All
      (λ cl.
        All (Canonical name_raw ext_raw target)
          (pieces (cluster_size v.bpb / 32) v.disk.byte (cluster_start v.bpb cl)))
      ds

module _ (name_raw ext_raw : List ℕ) (target : Text) where
  Canonical-Piece :
      (m k : Memory) (q : ℕ)
      → Piece name_raw ext_raw m k q
      → Canonical name_raw ext_raw target (slice m q 32)
      → Canonical name_raw ext_raw target (slice k q 32)
  Canonical-Piece m k q (inl same) h = subst (Canonical name_raw ext_raw target) (sym same) h
  Canonical-Piece m k q (inr (inl hit)) h = λ e p a. hit
  Canonical-Piece m k q (inr (inr last)) h =
      λ e p a. let z = sym (parse-end (slice k q 32) (ground (arith, last))) ∙ p in cc

  Canonical-pieces :
      (n : ℕ) (m k : Memory) (off : ℕ)
      → ((i : ℕ) → i < n → Piece name_raw ext_raw m k (off + i * 32))
      → All (Canonical name_raw ext_raw target) (pieces n m off)
      → All (Canonical name_raw ext_raw target) (pieces n k off)
  unfolding pieces
  Canonical-pieces zero m k off p h = tt
  Canonical-pieces (suc n) m k off p h =
      let here : off + 0 * 32 ≡ off = omega arith in
      (
        Canonical-Piece m k off (subst (Piece name_raw ext_raw m k) here (p 0 (omega arith))) h.0,
        Canonical-pieces n m k (off + 32)
            (λ i lt.
              let e : off + suc i * 32 ≡ off + 32 + i * 32 = omega arith in
              subst (Piece name_raw ext_raw m k) e (p (suc i) (omega arith)))
            h.1,
      )

pub CanonicalDirectory-kept :
    (v : Volume) (m : Memory) (ds name_raw ext_raw : List ℕ) (target : Text)
    → All (λ d. SameData v d v.disk.byte m) ds
    → CanonicalDirectory v ds name_raw ext_raw target
    → CanonicalDirectory (with_bytes v m) ds name_raw ext_raw target
CanonicalDirectory-kept v m ds name_raw ext_raw target same h =
    All-map ds
      (λ cl q.
        subst (All (Canonical name_raw ext_raw target))
          (sym (
            pieces_ext (cluster_size v.bpb / 32) m v.disk.byte (cluster_start v.bpb cl)
              (λ a lo hi. q.0 a lo (omega arith))))
          q.1)
      (All-both _ _ ds same h)

pub Placed-Listed :
    (v : Volume) (dir : ℕ) (ds name_raw ext_raw : List ℕ) (target : Text) (entry : DirEntry)
    (m : Memory)
    → 0 < v.num_fats
    → 0 < cluster_size v.bpb
    → IsDirectory v dir ds
    → Placed v dir ds name_raw ext_raw entry m
    → CanonicalDirectory v ds name_raw ext_raw target
    → Answers target entry
    → (es : List DirEntry) × (list_dir_cluster (with_bytes v m) dir ≡ ok es)
      × (find_entry target es ≡ some entry)
unfolding list_dir_cluster
Placed-Listed v dir ds name_raw ext_raw target entry m fats pos d p canon answers =
    let kept = before_data-IsDirectory v m dir ds fats (λ a lt. p.outside a (inl lt)) d in
    let chain =
      follow_chain-IsChain (with_bytes v m) dir max_chain ds kept.start kept.chain kept.short in
    let canon' =
      All-map ds
        (λ cl q.
          Canonical-pieces name_raw ext_raw target (cluster_size v.bpb / 32) v.disk.byte m
            (cluster_start v.bpb cl) (λ i lt. p.pieces cl i q.0.0 (omega arith)) q.1)
        (All-both _ _ ds d.data_inside canon) in
    let (es, e, found) =
      find_in-Listed v pos m name_raw ext_raw target p.off entry answers ds d.data_inside canon'
        (sym (find-directory (with_bytes v m) dir ds name_raw ext_raw kept) ∙ p.found) in
    (es, rw chain e, found)
