-- ===== src/Fat32/Write/Steps.antt =====
-- The steps of `write_file_by_path` of fat32/src/lib.rs: the searches of its target, the release of
-- the old content, and the storing of the new one.
use the_heap.Prelude.{
  ℕ, ◌≤◌, ◌<◌, ◌≡◌, refl, sym, ◌⊎◌, inl, inr, arith, true, false, Option, none, some, List, [],
  length, All, leb, ◌*◌, ◌-◌,
}
use mathlib.Core.Path.{subst}
use the_heap.Bytes.{Memory}
use the_heap.Fat32.DirEntry.{DirEntry, is_dir}
use the_heap.Fat32.Error
use the_heap.Fat32.Error.{ok, err, no_space_left, >>=-ok}
use the_heap.Fat32.Read.{read_file}
use the_heap.Fat32.Text.{Text, split_parent, encode_short_name_8_3}
use the_heap.Fat32.Volume.{
  Volume, max_chain, cluster_size, fat_bytes_len, eoc_min, max_cluster_number,
}
use the_heap.Fat32.Volume.Chain.{IsChain}
use the_heap.Fat32.Write.{
  with_bytes, release_existing, parent_cluster, find_dir_entry_offset_by_short_name, store_content,
  div_ceil, failed, ◌∷◌,
}
use the_heap.Fat32.Write.Effect.{done}
use the_heap.Fat32.Write.Plan.{Target, target}
use the_heap.Fat32.Write.Release.{Cleared, free_chain-Cleared}
use the_heap.Fat32.Write.Store.{Stored, store_content-Stored}
use the_heap.Fat32.Write.Table.{InTable, TablesFit}
use the_heap.Fat32.Write.Find.{count_free}

-- The clusters of the old content, which `release_existing` gives back: none, or those of a file.
abbrev pub OldChain : Volume → Option DirEntry → List ℕ → Type 0
OldChain v none old = old ≡ []
OldChain v (some e) old =
    (is_dir e ≡ false)
    × (((e.first_cluster < 2) × (old ≡ []))
        ⊎ ((2 ≤ e.first_cluster)
            × IsChain v e.first_cluster old
            × (length old ≤ max_chain)
            × All (InTable v) old))

nothing-Cleared : (v : Volume) (old : List ℕ) → old ≡ [] → Cleared v old v.disk.byte
nothing-Cleared v old e =
    subst (λ t. Cleared v t v.disk.byte) (sym e)
      (record {
        free = tt;
        stay_free = λ d inside z. z;
        others = λ d inside ne. refl;
        outside = λ a out. refl;
      })

pub release_existing-Cleared :
    (v : Volume) (entry : Option DirEntry) (old : List ℕ)
    → TablesFit v
    → 0 < v.num_fats
    → OldChain v entry old
    → (m : Memory) × (release_existing entry v ≡ done tt (with_bytes v m)) × Cleared v old m
unfolding release_existing
release_existing-Cleared v none old fit fats h = (v.disk.byte, refl, nothing-Cleared v old h)
release_existing-Cleared v (some e) old fit fats (file, inl (lt, h)) =
    let no_chain : leb 2 e.first_cluster ≡ false = ground arith in
    (v.disk.byte, rw (file, no_chain) refl, nothing-Cleared v old h)
release_existing-Cleared v (some e) old fit fats (file, inr (le, chain, short, inside)) =
    let some_chain : leb 2 e.first_cluster ≡ true = ground arith in
    let (m, q, c) = free_chain-Cleared v e.first_cluster old fit fats le chain short inside in
    (m, rw (file, some_chain) q, c)

empty-Stored : (v : Volume) → Stored v [] 0 v.disk.byte
unfolding read_file
empty-Stored v = record {
  valid = omega arith;
  reads = λ k e agrees file first size. rw (file, size) refl;
  entries = λ d inside used. refl;
  in_use = λ d a lo used from to. refl;
  reserved = λ a lt. refl;
}

-- The searches of the target, undone.
pub target-found :
    (path : Text) (v : Volume) (t : Target)
    → target path v ≡ ok t
    → find_dir_entry_offset_by_short_name v t.dir t.name.0 t.name.1 ≡ ok (t.off, t.entry)
target-found path v t h =
    let (parts, _, a) = >>=-ok (split_parent path) _ h in
    let (name, _, b) = >>=-ok (encode_short_name_8_3 parts.1) _ a in
    let (dir, _, c) = >>=-ok (parent_cluster v parts.0) _ b in
    let (found, e, d) = >>=-ok (find_dir_entry_offset_by_short_name v dir name.0 name.1) _ c in
    let q : ◌≡◌ {A = Target} (record { dir = dir; name = name; off = found.0; entry = found.1 }) t =
      Error.ok_inj d in
    subst
      (λ (s : Target).
        find_dir_entry_offset_by_short_name v s.dir s.name.0 s.name.1 ≡ ok (s.off, s.entry))
      q e

pub same_limit :
    (v : Volume) (m : Memory) → max_cluster_number (with_bytes v m) ≡ max_cluster_number v
unfolding max_cluster_number
same_limit v m = refl

pub store_content-any :
    (v : Volume) (max_cl : ℕ) (content : List ℕ)
    → 0 < v.num_fats
    → fat_bytes_len v.bpb ≤ 4 * eoc_min
    → max_cluster_number v ≡ ok max_cl
    → div_ceil (length content) (cluster_size v.bpb) ≤ max_chain
    → ((count_free v (max_cl - 1) 2 < div_ceil (length content) (cluster_size v.bpb))
        × (store_content content v ≡ failed no_space_left v))
      ⊎ ((first : ℕ) × (m : Memory) × (store_content content v ≡ done first (with_bytes v m))
          × Stored v content first m)
unfolding store_content
store_content-any v max_cl [] fats small known short = inr (0, v.disk.byte, refl, empty-Stored v)
store_content-any v max_cl (x ∷ xs) fats small known short =
    store_content-Stored v max_cl fats small known (x ∷ xs) (omega arith) short
