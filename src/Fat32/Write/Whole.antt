-- ===== src/Fat32/Write/Whole.antt =====
-- `write_file_by_path` of fat32/src/lib.rs as a whole.
use the_heap.Prelude.{
  ℕ, ◌≤◌, ◌<◌, ◌≡◌, refl, ◌⊎◌, inl, inr, arith, none, List, length, All, ◌*◌, ◌≢◌, ◌^◌, ◌∙◌, ◌-◌,
}
use the_heap.Bytes.{Memory}
use the_heap.Fat32.Error.{ok, err, no_space_left}
use the_heap.Fat32.Text.{Text}
use the_heap.Fat32.Volume.{
  Volume, max_chain, cluster_size, fat_bytes_len, eoc_min, max_cluster_number,
}
use the_heap.Fat32.Write.{
  with_bytes, div_ceil, failed, find_free_dir_entry_slot, write_file_by_path,
}
use the_heap.Fat32.Write.Effect.{done}
use the_heap.Fat32.Write.Plan.{Target, target, IsFilePath, write_file_by_path-target}
use the_heap.Fat32.Write.Release.{Cleared}
use the_heap.Fat32.Write.Store.{Stored}
use the_heap.Fat32.Write.Replace.{IsDirectory, IsRawName}
use the_heap.Fat32.Write.Find.{count_free}
use the_heap.Fat32.Volume.Bounds.{max_cluster_number-Limits}
use the_heap.Fat32.Write.Steps.{
  OldChain, release_existing-Cleared, target-found, store_content-any, same_limit,
}
use the_heap.Fat32.Write.Wrote.{Wrote, put_entry-Wrote}

-- On a volume that `max_cluster_number` accepts, with a FAT or more and FATs of fewer entries
-- than there are cluster numbers; for a path whose searches end at a target, in a directory whose
-- clusters lie in the volume, with a raw name of 8 and 3 bytes that is in use; where the name has
-- no entry there, or the one of a file without a cluster or with a chain of at most 4096 clusters
-- in the FAT, none of them a cluster of the directory; and for content shorter than `2 ^ 32` that
-- needs at most 4096 clusters: `write_file_by_path` frees the old chain first. It then fails with
-- `NoSpaceLeft` where too few clusters are free for the content, or where the name has no place
-- yet and the directory no free slot, and the content is in its new chain then. Otherwise it
-- succeeds: the name is found in the directory with a file's entry, `read_file` of that entry
-- gives the content, and the directory's listing has the entry first under each name that it
-- answers to and that no entry with another raw name answered to. Every other raw name is found
-- there as before, where this one had a place; and every cluster in use that is neither of the
-- old chain nor of the directory keeps its FAT entry and its data.
pub write_file_by_path-Wrote :
    (v : Volume) (max_cl : ℕ) (path : Text) (content : List ℕ) (t : Target) (ds old : List ℕ)
    → 0 < v.num_fats
    → fat_bytes_len v.bpb ≤ 4 * eoc_min
    → max_cluster_number v ≡ ok max_cl
    → IsFilePath path
    → target path v ≡ ok t
    → IsDirectory v t.dir ds
    → IsRawName t.name.0 t.name.1
    → OldChain v t.entry old
    → All (λ x. All (λ y. y ≢ x) old) ds
    → length content < 2 ^ 32
    → div_ceil (length content) (cluster_size v.bpb) ≤ max_chain
    → (m1 : Memory) × Cleared v old m1
      × (((count_free (with_bytes v m1) (max_cl - 1) 2
              < div_ceil (length content) (cluster_size v.bpb))
            × (write_file_by_path path content v ≡ failed no_space_left (with_bytes v m1)))
          ⊎ (((t.off ≡ none)
                × (find_free_dir_entry_slot v t.dir ≡ err no_space_left)
                × (first : ℕ) × (m : Memory) × (write_file_by_path path content v
                    ≡ failed no_space_left (with_bytes v m))
                × Stored (with_bytes v m1) content first m)
              ⊎ ((m : Memory) × (write_file_by_path path content v ≡ done tt (with_bytes v m))
                  × Wrote v t.dir ds t.name.0 t.name.1 content old m)))
write_file_by_path-Wrote v max_cl path content t ds old fats small known file h d r chain apart lt
      short =
    let l = max_cluster_number-Limits v max_cl known in
    let (m1, e1, c) =
      release_existing-Cleared v t.entry old (omega (arith, l.data_lt)) fats chain in
    let plan = write_file_by_path-target path content v file in
    (
      m1,
      c,
      elim (store_content-any (with_bytes v m1) max_cl content fats small (same_limit v m1 ∙ known)
          short) [
            | inl (few, e) ↦ inl (few, plan ∙ rw (h, e1, e) refl)
            | inr (first, m2, e2, s) ↦
                inr
                  (elim (put_entry-Wrote v t.dir ds t.name.0 t.name.1 content old fats l.size d r lt
                    apart m1 c first m2 s t.off t.entry (target-found path v t h)) [
                      | inl (new, full, e) ↦ inl (new, full, first, m2, plan ∙ rw (h, e1, e2) e, s)
                      | inr (m, e, w) ↦ inr (m, plan ∙ rw (h, e1, e2) e, w)
                    ])
          ],
    )
