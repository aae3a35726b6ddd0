-- ===== src/Fat32/Write/Calm/Table.antt =====
-- The operations on the FATs and on chains (`Fat32Mut` of fat32/src/lib.rs) are calm.
use the_heap.Prelude.{
  ℕ, zero, suc, ◌+◌, ◌-◌, ◌≤◌, ◌≡◌, arith, List, [], ◌∷◌, length, inl, inr, ltb, ◌==◌, not, take,
  drop, is_empty, length-take, ap, refl, if◌then◌else◌, ◌%◌, ◌^◌,
}
use the_heap.Bytes.{copy_from_slice, fill, to_le_bytes}
use the_heap.Bytes.Region.{fill-outside}
use the_heap.Fat32.Error.{ok, out_of_bounds, no_space_left, Result-cases}
use the_heap.Fat32.Volume.{
  Volume, fat_start_byte, data_start_byte, cluster_size, cluster_to_offset, follow_chain, max_chain,
  max_cluster_number, fat32_eoc,
}
use the_heap.Fat32.Write.{
  write_range, with_bytes, fat_offset, write_fats, write_fat_entry_all, clear_entries, free_chain,
  link_chain, alloc_chain, find_free, write_chain_data,
}
use the_heap.Fat32.Write.Effect.{Cmd, pure, fail, ◌>>=◌, ◌>>◌, reading}
use the_heap.Fat32.Volume.Safe.{
  follow_chain-NoPanic, max_cluster_number-NoPanic, cluster_to_offset-NoPanic,
}
use the_heap.Fat32.Write.Safe.{find_free-NoPanic}
use the_heap.Fat32.Write.Calm.{
  guard-Calm, write_range-Calm, and_then-Calm, Keeps, Keeps-refl, copy-Keeps, Calm, IsCalm,
  >>=-IsCalm, reading-Calm, if-IsCalm,
}

write_fats-Calm :
    (n i cluster : ℕ) (bytes : List ℕ) (v : Volume) → Calm v (write_fats n i cluster bytes v)
unfolding write_fats
write_fats-Calm zero i cluster bytes v = Keeps-refl v
write_fats-Calm (suc n) i cluster bytes v =
    let off = fat_offset v i cluster in
    let store = write_range off 4 (λ m. copy_from_slice m off bytes) in
    guard-Calm v off 4 out_of_bounds ((store >> write_fats n (i + 1) cluster bytes) v) (λ inside.
      and_then-Calm v (store v) (λ _. write_fats n (i + 1) cluster bytes)
        (write_range-Calm off 4 (λ m. copy_from_slice m off bytes) v inside
          (copy-Keeps v off bytes (omega arith)))
        (λ _ w e keeps. write_fats-Calm n (i + 1) cluster bytes w))

pub write_fat_entry_all-IsCalm : (cluster value : ℕ) → IsCalm (write_fat_entry_all cluster value)
unfolding write_fat_entry_all
write_fat_entry_all-IsCalm cluster value v =
    write_fats-Calm v.num_fats 0 cluster (to_le_bytes 4 (value % 2 ^ 28)) v

clear_entries-IsCalm : (cs : List ℕ) → IsCalm (clear_entries cs)
unfolding clear_entries
clear_entries-IsCalm [] = Keeps-refl
clear_entries-IsCalm (c ∷ cs) =
    >>=-IsCalm (write_fat_entry_all c 0) (λ _. clear_entries cs) (write_fat_entry_all-IsCalm c 0)
      (λ _. clear_entries-IsCalm cs)

pub free_chain-IsCalm : (c : ℕ) → IsCalm (free_chain c)
unfolding free_chain
free_chain-IsCalm c =
    if-IsCalm (ltb c 2) (pure tt) (reading (λ v. follow_chain v c max_chain) >>= clear_entries)
      Keeps-refl
      (λ v.
        reading-Calm (λ v. follow_chain v c max_chain) clear_entries v
          (follow_chain-NoPanic v c max_chain) (λ cs e. clear_entries-IsCalm cs v))

pub link_chain-IsCalm : (cs : List ℕ) → IsCalm (link_chain cs)
unfolding link_chain
link_chain-IsCalm [] = Keeps-refl
link_chain-IsCalm (c ∷ []) = write_fat_entry_all-IsCalm c fat32_eoc
link_chain-IsCalm (c ∷ d ∷ cs) =
    >>=-IsCalm (write_fat_entry_all c d) (λ _. link_chain (d ∷ cs)) (write_fat_entry_all-IsCalm c d)
      (λ _. link_chain-IsCalm (d ∷ cs))

take_found : ℕ → List ℕ → Cmd (List ℕ)
take_found needed found =
    if not (length found == needed) then fail no_space_left else (link_chain found >> pure found)

take_found-IsCalm : (needed : ℕ) (found : List ℕ) → IsCalm (take_found needed found)
unfolding take_found
take_found-IsCalm needed found =
    if-IsCalm (not (length found == needed)) (fail no_space_left) (link_chain found >> pure found)
      Keeps-refl
      (>>=-IsCalm (link_chain found) (λ _. pure found) (link_chain-IsCalm found) (λ _. Keeps-refl))

pub alloc_chain-IsCalm : (needed : ℕ) → IsCalm (alloc_chain needed)
unfolding alloc_chain take_found
alloc_chain-IsCalm needed =
    if-IsCalm (needed == 0) (pure [])
      (reading max_cluster_number >>= λ max_cl.
        reading (λ v. find_free v (max_cl - 1) 2 needed) >>= take_found needed)
      Keeps-refl
      (λ v.
        reading-Calm max_cluster_number
          (λ max_cl. reading (λ v. find_free v (max_cl - 1) 2 needed) >>= take_found needed) v
          (max_cluster_number-NoPanic v)
          (λ max_cl e.
            reading-Calm (λ v. find_free v (max_cl - 1) 2 needed) (take_found needed) v
              (find_free-NoPanic v (max_cl - 1) 2 needed)
              (λ found q. take_found-IsCalm needed found v)))

-- The data of a cluster lies behind the FATs.
pub cluster_to_offset-le :
    (v : Volume) (c off : ℕ) → cluster_to_offset v c ≡ ok off → data_start_byte v.bpb ≤ off
unfolding cluster_to_offset
cluster_to_offset-le v c off h = ground (arith, h)

pub fat_start-le : (v : Volume) → fat_start_byte v.bpb ≤ data_start_byte v.bpb
unfolding data_start_byte
fat_start-le v = omega arith

fill-Keeps :
    (v : Volume) (off n x : ℕ)
    → fat_start_byte v.bpb ≤ off
    → Keeps v (with_bytes v (fill v.disk.byte off n x))
fill-Keeps v off n x le =
    (refl, refl, λ a lt. fill-outside v.disk.byte off n x a (inl (omega arith)))

pub write_chain_data-IsCalm : (cs content : List ℕ) → IsCalm (write_chain_data cs content)
unfolding write_chain_data
write_chain_data-IsCalm [] content v = Keeps-refl v
write_chain_data-IsCalm (c ∷ cs) content v =
    elim (Result-cases (cluster_to_offset v c) (cluster_to_offset-NoPanic v c)) [
      | inl (e, bad) ↦ rw (bad, write_chain_data) (Keeps-refl v)
      | inr (off, good) ↦
          let size = cluster_size v.bpb in
          let chunk = take size content in
          let rest = drop size content in
          let at = off + length chunk in
          let n = size - length chunk in
          let more = if is_empty rest then pure tt else write_chain_data cs rest in
          let copy = write_range off (length chunk) (λ m. copy_from_slice m off chunk) in
          let clear = write_range at n (λ m. fill m at n 0) in
          let behind = cluster_to_offset-le v c off good in
          let fats = fat_start-le v in
          let short = length-take size content in
          rw (good, write_chain_data)
            (guard-Calm v off size out_of_bounds ((copy >> (clear >> more)) v) (λ inside.
              and_then-Calm v (copy v) (λ _. clear >> more)
                (write_range-Calm off (length chunk) (λ m. copy_from_slice m off chunk) v
                  (omega (arith, short)) (copy-Keeps v off chunk (omega arith)))
                (λ _ u e kept.
                  let start = ap fat_start_byte kept.1 in
                  and_then-Calm u (clear u) (λ _. more)
                    (write_range-Calm at n (λ m. fill m at n 0) u
                      (omega (arith, short, kept.0, inside))
                      (fill-Keeps u at n 0 (omega (arith, start))))
                    (λ _ w q kept'.
                      if-IsCalm (is_empty rest) (pure tt) (write_chain_data cs rest) Keeps-refl
                        (write_chain_data-IsCalm cs rest) w))))
    ]
