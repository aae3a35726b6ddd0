-- ===== src/Fat32/Write/Calm/Directory.antt =====
-- The operations on directory entries (`Fat32Mut` of fat32/src/lib.rs) are calm: the offsets that
-- the searches give lie in clusters.
use the_heap.Prelude.{
  true, false, ℕ, ◌+◌, ◌*◌, ◌≤◌, ◌<◌, ◌≡◌, arith, List, [], ◌∷◌, inl, inr, Bool, Bool-cases, Option,
  none, some, ltb, ◌&&◌, refl, ap, if◌then◌else◌,
}
use the_heap.Bytes.{copy_from_slice, slice}
use the_heap.Fat32.DirEntry.{DirEntry, entry_bytes}
use the_heap.Fat32.Error.{Result, ok, out_of_bounds, >>=-ok}
use the_heap.Fat32.Volume.{
  Volume, fat_start_byte, data_start_byte, cluster_size, cluster_to_offset, follow_chain, max_chain,
}
use the_heap.Fat32.Read.{full_chunks}
use the_heap.Fat32.Write.{
  write_range, Search, end_of_dir, found_at, next_cluster, search_chunks, dir_cluster,
  find_in_clusters, find_dir_entry_offset_by_short_name, free_chunk, free_in_clusters,
  find_free_dir_entry_slot, write_dir_entry_at_offset, add_entry, put_entry,
}
use the_heap.Fat32.Write.Effect.{Cmd, pure, ◌>>=◌}
use the_heap.Fat32.Write.Safe.{find_free_dir_entry_slot-NoPanic}
use the_heap.Fat32.Write.Calm.{
  guard-Calm, write_range-Calm, Keeps-refl, copy-Keeps, Calm, IsCalm, and_then-Calm, reading-Calm,
}
use the_heap.Fat32.Write.Calm.Table.{cluster_to_offset-le, fat_start-le}

dir_cluster-le :
    (v : Volume) (c : ℕ) (at : ℕ × List ℕ) → dir_cluster v c ≡ ok at → data_start_byte v.bpb ≤ at.0
unfolding dir_cluster
dir_cluster-le v c at h =
    let (off, e, q) = >>=-ok (cluster_to_offset v c) _ h in
    elim (Bool-cases (ltb v.disk.len (off + cluster_size v.bpb))) [
      | inl short ↦ let z = rw short at q in cc
      | inr long ↦
          let z = rw long at q in
          let pair : (off, slice v.disk.byte off (cluster_size v.bpb)) ≡ at = cc in
          let same : off ≡ at.0 = ap (λ p. p.0) pair in rw (← same) (cluster_to_offset-le v c off e)
    ]

dir_cluster-inside :
    (v : Volume) (c : ℕ) (at : ℕ × List ℕ)
    → dir_cluster v c ≡ ok at
    → at.0 + cluster_size v.bpb ≤ v.disk.len
unfolding dir_cluster
dir_cluster-inside v c at h =
    let (off, e, q) = >>=-ok (cluster_to_offset v c) _ h in
    elim (Bool-cases (ltb v.disk.len (off + cluster_size v.bpb))) [
      | inl short ↦ let z = rw short at q in cc
      | inr long ↦
          let z = rw long at q in
          let pair : (off, slice v.disk.byte off (cluster_size v.bpb)) ≡ at = cc in
          let same : off ≡ at.0 = ap (λ p. p.0) pair in rw (← same) (ground arith)
    ]

-- What the search for a name does behind one cluster.
abbrev resume : Volume → List ℕ → List ℕ → List ℕ → ℕ → Search → Result (Option ℕ × Option DirEntry)
resume v n e cs start r = elim r [
  | end_of_dir ↦ ok (none, none)
  | found_at i p ↦ ok (some (start + i * 32), p)
  | next_cluster ↦ find_in_clusters v n e cs
]

resume-le :
    (v : Volume) (n e : List ℕ) (cs : List ℕ) (off : ℕ) (parsed : Option DirEntry) (start : ℕ)
    (r : Search)
    → data_start_byte v.bpb ≤ start
    → (find_in_clusters v n e cs ≡ ok (some off, parsed) → data_start_byte v.bpb ≤ off)
    → resume v n e cs start r ≡ ok (some off, parsed)
    → data_start_byte v.bpb ≤ off
resume-le v n e cs off parsed start end_of_dir le rest h = cc
resume-le v n e cs off parsed start (found_at i p) le rest h =
    let z : some (start + i * 32) ≡ some off = cc in ground (arith, z)
resume-le v n e cs off parsed start next_cluster le rest h = rest h

-- The offset that the search for a name gives.
find_in_clusters-le :
    (v : Volume) (n e : List ℕ) (cs : List ℕ) (off : ℕ) (parsed : Option DirEntry)
    → find_in_clusters v n e cs ≡ ok (some off, parsed)
    → data_start_byte v.bpb ≤ off
unfolding find_in_clusters
find_in_clusters-le v n e [] off parsed h = cc
find_in_clusters-le v n e (c ∷ cs) off parsed h =
    let (at, a, q) = >>=-ok (dir_cluster v c) _ h in
    resume-le v n e cs off parsed at.0 (search_chunks n e 0 (full_chunks at.1))
      (dir_cluster-le v c at a) (find_in_clusters-le v n e cs off parsed) q

-- The slot that the search for a free entry gives.
abbrev use_slot : Volume → List ℕ → ℕ → Option (ℕ × Bool) → Result (ℕ × Bool × ℕ)
use_slot v cs start r = elim r [
  | some (i, was_end) ↦ ok (start + i * 32, was_end, start + cluster_size v.bpb)
  | none ↦ free_in_clusters v cs
]

-- The slot lies behind the FATs, and its cluster ends in the buffer.
abbrev InData : Volume → ℕ × Bool × ℕ → Type 0
InData v slot = (data_start_byte v.bpb ≤ slot.0) × (slot.2 ≤ v.disk.len)

use_slot-InData :
    (v : Volume) (cs : List ℕ) (slot : ℕ × Bool × ℕ) (start : ℕ) (r : Option (ℕ × Bool))
    → data_start_byte v.bpb ≤ start
    → start + cluster_size v.bpb ≤ v.disk.len
    → (free_in_clusters v cs ≡ ok slot → InData v slot)
    → use_slot v cs start r ≡ ok slot
    → InData v slot
use_slot-InData v cs slot start none le inside rest h = rest h
use_slot-InData v cs slot start (some (i, was_end)) le inside rest h =
    let z : (start + i * 32, was_end, start + cluster_size v.bpb) ≡ slot = cc in
    let e : start + i * 32 ≡ slot.0 = ap (λ p. p.0) z in
    let q : start + cluster_size v.bpb ≡ slot.2 = ap (λ p. p.2) z in (omega arith, omega arith)

free_in_clusters-InData :
    (v : Volume) (cs : List ℕ) (slot : ℕ × Bool × ℕ)
    → free_in_clusters v cs ≡ ok slot
    → InData v slot
unfolding free_in_clusters
free_in_clusters-InData v [] slot h = cc
free_in_clusters-InData v (c ∷ cs) slot h =
    let (at, a, q) = >>=-ok (dir_cluster v c) _ h in
    use_slot-InData v cs slot at.0 (free_chunk 0 (full_chunks at.1)) (dir_cluster-le v c at a)
      (dir_cluster-inside v c at a) (free_in_clusters-InData v cs slot) q

pub find_dir_entry_offset_by_short_name-le :
    (v : Volume) (dir : ℕ) (n e : List ℕ) (off : ℕ) (parsed : Option DirEntry)
    → find_dir_entry_offset_by_short_name v dir n e ≡ ok (some off, parsed)
    → data_start_byte v.bpb ≤ off
unfolding find_dir_entry_offset_by_short_name
find_dir_entry_offset_by_short_name-le v dir n e off parsed h =
    let (cs, c, q) = >>=-ok (follow_chain v dir max_chain) _ h in
    find_in_clusters-le v n e cs off parsed q

find_free_dir_entry_slot-InData :
    (v : Volume) (dir : ℕ) (slot : ℕ × Bool × ℕ)
    → find_free_dir_entry_slot v dir ≡ ok slot
    → InData v slot
unfolding find_free_dir_entry_slot
find_free_dir_entry_slot-InData v dir slot h =
    let (cs, c, q) = >>=-ok (follow_chain v dir max_chain) _ h in
    free_in_clusters-InData v cs slot q

pub write_dir_entry_at_offset-Calm :
    (off : ℕ) (n e : List ℕ) (first size : ℕ) (v : Volume)
    → fat_start_byte v.bpb ≤ off
    → Calm v (write_dir_entry_at_offset off n e first size v)
unfolding write_dir_entry_at_offset
write_dir_entry_at_offset-Calm off n e first size v le =
    let store = write_range off 32 (λ m. copy_from_slice m off (entry_bytes n e first size)) in
    guard-Calm v off 32 out_of_bounds (store v) (λ inside.
      write_range-Calm off 32 (λ m. copy_from_slice m off (entry_bytes n e first size)) v inside
        (copy-Keeps v off (entry_bytes n e first size) le))

-- The new end marker behind the entry.
abbrev mark_end : ℕ → Cmd (Unit {0})
mark_end off = write_range off 1 (λ m. copy_from_slice m off (0x00 ∷ []))

mark_end-Calm :
    (b : Bool) (off : ℕ) (v : Volume)
    → fat_start_byte v.bpb ≤ off
    → (b ≡ true → off + 1 ≤ v.disk.len)
    → Calm v ((if b then mark_end off else pure tt) v)
mark_end-Calm true off v le inside =
    write_range-Calm off 1 (λ m. copy_from_slice m off (0x00 ∷ [])) v (inside refl)
      (copy-Keeps v off (0x00 ∷ []) le)
mark_end-Calm false off v le inside = Keeps-refl v

-- What `add_entry` does with its slot.
abbrev fill_slot : List ℕ → List ℕ → ℕ → ℕ → ℕ × Bool × ℕ → Cmd (Unit {0})
fill_slot n e first size slot = write_dir_entry_at_offset slot.0 n e first size >>= λ _.
    if slot.1 && ltb (slot.0 + 32) slot.2 then mark_end (slot.0 + 32) else pure tt

fill_slot-Calm :
    (n e : List ℕ) (first size : ℕ) (slot : ℕ × Bool × ℕ) (v : Volume)
    → fat_start_byte v.bpb ≤ slot.0
    → slot.2 ≤ v.disk.len
    → Calm v (fill_slot n e first size slot v)
fill_slot-Calm n e first size slot v le inside =
    and_then-Calm v (write_dir_entry_at_offset slot.0 n e first size v) _
      (write_dir_entry_at_offset-Calm slot.0 n e first size v le)
      (λ a w done_eq keeps.
        let same = ap fat_start_byte keeps.1 in
        mark_end-Calm (slot.1 && ltb (slot.0 + 32) slot.2) (slot.0 + 32) w (omega arith) (λ marks.
          let next : slot.0 + 32 < slot.2 = ground (arith, marks) in
          omega (arith, next, keeps.0, inside)))

add_entry-IsCalm : (dir : ℕ) (n e : List ℕ) (first size : ℕ) → IsCalm (add_entry dir n e first size)
unfolding add_entry
add_entry-IsCalm dir n e first size v =
    reading-Calm (λ v. find_free_dir_entry_slot v dir) (fill_slot n e first size) v
      (find_free_dir_entry_slot-NoPanic v dir)
      (λ slot q.
        let (le, inside) = find_free_dir_entry_slot-InData v dir slot q in
        let fats = fat_start-le v in fill_slot-Calm n e first size slot v (omega arith) inside)

pub put_entry-Calm :
    (dir : ℕ) (off : Option ℕ) (n e : List ℕ) (first size : ℕ) (v : Volume)
    → ((o : ℕ) → off ≡ some o → fat_start_byte v.bpb ≤ o)
    → Calm v (put_entry dir off n e first size v)
unfolding put_entry
put_entry-Calm dir none n e first size v le = add_entry-IsCalm dir n e first size v
put_entry-Calm dir (some o) n e first size v le =
    write_dir_entry_at_offset-Calm o n e first size v (le o refl)
