-- ===== src/Fat32/Write/Allocate.antt =====
-- `alloc_chain` of fat32/src/lib.rs: which clusters it takes, and the chain that it leaves in the
-- FAT.
use the_heap.Prelude.{
  All-map, ℕ, ◌+◌, ◌-◌, ◌*◌, ◌≤◌, ◌<◌, ◌≡◌, ◌≢◌, refl, ◌⊎◌, inl, inr, arith, List, [], ◌∷◌, length,
  All, Bool-cases, false, ◌==◌, get_or,
}
use the_heap.Bytes.{Memory}
use the_heap.Fat32.Error.{ok, no_space_left}
use the_heap.Fat32.Volume.{
  Volume, data_start_byte, fat_bytes_len, fat_start_byte, read_fat_entry, eoc_min,
  max_cluster_number, cluster_start, cluster_size, follow_chain,
}
use the_heap.Fat32.Volume.Chain.{IsChain, follow_chain-IsChain}
use the_heap.Fat32.Write.{link_chain, with_bytes, alloc_chain, failed, get_or}
use the_heap.Fat32.Write.Table.{InTable}
use the_heap.Fat32.Write.Effect.{done}
use the_heap.Fat32.Volume.Bounds.{Limits, max_cluster_number-inside, max_cluster_number-Limits}
use the_heap.Fat32.Write.Find.{count_free, Ascending, Found, FreeIn, find_free-Found}
use the_heap.Fat32.Write.Link.{link_chain-Chained}

-- What a successful `alloc_chain` gives.
pub record Allocated (v : Volume) (needed : ℕ) (cs : List ℕ) (m : Memory) : Type 0 where
  pub count : length cs ≡ needed
  pub were_free : All (λ c. (read_fat_entry v c ≡ ok 0) × (2 ≤ c)) cs
  pub in_buffer : All (λ c. cluster_start v.bpb c + cluster_size v.bpb ≤ v.disk.len) cs
  pub tables : All (InTable v) cs
  pub ascending : Ascending cs
  pub linked : IsChain (with_bytes v m) (get_or cs 0 0) cs
  pub chain : (max : ℕ) → needed ≤ max → follow_chain (with_bytes v m) (get_or cs 0 0) max ≡ ok cs
  pub others :
      (d : ℕ)
      → InTable v d
      → All (λ x. x ≢ d) cs
      → read_fat_entry (with_bytes v m) d ≡ read_fat_entry v d
  pub outside :
      (a : ℕ) → (a < fat_start_byte v.bpb) ⊎ (data_start_byte v.bpb ≤ a) → m a ≡ v.disk.byte a

module _ (v : Volume) (max_cl : ℕ) (fats : 0 < v.num_fats)
    (small : fat_bytes_len v.bpb ≤ 4 * eoc_min) (known : max_cluster_number v ≡ ok max_cl) where
  limits : Limits v max_cl
  limits = max_cluster_number-Limits v max_cl known

  link_chain-Found :
      (needed : ℕ) (cs : List ℕ)
      → 0 < needed
      → Found v (max_cl - 1) 2 needed cs
      → length cs ≡ needed
      → (m : Memory) × (link_chain cs v ≡ done tt (with_bytes v m)) × Allocated v needed cs m
  link_chain-Found needed [] pos f e = absurd (omega arith)
  link_chain-Found needed (c ∷ cs) pos f e =
      let inside = λ (x : ℕ) (q : FreeIn v 2 (max_cl - 1) x).
        max_cluster_number-inside v max_cl x known q.0 (omega (arith, q.1)) in
      let (m, done_eq, h) =
        link_chain-Chained v c cs (omega (arith, limits.data_lt)) fats
          (All-map (c ∷ cs) (λ x q. (q.0, omega (arith, (inside x q).2, small), (inside x q).2))
            f.free)
          f.ascending in
      (
        m,
        done_eq,
        record {
          count = e;
          were_free = All-map (c ∷ cs) (λ x q. (q.2, q.0)) f.free;
          in_buffer = All-map (c ∷ cs) (λ x q. (inside x q).1) f.free;
          tables = All-map (c ∷ cs) (λ x q. (inside x q).2) f.free;
          ascending = f.ascending;
          linked = h.chain;
          chain = λ max le.
              follow_chain-IsChain (with_bytes v m) c max (c ∷ cs) f.free.0.0 h.chain
                (omega (arith, e));
          others = h.others;
          outside = h.outside;
        },
      )

  -- With a FAT or more, FATs of fewer entries than there are cluster numbers, and a volume that
  -- `max_cluster_number` accepts: where fewer than `needed` clusters up to that number are free,
  -- `alloc_chain` fails with `NoSpaceLeft` and writes nothing. Where there are enough, it
  -- succeeds with `needed` clusters that were free and whose data lies in the buffer;
  -- `follow_chain` then gives them from the first one on, under any bound that is no less;
  -- every other FAT entry reads as before, and no byte before or behind the FATs changed.
  pub alloc_chain-Allocated :
      (needed : ℕ)
      → 0 < needed
      → ((count_free v (max_cl - 1) 2 < needed) × (alloc_chain needed v ≡ failed no_space_left v))
        ⊎ ((needed ≤ count_free v (max_cl - 1) 2)
            × (cs : List ℕ) × (m : Memory) × (alloc_chain needed v ≡ done cs (with_bytes v m))
            × Allocated v needed cs m)
  unfolding alloc_chain
  alloc_chain-Allocated needed pos =
      let some_needed : (needed == 0) ≡ false = ground arith in
      let by_fat = limits.by_fat in
      let entries = limits.entries in
      let (cs, e, f) =
        find_free-Found v (max_cl - 1) 2 needed (omega (arith, limits.data_lt)) fats pos
          (omega arith) in
      elim (Bool-cases (length cs == needed)) [
        | inl enough ↦
            let (m, q, h) = link_chain-Found needed cs pos f (ground arith) in
            inr (ground (arith, f.count), cs, m, rw (some_needed, known, e, enough, q) refl, h)
        | inr few ↦ inl (ground (arith, f.count), rw (some_needed, known, e, few) refl)
      ]
