-- ===== src/Fat32/Write/Store.antt =====
-- The content of a file: what `write_file_by_path` of fat32/src/lib.rs stores, `read_file` reads.
use the_heap.Prelude.{
  ℕ, ◌+◌, ◌-◌, ◌*◌, ◌/◌, ◌≤◌, ◌<◌, ◌≡◌, ◌≢◌, refl, sym, ◌∙◌, ◌⊎◌, inl, inr, arith, List, [], ◌∷◌,
  length, get_or, All, All-map, All-both, true, false, is_empty, ◌==◌, ltb, ◌^◌,
}
use mathlib.Core.Path.{subst}
use the_heap.Bytes.{Memory}
use the_heap.Fat32.DirEntry.{DirEntry, is_file}
use the_heap.Fat32.Error.{ok, no_space_left}
use the_heap.Fat32.Volume.{
  Volume, cluster_size, cluster_start, data_start_byte, fat_bytes_len, fat_start_byte,
  read_fat_entry, eoc_min, max_chain, max_cluster_number, follow_chain,
}
use the_heap.Fat32.Volume.Bounds.{Limits, max_cluster_number-Limits}
use the_heap.Fat32.Volume.Chain.{follow_chain-IsChain}
use the_heap.Fat32.Read.{read_file, read_clusters}
use the_heap.Fat32.Write.{store_content, div_ceil, with_bytes, write_chain_data, first_of_chain}
use the_heap.Fat32.Write.Table.{InTable}
use the_heap.Fat32.Write.Keep.{SameData, read_fat_entry_ext, IsChain-ext, read_clusters_ext}
use the_heap.Fat32.Write.Find.{count_free, Ascending}
use the_heap.Fat32.Write.Allocate.{Allocated, alloc_chain-Allocated}
use the_heap.Fat32.Write.Content.{
  InBuffer, Different, Filled, write_chain_data-Filled, clusters_apart,
}
use the_heap.Fat32.Write.Effect.{done, failed}

Ascending-Different : (cs : List ℕ) → Ascending cs → Different cs
Ascending-Different [] h = tt
Ascending-Different (c ∷ cs) h =
    (All-map cs (λ d lt e. omega arith) h.0, Ascending-Different cs h.1)

div-bounds : (a b : ℕ) → 0 < a → 0 < b → (0 < (a + b - 1) / b) × (a ≤ (a + b - 1) / b * b)
div-bounds a b pa pb = (grind arith, omega arith)

pub div_ceil-bounds : (a b : ℕ) → 0 < a → 0 < b → (0 < div_ceil a b) × (a ≤ div_ceil a b * b)
unfolding div_ceil
div_ceil-bounds a b pa pb =
    let some_b : (b == 0) ≡ false = ground arith in rw some_b (div-bounds a b pa pb)

-- The memory differs in the data of clusters that were in use, at most.
abbrev pub Agrees : Volume → Memory → Memory → Type 0
Agrees v m k =
    ((a : ℕ) → a < data_start_byte v.bpb → k a ≡ m a)
    × ((d : ℕ) → 2 ≤ d → read_fat_entry v d ≡ ok 0 → SameData v d m k)

-- The file is there, also when the data of clusters that were in use changes, and none of these
-- lost its entry or its data.
pub record Stored (v : Volume) (content : List ℕ) (first : ℕ) (m : Memory) : Type 0 where
  pub valid : first < 2 ^ 32
  pub reads :
      (k : Memory) (e : DirEntry)
      → Agrees v m k
      → is_file e ≡ true
      → e.first_cluster ≡ first
      → e.size ≡ length content
      → read_file (with_bytes v k) e ≡ ok content
  pub entries :
      (d : ℕ)
      → InTable v d
      → read_fat_entry v d ≢ ok 0
      → read_fat_entry (with_bytes v m) d ≡ read_fat_entry v d
  pub in_use :
      (d a : ℕ)
      → 2 ≤ d
      → read_fat_entry v d ≢ ok 0
      → cluster_start v.bpb d ≤ a
      → a < cluster_start v.bpb d + cluster_size v.bpb
      → m a ≡ v.disk.byte a
  pub reserved : (a : ℕ) → a < fat_start_byte v.bpb → m a ≡ v.disk.byte a

read_file-chain :
    (v : Volume) (e : DirEntry) (cs content : List ℕ)
    → is_file e ≡ true
    → 0 < e.size
    → 2 ≤ e.first_cluster
    → follow_chain v e.first_cluster max_chain ≡ ok cs
    → read_clusters v e.size cs ≡ ok content
    → read_file v e ≡ ok content
unfolding read_file
read_file-chain v e cs content file pos lo chain reads =
    let z : (e.size == 0) ≡ false = ground arith in
    let valid : ltb e.first_cluster 2 ≡ false = ground arith in rw (file, z, valid, chain) reads

first_of_chain-eq :
    (v : Volume) (cs : List ℕ) → 0 < length cs → first_of_chain cs v ≡ done (get_or cs 0 0) v
unfolding first_of_chain
first_of_chain-eq v [] pos = absurd (omega arith)
first_of_chain-eq v (c ∷ cs) pos = refl

get_or-All : (P : ℕ → Type 0) (xs : List ℕ) → 0 < length xs → All P xs → P (get_or xs 0 0)
get_or-All P [] p h = absurd (omega arith)
get_or-All P (x ∷ xs) p h = h.0

pub is_empty-pos : (xs : List ℕ) → 0 < length xs → is_empty xs ≡ false
is_empty-pos [] p = absurd (omega arith)
is_empty-pos (x ∷ xs) p = refl

module _ (v : Volume) (max_cl : ℕ) (fats : 0 < v.num_fats)
    (small : fat_bytes_len v.bpb ≤ 4 * eoc_min) (known : max_cluster_number v ≡ ok max_cl)
    (content : List ℕ) (pos : 0 < length content) where
  abbrev pub needed : ℕ
  needed = div_ceil (length content) (cluster_size v.bpb)

  limits : Limits v max_cl
  limits = max_cluster_number-Limits v max_cl known

  module _ (short : needed ≤ max_chain) (cs : List ℕ) (m : Memory)
      (al : Allocated v needed cs m) where
    inb : All (InBuffer v) cs
    inb = All-map cs (λ c q. (q.0.1, q.1)) (All-both _ _ cs al.were_free al.in_buffer)

    filled :
        (k : Memory) × (write_chain_data cs content (with_bytes v m) ≡ done tt (with_bytes v k))
        × Filled (with_bytes v m) cs content k
    filled =
        write_chain_data-Filled (with_bytes v m) cs content limits.size inb
          (Ascending-Different cs al.ascending)
          (rw al.count (div_ceil-bounds (length content) (cluster_size v.bpb) pos limits.size).1)

    before_data : (a : ℕ) → a < data_start_byte v.bpb → filled.0 a ≡ m a
    before_data a lt = filled.2.elsewhere a (All-map cs (λ c q. inl (omega arith)) inb)

    not_taken : (d : ℕ) → read_fat_entry v d ≢ ok 0 → All (λ x. x ≢ d) cs
    not_taken d used =
        All-map cs (λ c q e. used (subst (λ x. read_fat_entry v x ≡ ok 0) e q.0)) al.were_free

    nonempty : 0 < length cs
    nonempty =
        omega (
          arith,
          al.count,
          (div_ceil-bounds (length content) (cluster_size v.bpb) pos limits.size).0,
        )

    same_entry :
        (d : ℕ)
        → InTable v d
        → read_fat_entry (with_bytes v filled.0) d ≡ read_fat_entry (with_bytes v m) d
    same_entry d ind = read_fat_entry_ext v m filled.0 d fats ind before_data

    reads_later :
        (k : Memory) (e : DirEntry)
        → Agrees v filled.0 k
        → is_file e ≡ true
        → e.first_cluster ≡ get_or cs 0 0
        → e.size ≡ length content
        → read_file (with_bytes v k) e ≡ ok content
    reads_later k e agrees file first size =
        let lo : 2 ≤ get_or cs 0 0 = (get_or-All (InBuffer v) cs nonempty inb).0 in
        let same = λ (d : ℕ) (ind : InTable v d).
          read_fat_entry_ext v filled.0 k d fats ind agrees.0 ∙ same_entry d ind in
        let kept = All-map cs (λ c q. agrees.1 c q.1 q.0) al.were_free in
        read_file-chain (with_bytes v k) e cs content file (rw size pos) (rw first lo)
          (rw first (
            follow_chain-IsChain (with_bytes v k) (get_or cs 0 0) max_chain cs lo
              (IsChain-ext v m k (get_or cs 0 0) cs (All-map cs same al.tables) al.linked)
              (omega (arith, al.count, short))))
          (rw size (
            read_clusters_ext v filled.0 k (length content) cs limits.size inb kept
            ∙ filled.2.reads))

    content-Stored : Stored v content (get_or cs 0 0) filled.0
    unfolding data_start_byte
    content-Stored = record {
      valid = omega (arith, get_or-All (InTable v) cs nonempty al.tables, small);
      reads = reads_later;
      entries = λ d ind used. same_entry d ind ∙ al.others d ind (not_taken d used);
      in_use = λ d a lo used from to.
          filled.2.elsewhere a (
            All-map cs (λ c q. clusters_apart v d c a lo q.0.0 (λ e. q.1 (sym e)) from to)
              (All-both _ _ cs inb (not_taken d used)))
          ∙ al.outside a (inr (omega arith));
      reserved = λ a lt. before_data a (omega arith) ∙ al.outside a (inl lt);
    }

  -- With a FAT or more, FATs of fewer entries than there are cluster numbers, a volume that
  -- `max_cluster_number` accepts, and content that is not empty and needs at most 4096 clusters:
  -- where fewer clusters are free than the content needs, `store_content` fails with
  -- `NoSpaceLeft` and writes nothing. Where there are enough, it succeeds, and `read_file` of any
  -- entry of a file with the returned first cluster and the content's length then gives the
  -- content, also when the data of clusters that were in use changes later; every cluster that was in use keeps its FAT entry and its data, and no byte before
  -- the FATs changed.
  pub store_content-Stored :
      needed ≤ max_chain
      → ((count_free v (max_cl - 1) 2 < needed)
          × (store_content content v ≡ failed no_space_left v))
        ⊎ ((first : ℕ) × (m : Memory) × (store_content content v ≡ done first (with_bytes v m))
            × Stored v content first m)
  unfolding store_content
  store_content-Stored short =
      let d = div_ceil-bounds (length content) (cluster_size v.bpb) pos limits.size in
      let some_content : is_empty content ≡ false = is_empty-pos content pos in
      elim (alloc_chain-Allocated v max_cl fats small known needed d.0) [
        | inl (few, e) ↦ inl (few, rw (some_content, e) refl)
        | inr (_, cs, m, e, al) ↦
            let (k, q, h) = filled short cs m al in
            inr (
              get_or cs 0 0,
              k,
              rw (some_content, e, q)
                  (first_of_chain-eq (with_bytes v k) cs (nonempty short cs m al)),
              content-Stored short cs m al,
            )
      ]
