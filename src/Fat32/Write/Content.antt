-- ===== src/Fat32/Write/Content.antt =====
-- `write_chain_data` of fat32/src/lib.rs against the reading loop of `read_file`.
use the_heap.Prelude.{
  ℕ, zero, suc, ◌+◌, ◌-◌, ◌*◌, ◌≤◌, ◌<◌, ◌≡◌, ◌≢◌, refl, sym, ap, ◌∙◌, ◌⊎◌, inl, inr, arith, List,
  [], ◌∷◌, ◌++◌, length, take, drop, min, All, All-map, Bool-cases, ltb, leb, true, false, is_empty,
  ◌==◌, take-append-drop, length-take, length-drop, All-both, if◌then◌else◌,
}
use native.Mathlib.Decide.{dec_lt}
use native.Mathlib.Nat.{mul-le-mul_right}
use the_heap.Bytes.{Memory, slice, copy_from_slice, fill}
use the_heap.Bytes.Region.{slice_ext, slice-copy_from_slice, copy_from_slice-outside, fill-outside}
use the_heap.Fat32.Error.{◌>>=◌, ok}
use the_heap.Fat32.Volume.{Volume, cluster_size, cluster_start, cluster_to_offset, read_cluster}
use the_heap.Fat32.Read.{read_clusters}
use the_heap.Fat32.Write.{write_chain_data, with_bytes}
use the_heap.Fat32.Write.Effect.{done}

-- The data of the cluster lies in the buffer.
abbrev pub InBuffer : Volume → ℕ → Type 0
InBuffer v c = (2 ≤ c) × (cluster_start v.bpb c + cluster_size v.bpb ≤ v.disk.len)

-- The byte is none of the cluster's data.
abbrev pub OutsideData : Volume → ℕ → ℕ → Type 0
OutsideData v a c = (a < cluster_start v.bpb c) ⊎ (cluster_start v.bpb c + cluster_size v.bpb ≤ a)

abbrev pub Different : List ℕ → Type 0
Different [] = Unit
Different (x ∷ xs) = All (λ y. x ≢ y) xs × Different xs

pub record Filled (v : Volume) (cs content : List ℕ) (m : Memory) : Type 0 where
  pub reads : read_clusters (with_bytes v m) (length content) cs ≡ ok content
  pub elsewhere : (a : ℕ) → All (OutsideData v a) cs → m a ≡ v.disk.byte a

pub take-slice : (m : Memory) (off n k : ℕ) → n ≤ k → take n (slice m off k) ≡ slice m off n
unfolding slice
take-slice m off zero k le = refl
take-slice m off (suc n) zero le = absurd (omega arith)
take-slice m off (suc n) (suc k) le = ap (λ t. m off ∷ t) (take-slice m (off + 1) n k (omega arith))

pub cluster_start-lt :
    (v : Volume) (c d : ℕ)
    → 2 ≤ c
    → c < d
    → cluster_start v.bpb c + cluster_size v.bpb ≤ cluster_start v.bpb d
cluster_start-lt v c d lo lt =
    let le : suc (c - 2) ≤ d - 2 = omega arith in
    let e = mul-le-mul_right (cluster_size v.bpb) le in omega arith

-- A byte of one cluster is no byte of another.
pub clusters_apart :
    (v : Volume) (c d a : ℕ)
    → 2 ≤ c
    → 2 ≤ d
    → c ≢ d
    → cluster_start v.bpb c ≤ a
    → a < cluster_start v.bpb c + cluster_size v.bpb
    → OutsideData v a d
clusters_apart v c d a lc ld ne lo hi = elim (dec_lt c d) [
  | yes lt ↦ let z = cluster_start-lt v c d lc lt in inl (omega arith)
  | no ge ↦ let z = cluster_start-lt v d c ld (omega arith) in inr (omega arith)
]

pub cluster_to_offset-InBuffer :
    (v : Volume) (c : ℕ)
    → 0 < cluster_size v.bpb
    → InBuffer v c
    → cluster_to_offset v c ≡ ok (cluster_start v.bpb c)
unfolding cluster_to_offset
cluster_to_offset-InBuffer v c pos b =
    let small : ltb c 2 ≡ false = ground arith in
    let room : leb v.disk.len (cluster_start v.bpb c) ≡ false = ground arith in
    rw (small, room) refl

pub read_cluster-InBuffer :
    (v : Volume) (c : ℕ)
    → 0 < cluster_size v.bpb
    → InBuffer v c
    → read_cluster v c ≡ ok (slice v.disk.byte (cluster_start v.bpb c) (cluster_size v.bpb))
unfolding read_cluster
read_cluster-InBuffer v c pos b =
    let room : ltb v.disk.len (cluster_start v.bpb c + cluster_size v.bpb) ≡ false = ground arith in
    rw (cluster_to_offset-InBuffer v c pos b, room) refl

-- One cluster of `write_chain_data`: the chunk, and zeros behind it.
abbrev store_chunk : Memory → ℕ → List ℕ → ℕ → Memory
store_chunk m off chunk size =
    fill (copy_from_slice m off chunk) (off + length chunk) (size - length chunk) 0

store_chunk-slice :
    (m : Memory) (off : ℕ) (chunk : List ℕ) (size : ℕ)
    → slice (store_chunk m off chunk size) off (length chunk) ≡ chunk
store_chunk-slice m off chunk size =
    slice_ext _ _ off (length chunk) (λ a lo hi. fill-outside _ _ _ 0 a (inl (omega arith)))
    ∙ slice-copy_from_slice m off chunk

store_chunk-outside :
    (m : Memory) (off : ℕ) (chunk : List ℕ) (size a : ℕ)
    → length chunk ≤ size
    → (a < off) ⊎ (off + size ≤ a)
    → store_chunk m off chunk size a ≡ m a
store_chunk-outside m off chunk size a le out =
    fill-outside (copy_from_slice m off chunk) (off + length chunk) (size - length chunk) 0 a
      (elim out [ inl l ↦ inl (omega arith) | inr h ↦ inr (omega arith) ])
    ∙ copy_from_slice-outside m off chunk a (elim out [ inl l ↦ inl l | inr h ↦ inr (omega arith) ])

-- One round of the reading loop, on a memory that has the chunk.
read_step :
    (v : Volume) (k : Memory) (c : ℕ) (cs chunk : List ℕ) (len : ℕ)
    → 0 < cluster_size v.bpb
    → InBuffer v c
    → length chunk ≡ min len (cluster_size v.bpb)
    → slice k (cluster_start v.bpb c) (length chunk) ≡ chunk
    → read_clusters (with_bytes v k) len (c ∷ cs) ≡ (
        if len - length chunk == 0
        then ok chunk
        else (do more ← read_clusters (with_bytes v k) (len - length chunk) cs; ok (chunk ++ more)))
unfolding read_clusters
read_step v k c cs chunk len pos inb n e =
    rw
      (
        read_cluster-InBuffer (with_bytes v k) c pos inb,
        ← n,
        take-slice k (cluster_start v.bpb c) (length chunk) (cluster_size v.bpb) (omega arith),
        e,
      )
      refl

pub is_empty-length : (xs : List ℕ) → is_empty xs ≡ (length xs == 0)
is_empty-length [] = refl
is_empty-length (x ∷ xs) = ground arith

take_all : (n : ℕ) (xs : List ℕ) → length xs ≤ n → take n xs ≡ xs
take_all zero [] le = refl
take_all zero (x ∷ xs) le = absurd (omega arith)
take_all (suc n) [] le = refl
take_all (suc n) (x ∷ xs) le = ap (λ t. x ∷ t) (take_all n xs (omega arith))

read_nil :
    (v : Volume) (content : List ℕ)
    → [] ≡ content
    → read_clusters v (length content) [] ≡ ok content
unfolding read_clusters
read_nil v content e = ap ok e

empty_eq : (xs : List ℕ) → length xs ≡ 0 → [] ≡ xs
empty_eq [] e = refl
empty_eq (x ∷ xs) e = absurd (omega arith)

module _ (v : Volume) (c : ℕ) (cs content : List ℕ) (pos : 0 < cluster_size v.bpb)
    (inb : InBuffer v c) where
  abbrev chunk : List ℕ
  chunk = take (cluster_size v.bpb) content

  abbrev rest : List ℕ
  rest = drop (cluster_size v.bpb) content

  abbrev stored : Memory
  stored = store_chunk v.disk.byte (cluster_start v.bpb c) chunk (cluster_size v.bpb)

  length-chunk : length chunk ≡ min (length content) (cluster_size v.bpb)
  length-chunk = length-take (cluster_size v.bpb) content ∙ omega arith

  length-rest : length content - length chunk ≡ length rest
  length-rest = omega (arith, length-chunk, length-drop (cluster_size v.bpb) content)

  write_step : write_chain_data (c ∷ cs) content v ≡ (
      if is_empty rest
      then done tt (with_bytes v stored)
      else write_chain_data cs rest (with_bytes v stored))
  unfolding write_chain_data
  write_step =
      let room : ltb v.disk.len (cluster_start v.bpb c + cluster_size v.bpb) ≡ false =
        ground arith in
      let size = cluster_size v.bpb in
      let start = cluster_start v.bpb c in
      let copied : ltb v.disk.len (start + length chunk) ≡ false =
        ground (arith, length-chunk, inb.1) in
      let cleared : ltb v.disk.len (start + length chunk + (size - length chunk)) ≡ false =
        ground (arith, length-chunk, inb.1) in
      elim (Bool-cases (is_empty rest)) [
        | inl last ↦
            rw
              (
                cluster_to_offset-InBuffer v c pos inb,
                write_chain_data,
                room,
                copied,
                cleared,
                last,
              )
              refl
        | inr more ↦
            rw
              (
                cluster_to_offset-InBuffer v c pos inb,
                write_chain_data,
                room,
                copied,
                cleared,
                more,
              )
              refl
      ]

  stored-outside : (a : ℕ) → OutsideData v a c → stored a ≡ v.disk.byte a
  stored-outside a out =
      store_chunk-outside v.disk.byte (cluster_start v.bpb c) chunk (cluster_size v.bpb) a
        (omega (arith, length-chunk)) out

  Filled-last : (is_empty rest) ≡ true → Filled v (c ∷ cs) content stored
  Filled-last last =
      let none_left : (length content - length chunk == 0) ≡ true =
        ap (λ t. t == 0) length-rest ∙ sym (is_empty-length rest) ∙ last in
      let no_rest : [] ≡ rest = empty_eq rest (ground (arith, is_empty-length rest)) in
      let whole : chunk ≡ content =
        take_all (cluster_size v.bpb) content
          (omega (arith, length-drop (cluster_size v.bpb) content, ap length no_rest)) in
      record {
        reads =
            read_step v stored c cs chunk (length content) pos inb length-chunk
              (store_chunk-slice v.disk.byte (cluster_start v.bpb c) chunk (cluster_size v.bpb))
            ∙ rw none_left (ap ok whole);
        elsewhere = λ a out. stored-outside a out.0;
      }

  Filled-cons :
      (k : Memory)
      → (is_empty rest) ≡ false
      → All (InBuffer v) cs
      → All (λ d. c ≢ d) cs
      → Filled (with_bytes v stored) cs rest k
      → Filled v (c ∷ cs) content k
  Filled-cons k more inbs diff h =
      let some_left : (length content - length chunk == 0) ≡ false =
        ap (λ t. t == 0) length-rest ∙ sym (is_empty-length rest) ∙ more in
      let kept : slice k (cluster_start v.bpb c) (length chunk) ≡ chunk =
        slice_ext k stored (cluster_start v.bpb c) (length chunk) (λ a lo hi. h.elsewhere a (
          All-map cs
            (λ d q. clusters_apart v c d a inb.0 q.0.0 q.1 lo (omega (arith, length-chunk)))
            (All-both (InBuffer v) (λ d. c ≢ d) cs inbs diff)))
        ∙ store_chunk-slice v.disk.byte (cluster_start v.bpb c) chunk (cluster_size v.bpb) in
      record {
        reads =
            read_step v k c cs chunk (length content) pos inb length-chunk kept
            ∙ rw (some_left, length-rest, h.reads)
                (ap ok (take-append-drop (cluster_size v.bpb) content));
        elsewhere = λ a out. h.elsewhere a out.1 ∙ stored-outside a out.0;
      }

-- On clusters of some size, for distinct clusters whose data lies in the buffer, and content that
-- they have room for: `write_chain_data` succeeds; the loop of `read_file` then reads the content
-- back from them, and no byte outside their data changed.
pub write_chain_data-Filled :
    (v : Volume) (cs content : List ℕ)
    → 0 < cluster_size v.bpb
    → All (InBuffer v) cs
    → Different cs
    → length content ≤ length cs * cluster_size v.bpb
    → (m : Memory) × (write_chain_data cs content v ≡ done tt (with_bytes v m))
      × Filled v cs content m
unfolding write_chain_data
write_chain_data-Filled v [] content pos inb diff fits =
    let empty : [] ≡ content = empty_eq content (omega arith) in
    (
      v.disk.byte,
      refl,
      record {
        reads = read_nil (with_bytes v v.disk.byte) content empty;
        elsewhere = λ a out. refl;
      },
    )
write_chain_data-Filled v (c ∷ cs) content pos inb diff fits =
    elim (Bool-cases (is_empty (rest v c cs content pos inb.0))) [
      | inl last ↦ (
        stored v c cs content pos inb.0,
        write_step v c cs content pos inb.0 ∙ rw last refl,
        Filled-last v c cs content pos inb.0 last,
      )
      | inr more ↦
          let (k, e, h) =
            write_chain_data-Filled (with_bytes v (stored v c cs content pos inb.0)) cs
              (rest v c cs content pos inb.0) pos inb.1 diff.1
              (omega (arith, length-drop (cluster_size v.bpb) content)) in
          (
            k,
            write_step v c cs content pos inb.0 ∙ rw (more, e) refl,
            Filled-cons v c cs content pos inb.0 k more inb.1 diff.0 h,
          )
    ]
