-- ===== src/Fat32/Write/Table.antt =====
-- `write_fat_entry_all` of fat32/src/lib.rs against `read_fat_entry`: what a written entry reads
-- as, and what is left alone.
use the_heap.Prelude.{
  ℕ, zero, suc, ◌+◌, ◌*◌, ◌%◌, ◌^◌, ◌≤◌, ◌<◌, ◌≡◌, ◌≢◌, refl, ap, ◌∙◌, ◌⊎◌, inl, inr, arith, List,
  length, false, ltb,
}
use native.Mathlib.Decide.{dec_lt}
use native.Mathlib.Nat.{mul-le-mul_right}
use mathlib.Core.Path.{subst}
use the_heap.Bytes.{Memory, slice, copy_from_slice, to_le_bytes, from_le_bytes}
use the_heap.Bytes.Codec.{length-to_le_bytes, from_le_bytes-to_le_bytes}
use the_heap.Bytes.Region.{slice-copy_from_slice, copy_from_slice-outside, slice_ext}
use the_heap.Fat32.Error.{ok}
use the_heap.Fat32.Volume.{
  Volume, data_start_byte, fat_bytes_len, fat_start_byte, read_fat_entry, entry_offset,
}
use the_heap.Fat32.Write.{write_fats, write_fat_entry_all, fat_offset, with_bytes}
use the_heap.Fat32.Write.Effect.{done}

-- The entry of the cluster lies inside a FAT.
abbrev pub InTable : Volume → ℕ → Type 0
InTable v cluster = cluster * 4 + 4 ≤ fat_bytes_len v.bpb

-- The buffer has room for every FAT.
abbrev pub TablesFit : Volume → Type 0
TablesFit v = data_start_byte v.bpb ≤ v.disk.len

-- The byte belongs to none of the cluster's entries in the FATs from number `i` on.
abbrev pub OutsideEntries : Volume → ℕ → ℕ → ℕ → ℕ → Type 0
OutsideEntries v cluster i n a =
    (j : ℕ) → i ≤ j → j < i + n → (a < fat_offset v j cluster) ⊎ (fat_offset v j cluster + 4 ≤ a)

-- The `n` FATs from number `i` on hold the bytes at the cluster, and nothing else changed.
pub record Stored (v : Volume) (cluster : ℕ) (bytes : List ℕ) (i n : ℕ) (m : Memory) : Type 0 where
  pub copies : (j : ℕ) → i ≤ j → j < i + n → slice m (fat_offset v j cluster) 4 ≡ bytes
  pub elsewhere : (a : ℕ) → OutsideEntries v cluster i n a → m a ≡ v.disk.byte a

pub fat_offset-lt :
    (v : Volume) (i j c : ℕ) → i < j → fat_offset v i c + fat_bytes_len v.bpb ≤ fat_offset v j c
fat_offset-lt v i j c lt = omega (arith, mul-le-mul_right (fat_bytes_len v.bpb) lt)

module _ (cluster : ℕ) (bytes : List ℕ) (four : length bytes ≡ 4) where
  Stored-step :
      (v : Volume) (n i : ℕ) (m : Memory)
      → 4 ≤ fat_bytes_len v.bpb
      → Stored
          (with_bytes v (copy_from_slice v.disk.byte (fat_offset v i cluster) bytes))
          cluster
          bytes
          (i + 1)
          n
          m
      → Stored v cluster bytes i (suc n) m
  Stored-step v n i m wide s = record {
    copies = λ j lo hi. elim (dec_lt i j) [
      | yes lt ↦ s.copies j (omega arith) (omega arith)
      | no ge ↦
          let e : i ≡ j = omega arith in
          subst (λ k. slice m (fat_offset v k cluster) 4 ≡ bytes) e
            (slice_ext m _ (fat_offset v i cluster) 4 (λ a lo' hi'. s.elsewhere a (λ k above below.
                let z = fat_offset-lt v i k cluster (omega arith) in inl (omega arith)))
              ∙ subst
                  (λ k.
                    slice (copy_from_slice v.disk.byte (fat_offset v i cluster) bytes)
                      (fat_offset v i cluster) k
                    ≡ bytes)
                  four (slice-copy_from_slice v.disk.byte (fat_offset v i cluster) bytes))
    ];
    elsewhere = λ a out.
        s.elsewhere a (λ k above below. out k (omega arith) (omega arith))
        ∙ copy_from_slice-outside v.disk.byte (fat_offset v i cluster) bytes a
            (rw four (out i (omega arith) (omega arith)));
  }

  pub write_fats-Stored :
      (n i : ℕ) (v : Volume)
      → 4 ≤ fat_bytes_len v.bpb
      → ((j : ℕ) → i ≤ j → j < i + n → fat_offset v j cluster + 4 ≤ v.disk.len)
      → (m : Memory) × (write_fats n i cluster bytes v ≡ done tt (with_bytes v m))
        × Stored v cluster bytes i n m
  unfolding write_fats
  write_fats-Stored zero i v wide fits = (
    v.disk.byte,
    refl,
    record { copies = λ j lo hi. absurd (omega arith); elsewhere = λ a out. refl },
  )
  write_fats-Stored (suc n) i v wide fits =
      let fit = fits i (omega arith) (omega arith) in
      let here : ltb v.disk.len (fat_offset v i cluster + 4) ≡ false = ground arith in
      let (m, e, s) =
        write_fats-Stored n (i + 1)
          (with_bytes v (copy_from_slice v.disk.byte (fat_offset v i cluster) bytes)) wide
          (λ j lo hi. fits j (omega arith) (omega arith)) in
      (m, rw here e, Stored-step v n i m wide s)

-- The FAT entries of the cluster read as `value`, the entries of other clusters as before, and no
-- byte outside the FATs changed.
pub record Written (v : Volume) (cluster value : ℕ) (m : Memory) : Type 0 where
  pub mirrored :
      (j : ℕ) → j < v.num_fats → from_le_bytes (slice m (fat_offset v j cluster) 4) ≡ value % 2 ^ 28
  pub reads : read_fat_entry (with_bytes v m) cluster ≡ ok (value % 2 ^ 28)
  pub others :
      (d : ℕ) → InTable v d → cluster ≢ d → read_fat_entry (with_bytes v m) d ≡ read_fat_entry v d
  pub outside :
      (a : ℕ) → (a < fat_start_byte v.bpb) ⊎ (data_start_byte v.bpb ≤ a) → m a ≡ v.disk.byte a

module _ (v : Volume) (fit : TablesFit v) (fats : 0 < v.num_fats) (cluster : ℕ)
    (inside : InTable v cluster) where
  copy_fits : (j : ℕ) → j < v.num_fats → fat_offset v j cluster + 4 ≤ data_start_byte v.bpb
  unfolding data_start_byte fat_bytes_len
  copy_fits j lt = omega (arith, inside, mul-le-mul_right (fat_bytes_len v.bpb) lt)

  first_fat : fat_offset v 0 cluster ≡ entry_offset v.bpb cluster
  first_fat = omega arith

  -- An entry of another cluster in the first FAT belongs to none of the cluster's entries.
  other_entry :
      (d a : ℕ)
      → InTable v d
      → cluster ≢ d
      → entry_offset v.bpb d ≤ a
      → a < entry_offset v.bpb d + 4
      → OutsideEntries v cluster 0 v.num_fats a
  other_entry d a ind ne lo hi j _ lt = elim (dec_lt 0 j) [
    | yes pos ↦ let z = fat_offset-lt v 0 j cluster pos in inl (omega arith)
    | no ge ↦
        let e : 0 ≡ j = omega arith in
        subst (λ k. (a < fat_offset v k cluster) ⊎ (fat_offset v k cluster + 4 ≤ a)) e
          (elim (dec_lt cluster d) [ yes below ↦ inr (omega arith) | no above ↦ inl (omega arith) ])
  ]

  beyond :
      (a : ℕ)
      → (a < fat_start_byte v.bpb) ⊎ (data_start_byte v.bpb ≤ a)
      → OutsideEntries v cluster 0 v.num_fats a
  beyond a (inl low) j _ lt = inl (omega arith)
  beyond a (inr high) j _ lt = let c = copy_fits j (omega arith) in inr (omega arith)

  Stored-Written :
      (value : ℕ) (m : Memory)
      → Stored v cluster (to_le_bytes 4 (value % 2 ^ 28)) 0 v.num_fats m
      → Written v cluster value m
  unfolding read_fat_entry
  Stored-Written value m s =
      let decoded = from_le_bytes-to_le_bytes 4 (value % 2 ^ 28) (omega arith) in
      let in_buffer : ltb v.disk.len (entry_offset v.bpb cluster + 4) ≡ false =
        let c = copy_fits 0 fats in ground (arith, fit) in
      let first : from_le_bytes (slice m (entry_offset v.bpb cluster) 4) ≡ value % 2 ^ 28 =
        subst (λ o. from_le_bytes (slice m o 4) ≡ value % 2 ^ 28) first_fat
          (ap from_le_bytes (s.copies 0 (omega arith) (omega (arith, fats))) ∙ decoded) in
      record {
        mirrored = λ j lt. ap from_le_bytes (s.copies j (omega arith) (omega arith)) ∙ decoded;
        reads = rw (in_buffer, first) (ap ok (omega arith));
        others = λ d ind ne.
            rw
              (slice_ext m v.disk.byte (entry_offset v.bpb d) 4
                (λ a lo hi. s.elsewhere a (other_entry d a ind ne lo hi)))
              refl;
        outside = λ a out. s.elsewhere a (beyond a out);
      }

-- With a FAT or more, room for the FATs in the buffer, and the cluster's entry inside a FAT:
-- `write_fat_entry_all` succeeds; in every FAT the entry then holds the low 28 bits of the value,
-- `read_fat_entry` gives them, every other entry of the first FAT reads as before, and no byte
-- before or behind the FATs changed.
pub write_fat_entry_all-Written :
    (v : Volume)
    → TablesFit v
    → 0 < v.num_fats
    → (cluster value : ℕ) → InTable v cluster
    → (m : Memory) × (write_fat_entry_all cluster value v ≡ done tt (with_bytes v m))
      × Written v cluster value m
unfolding write_fat_entry_all
write_fat_entry_all-Written v fit fats cluster value inside =
    let (m, e, s) =
      write_fats-Stored cluster (to_le_bytes 4 (value % 2 ^ 28))
        (length-to_le_bytes 4 (value % 2 ^ 28)) v.num_fats 0 v (omega (arith, inside))
        (λ j lo hi.
          let c = copy_fits v fit fats cluster inside j (omega arith) in omega (arith, fit)) in
    (m, e, Stored-Written v fit fats cluster inside value m s)
