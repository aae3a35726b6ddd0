-- ===== src/Fat32/Write/Find.antt =====
-- The scan of `alloc_chain` of fat32/src/lib.rs for free clusters.
use the_heap.Prelude.{
  All-map, ℕ, zero, suc, ◌+◌, ◌-◌, ◌*◌, ◌%◌, ◌^◌, ◌≤◌, ◌<◌, ◌≡◌, refl, ap, ◌∙◌, inl, inr, arith,
  List, [], ◌∷◌, length, All, Bool-cases, true, false, ◌==◌, if◌then◌else◌, min, ltb,
}
use native.Mathlib.Nat.{mul-le-mul_right}
use the_heap.Bytes.{slice, from_le_bytes}
use the_heap.Fat32.Error.{ok}
use the_heap.Fat32.Volume.{Volume, data_start_byte, fat_bytes_len, read_fat_entry, entry_offset}
use the_heap.Fat32.Write.{find_free}
use the_heap.Fat32.Write.Table.{InTable, TablesFit}

-- The value of an entry of the first FAT.
abbrev pub fat_value : Volume → ℕ → ℕ
fat_value v cluster = from_le_bytes (slice v.disk.byte (entry_offset v.bpb cluster) 4) % 2 ^ 28

-- How many of the `n` clusters from `cl` on are free.
unfoldable pub count_free : Volume → ℕ → ℕ → ℕ
count_free v zero cl = 0
count_free v (suc n) cl = (if fat_value v cl == 0 then 1 else 0) + count_free v n (cl + 1)

abbrev pub Ascending : List ℕ → Type 0
Ascending [] = Unit
Ascending (x ∷ xs) = All (λ y. x < y) xs × Ascending xs

-- Free clusters among the `n` from `cl` on.
abbrev pub FreeIn : Volume → ℕ → ℕ → ℕ → Type 0
FreeIn v cl n c = (cl ≤ c) × (c < cl + n) × (read_fat_entry v c ≡ ok 0)

pub record Found (v : Volume) (n cl missing : ℕ) (found : List ℕ) : Type 0 where
  pub free : All (FreeIn v cl n) found
  pub ascending : Ascending found
  pub count : length found ≡ min missing (count_free v n cl)

pub read_fat_entry-fat_value :
    (v : Volume) (cl : ℕ)
    → TablesFit v
    → 0 < v.num_fats
    → InTable v cl
    → read_fat_entry v cl ≡ ok (fat_value v cl)
unfolding read_fat_entry data_start_byte fat_bytes_len
read_fat_entry-fat_value v cl fit fats inside =
    let fats_eq = mul-le-mul_right (fat_bytes_len v.bpb) fats in
    let in_buffer : ltb v.disk.len (entry_offset v.bpb cl + 4) ≡ false =
      ground (arith, fit, inside) in
    rw in_buffer refl

-- The first cluster of the range, taken or passed by.
widen :
    (v : Volume) (n cl : ℕ) (found : List ℕ)
    → All (FreeIn v (cl + 1) n) found
    → All (FreeIn v cl (suc n)) found × All (λ c. cl < c) found
widen v n cl found h = (
  All-map found (λ c f. (omega (arith, f.0), omega (arith, f.1), f.2)) h,
  All-map found (λ c f. omega (arith, f.0)) h,
)

module _ (v : Volume) (n cl missing : ℕ) where
  Found-take :
      (found : List ℕ)
      → read_fat_entry v cl ≡ ok 0
      → (fat_value v cl == 0) ≡ true
      → 1 < missing
      → Found v n (cl + 1) (missing - 1) found
      → Found v (suc n) cl missing (cl ∷ found)
  unfolding count_free
  Found-take found r free more f =
      let w = widen v n cl found f.free in
      record {
        free = ((omega arith, omega arith, r), w.0);
        ascending = (w.1, f.ascending);
        count = rw free (omega (arith, f.count));
      }

  Found-last :
      read_fat_entry v cl ≡ ok 0
      → (fat_value v cl == 0) ≡ true
      → missing ≡ 1
      → Found v (suc n) cl missing (cl ∷ [])
  unfolding count_free
  Found-last r free last = record {
    free = ((omega arith, omega arith, r), tt);
    ascending = (tt, tt);
    count = rw free (omega arith);
  }

  Found-skip :
      (found : List ℕ)
      → (fat_value v cl == 0) ≡ false
      → Found v n (cl + 1) missing found
      → Found v (suc n) cl missing found
  unfolding count_free
  Found-skip found taken f = record {
    free = (widen v n cl found f.free).0;
    ascending = f.ascending;
    count = rw taken (omega (arith, f.count));
  }

-- With room for the FATs and some clusters still missing, the scan gives the first free clusters,
-- as many as are missing or all there are.
pub find_free-Found :
    (v : Volume) (n cl missing : ℕ)
    → TablesFit v
    → 0 < v.num_fats
    → 0 < missing
    → (cl + n) * 4 ≤ fat_bytes_len v.bpb
    → (found : List ℕ) × (find_free v n cl missing ≡ ok found) × Found v n cl missing found
unfolding find_free count_free
find_free-Found v zero cl missing fit fats pos inside =
    ([], refl, record { free = tt; ascending = tt; count = omega arith })
find_free-Found v (suc n) cl missing fit fats pos inside =
    let r = read_fat_entry-fat_value v cl fit fats (omega arith) in
    elim (Bool-cases (fat_value v cl == 0)) [
      | inl free ↦ elim (Bool-cases (missing == 1)) [
        | inl last ↦ (
          cl ∷ [],
          rw (r, free, last) refl,
          Found-last v n cl missing (r ∙ ap ok (ground arith)) free (ground arith),
        )
        | inr more ↦
            let (found, e, f) =
              find_free-Found v n (cl + 1) (missing - 1) fit fats (ground arith) (omega arith) in
            (
              cl ∷ found,
              rw (r, free, more, e) refl,
              Found-take v n cl missing found (r ∙ ap ok (ground arith)) free (ground arith) f,
            )
      ]
      | inr taken ↦
          let (found, e, f) = find_free-Found v n (cl + 1) missing fit fats pos (omega arith) in
          (found, rw (r, taken, e) refl, Found-skip v n cl missing found taken f)
    ]
