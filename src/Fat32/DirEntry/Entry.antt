-- ===== src/Fat32/DirEntry/Entry.antt =====
-- A directory entry read back from the bytes that `write_dir_entry_at_offset` stores
-- (fat32/src/lib.rs and fat32/src/dir_entry.rs).

use the_heap.Prelude.{
  get_or-append_head, get_or-append, ◌++◌, ◌∙◌, ap, take, drop, drop-append, take-append,
  length-append, ltb, false, ◌==◌, ◌||◌, arith, ℕ, ◌+◌, ◌^◌, ◌<◌, ◌≡◌, ◌≢◌, List, length, get_or,
  some, ◌++◌, ap, take, drop, drop-append, ◌/◌, ◌∷◌, replicate, ◌%◌, get_or-append_head, ◌*◌, sym,
}
use the_heap.Fat32.DirEntry.{
  full_name, parse, entry_bytes, from_byte, field, take, drop, to_le_bytes, from_le_bytes,
  replicate,
}
use mathlib.Core.Path.{subst, ap, sym}
use the_heap.Bytes.{from_le_bytes, to_le_bytes}
use the_heap.Bytes.Codec.{from_le_bytes-to_le_bytes}

-- A field behind the two raw names.
field_skip :
    (n e rest : List ℕ) (k w : ℕ)
    → length n ≡ 8
    → length e ≡ 3
    → field (n ++ (e ++ rest)) (8 + (3 + k)) w ≡ field rest k w
field_skip n e rest k w en ee = ap (take w) (
    subst (λ t. drop (t + (3 + k)) (n ++ (e ++ rest)) ≡ drop k rest) en
      (drop-append n (e ++ rest) (3 + k)
        ∙ subst (λ t. drop (t + k) (e ++ rest) ≡ drop k rest) ee (drop-append e rest k)))

parse-eq :
    (entry n e : List ℕ) (c s : ℕ)
    → length entry ≡ 32
    → get_or entry 0 0 ≢ 0x00
    → get_or entry 0 0 ≢ 0xE5
    → get_or entry 11 0 ≡ 0x20
    → field entry 0 8 ≡ n
    → field entry 8 3 ≡ e
    → from_le_bytes (field entry 20 2) ≡ c / 2 ^ 16
    → from_le_bytes (field entry 26 2) ≡ c % 2 ^ 16
    → from_le_bytes (field entry 28 4) ≡ s
    → parse entry
      ≡ some (record { name = full_name n e; attrs = from_byte 0x20; first_cluster = c; size = s })
unfolding parse
parse-eq entry n e c s len n0 n5 ea en ee eh el es =
    let long : ltb (length entry) 32 ≡ false = ground arith in
    let live : ((get_or entry 0 0 == 0x00) || (get_or entry 0 0 == 0xE5)) ≡ false = ground arith in
    let whole : c / 2 ^ 16 * 2 ^ 16 + c % 2 ^ 16 ≡ c = omega arith in
    rw (long, live, ea, en, ee, eh, el, es)
      (ap
        (λ k.
          some
            (record { name = full_name n e; attrs = from_byte 0x20; first_cluster = k; size = s }))
        whole)

-- The entry that is stored for a file parses as that entry: with raw names of 8 and 3 bytes that
-- do not begin with one of the two marks, and a first cluster and a size of 32 bits, `parse`
-- gives the decoded name, the archive attribute, the first cluster and the size.
pub parse-entry_bytes :
    (name_raw ext_raw : List ℕ) (first_cluster size : ℕ)
    → length name_raw ≡ 8
    → length ext_raw ≡ 3
    → get_or name_raw 0 0 ≢ 0x00
    → get_or name_raw 0 0 ≢ 0xE5
    → first_cluster < 2 ^ 32
    → size < 2 ^ 32
    → parse (entry_bytes name_raw ext_raw first_cluster size)
      ≡ some (record {
        name = full_name name_raw ext_raw;
        attrs = from_byte 0x20;
        first_cluster = first_cluster;
        size = size;
      })
unfolding entry_bytes to_le_bytes
parse-entry_bytes n e c s en ee n0 n5 lc ls =
    let rest =
      0x20
      ∷ (replicate 8 0
          ++ (to_le_bytes 2 (c / 2 ^ 16)
              ++ (replicate 4 0 ++ (to_le_bytes 2 (c % 2 ^ 16) ++ to_le_bytes 4 s)))) in
    let first = get_or-append_head n (e ++ rest) 0 (omega arith) in
    parse-eq (entry_bytes n e c s) n e c s
      (length-append n (e ++ rest) ∙ omega (arith, length-append e rest)) (λ q. n0 (sym first ∙ q))
      (λ q. n5 (sym first ∙ q))
      (subst (λ t. get_or (n ++ (e ++ rest)) (t + 3) 0 ≡ get_or (e ++ rest) 3 0) en
          (get_or-append n (e ++ rest) 3 0)
        ∙ subst (λ t. get_or (e ++ rest) (t + 0) 0 ≡ 0x20) ee (get_or-append e rest 0 0))
      (subst (λ k. take k (n ++ (e ++ rest)) ≡ n) en (take-append n (e ++ rest)))
      (ap (take 3) (
          subst (λ t. drop (t + 0) (n ++ (e ++ rest)) ≡ e ++ rest) en (drop-append n (e ++ rest) 0))
        ∙ subst (λ t. take t (e ++ rest) ≡ e) ee (take-append e rest))
      (ap from_le_bytes (field_skip n e rest 9 2 en ee)
        ∙ from_le_bytes-to_le_bytes 2 (c / 2 ^ 16) (omega arith))
      (ap from_le_bytes (field_skip n e rest 15 2 en ee)
        ∙ from_le_bytes-to_le_bytes 2 (c % 2 ^ 16) (omega arith))
      (ap from_le_bytes (field_skip n e rest 17 4 en ee)
        ∙ from_le_bytes-to_le_bytes 4 s (omega arith))
