-- ===== src/Fat32/DirEntry.antt =====
-- Directory entries of 32 bytes: fat32/src/dir_entry.rs, and the writing side of the entry
-- (`write_dir_entry_at_offset` of fat32/src/lib.rs).
pub mod Entry
use the_heap.Prelude.{
  ℕ, ◌+◌, ◌*◌, ◌/◌, ◌%◌, ◌^◌, Bool, ◌||◌, not, Option, none, some, List, ◌∷◌, ◌++◌, ltb, ◌==◌,
  if◌then◌else◌, length, get_or, take, drop, is_empty, replicate,
}
use the_heap.Bytes.{from_le_bytes, to_le_bytes}
use the_heap.Fat32.Text.{Text, dot, space, trim_end_matches}

pub record Attributes : Type 0 where
  pub read_only : Bool
  pub hidden : Bool
  pub system : Bool
  pub volume_id : Bool
  pub directory : Bool
  pub archive : Bool

-- `b & (1 << k) != 0`.
abbrev bit : ℕ → ℕ → Bool
bit b p = b / p % 2 == 1

unfoldable pub from_byte : ℕ → Attributes
from_byte b = record {
  read_only = bit b 0x01;
  hidden = bit b 0x02;
  system = bit b 0x04;
  volume_id = bit b 0x08;
  directory = bit b 0x10;
  archive = bit b 0x20;
}

pub record DirEntry : Type 0 where
  pub name : Text
  pub attrs : Attributes
  pub first_cluster : ℕ
  pub size : ℕ

unfoldable pub is_dir : DirEntry → Bool
is_dir e = e.attrs.directory

unfoldable pub is_file : DirEntry → Bool
is_file e = not e.attrs.directory

-- A byte is pushed as the code point of its value.
unfoldable pub decode_ascii_trim : List ℕ → Text
unfolding trim_end_matches
decode_ascii_trim bytes = trim_end_matches bytes space

unfoldable pub full_name : List ℕ → List ℕ → Text
unfolding decode_ascii_trim
full_name name_raw ext_raw =
    let name = decode_ascii_trim name_raw in
    let ext = decode_ascii_trim ext_raw in if is_empty ext then name else name ++ dot ∷ ext

-- Bytes `from..from + n` of an entry.
abbrev pub field : List ℕ → ℕ → ℕ → List ℕ
field entry from n = take n (drop from entry)

unfoldable pub parse : List ℕ → Option DirEntry
unfolding from_byte full_name from_le_bytes
parse entry =
    let first = get_or entry 0 0 in
    let attrs = from_byte (get_or entry 11 0) in
    if ltb (length entry) 32
    then none
    else if (first == 0x00) || (first == 0xE5)
    then none
    else if attrs.volume_id
    then none
    else some (record {
      name = full_name (field entry 0 8) (field entry 8 3);
      attrs = attrs;
      first_cluster = from_le_bytes (field entry 20 2) * 2 ^ 16 + from_le_bytes (field entry 26 2);
      size = from_le_bytes (field entry 28 4);
    })

-- The 32 bytes that `write_dir_entry_at_offset` stores, in the order of their offsets.
unfoldable pub entry_bytes : List ℕ → List ℕ → ℕ → ℕ → List ℕ
unfolding to_le_bytes
entry_bytes name_raw ext_raw first_cluster size =
    name_raw
    ++ (ext_raw
        ++ (0x20
            ∷ (replicate 8 0
                ++ (to_le_bytes 2 (first_cluster / 2 ^ 16)
                    ++ (replicate 4 0
                        ++ (to_le_bytes 2 (first_cluster % 2 ^ 16) ++ to_le_bytes 4 size))))))
