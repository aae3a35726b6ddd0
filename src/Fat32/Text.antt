-- ===== src/Fat32/Text.antt =====
-- Strings as lists of code points, and the string helpers of fat32/src/lib.rs. The functions of
-- Rust's `str` that the crate calls on a one-byte pattern are written out here. An 8.3 name is
-- checked byte by byte in the source; a character outside ASCII has such bytes only and is
-- refused either way, so code points serve.
pub mod Names
pub mod Paths
use Prim.Native.String.{String}
use Prim.Native.Char.{code}
use the_heap.Prelude.{
  ℕ, ◌-◌, Bool, false, ◌&&◌, ◌||◌, Option, none, some, List, [], ◌∷◌, ◌++◌, map, ltb, leb, ◌==◌,
  if◌then◌else◌, length, replicate, is_empty, list_eq,
}
use the_heap.Fat32.Error.{Result, ok, err, ◌>>=◌, ok_or, other, invalid_name}

abbrev pub Text : Type 0
Text = List ℕ

-- The bytes, and the code points, of an ASCII literal.
abbrev pub ascii : String → List ℕ
ascii String.[] = []
ascii (String.◌∷◌ c s) = code c ∷ ascii s

abbrev pub slash : ℕ
slash = b'/'

abbrev pub dot : ℕ
dot = b'.'

abbrev pub space : ℕ
space = b' '

abbrev pub root_path : Text
root_path = slash ∷ []

-- `s.starts_with(c)`.
abbrev pub starts_with : Text → ℕ → Bool
starts_with [] c = false
starts_with (x ∷ xs) c = x == c

-- `s.contains(c)`.
abbrev pub contains : Text → ℕ → Bool
contains [] c = false
contains (x ∷ xs) c = (x == c) || contains xs c

abbrev pub cons_head : ℕ → List Text → List Text
cons_head c [] = (c ∷ []) ∷ []
cons_head c (s ∷ ss) = (c ∷ s) ∷ ss

-- `s.split(c)`.
unfoldable pub split : Text → ℕ → List Text
split [] c = [] ∷ []
split (x ∷ xs) c = let rest = split xs c in if x == c then [] ∷ rest else cons_head x rest

-- `.filter(|s| !s.is_empty())`.
unfoldable pub non_empty : List Text → List Text
non_empty [] = []
non_empty (s ∷ ss) = let rest = non_empty ss in if is_empty s then rest else s ∷ rest

-- `s.rfind(c)`, with the two parts of `s` that it is used for: before and behind the last `c`.
unfoldable pub rsplit_once : Text → ℕ → Option (Text × Text)
rsplit_once [] c = none
rsplit_once (x ∷ xs) c = elim (rsplit_once xs c) [
  | some (before, after) ↦ some (x ∷ before, after)
  | none ↦ if x == c then some ([], xs) else none
]

-- `s.trim_end_matches(c)`.
unfoldable pub trim_end_matches : Text → ℕ → Text
trim_end_matches [] c = []
trim_end_matches (x ∷ xs) c =
    let rest = trim_end_matches xs c in if is_empty rest && (x == c) then [] else x ∷ rest

-- `c.to_ascii_uppercase()`, of a `char` and of a `u8`.
unfoldable pub to_ascii_uppercase : ℕ → ℕ
to_ascii_uppercase c = if leb b'a' c && leb c b'z' then c - 32 else c

unfoldable pub normalize_name : Text → Text
unfolding to_ascii_uppercase
normalize_name s = map to_ascii_uppercase s

-- The parts of `"/A/B/C.TXT"`, `"/A/B"` and `"C.TXT"`.
unfoldable pub split_parent : Text → Result (Text × Text)
unfolding trim_end_matches rsplit_once
split_parent path = do
  let path = trim_end_matches path slash
  let split_at = if list_eq path root_path then none else rsplit_once path slash
  (before, name) ← ok_or split_at other
  let parent = if is_empty before then root_path else before
  if is_empty name then err other else ok (parent, name)

-- The bytes of one field of a short name.
unfoldable pub encode_bytes : Text → Result (List ℕ)
unfolding to_ascii_uppercase
encode_bytes [] = ok []
encode_bytes (c ∷ cs) =
    let rest = (do r ← encode_bytes cs; ok (to_ascii_uppercase c ∷ r)) in
    if leb 128 c || (c == slash) then err invalid_name else rest

-- The rest of a field is filled with spaces.
abbrev pub pad : ℕ → List ℕ → List ℕ
pad n bs = bs ++ replicate (n - length bs) space

-- `name` before and behind its last dot.
unfoldable pub split_extension : Text → Text × Text
unfolding rsplit_once
split_extension name = elim (rsplit_once name dot) [ some p ↦ p | none ↦ (name, []) ]

unfoldable pub encode_short_name_8_3 : Text → Result (List ℕ × List ℕ)
unfolding split_extension encode_bytes
encode_short_name_8_3 name =
    let (base, ext) = split_extension name in
    if is_empty base || ltb 8 (length base) || ltb 3 (length ext)
    then err invalid_name
    else if contains base dot || contains ext dot
    then err invalid_name
    else do n ← encode_bytes base; e ← encode_bytes ext; ok (pad 8 n, pad 3 e)
