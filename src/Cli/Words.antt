-- ===== src/Cli/Words.antt =====
-- The methods of `str` by which the shell of fat32/src/main.rs takes a line apart.
pub mod Visible
use the_heap.Prelude.{ℕ, Bool, ◌&&◌, ◌||◌, List, [], ◌∷◌, ◌++◌, leb, ◌==◌, if◌then◌else◌, is_empty}
use the_heap.Fat32.Text.{Text}

-- `char::is_whitespace`: the code points with the property White_Space.
abbrev pub is_whitespace : ℕ → Bool
is_whitespace c =
    leb 0x09 c && leb c 0x0D
    || (c == 0x20)
    || (c == 0x85)
    || (c == 0xA0)
    || (c == 0x1680)
    || leb 0x2000 c && leb c 0x200A
    || (c == 0x2028)
    || (c == 0x2029)
    || (c == 0x202F)
    || (c == 0x205F)
    || (c == 0x3000)

unfoldable pub trim_start : Text → Text
trim_start [] = []
trim_start (c ∷ cs) = let rest = trim_start cs in if is_whitespace c then rest else c ∷ cs

unfoldable pub trim_end : Text → Text
trim_end [] = []
trim_end (c ∷ cs) =
    let rest = trim_end cs in if is_empty rest && is_whitespace c then [] else c ∷ rest

-- `line.trim()`.
unfoldable pub trim : Text → Text
unfolding trim_start trim_end
trim line = trim_end (trim_start line)

abbrev pub add_word : Text → List Text → List Text
add_word word ws = if is_empty word then ws else word ∷ ws

-- `line.split_whitespace()`: the word that has begun, and the rest of the line.
unfoldable pub words : Text → Text → List Text
words word [] = add_word word []
words word (c ∷ cs) =
    let cut = add_word word (words [] cs) in
    let more = words (word ++ c ∷ []) cs in if is_whitespace c then cut else more

unfoldable pub split_whitespace : Text → List Text
unfolding words
split_whitespace line = words [] line
