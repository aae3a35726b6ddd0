-- ===== src/Cli/Words/Visible.antt =====
-- The words of a line in the shell of fat32/src/main.rs: a line that is not blank has a first one,
-- so `parts.next().unwrap()` does not panic.
use the_heap.Prelude.{
  ℕ, ◌≡◌, refl, Bool, true, false, not, ◌&&◌, ◌||◌, [], ◌∷◌, ◌++◌, is_empty, if◌then◌else◌,
  Bool-cases, inl, inr,
}
use the_heap.Fat32.Text.{Text}
use the_heap.Cli.Words.{is_whitespace, trim_start, trim_end, trim, words, split_whitespace}

visible : Text → Bool
visible [] = false
visible (c ∷ cs) = not (is_whitespace c) || visible cs

cut_visible :
    (c : ℕ) (rest : Text) (b : Bool)
    → (is_whitespace c ≡ b)
    → (is_empty rest ≡ false → visible rest ≡ true)
    → is_empty (if is_empty rest && b then [] else c ∷ rest) ≡ false
    → visible (if is_empty rest && b then [] else c ∷ rest) ≡ true
unfolding visible
cut_visible c [] true e ih h = cc
cut_visible c [] false e ih h = rw e refl
cut_visible c (x ∷ rest) b e ih h = elim (Bool-cases (is_whitespace c)) [
  | inl s ↦ rw s (ih refl)
  | inr s ↦ rw s refl
]

trim_end-visible : (xs : Text) → is_empty (trim_end xs) ≡ false → visible (trim_end xs) ≡ true
unfolding trim_end
trim_end-visible [] h = cc
trim_end-visible (c ∷ cs) h =
    cut_visible c (trim_end cs) (is_whitespace c) refl (trim_end-visible cs) h

is_empty-snoc : (word : Text) (c : ℕ) → is_empty (word ++ c ∷ []) ≡ false
is_empty-snoc [] c = refl
is_empty-snoc (x ∷ word) c = refl

is_empty-words : (xs word : Text) → is_empty word ≡ false → is_empty (words word xs) ≡ false
unfolding words
is_empty-words [] word h = rw h refl
is_empty-words (c ∷ cs) word h = elim (Bool-cases (is_whitespace c)) [
  | inl s ↦ rw (s, h) refl
  | inr s ↦ rw s (is_empty-words cs (word ++ c ∷ []) (is_empty-snoc word c))
]

visible-words : (xs : Text) → visible xs ≡ true → is_empty (split_whitespace xs) ≡ false
unfolding split_whitespace words visible
visible-words [] h = cc
visible-words (c ∷ cs) h = elim (Bool-cases (is_whitespace c)) [
  | inl s ↦ rw s (visible-words cs (rw s at h))
  | inr s ↦ rw s (is_empty-words cs (c ∷ []) refl)
]

pub is_empty-split_whitespace :
    (line : Text) → is_empty (trim line) ≡ false → is_empty (split_whitespace (trim line)) ≡ false
unfolding trim
is_empty-split_whitespace line h =
    visible-words (trim_end (trim_start line)) (trim_end-visible (trim_start line) h)
