-- ===== src/Fat32/Text/Paths.antt =====
-- Paths of one component: how `split_parent` and `open_path` of fat32/src/lib.rs take them apart.
use the_heap.Prelude.{
  ℕ, ◌≡◌, refl, arith, inl, inr, false, ◌==◌, none, [], ◌∷◌, is_empty, list_eq, Bool-cases,
}
use the_heap.Fat32.Error.{ok}
use the_heap.Fat32.Text.{
  Text, slash, root_path, contains, split, non_empty, rsplit_once, trim_end_matches, split_parent,
  normalize_name, to_ascii_uppercase,
}

contains-tail : (x : ℕ) (xs : Text) (c : ℕ) → contains (x ∷ xs) c ≡ false → contains xs c ≡ false
contains-tail x xs c h = ground arith

contains-head : (x : ℕ) (xs : Text) (c : ℕ) → contains (x ∷ xs) c ≡ false → (x == c) ≡ false
contains-head x xs c h = ground arith

split-whole : (xs : Text) (c : ℕ) → contains xs c ≡ false → split xs c ≡ xs ∷ []
unfolding split
split-whole [] c h = refl
split-whole (x ∷ xs) c h =
    rw (contains-head x xs c h, split-whole xs c (contains-tail x xs c h)) refl

rsplit_once-none : (xs : Text) (c : ℕ) → contains xs c ≡ false → rsplit_once xs c ≡ none
unfolding rsplit_once
rsplit_once-none [] c h = refl
rsplit_once-none (x ∷ xs) c h =
    rw (rsplit_once-none xs c (contains-tail x xs c h), contains-head x xs c h) refl

trim_end_matches-whole : (xs : Text) (c : ℕ) → contains xs c ≡ false → trim_end_matches xs c ≡ xs
unfolding trim_end_matches
trim_end_matches-whole [] c h = refl
trim_end_matches-whole (x ∷ xs) c h =
    let other = contains-head x xs c h in
    rw (trim_end_matches-whole xs c (contains-tail x xs c h)) (elim (Bool-cases (is_empty xs)) [
      | inl none_left ↦ rw (none_left, other) refl
      | inr more ↦ rw more refl
    ])

upper_upper : (x : ℕ) → to_ascii_uppercase (to_ascii_uppercase x) ≡ to_ascii_uppercase x
unfolding to_ascii_uppercase
upper_upper x = ground arith

pub normalize_name-normalize_name :
    (xs : Text) → normalize_name (normalize_name xs) ≡ normalize_name xs
unfolding normalize_name
normalize_name-normalize_name [] = refl
normalize_name-normalize_name (x ∷ xs) = cc (upper_upper x, normalize_name-normalize_name xs)

-- A name that is not empty and has no slash.
abbrev pub IsComponent : Text → Type 0
IsComponent name = (is_empty name ≡ false) × (contains name slash ≡ false)

pub list_eq-root : (name : Text) → is_empty name ≡ false → list_eq (slash ∷ name) root_path ≡ false
list_eq-root [] h = cc
list_eq-root (x ∷ xs) h = refl

pub split_parent-component :
    (name : Text) → IsComponent name → split_parent (slash ∷ name) ≡ ok (root_path, name)
unfolding split_parent trim_end_matches rsplit_once
split_parent-component name (some_name, no_slash) =
    rw
      (
        trim_end_matches-whole name slash no_slash,
        some_name,
        list_eq-root name some_name,
        rsplit_once-none name slash no_slash,
      )
      (rw some_name refl)

pub split-component :
    (name : Text) → IsComponent name → non_empty (split (slash ∷ name) slash) ≡ name ∷ []
unfolding split non_empty
split-component name (some_name, no_slash) = rw (split-whole name slash no_slash, some_name) refl
