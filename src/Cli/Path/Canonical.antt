-- ===== src/Cli/Path/Canonical.antt =====
-- A resolved path (fat32/src/main.rs) is absolute and has no empty part, no `.` and no `..`.
use the_heap.Prelude.{
  ℕ, ◌≡◌, refl, sym, ap, ◌∙◌, arith, false, inl, inr, Bool-cases, ◌||◌, ◌==◌, List, [], ◌∷◌, ◌++◌,
  All, is_empty, list_eq,
}
use mathlib.Core.List.{append-nil, append_assoc}
use the_heap.Fat32.Text.{Text, slash, dot, starts_with, contains, split, cons_head, root_path}
use the_heap.Cli.Path.{
  parent_name, pop, push_component, push_components, join, components_of, render, resolve_path,
  root_path,
}

-- A name that stands for itself.
abbrev pub IsName : Text → Type 0
IsName part =
    (is_empty part ≡ false)
    × (list_eq part (dot ∷ []) ≡ false)
    × (list_eq part parent_name ≡ false)
    × (contains part slash ≡ false)

pop-IsName : (cs : List Text) → All IsName cs → All IsName (pop cs)
unfolding pop
pop-IsName [] h = tt
pop-IsName (c ∷ []) h = tt
pop-IsName (c ∷ d ∷ cs) h = (h.0, pop-IsName (d ∷ cs) h.1)

snoc-IsName : (cs : List Text) (c : Text) → All IsName cs → IsName c → All IsName (cs ++ c ∷ [])
snoc-IsName [] c h k = (k, tt)
snoc-IsName (x ∷ cs) c h k = (h.0, snoc-IsName cs c h.1 k)

push_component-IsName :
    (cs : List Text) (part : Text)
    → contains part slash ≡ false
    → All IsName cs
    → All IsName (push_component cs part)
unfolding push_component
push_component-IsName cs part plain h =
    elim (Bool-cases (is_empty part || list_eq part (dot ∷ []))) [
      | inl skip ↦ rw skip h
      | inr keep ↦ elim (Bool-cases (list_eq part parent_name)) [
        | inl up ↦ rw (keep, up) (pop-IsName cs h)
        | inr down ↦
            rw (keep, down) (snoc-IsName cs part h (ground arith, ground arith, down, plain))
      ]
    ]

push_components-IsName :
    (parts cs : List Text)
    → All (λ p. contains p slash ≡ false) parts
    → All IsName cs
    → All IsName (push_components cs parts)
unfolding push_components
push_components-IsName [] cs plain h = h
push_components-IsName (p ∷ parts) cs plain h =
    push_components-IsName parts (push_component cs p) plain.1
      (push_component-IsName cs p plain.0 h)

cons_head-plain :
    (x : ℕ) (ss : List Text)
    → (x == slash) ≡ false
    → All (λ p. contains p slash ≡ false) ss
    → All (λ p. contains p slash ≡ false) (cons_head x ss)
cons_head-plain x [] ne h = (ground arith, tt)
cons_head-plain x (s ∷ ss) ne h = (rw ne h.0, h.1)

split-plain : (s : Text) → All (λ p. contains p slash ≡ false) (split s slash)
unfolding split
split-plain [] = (refl, tt)
split-plain (x ∷ s) = elim (Bool-cases (x == slash)) [
  | inl cut ↦ rw cut (refl, split-plain s)
  | inr ne ↦ rw ne (cons_head-plain x (split s slash) ne (split-plain s))
]

components_of-IsName : (current path : Text) → All IsName (components_of current path)
unfolding components_of
components_of-IsName current path = elim (Bool-cases (starts_with path slash)) [
  | inl absolute ↦ rw absolute (push_components-IsName (split path slash) [] (split-plain path) tt)
  | inr relative ↦ rw relative (
      push_components-IsName (split path slash) (push_components [] (split current slash))
        (split-plain path)
        (push_components-IsName (split current slash) [] (split-plain current) tt))
]

-- Splitting what was joined.
split-append :
    (c rest : Text)
    → contains c slash ≡ false
    → split (c ++ slash ∷ rest) slash ≡ c ∷ split rest slash
unfolding split
split-append [] rest plain = refl
split-append (x ∷ c) rest plain = elim (Bool-cases (x == slash)) [
  | inl cut ↦ absurd (ground arith)
  | inr ne ↦ rw (ne, split-append c rest (ground arith)) refl
]

split-plain_text : (c : Text) → contains c slash ≡ false → split c slash ≡ c ∷ []
unfolding split
split-plain_text [] plain = refl
split-plain_text (x ∷ c) plain = elim (Bool-cases (x == slash)) [
  | inl cut ↦ absurd (ground arith)
  | inr ne ↦ rw (ne, split-plain_text c (ground arith)) refl
]

split-join :
    (c : Text) (cs : List Text) → All IsName (c ∷ cs) → split (join (c ∷ cs)) slash ≡ c ∷ cs
unfolding join
split-join c [] h = split-plain_text c h.0.3
split-join c (d ∷ cs) h =
    split-append c (join (d ∷ cs)) h.0.3 ∙ ap (λ t. c ∷ t) (split-join d cs h.1)

push_component-name : (cs : List Text) (c : Text) → IsName c → push_component cs c ≡ cs ++ c ∷ []
unfolding push_component
push_component-name cs c h = rw (h.0, h.1, h.2) refl

push_components-names :
    (names cs : List Text) → All IsName names → push_components cs names ≡ cs ++ names
unfolding push_components
push_components-names [] cs h = sym (append-nil cs)
push_components-names (c ∷ names) cs h =
    rw (push_component-name cs c h.0)
      (push_components-names names (cs ++ c ∷ []) h.1 ∙ append_assoc cs (c ∷ []) names)

-- The text of a path that starts at the root, has no empty part, no `.` and no `..`, and does not
-- end in a slash but for the root itself.
abbrev pub IsCanonical : Text → Type 0
IsCanonical path = (names : List Text) × (path ≡ render names) × All IsName names

pub resolve_path-IsCanonical : (current path : Text) → IsCanonical (resolve_path current path)
unfolding resolve_path
resolve_path-IsCanonical current path =
    (components_of current path, refl, components_of-IsName current path)

components_of-render :
    (current : Text) (names : List Text)
    → All IsName names
    → components_of current (render names) ≡ names
unfolding components_of render split push_components push_component
components_of-render current [] h = refl
components_of-render current (c ∷ names) h =
    rw (split-join c names h) (push_components-names (c ∷ names) [] h)

-- A canonical path is resolved to itself, whatever the current directory.
pub resolve_path-canonical :
    (current path : Text) → IsCanonical path → resolve_path current path ≡ path
unfolding resolve_path
resolve_path-canonical current path (names, e, h) =
    rw e (ap render (components_of-render current names h))

pub root-IsCanonical : IsCanonical root_path
unfolding render
root-IsCanonical = ([], refl, tt)

is_empty-cons_head : (x : ℕ) (ss : List Text) → is_empty (cons_head x ss) ≡ false
is_empty-cons_head x [] = refl
is_empty-cons_head x (s ∷ ss) = refl

is_empty-split : (s : Text) → is_empty (split s slash) ≡ false
unfolding split
is_empty-split [] = refl
is_empty-split (x ∷ s) = elim (Bool-cases (x == slash)) [
  | inl cut ↦ rw cut refl
  | inr ne ↦ rw ne (is_empty-cons_head x (split s slash))
]

cons_head-append :
    (x : ℕ) (ss ts : List Text)
    → is_empty ss ≡ false
    → cons_head x (ss ++ ts) ≡ cons_head x ss ++ ts
cons_head-append x [] ts h = cc
cons_head-append x (s ∷ ss) ts h = refl

split-append_slash : (a b : Text) → split (a ++ slash ∷ b) slash ≡ split a slash ++ split b slash
unfolding split
split-append_slash [] b = refl
split-append_slash (x ∷ a) b = elim (Bool-cases (x == slash)) [
  | inl cut ↦ rw (cut, split-append_slash a b) refl
  | inr ne ↦
      rw (ne, split-append_slash a b)
        (cons_head-append x (split a slash) (split b slash) (is_empty-split a))
]

push_components-append :
    (cs ps qs : List Text)
    → push_components cs (ps ++ qs) ≡ push_components (push_components cs ps) qs
unfolding push_components
push_components-append cs [] qs = refl
push_components-append cs (p ∷ ps) qs = push_components-append (push_component cs p) ps qs

components_of-names :
    (names : List Text) → All IsName names → push_components [] (split (render names) slash) ≡ names
unfolding render split push_components push_component
components_of-names [] h = refl
components_of-names (c ∷ names) h =
    rw (split-join c names h) (push_components-names (c ∷ names) [] h)

starts_with-append :
    (a rest : Text) → is_empty a ≡ false → starts_with (a ++ rest) slash ≡ starts_with a slash
starts_with-append [] rest h = cc
starts_with-append (x ∷ a) rest h = refl

components_of-append :
    (current a b : Text)
    → is_empty a ≡ false
    → components_of current (a ++ slash ∷ b)
      ≡ push_components (components_of current a) (split b slash)
unfolding components_of
components_of-append current a b h = elim (Bool-cases (starts_with a slash)) [
  | inl absolute ↦
      rw (starts_with-append a (slash ∷ b) h, absolute, split-append_slash a b)
        (push_components-append [] (split a slash) (split b slash))
  | inr relative ↦
      rw (starts_with-append a (slash ∷ b) h, relative, split-append_slash a b)
        (push_components-append (push_components [] (split current slash)) (split a slash)
          (split b slash))
]

components_of-relative :
    (names : List Text) (b : Text)
    → All IsName names
    → starts_with b slash ≡ false
    → components_of (render names) b ≡ push_components names (split b slash)
unfolding components_of
components_of-relative names b h hb = rw (hb, components_of-names names h) refl

-- Going to `a` and from there to a relative `b` is going to `a/b`, for an `a` that is not empty.
pub resolve_path-resolve_path :
    (current a b : Text)
    → is_empty a ≡ false
    → starts_with b slash ≡ false
    → resolve_path (resolve_path current a) b ≡ resolve_path current (a ++ slash ∷ b)
unfolding resolve_path
resolve_path-resolve_path current a b ha hb = ap render (
    components_of-relative (components_of current a) b (components_of-IsName current a) hb
    ∙ sym (components_of-append current a b ha))
