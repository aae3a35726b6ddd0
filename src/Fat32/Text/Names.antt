-- ===== src/Fat32/Text/Names.antt =====
-- Short names: what `encode_short_name_8_3` of fat32/src/lib.rs stores is what the reading side
-- decodes.
use the_heap.Prelude.{
  ==_iff, ℕ, ◌≡◌, ◌≤◌, [], ◌∷◌, ◌++◌, refl, ap, sym, ◌∙◌, arith, replicate, zero, suc, length,
  Bool-cases, inl, inr, is_empty, ◌&&◌, ◌==◌, ltb, leb, ◌||◌, Bool, if◌then◌else◌, some,
  Option-cases, true, false, length-append, length-replicate, ◌-◌,
}
use the_heap.Fat32.Text.{
  Text, trim_end_matches, space, dot, slash, to_ascii_uppercase, normalize_name, encode_bytes,
  rsplit_once, split_extension, encode_short_name_8_3, pad, contains,
}
use the_heap.Fat32.DirEntry.{full_name, decode_ascii_trim}
use the_heap.Fat32.Error.{ok, >>=-ok}

trim_end_matches-replicate : (c n : ℕ) → trim_end_matches (replicate n c) c ≡ []
unfolding trim_end_matches
trim_end_matches-replicate c zero = refl
trim_end_matches-replicate c (suc n) =
    let same : (c == c) ≡ true = ground arith in rw (trim_end_matches-replicate c n, same) refl

trim_end_matches-append :
    (xs : Text) (c n : ℕ) → trim_end_matches (xs ++ replicate n c) c ≡ trim_end_matches xs c
unfolding trim_end_matches
trim_end_matches-append [] c n = trim_end_matches-replicate c n
trim_end_matches-append (x ∷ xs) c n = rw (trim_end_matches-append xs c n) refl

cut_le : (rest : Text) (b : Bool) (x : ℕ) → length (if b then [] else x ∷ rest) ≤ suc (length rest)
cut_le rest true x = omega arith
cut_le rest false x = omega arith

length-trim_end_matches : (xs : Text) (c : ℕ) → length (trim_end_matches xs c) ≤ length xs
unfolding trim_end_matches
length-trim_end_matches [] c = omega arith
length-trim_end_matches (x ∷ xs) c =
    let cut = cut_le (trim_end_matches xs c) (is_empty (trim_end_matches xs c) && (x == c)) x in
    omega (arith, length-trim_end_matches xs c)

encode_bytes-eq : (cs r : Text) → encode_bytes cs ≡ ok r → r ≡ normalize_name cs
unfolding encode_bytes normalize_name
encode_bytes-eq [] r h = cc
encode_bytes-eq (c ∷ cs) r h = elim (Bool-cases (leb 128 c || (c == slash))) [
  | inl bad ↦ let q = rw bad at h in cc
  | inr good ↦
      let (t, e, q) = >>=-ok (encode_bytes cs) _ (rw good at h) in
      let i = encode_bytes-eq cs t e in
      let z : to_ascii_uppercase c ∷ t ≡ r = cc in sym z ∙ ap (λ s. to_ascii_uppercase c ∷ s) i
]

upper_space : (x : ℕ) → (to_ascii_uppercase x == space) ≡ (x == space)
unfolding to_ascii_uppercase
upper_space x = ground arith

is_empty-normalize_name : (xs : Text) → is_empty (normalize_name xs) ≡ is_empty xs
unfolding normalize_name
is_empty-normalize_name [] = refl
is_empty-normalize_name (x ∷ xs) = refl

normalize_name-if :
    (b : Bool) (x : ℕ) (rest : Text)
    → normalize_name (if b then [] else x ∷ rest)
      ≡ (if b then [] else to_ascii_uppercase x ∷ normalize_name rest)
unfolding normalize_name
normalize_name-if true x rest = refl
normalize_name-if false x rest = refl

trim_nil : trim_end_matches (normalize_name []) space ≡ []
unfolding trim_end_matches normalize_name
trim_nil = refl

nil_trim : normalize_name (trim_end_matches [] space) ≡ []
unfolding trim_end_matches normalize_name
nil_trim = refl

trim_cons :
    (xs : Text) (x : ℕ)
    → trim_end_matches (normalize_name (x ∷ xs)) space ≡ (
        if is_empty (trim_end_matches (normalize_name xs) space) && (to_ascii_uppercase x == space)
        then []
        else to_ascii_uppercase x ∷ trim_end_matches (normalize_name xs) space)
unfolding trim_end_matches normalize_name
trim_cons xs x = refl

trim_end_matches-map :
    (xs : Text)
    → trim_end_matches (normalize_name xs) space ≡ normalize_name (trim_end_matches xs space)
unfolding trim_end_matches
trim_end_matches-map [] = trim_nil ∙ sym nil_trim
trim_end_matches-map (x ∷ xs) =
    rw
      (
        trim_cons xs x,
        trim_end_matches-map xs,
        is_empty-normalize_name (trim_end_matches xs space),
        upper_space x,
        normalize_name-if (is_empty (trim_end_matches xs space) && (x == space)) x
            (trim_end_matches xs space),
      )
      refl

normalize_name-append :
    (xs ys : Text) → normalize_name (xs ++ ys) ≡ normalize_name xs ++ normalize_name ys
unfolding normalize_name
normalize_name-append [] ys = refl
normalize_name-append (x ∷ xs) ys = ap (λ t. to_ascii_uppercase x ∷ t) (normalize_name-append xs ys)

rsplit_once-eq :
    (xs before after : Text) (c : ℕ)
    → rsplit_once xs c ≡ some (before, after)
    → xs ≡ before ++ c ∷ after
unfolding rsplit_once
rsplit_once-eq [] before after c h = cc
rsplit_once-eq (x ∷ xs) before after c h = elim (Option-cases (rsplit_once xs c)) [
  | inl e ↦ elim (Bool-cases (x == c)) [
    | inl same ↦
        let q = rw (e, same) at h in
        let x_eq : x ≡ c = (==_iff x c).0 same in
        let b0 : [] ≡ before = cc in let a0 : xs ≡ after = cc in rw (← b0, ← a0, x_eq) refl
    | inr other ↦ let q = rw (e, other) at h in cc
  ]
  | inr ((b, a), e) ↦
      let q = rw e at h in
      let b0 : x ∷ b ≡ before = cc in
      let a0 : a ≡ after = cc in rw (← b0, ← a0) (ap (λ t. x ∷ t) (rsplit_once-eq xs b a c e))
]

-- The raw field of a base or an extension without trailing spaces decodes to it, in upper case.
pad-decode :
    (n : ℕ) (text raw : Text)
    → encode_bytes text ≡ ok raw
    → trim_end_matches text space ≡ text
    → decode_ascii_trim (pad n raw) ≡ normalize_name text
unfolding decode_ascii_trim
pad-decode n text raw h trimmed =
    let e = encode_bytes-eq text raw h in
    rw (trim_end_matches-append raw space (n - length raw), e, trim_end_matches-map text)
      (ap normalize_name trimmed)

length-pad : (n : ℕ) (raw : Text) → length raw ≤ n → length (pad n raw) ≡ n
length-pad n raw le = omega (
  arith,
  length-append raw (replicate (n - length raw) space),
  length-replicate (n - length raw) space,
)

-- A name that does not end in a dot is its base, a dot and its extension, if it has one.
rejoin : (base ext : Text) → Text
rejoin base ext = if is_empty ext then base else base ++ dot ∷ ext

split_extension-rejoin :
    (name : Text)
    → trim_end_matches name dot ≡ name
    → rejoin (split_extension name).0 (split_extension name).1 ≡ name
unfolding split_extension rejoin
split_extension-rejoin name h = elim (Option-cases (rsplit_once name dot)) [
  | inl e ↦ rw (e, split_extension) refl
  | inr ((b, []), e) ↦
      let whole = rsplit_once-eq name b [] dot e in
      let cut = trim_end_matches-append b dot 1 in
      let shorter : length name ≤ length b = omega (
        arith,
        ap length (sym h),
        ap (λ t. length (trim_end_matches t dot)) whole,
        ap length cut,
        length-trim_end_matches b dot,
      ) in
      absurd (omega (arith, ap length whole, length-append b (dot ∷ [])))
  | inr ((b, x ∷ xs), e) ↦ rw (e, split_extension) (sym (rsplit_once-eq name b (x ∷ xs) dot e))
]

-- What a successful encoding went through.
record Encoded (base ext n e : Text) : Type 0 where
  b : Text
  x : Text
  b_eq : encode_bytes base ≡ ok b
  x_eq : encode_bytes ext ≡ ok x
  n_eq : pad 8 b ≡ n
  e_eq : pad 3 x ≡ e
  short : (length base ≤ 8) × (length ext ≤ 3)

encode_short_name_8_3-Encoded :
    (name n e : Text)
    → encode_short_name_8_3 name ≡ ok (n, e)
    → Encoded (split_extension name).0 (split_extension name).1 n e
unfolding encode_short_name_8_3
encode_short_name_8_3-Encoded name n e h =
    let base = (split_extension name).0 in
    let ext = (split_extension name).1 in
    elim (Bool-cases (is_empty base || ltb 8 (length base) || ltb 3 (length ext))) [
      | inl long ↦ let q = rw long at h in cc
      | inr short ↦ elim (Bool-cases (contains base dot || contains ext dot)) [
        | inl dots ↦ let q = rw (short, dots) at h in cc
        | inr plain ↦
            let (b, eb, q) = >>=-ok (encode_bytes base) _ (rw (short, plain) at h) in
            let (x, ex, z) = >>=-ok (encode_bytes ext) _ q in
            record {
              b = b;
              x = x;
              b_eq = eb;
              x_eq = ex;
              n_eq = cc;
              e_eq = cc;
              short = ground arith;
            }
      ]
    ]

normalize_name-rejoin :
    (base ext : Text)
    → (if is_empty (normalize_name ext)
        then normalize_name base
        else normalize_name base ++ dot ∷ normalize_name ext)
      ≡ normalize_name (rejoin base ext)
unfolding rejoin normalize_name to_ascii_uppercase
normalize_name-rejoin base [] = refl
normalize_name-rejoin base (x ∷ xs) = sym (normalize_name-append base (dot ∷ x ∷ xs))

length-normalize_name : (xs : Text) → length (normalize_name xs) ≡ length xs
unfolding normalize_name
length-normalize_name [] = refl
length-normalize_name (x ∷ xs) = ap suc (length-normalize_name xs)

Encoded-full_name :
    (base ext n e : Text)
    → Encoded base ext n e
    → trim_end_matches base space ≡ base
    → trim_end_matches ext space ≡ ext
    → full_name n e ≡ normalize_name (rejoin base ext)
unfolding full_name
Encoded-full_name base ext n e c tb te =
    rw (← c.n_eq, ← c.e_eq, pad-decode 8 base c.b c.b_eq tb, pad-decode 3 ext c.x c.x_eq te)
      (normalize_name-rejoin base ext)

-- A name that does not end in a dot, and whose base and extension do not end in a space: if
-- `encode_short_name_8_3` accepts it, the two raw fields have 8 and 3 bytes, and the reading side
-- decodes them to the name in upper case.
pub full_name-encode :
    (name n e : Text)
    → encode_short_name_8_3 name ≡ ok (n, e)
    → trim_end_matches name dot ≡ name
    → trim_end_matches (split_extension name).0 space ≡ (split_extension name).0
    → trim_end_matches (split_extension name).1 space ≡ (split_extension name).1
    → (full_name n e ≡ normalize_name name) × (length n ≡ 8) × (length e ≡ 3)
unfolding encode_short_name_8_3
full_name-encode name n e h no_dot base ext =
    let c = encode_short_name_8_3-Encoded name n e h in
    let lb =
      ap length (encode_bytes-eq (split_extension name).0 c.b c.b_eq)
      ∙ length-normalize_name (split_extension name).0 in
    let lx =
      ap length (encode_bytes-eq (split_extension name).1 c.x c.x_eq)
      ∙ length-normalize_name (split_extension name).1 in
    let short = c.short in
    (
      Encoded-full_name (split_extension name).0 (split_extension name).1 n e c base ext
          ∙ ap normalize_name (split_extension-rejoin name no_dot),
      ap length (sym c.n_eq) ∙ length-pad 8 c.b (omega arith),
      ap length (sym c.e_eq) ∙ length-pad 3 c.x (omega arith),
    )
