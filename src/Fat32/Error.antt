-- ===== src/Fat32/Error.antt =====
-- `FatError` of fat32/src/lib.rs, and the two ways in which its operations end: a result of a
-- reading function, and a run of a writing one, which keeps the volume also where it fails.
use the_heap.Prelude.{
  ◌≡◌, refl, Bool, true, false, if◌then◌else◌, Option, none, some, ◌⊎◌, inl, inr,
}

pub data FatError : Type 0 where
  buffer_too_small : FatError
  not_fat32 : FatError
  out_of_bounds : FatError
  invalid_cluster : FatError
  not_a_file : FatError
  not_a_directory : FatError
  path_not_found : FatError
  invalid_name : FatError
  no_space_left : FatError
  other : FatError

-- `Result<T, FatError>`, or the panic that stands in its place.
pub data Result {κ} (T : Type κ) : Type κ where
  err : FatError → Result T
  ok : T → Result T
  panic : Result T

-- The call came back.
abbrev pub NoPanic {κ} : {T : Type κ} → Result T → Type 0
NoPanic (err e) = Unit
NoPanic (ok t) = Unit
NoPanic panic = ⊥

-- `o.ok_or(e)`.
abbrev pub ok_or {κ} : {T : Type κ} → Option T → FatError → Result T
ok_or (some t) e = ok t
ok_or none e = err e

-- The operator `?`.
module _ {κ ι} {T : Type κ} {U : Type ι} where
  infixl 5 ◌>>=◌
  abbrev pub ◌>>=◌ : Result T → (T → Result U) → Result U
  err why >>= rest = err why
  ok t >>= rest = rest t
  panic >>= rest = panic

  -- A method that gives a value went on behind the `?`.
  pub >>=-ok :
      (first : Result T) (rest : T → Result U) {u : U}
      → (first >>= rest) ≡ ok u
      → (t : T) × (first ≡ ok t) × (rest t ≡ ok u)
  >>=-ok (err why) rest q = cc
  >>=-ok (ok t) rest q = (t, refl, q)
  >>=-ok panic rest q = cc

  pub >>=-NoPanic :
      (first : Result T) (rest : T → Result U)
      → NoPanic first
      → ((t : T) → NoPanic (rest t))
      → NoPanic (first >>= rest)
  >>=-NoPanic (err why) rest safe next = tt
  >>=-NoPanic (ok t) rest safe next = next t
  >>=-NoPanic panic rest safe next = safe

module _ {κ} {T : Type κ} where
  pub Result-cases :
      (r : Result T) → NoPanic r → ((e : FatError) × (r ≡ err e)) ⊎ ((t : T) × (r ≡ ok t))
  Result-cases (err e) safe = inl (e, refl)
  Result-cases (ok t) safe = inr (t, refl)
  Result-cases panic safe = absurd safe

  pub if-NoPanic :
      (b : Bool) (x y : Result T) → NoPanic x → NoPanic y → NoPanic (if b then x else y)
  if-NoPanic true x y h k = h
  if-NoPanic false x y h k = k

  pub option-NoPanic :
      {U : Type κ} (o : Option U) (z : Result T) (f : U → Result T)
      → NoPanic z
      → ((u : U) → NoPanic (f u))
      → NoPanic (elim o [ none ↦ z | some u ↦ f u ])
  option-NoPanic none z f h k = h
  option-NoPanic (some u) z f h k = k u

  pub ok_or-NoPanic : (o : Option T) (e : FatError) → NoPanic (ok_or o e)
  ok_or-NoPanic (some t) e = tt
  ok_or-NoPanic none e = tt

pub ok_inj {κ} : {T : Type κ} {a b : T} → ok a ≡ ok b → a ≡ b
ok_inj h = cc
