-- ===== src/Cli/Arguments/Total.antt =====
-- The loop over the arguments of fat32/src/main.rs ends.
use the_heap.Prelude.{
  ℕ, zero, suc, ◌≡◌, ◌<◌, ◌≤◌, refl, arith, some, List, [], ◌∷◌, length, Option-cases, inl, inr,
}
use the_heap.Fat32.Text.{Text}
use the_heap.Cli.Arguments.{Arguments, Parsed, parsed, unknown, rest, take_arg, parse_args}

length-rest : (xs : List Text) → length (rest xs) ≤ length xs
length-rest [] = omega arith
length-rest (x ∷ xs) = omega arith

take_arg-length :
    (x : Text) (xs : List Text) (a : Arguments) {left : List Text} {b : Arguments}
    → take_arg x xs a ≡ some (left, b)
    → length left ≤ length xs
unfolding take_arg
take_arg-length x xs a h = ground (arith, length-rest xs, length-rest (rest xs))

pub parse_args-total :
    (fuel : ℕ) (xs : List Text) (a : Arguments)
    → length xs < fuel
    → (p : Parsed) × (parse_args fuel xs a ≡ some p)
unfolding parse_args
parse_args-total zero xs a h = absurd (omega arith)
parse_args-total (suc fuel) [] a h = (parsed a, refl)
parse_args-total (suc fuel) (x ∷ xs) a h = elim (Option-cases (take_arg x xs a)) [
  | inl e ↦ (unknown x, rw (e, parse_args) refl)
  | inr ((left, b), e) ↦
      let shorter = take_arg-length x xs a e in
      rw (e, parse_args) (parse_args-total fuel left b (omega (arith, shorter, h)))
]
