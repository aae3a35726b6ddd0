-- ===== src/Cli/Arguments.antt =====
-- The loop over the arguments in `main` of fat32/src/main.rs.
pub mod Total
use the_heap.Prelude.{
  ℕ, zero, suc, Option, none, some, List, [], ◌∷◌, ◌||◌, if◌then◌else◌, list_eq, length,
}
use the_heap.Fat32.Text.{Text, ascii}

pub data Command : Type 0 where
  ls : Command
  cat : Command
  put : Command

pub record Arguments : Type 0 where
  pub dump_path : Option Text
  pub command : Option Command
  pub target_a : Option Text
  pub target_b : Option Text

abbrev pub no_arguments : Arguments
no_arguments = record { dump_path = none; command = none; target_a = none; target_b = none }

pub data Parsed : Type 0 where
  parsed : Arguments → Parsed
  unknown : Text → Parsed

-- `args.next()`: the argument, and the iterator behind it.
abbrev pub arg : List Text → Option Text
arg [] = none
arg (x ∷ xs) = some x

abbrev pub rest : List Text → List Text
rest [] = []
rest (x ∷ xs) = xs

-- What one round does with an argument and the iterator behind it; `none` for an unknown one.
unfoldable pub take_arg : Text → List Text → Arguments → Option (List Text × Arguments)
take_arg x xs a =
    if list_eq x (ascii "--file") || list_eq x (ascii "-f")
    then some (rest xs, record a { dump_path = arg xs })
    else if list_eq x (ascii "--ls")
    then some (rest xs, record a { command = some ls; target_a = arg xs })
    else if list_eq x (ascii "--cat")
    then some (rest xs, record a { command = some cat; target_a = arg xs })
    else if list_eq x (ascii "--put")
    then some (
      rest (rest xs),
      record a { command = some put; target_a = arg xs; target_b = arg (rest xs) },
    )
    else none

-- The loop, on fuel: `none` where it runs out.
unfoldable pub parse_args : ℕ → List Text → Arguments → Option Parsed
unfolding take_arg
parse_args zero xs a = none
parse_args (suc fuel) [] a = some (parsed a)
parse_args (suc fuel) (x ∷ xs) a = elim (take_arg x xs a) [
  | none ↦ some (unknown x)
  | some (left, b) ↦ parse_args fuel left b
]

-- A round for each argument is enough.
abbrev pub parse_arguments : List Text → Option Parsed
parse_arguments xs = parse_args (suc (length xs)) xs no_arguments
