-- ===== src/Cli/Main.antt =====
-- `main` of fat32/src/main.rs. The arguments are texts and printing does not fail: the panics of
-- `env::args` on an argument that is not Unicode, and of `println!` on a closed output, are not
-- part of the model.
pub mod Exits
use the_heap.Prelude.{Option, none, some, List, [], ◌∷◌, inl, inr}
use the_heap.Fat32.Error.{Result, err, ok}
use the_heap.Fat32.Text.{Text, root_path}
use the_heap.Fat32.Volume.{Disk, Volume, new}
use the_heap.Cli.Path.{resolve_path}
use the_heap.Cli.Host.{
  HostFs, Output, usage, unknown_argument, cannot_read, fat_error, cat_needs_path, put_needs_path,
  put_needs_source,
}
use the_heap.Cli.Arguments.{Command, Parsed, parsed, unknown, parse_arguments, parse_args}
use the_heap.Cli.Shell.{
  run_ls, run_cat, run_shell, put, Reply, go_on, leave, crash, Ran, ended, crashed,
}

-- How the program ends, by itself or by a panic, with the files of the host and what was printed.
pub data Exit (World IoError : Type 0) : Type 0 where
  returned : World → List (Output IoError) → Exit World IoError
  panic : World → List (Output IoError) → Exit World IoError

-- A shell that has ended.
abbrev pub exit_of : {W E : Type 0} → Ran W E → Exit W E
exit_of (ended s out) = returned s.world out
exit_of (crashed s out) = panic s.world out

-- A single `put` that has ended.
abbrev pub exit_of_reply : {W E : Type 0} → W → Reply W E → Exit W E
exit_of_reply w (go_on s out) = returned s.world out
exit_of_reply w leave = returned w []
exit_of_reply w (crash s) = panic s.world []

-- A command that only prints.
abbrev pub exit_printed : {W E : Type 0} → W → Option (List (Output E)) → Exit W E
exit_printed w (some out) = returned w out
exit_printed w none = panic w []

module _ (h : HostFs) where
  open h use {World, IoError, read}

  -- `Fat32::new` of the image, for the commands that only read.
  abbrev pub with_volume :
      World → Disk → (Volume → Option (List (Output IoError))) → Exit World IoError
  with_volume w image body = elim (new image) [
    | err e ↦ returned w (fat_error e ∷ [])
    | ok v ↦ exit_printed w (body v)
    | Result.panic ↦ panic w []
  ]

  unfoldable pub main_ls : Option Text → World → Disk → Exit World IoError
  unfolding run_ls
  main_ls none w image = with_volume w image (λ v. run_ls v root_path)
  main_ls (some p) w image = with_volume w image (λ v. run_ls v (resolve_path root_path p))

  unfoldable pub main_cat : Option Text → World → Disk → Exit World IoError
  unfolding run_cat
  main_cat none w image = with_volume w image (λ v. some (cat_needs_path ∷ usage ∷ []))
  main_cat (some p) w image = with_volume w image (λ v. run_cat v (resolve_path root_path p))

  -- The path is not resolved here, as it is by the shell.
  unfoldable pub main_put : Text → Option Text → Option Text → World → Disk → Exit World IoError
  unfolding put
  main_put img none b w image = returned w (put_needs_path ∷ usage ∷ [])
  main_put img (some p) none w image = returned w (put_needs_source ∷ usage ∷ [])
  main_put img (some p) (some src) w image =
      exit_of_reply w
        (put h img p src (record { current_dir = root_path; image = image; world = w }))

  -- The command, once the image has been read.
  unfoldable pub dispatch :
      Text
      → Disk
      → List Text
      → World
      → Option Command
      → Option Text
      → Option Text
      → Exit World IoError
  unfolding main_ls main_cat main_put run_shell
  dispatch img image lines w none a b = exit_of (run_shell h img image lines w)
  dispatch img image lines w (some Command.ls) a b = main_ls a w image
  dispatch img image lines w (some Command.cat) a b = main_cat a w image
  dispatch img image lines w (some Command.put) a b = main_put img a b w image

  abbrev pub open_image :
      List Text
      → World
      → Option Command
      → Option Text
      → Option Text
      → Option Text
      → Exit World IoError
  open_image lines w c a b none = returned w (usage ∷ [])
  open_image lines w c a b (some img) = elim (read w img) [
    | inl e ↦ returned w (cannot_read img e ∷ [])
    | inr image ↦ dispatch img image lines w c a b
  ]

  abbrev pub after_parsing : List Text → World → Parsed → Exit World IoError
  after_parsing lines w (unknown x) = returned w (unknown_argument x ∷ usage ∷ [])
  after_parsing lines w (parsed a) = open_image lines w a.command a.target_a a.target_b a.dump_path

  -- The arguments behind the program's name, the lines of standard input, the files of the host.
  -- `none` where the loop over the arguments would run out of fuel.
  unfoldable pub main : List Text → List Text → World → Option (Exit World IoError)
  unfolding dispatch parse_args
  main args lines w = elim (parse_arguments args) [
    | none ↦ none
    | some p ↦ some (after_parsing lines w p)
  ]
