-- ===== src/Cli/Shell.antt =====
-- The commands and the interactive shell of fat32/src/main.rs. The lines of standard input are a
-- list that ends where input ends, where reading it fails or where the prompt cannot be flushed:
-- the loop stops in each case.
pub mod Safe
pub mod Rule
pub mod Directory
pub mod Loop
pub mod Saved
use the_heap.Prelude.{
  ℕ, Bool, ◌&&◌, ◌||◌, Option, none, some, List, [], ◌∷◌, ◌++◌, map, leb, ◌==◌, if◌then◌else◌,
  is_empty, list_eq, inl, inr,
}
use the_heap.Fat32.Error.{err, ok, panic}
use the_heap.Fat32.Text.{Text, ascii, root_path}
use the_heap.Fat32.DirEntry.{DirEntry, is_dir}
use the_heap.Fat32.Volume.{Disk, Volume, new}
use the_heap.Fat32.Read.{list_dir_path, read_file_by_path, open_path}
use the_heap.Fat32.Write.{write_file_by_path}
use the_heap.Fat32.Write.Effect.{Run, done, failed, panicked}
use the_heap.Cli.Path.{resolve_path}
use the_heap.Cli.Words.{trim, split_whitespace}
use the_heap.Cli.Host.{
  HostFs, bytes_of, Output, shell_help, banner, prompt, unknown_command, cannot_read, cannot_write,
  fat_error, listing_of, row, ls_error, contents, file_not_found, cat_error, cat_usage, directory,
  is_no_directory, directory_not_found, cd_error, put_usage, put_error, put_ok,
}

-- `parts.next()`.
abbrev pub next : List Text → Option Text × List Text
next [] = (none, [])
next (p ∷ ps) = (some p, ps)

-- The arms of `match cmd`.
pub data Verb : Type 0 where
  exit : Verb
  help : Verb
  pwd : Verb
  ls : Verb
  cat : Verb
  cd : Verb
  put_file : Verb
  other : Verb

unfoldable pub verb_of : Text → Verb
verb_of cmd =
    if list_eq cmd (ascii "exit") || list_eq cmd (ascii "quit")
    then exit
    else if list_eq cmd (ascii "help")
    then help
    else if list_eq cmd (ascii "pwd")
    then pwd
    else if list_eq cmd (ascii "ls")
    then ls
    else if list_eq cmd (ascii "cat")
    then cat
    else if list_eq cmd (ascii "cd")
    then cd
    else if list_eq cmd (ascii "put")
    then put_file
    else other

-- What the loop keeps, with the image in memory and the files of the host.
pub record Session (World : Type 0) : Type 0 where
  pub current_dir : Text
  pub image : Disk
  pub world : World

-- How a command ends: the loop goes on, it is left, or a panic ends the program.
pub data Reply (World IoError : Type 0) : Type 0 where
  go_on : Session World → List (Output IoError) → Reply World IoError
  leave : Reply World IoError
  crash : Session World → Reply World IoError

pub data Ran (World IoError : Type 0) : Type 0 where
  ended : Session World → List (Output IoError) → Ran World IoError
  crashed : Session World → List (Output IoError) → Ran World IoError

module _ {E : Type 0} where
  abbrev pub row_of : DirEntry → Output E
  row_of e = row (is_dir e) e.name e.size

  -- What is printed, or `none` for a panic.
  unfoldable pub run_ls : Volume → Text → Option (List (Output E))
  run_ls v path = elim (list_dir_path v path) [
    | ok entries ↦ some (listing_of path ∷ map row_of entries)
    | err e ↦ some (ls_error path e ∷ [])
    | panic ↦ none
  ]

  unfoldable pub run_cat : Volume → Text → Option (List (Output E))
  run_cat v path = elim (read_file_by_path v path) [
    | ok (some bytes) ↦ some (contents bytes ∷ [])
    | ok none ↦ some (file_not_found path ∷ [])
    | err e ↦ some (cat_error path e ∷ [])
    | panic ↦ none
  ]

  abbrev pub prepend : {W : Type 0} → List (Output E) → Ran W E → Ran W E
  prepend out (ended s rest) = ended s (out ++ rest)
  prepend out (crashed s rest) = crashed s (out ++ rest)

module _ (h : HostFs) where
  open h use {World, IoError, read, write}

  -- A command that opens the image first.
  abbrev pub mounted : (Volume → Reply World IoError) → Session World → Reply World IoError
  mounted body s = elim (new s.image) [
    | err e ↦ go_on s (fat_error e ∷ [])
    | ok v ↦ body v
    | panic ↦ crash s
  ]

  -- The shell behind a command that only prints.
  abbrev pub printed : Session World → Option (List (Output IoError)) → Reply World IoError
  printed s (some out) = go_on s out
  printed s none = crash s

  unfoldable pub shell_ls : List Text → Session World → Reply World IoError
  unfolding run_ls
  shell_ls parts s =
      mounted
        (λ v. elim (next parts).0 [
          | some p ↦ printed s (run_ls v (resolve_path s.current_dir p))
          | none ↦ printed s (run_ls v s.current_dir)
        ])
        s

  unfoldable pub shell_cat : List Text → Session World → Reply World IoError
  unfolding run_cat
  shell_cat parts s =
      mounted
        (λ v. elim (next parts).0 [
          | some p ↦ printed s (run_cat v (resolve_path s.current_dir p))
          | none ↦ go_on s (cat_usage ∷ [])
        ])
        s

  -- `cd`, once its target is known.
  unfoldable pub enter : Text → Volume → Session World → Reply World IoError
  enter target v s = elim (open_path v target) [
    | ok (some entry) ↦
        if is_dir entry
        then go_on (record s { current_dir = target }) []
        else go_on s (is_no_directory target ∷ [])
    | ok none ↦ go_on s (directory_not_found target ∷ [])
    | err e ↦ go_on s (cd_error target e ∷ [])
    | panic ↦ crash s
  ]

  abbrev pub cd_target : List Text → Session World → Text
  cd_target [] s = root_path
  cd_target (p ∷ ps) s = resolve_path s.current_dir p

  unfoldable pub shell_cd : List Text → Session World → Reply World IoError
  unfolding enter
  shell_cd parts s = mounted (λ v. enter (cd_target parts s) v s) s

  -- The image written to its file.
  abbrev pub saved :
      Text → Text → Text → Session World → World × Option IoError → Reply World IoError
  saved img fat_path src s (w, some e) = go_on (record s { world = w }) (cannot_write img e ∷ [])
  saved img fat_path src s (w, none) = go_on (record s { world = w }) (put_ok src fat_path ∷ [])

  -- What follows `write_file_by_path`. The image in memory is as it left it, with an error too.
  unfoldable pub written : Text → Text → Text → Session World → Run (Unit {0}) → Reply World IoError
  written img fat_path src s (done _ v) =
      saved img fat_path src (record s { image = v.disk }) (write s.world img v.disk)
  written img fat_path src s (failed e v) =
      go_on (record s { image = v.disk }) (put_error fat_path e ∷ [])
  written img fat_path src s (panicked v) = crash (record s { image = v.disk })

  -- `put` once its path and its source are known: the source is read, then the image opened.
  unfoldable pub put : Text → Text → Text → Session World → Reply World IoError
  unfolding written
  put img fat_path src s = elim (read s.world src) [
    | inl e ↦ go_on s (cannot_read src e ∷ [])
    | inr content ↦
        mounted (λ v. written img fat_path src s (write_file_by_path fat_path (bytes_of content) v))
          s
  ]

  unfoldable pub shell_put : Text → List Text → Session World → Reply World IoError
  unfolding put
  shell_put img [] s = go_on s (put_usage ∷ [])
  shell_put img (p ∷ []) s = go_on s (put_usage ∷ [])
  shell_put img (p ∷ src ∷ ps) s = put img (resolve_path s.current_dir p) src s

  unfoldable pub run_verb : Text → Text → List Text → Session World → Verb → Reply World IoError
  unfolding shell_ls shell_cat shell_cd shell_put
  run_verb img cmd parts s exit = leave
  run_verb img cmd parts s help = go_on s (shell_help ∷ [])
  run_verb img cmd parts s pwd = go_on s (directory s.current_dir ∷ [])
  run_verb img cmd parts s ls = shell_ls parts s
  run_verb img cmd parts s cat = shell_cat parts s
  run_verb img cmd parts s cd = shell_cd parts s
  run_verb img cmd parts s put_file = shell_put img parts s
  run_verb img cmd parts s other = go_on s (unknown_command cmd ∷ [])

  unfoldable pub run_command : Text → Text → List Text → Session World → Reply World IoError
  unfolding verb_of run_verb
  run_command img cmd parts s = run_verb img cmd parts s (verb_of cmd)

  -- One line that was read. `parts.next().unwrap()` panics where there is no word.
  unfoldable pub run_line : Text → Text → Session World → Reply World IoError
  unfolding run_command trim split_whitespace
  run_line img line s =
      let line = trim line in
      if is_empty line then go_on s [] else (elim (split_whitespace line) [
        | [] ↦ crash s
        | cmd ∷ parts ↦ run_command img cmd parts s
      ])

  -- The loop. `read_line` gives 0 bytes at the end of input only.
  unfoldable pub shell_loop : Text → List Text → Session World → Ran World IoError
  unfolding run_line
  shell_loop img [] s = ended s (prompt s.current_dir ∷ [])
  shell_loop img (line ∷ lines) s =
      let step : Ran World IoError = elim (run_line img line s) [
        | go_on t out ↦ prepend (prompt s.current_dir ∷ out) (shell_loop img lines t)
        | leave ↦ ended s (prompt s.current_dir ∷ [])
        | crash t ↦ crashed t (prompt s.current_dir ∷ [])
      ] in
      if is_empty line then ended s (prompt s.current_dir ∷ []) else step

  unfoldable pub run_shell : Text → Disk → List Text → World → Ran World IoError
  unfolding shell_loop
  run_shell img image lines w =
      prepend (banner ∷ [])
        (shell_loop img lines (record { current_dir = root_path; image = image; world = w }))
