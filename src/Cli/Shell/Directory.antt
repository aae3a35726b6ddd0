-- ===== src/Cli/Shell/Directory.antt =====
-- What one line of the shell of fat32/src/main.rs may change.
use the_heap.Prelude.{
  ◌≡◌, ◌≢◌, refl, ap, sym, ◌∙◌, true, Option, none, some, List, [], ◌∷◌, ◌⊎◌, inl, inr, Sum-cases,
  Bool-cases, list_eq, eq_of_list_eq, arith,
}
use the_heap.Fat32.Error.{ok}
use the_heap.Fat32.Text.{Text, root_path, ascii}
use the_heap.Fat32.DirEntry.{DirEntry, is_dir}
use the_heap.Fat32.Volume.{Volume, Disk, new}
use the_heap.Fat32.Read.{open_path}
use the_heap.Fat32.Write.{write_file_by_path}
use the_heap.Fat32.Write.Effect.{Run, done, failed, panicked}
use the_heap.Cli.Path.{resolve_path}
use the_heap.Cli.Host.{HostFs, bytes_of}
use the_heap.Cli.Shell.{
  Session, Reply, go_on, leave, crash, verb_of, put_file, saved, written, put, run_line, shell_cd,
  shell_put, cd_target, ascii, list_eq,
}
use the_heap.Cli.Words.{trim, split_whitespace}
use the_heap.Cli.Shell.Rule.{run_line-rule, mounted-rule, enter-rule}

open_root : (v : Volume) → open_path v root_path ≡ ok none
unfolding open_path
open_root v = refl

not_root :
    (v : Volume) (path : Text) (e : DirEntry) → open_path v path ≡ ok (some e) → path ≢ root_path
not_root v path e found root =
    let q : ok none ≡ ok (some e) = sym (open_root v) ∙ ap (open_path v) (sym root) ∙ found in cc

module _ (h : HostFs) where
  open h use {World, IoError, read, write}

  -- The directory is that from before, or one that was found in the image and is not the root.
  abbrev pub Located : Session World → Text → Type 0
  Located s dir =
      (dir ≡ s.current_dir)
      ⊎ ((v : Volume) × (e : DirEntry) × (new s.image ≡ ok v)
          × (open_path v dir ≡ ok (some e))
          × (is_dir e ≡ true)
          × (dir ≢ root_path))

  abbrev pub Moved : Session World → Reply World IoError → Type 0
  Moved s (go_on t out) = Located s t.current_dir
  Moved s leave = Unit
  Moved s (crash t) = Unit

  -- The image and the host's files are those from before.
  abbrev pub ReadsOnly : Session World → Reply World IoError → Type 0
  ReadsOnly s (go_on t out) = (t.image ≡ s.image) × (t.world ≡ s.world)
  ReadsOnly s leave = Unit
  ReadsOnly s (crash t) = ⊥

  shell_cd-Moved : (s : Session World) (parts : List Text) → Moved s (shell_cd h parts s)
  unfolding shell_cd
  shell_cd-Moved s parts =
      mounted-rule h s (Moved s) (λ out. inl refl) _
        λ v q.
          enter-rule h s (Moved s) (λ out. inl refl) (cd_target h parts s) v
            λ e found dir. inr (v, e, q, found, dir, not_root v (cd_target h parts s) e found)

  saved-stays :
      (s : Session World) (img path src : Text) (d : Disk) (r : World × Option IoError)
      → Moved s (saved h img path src (record s { image = d }) r)
  saved-stays s img path src d (w, none) = inl refl
  saved-stays s img path src d (w, some e) = inl refl

  written-stays :
      (s : Session World) (img path src : Text) (r : Run (Unit {0}))
      → Moved s (written h img path src s r)
  unfolding written
  written-stays s img path src (done u v) =
      saved-stays s img path src v.disk (write s.world img v.disk)
  written-stays s img path src (failed e v) = inl refl
  written-stays s img path src (panicked v) = tt

  put-stays : (s : Session World) (img path src : Text) → Moved s (put h img path src s)
  unfolding put
  put-stays s img path src = elim (Sum-cases (read s.world src)) [
    | inl (e, q) ↦ rw (q, Moved, put) (inl refl)
    | inr (content, q) ↦
        rw (q, Moved, put)
          (mounted-rule h s (Moved s) (λ out. inl refl) _
            λ v m. written-stays s img path src (write_file_by_path path (bytes_of content) v))
  ]

  shell_put-stays :
      (s : Session World) (img : Text) (parts : List Text) → Moved s (shell_put h img parts s)
  unfolding shell_put
  shell_put-stays s img [] = inl refl
  shell_put-stays s img (p ∷ []) = inl refl
  shell_put-stays s img (p ∷ src ∷ ps) = put-stays s img (resolve_path s.current_dir p) src

  -- For every session and every line after which the shell goes on: the current directory is that
  -- from before, or it was opened as a directory of the image, and is not the root. So no line
  -- leads from another directory to the root.
  pub run_line-Moved : (img line : Text) (s : Session World) → Moved s (run_line h img line s)
  run_line-Moved img line s =
      run_line-rule h s (Moved s) (λ out. inl refl) tt (shell_cd-Moved s) img line
        (λ cmd parts e v. shell_put-stays s img parts)

  shell_cd-ReadsOnly : (s : Session World) (parts : List Text) → ReadsOnly s (shell_cd h parts s)
  unfolding shell_cd
  shell_cd-ReadsOnly s parts =
      mounted-rule h s (ReadsOnly s) (λ out. (refl, refl)) _
        λ v q.
          enter-rule h s (ReadsOnly s) (λ out. (refl, refl)) (cd_target h parts s) v
            (λ e found dir. (refl, refl))

  -- `put` is the only word that is taken for it.
  verb_of-put_file : (cmd : Text) → verb_of cmd ≡ put_file → cmd ≡ ascii "put"
  unfolding verb_of
  verb_of-put_file cmd v = elim (Bool-cases (list_eq cmd (ascii "put"))) [
    | inl same ↦ eq_of_list_eq cmd (ascii "put") same
    | inr differs ↦ ground (arith, differs, v)
  ]

  -- A line whose first word is not `put` does not crash the shell, and the image and the files of
  -- the host are those from before.
  pub run_line-ReadsOnly :
      (img line : Text) (s : Session World)
      → ((cmd : Text) (parts : List Text)
          → split_whitespace (trim line) ≡ cmd ∷ parts
          → cmd ≢ ascii "put")
      → ReadsOnly s (run_line h img line s)
  run_line-ReadsOnly img line s no_put =
      run_line-rule h s (ReadsOnly s) (λ out. (refl, refl)) tt (shell_cd-ReadsOnly s) img line
        (λ cmd parts e v. absurd (no_put cmd parts e (verb_of-put_file cmd v)))
