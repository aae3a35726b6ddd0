-- ===== src/Cli/Main/Exits.antt =====
-- `main` of fat32/src/main.rs on any arguments and any input.
use the_heap.Prelude.{
  ap, ◌∙◌, ◌≡◌, refl, Option, none, some, List, [], ◌∷◌, inl, inr, Sum-cases, arith, length, suc,
}
use the_heap.Fat32.Error.{Result-cases}
use the_heap.Fat32.Text.{Text, root_path}
use the_heap.Fat32.Volume.{Volume, Disk, new}
use the_heap.Cli.Path.Canonical.{root-IsCanonical}
use the_heap.Cli.Host.{HostFs, Output, banner}
use the_heap.Cli.Arguments.{Command, Parsed, parsed, unknown, no_arguments}
use the_heap.Cli.Arguments.Total.{parse_args-total}
use the_heap.Cli.Shell.{prepend, Session, Reply, go_on, leave, crash, Ran, run_shell}
use the_heap.Fat32.Volume.Safe.{new-NoPanic}
use the_heap.Cli.Path.{resolve_path}
use the_heap.Cli.Shell.Rule.{run_ls-prints, run_cat-prints}
use the_heap.Cli.Shell.Safe.{IsRoomy, Good, put-Good}
use the_heap.Cli.Shell.Loop.{EndsWell, shell_loop-EndsWell}
use the_heap.Cli.Main.{
  Exit, returned, panic, exit_of, exit_of_reply, exit_printed, with_volume, main_ls, main_cat,
  main_put, dispatch, open_image, after_parsing, main,
}

module _ (h : HostFs) where
  open h use {World, IoError, read}

  abbrev Returns : Exit World IoError → Type 0
  Returns (returned w out) = Unit
  Returns (panic w out) = ⊥

  with_volume-Returns :
      (w : World) (d : Disk) (body : Volume → Option (List (Output IoError)))
      → ((v : Volume) → (out : List (Output IoError)) × (body v ≡ some out))
      → Returns (with_volume h w d body)
  with_volume-Returns w d body prints = elim (Result-cases (new d) (new-NoPanic d)) [
    | inl (e, q) ↦ rw (q, Returns, with_volume) tt
    | inr (v, q) ↦ let (out, e) = prints v in rw (q, Returns, with_volume, e, exit_printed) tt
  ]

  reply-Returns :
      (w : World) (s : Session World) (r : Reply World IoError)
      → Good h s r
      → Returns (exit_of_reply w r)
  reply-Returns w s (go_on t out) g = tt
  reply-Returns w s leave g = tt
  reply-Returns w s (crash t) g = g

  shell-Returns :
      (s : Session World) (r : Ran World IoError) (out : List (Output IoError))
      → EndsWell h s r
      → Returns (exit_of (prepend out r))
  shell-Returns s r out (t, more, e, k, c) = rw e tt

  main_put-Returns :
      (img : Text) (a b : Option Text) (w : World) (d : Disk)
      → IsRoomy d
      → Returns (main_put h img a b w d)
  unfolding main_put
  main_put-Returns img none b w d room = tt
  main_put-Returns img (some p) none w d room = tt
  main_put-Returns img (some p) (some src) w d room =
      let s : Session World = record { current_dir = root_path; image = d; world = w } in
      reply-Returns w s _ (put-Good h s room root-IsCanonical img p src)

  dispatch-Returns :
      (img : Text) (d : Disk) (lines : List Text) (w : World)
      → IsRoomy d
      → (c : Option Command) (a b : Option Text) → Returns (dispatch h img d lines w c a b)
  unfolding dispatch main_ls main_cat run_shell
  dispatch-Returns img d lines w room none a b =
      let s : Session World = record { current_dir = root_path; image = d; world = w } in
      shell-Returns s _ (banner ∷ []) (shell_loop-EndsWell h img lines s room root-IsCanonical)
  dispatch-Returns img d lines w room (some Command.ls) none b =
      with_volume-Returns w d _ (λ v. run_ls-prints v root_path)
  dispatch-Returns img d lines w room (some Command.ls) (some p) b =
      with_volume-Returns w d _ (λ v. run_ls-prints v (resolve_path root_path p))
  dispatch-Returns img d lines w room (some Command.cat) none b =
      with_volume-Returns w d _ (λ v. (_, refl))
  dispatch-Returns img d lines w room (some Command.cat) (some p) b =
      with_volume-Returns w d _ (λ v. run_cat-prints v (resolve_path root_path p))
  dispatch-Returns img d lines w room (some Command.put) a b = main_put-Returns img a b w d room

  -- The images among the host's files: the FATs of each, if it mounts, do not reach into its first
  -- 512 bytes.
  abbrev pub AreRoomy : World → Type 0
  AreRoomy w = (path : Text) (d : Disk) → read w path ≡ inr d → IsRoomy d

  image-Returns :
      (lines : List Text) (w : World)
      → AreRoomy w
      → (c : Option Command) (a b : Option Text) (file : Option Text)
      → Returns (open_image h lines w c a b file)
  image-Returns lines w room c a b none = tt
  image-Returns lines w room c a b (some img) = elim (Sum-cases (read w img)) [
    | inl (e, q) ↦ rw (q, Returns, open_image) tt
    | inr (d, q) ↦ rw (q, Returns, open_image) (dispatch-Returns img d lines w (room img d q) c a b)
  ]

  after_parsing-Returns :
      (lines : List Text) (w : World)
      → AreRoomy w
      → (p : Parsed) → Returns (after_parsing h lines w p)
  after_parsing-Returns lines w room (unknown x) = tt
  after_parsing-Returns lines w room (parsed a) =
      image-Returns lines w room a.command a.target_a a.target_b a.dump_path

  Returns-returned :
      (x : Exit World IoError)
      → Returns x
      → (u : World) × (out : List (Output IoError)) × (x ≡ returned u out)
  Returns-returned (returned u out) r = (u, out, refl)
  Returns-returned (panic u out) r = absurd r

  -- For all arguments, all lines of input and all files of the host, where the FATs of an image
  -- that mounts do not reach into its first 512 bytes: `main` returns, with no panic of a range of
  -- the image, of an index into a chain or of an `unwrap`.
  pub main-returned :
      (args lines : List Text) (w : World)
      → AreRoomy w
      → (u : World) × (out : List (Output IoError)) × (main h args lines w ≡ some (returned u out))
  unfolding main
  main-returned args lines w room =
      let (p, e) = parse_args-total (suc (length args)) args no_arguments (omega arith) in
      let (u, out, q) = Returns-returned _ (after_parsing-Returns lines w room p) in
      let run : main h args lines w ≡ some (after_parsing h lines w p) = rw (e, main) refl in
      (u, out, run ∙ ap some q)
