-- ===== src/Cli/Shell/Loop.antt =====
-- The loop of the shell of fat32/src/main.rs on any input.
use the_heap.Prelude.{◌≡◌, refl, List, [], ◌∷◌, ◌++◌, is_empty, Bool-cases, inl, inr}
use the_heap.Fat32.Text.{Text}
use the_heap.Cli.Path.Canonical.{IsCanonical}
use the_heap.Cli.Host.{HostFs, Output, prompt}
use the_heap.Cli.Shell.{
  Session, Reply, go_on, leave, crash, Ran, ended, crashed, prepend, run_line, shell_loop,
}
use the_heap.Cli.Shell.Rule.{run_line-rule}
use the_heap.Cli.Shell.Safe.{
  IsRoomy, Kept, Kept-refl, Kept-trans, Good, stay, shell_cd-Good, shell_put-Good,
}

module _ (h : HostFs) where
  open h use {World, IoError}

  run_line-Good :
      (s : Session World)
      → IsRoomy s.image
      → IsCanonical s.current_dir
      → (img line : Text) → Good h s (run_line h img line s)
  run_line-Good s room at img line =
      run_line-rule h s (Good h s) (λ out. stay h s room at) tt (shell_cd-Good h s room at) img line
        (λ cmd parts e p. shell_put-Good h s room at img parts)

  -- How a loop that started from `s` ends.
  abbrev pub EndsWell : Session World → Ran World IoError → Type 0
  EndsWell s r =
      (t : Session World) × (out : List (Output IoError)) × (r ≡ ended t out)
      × Kept s.image t.image
      × IsCanonical t.current_dir

  prepend-EndsWell :
      (s t : Session World) (out : List (Output IoError)) (r : Ran World IoError)
      → Kept s.image t.image
      → EndsWell t r
      → EndsWell s (prepend out r)
  prepend-EndsWell s t out r k (u, more, e, l, c) = (u, out ++ more, rw e refl, Kept-trans k l, c)

  step-EndsWell :
      (s : Session World) (reply : Reply World IoError)
      → IsRoomy s.image
      → IsCanonical s.current_dir
      → Good h s reply
      → (again : Session World → Ran World IoError)
      → ((t : Session World) → IsRoomy t.image → IsCanonical t.current_dir → EndsWell t (again t))
      → EndsWell s (elim reply [
        | go_on t out ↦ prepend (prompt s.current_dir ∷ out) (again t)
        | leave ↦ ended s (prompt s.current_dir ∷ [])
        | crash t ↦ crashed t (prompt s.current_dir ∷ [])
      ])
  step-EndsWell s (go_on t out) room at (k, c) again ih =
      prepend-EndsWell s t (prompt s.current_dir ∷ out) (again t) k (ih t k.roomy c)
  step-EndsWell s leave room at g again ih = (s, _, refl, Kept-refl s.image room, at)
  step-EndsWell s (crash t) room at g again ih = absurd g

  -- Whatever lines are typed and whatever the files of the host hold, from a canonical directory
  -- on an image whose FATs, if it mounts, do not reach into the first 512 bytes: the loop ends,
  -- with no panic; the current directory is canonical; the image has the length from before,
  -- and mounts with the parameters from before, if it did.
  pub shell_loop-EndsWell :
      (img : Text) (lines : List Text) (s : Session World)
      → IsRoomy s.image
      → IsCanonical s.current_dir
      → EndsWell s (shell_loop h img lines s)
  unfolding shell_loop
  shell_loop-EndsWell img [] s room at = (s, _, refl, Kept-refl s.image room, at)
  shell_loop-EndsWell img (line ∷ lines) s room at = elim (Bool-cases (is_empty line)) [
    | inl end ↦ rw end (s, _, refl, Kept-refl s.image room, at)
    | inr more ↦ rw more (
        step-EndsWell s (run_line h img line s) room at (run_line-Good s room at img line)
          (shell_loop h img lines) (shell_loop-EndsWell img lines))
  ]
