-- ===== src/Cli/Shell/Safe.antt =====
-- The shell of fat32/src/main.rs on any input: no panic, and an image that stays what it was.
use the_heap.Prelude.{
  ℕ, ◌≡◌, ◌≤◌, refl, sym, ap, ◌∙◌, Option, none, some, List, [], ◌∷◌, inl, inr, Sum-cases,
}
use the_heap.Fat32.Error.{ok_inj, ok}
use the_heap.Fat32.Text.{Text}
use the_heap.Fat32.Volume.{Disk, Volume, new, fat_start_byte}
use the_heap.Fat32.Volume.Accept.{fields-new}
use the_heap.Fat32.Write.{write_file_by_path}
use the_heap.Fat32.Write.Calm.File.{Readable, write_file_by_path-Readable}
use the_heap.Cli.Path.{resolve_path}
use the_heap.Cli.Path.Canonical.{root-IsCanonical, IsCanonical, resolve_path-IsCanonical}
use the_heap.Cli.Shell.Rule.{mounted-rule, enter-rule}
use the_heap.Cli.Host.{HostFs, bytes_of}
use the_heap.Cli.Shell.{
  Session, Reply, go_on, leave, crash, saved, written, put, shell_cd, shell_put, cd_target,
}
use mathlib.Core.Path.{subst}

-- If the image mounts, its FATs do not reach into the first 512 bytes.
abbrev pub IsRoomy : Disk → Type 0
IsRoomy d = (v : Volume) → new d ≡ ok v → 512 ≤ fat_start_byte v.bpb

-- The length is as before, and an image that mounted mounts with the same parameters.
pub record Kept (d e : Disk) : Type 0 where
  pub len : e.len ≡ d.len
  pub mounts : (v : Volume) → new d ≡ ok v → (w : Volume) × (new e ≡ ok w) × (w.bpb ≡ v.bpb)
  pub roomy : IsRoomy e

pub Kept-refl : (d : Disk) → IsRoomy d → Kept d d
Kept-refl d h = record { len = refl; mounts = λ v e. (v, e, refl); roomy = h }

pub Kept-trans : {d e f : Disk} → Kept d e → Kept e f → Kept d f
Kept-trans a b = record {
  len = b.len ∙ a.len;
  mounts = λ v h. let (w, e, p) = a.mounts v h in let (u, f, q) = b.mounts w e in (u, f, q ∙ p);
  roomy = b.roomy;
}

Readable-Kept : (d : Disk) (v w : Volume) → IsRoomy d → new d ≡ ok v → Readable v w → Kept d w.disk
Readable-Kept d v w room e r = record {
  len = r.len ∙ ap (λ x. x.len) (fields-new d v e).0;
  mounts = λ u h.
      let same : v ≡ u = ok_inj (sym e ∙ h) in
      (w, r.mounts, r.bpb ∙ ap (λ (x : Volume). x.bpb) same);
  roomy = λ u h.
      let same : w ≡ u = ok_inj (sym r.mounts ∙ h) in
      subst (λ (x : Volume). 512 ≤ fat_start_byte x.bpb) same
        (subst (λ x. 512 ≤ fat_start_byte x) (sym r.bpb) (room v e));
}

module _ (h : HostFs) where
  open h use {World, IoError, read, write}

  -- From a session to where a command leaves it.
  abbrev pub Good : Session World → Reply World IoError → Type 0
  Good s (go_on t out) = Kept s.image t.image × IsCanonical t.current_dir
  Good s leave = Unit
  Good s (crash t) = ⊥

  module _ (s : Session World) (room : IsRoomy s.image) (at : IsCanonical s.current_dir) where
    pub stay : Kept s.image s.image × IsCanonical s.current_dir
    stay = (Kept-refl s.image room, at)

    cd_target-IsCanonical : (parts : List Text) → IsCanonical (cd_target h parts s)
    cd_target-IsCanonical [] = root-IsCanonical
    cd_target-IsCanonical (p ∷ ps) = resolve_path-IsCanonical s.current_dir p

    pub shell_cd-Good : (parts : List Text) → Good s (shell_cd h parts s)
    unfolding shell_cd
    shell_cd-Good parts =
        mounted-rule h s (Good s) (λ out. stay) _
          λ v q.
            enter-rule h s (Good s) (λ out. stay) (cd_target h parts s) v
              (λ e found dir. (Kept-refl s.image room, cd_target-IsCanonical parts))

    saved-Good :
        (img path src : Text) (d : Disk) (r : World × Option IoError)
        → Kept s.image d
        → Good s (saved h img path src (record s { image = d }) r)
    saved-Good img path src d (w, none) k = (k, at)
    saved-Good img path src d (w, some e) k = (k, at)

    written-Good :
        (img path src : Text) (content : List ℕ) (v : Volume)
        → new s.image ≡ ok v
        → Good s (written h img path src s (write_file_by_path path content v))
    unfolding written
    written-Good img path src content v q =
        elim (write_file_by_path-Readable s.image v path content q (room v q)) [
          | inl (w, e, r) ↦ rw e (
              saved-Good img path src w.disk (write s.world img w.disk)
                (Readable-Kept s.image v w room q r))
          | inr (e, w, f, r) ↦ rw f (Readable-Kept s.image v w room q r, at)
        ]

    pub put-Good : (img path src : Text) → Good s (put h img path src s)
    unfolding put
    put-Good img path src = elim (Sum-cases (read s.world src)) [
      | inl (e, q) ↦ rw (q, Good, put) stay
      | inr (content, q) ↦
          rw (q, Good, put)
            (mounted-rule h s (Good s) (λ out. stay) _
              (λ v m. written-Good img path src (bytes_of content) v m))
    ]

    pub shell_put-Good : (img : Text) (parts : List Text) → Good s (shell_put h img parts s)
    unfolding shell_put
    shell_put-Good img [] = stay
    shell_put-Good img (p ∷ []) = stay
    shell_put-Good img (p ∷ src ∷ ps) = put-Good img (resolve_path s.current_dir p) src
