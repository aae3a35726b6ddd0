-- ===== src/Cli/Shell/Saved.antt =====
-- What `put` of fat32/src/main.rs has written where it reports success.
use the_heap.Prelude.{◌≡◌, refl, Option, none, some, [], ◌∷◌, inl, inr, Sum-cases}
use the_heap.Fat32.Error.{Result-cases, ok}
use the_heap.Fat32.Text.{Text}
use the_heap.Fat32.Volume.{Volume, Disk, new}
use the_heap.Fat32.Write.{write_file_by_path}
use the_heap.Fat32.Write.Effect.{Run, done, failed, panicked}
use the_heap.Cli.Host.{HostFs, bytes_of, put_ok}
use the_heap.Fat32.Volume.Safe.{new-NoPanic}
use the_heap.Cli.Shell.{Session, Reply, go_on, leave, crash, mounted, saved, written, put}
use mathlib.Core.Path.{subst}

-- A file that was written reads back. What the host promises, and the only thing used of it.
abbrev pub KeepsFiles : HostFs → Type 0
KeepsFiles h =
    (w : h.World) (path : Text) (d : Disk) (u : h.World)
    → h.write w path d ≡ (u, none)
    → h.read u path ≡ inr d

module _ (h : HostFs) (keeps : KeepsFiles h) where
  open h use {World, IoError, read, write}

  -- The source was read, the image opened and the file stored in it, and what is in memory stands
  -- in the image's file too.
  pub record SavedAs (img path src : Text) (s t : Session World) : Type 0 where
    pub content : Disk
    pub volume : Volume
    pub after : Volume
    pub source : read s.world src ≡ inr content
    pub opened : new s.image ≡ ok volume
    pub stored : write_file_by_path path (bytes_of content) volume ≡ done tt after
    pub image : t.image ≡ after.disk
    pub file : read t.world img ≡ inr t.image

  -- Whether the output is the report of success.
  abbrev pub Reported : Session World → Text → Text → Text → Reply World IoError → Type 0
  Reported s img path src (go_on t (put_ok a b ∷ [])) = SavedAs img path src s t
  Reported s img path src (go_on t out) = Unit
  Reported s img path src leave = Unit
  Reported s img path src (crash t) = Unit

  saved-Reported :
      (s : Session World) (img path src : Text) (content : Disk) (v w : Volume)
      → read s.world src ≡ inr content
      → new s.image ≡ ok v
      → write_file_by_path path (bytes_of content) v ≡ done tt w
      → (r : World × Option IoError) → write s.world img w.disk ≡ r
      → Reported s img path src (saved h img path src (record s { image = w.disk }) r)
  saved-Reported s img path src content v w source opened stored (u, some e) q = tt
  saved-Reported s img path src content v w source opened stored (u, none) q = record {
    content = content;
    volume = v;
    after = w;
    source = source;
    opened = opened;
    stored = stored;
    image = refl;
    file = keeps s.world img w.disk u q;
  }

  written-Reported :
      (s : Session World) (img path src : Text) (content : Disk) (v : Volume)
      → read s.world src ≡ inr content
      → new s.image ≡ ok v
      → (r : Run (Unit {0})) → write_file_by_path path (bytes_of content) v ≡ r
      → Reported s img path src (written h img path src s r)
  unfolding written
  written-Reported s img path src content v source opened (done tt w) q =
      saved-Reported s img path src content v w source opened q (write s.world img w.disk) refl
  written-Reported s img path src content v source opened (failed e w) q = tt
  written-Reported s img path src content v source opened (panicked w) q = tt

  put-Reported :
      (s : Session World) (img path src : Text) → Reported s img path src (put h img path src s)
  unfolding put
  put-Reported s img path src = elim (Sum-cases (read s.world src)) [
    | inl (e, q) ↦ rw (q, Reported, put) tt
    | inr (content, q) ↦ elim (Result-cases (new s.image) (new-NoPanic s.image)) [
      | inl (e, m) ↦ rw (q, Reported, put, m, mounted) tt
      | inr (v, m) ↦
          rw (q, Reported, put, m, mounted)
            (written-Reported s img path src content v q m
              (write_file_by_path path (bytes_of content) v) refl)
    ]
  ]

  -- On a host whose files read back as they were written: where `put` reports success, the source
  -- had been read, the image opened and `write_file_by_path` done with the bytes of the source,
  -- and the file of the image now reads as the image that this left.
  pub put-SavedAs :
      (s t : Session World) (img path src a b : Text)
      → put h img path src s ≡ go_on t (put_ok a b ∷ [])
      → SavedAs img path src s t
  put-SavedAs s t img path src a b e =
      subst (Reported s img path src) e (put-Reported s img path src)
