-- ===== src/Fat32/Write/Effect.antt =====
-- The runs of a method on `&mut self` that returns `Result<T, FatError>`: each ends with the
-- volume that it leaves. A panic (an index or a range out of bounds) has no value.

use the_heap.Fat32.Error.{FatError, Result, ok, err, panic}
use the_heap.Fat32.Volume.{Volume}
use the_heap.Prelude.{◌≡◌, refl}

pub data Run (A : Type 0) : Type 0 where
  done : A → Volume → Run A
  failed : FatError → Volume → Run A
  panicked : Volume → Run A

abbrev pub Cmd : Type 0 → Type 0
Cmd A = Volume → Run A

abbrev pub and_then : {A B : Type 0} → Run A → (A → Cmd B) → Run B
and_then (done a v) k = k a v
and_then (failed e v) k = failed e v
and_then (panicked v) k = panicked v

infixl 5 ◌>>=◌ ◌>>◌
abbrev pub ◌>>=◌ : {A B : Type 0} → Cmd A → (A → Cmd B) → Cmd B
◌>>=◌ m k v = and_then (m v) k

abbrev pub ◌>>◌ : {B : Type 0} → Cmd (Unit {0}) → Cmd B → Cmd B
m >> k = m >>= λ _. k

abbrev pub pure : {A : Type 0} → A → Cmd A
pure = done

abbrev pub fail : {A : Type 0} → FatError → Cmd A
fail e v = failed e v

-- A method on `&self`, with `?`.
abbrev pub after : {A : Type 0} → Result A → Cmd A
after (ok a) v = done a v
after (err e) v = failed e v
after panic v = panicked v

abbrev pub reading : {A : Type 0} → (Volume → Result A) → Cmd A
reading f v = after (f v) v

-- The volume that a run leaves.
abbrev pub left : {A : Type 0} → Run A → Volume
left (done a v) = v
left (failed e v) = v
left (panicked v) = v

-- Inversion of a sequence that was done.
pub and_then-done :
    {A B : Type 0} (r : Run A) (k : A → Cmd B) {b : B} {w : Volume}
    → and_then r k ≡ done b w
    → (a : A) × (u : Volume) × (r ≡ done a u) × (k a u ≡ done b w)
and_then-done (done a u) k h = (a, u, refl, h)
and_then-done (failed e u) k h = cc
and_then-done (panicked u) k h = cc

pub after-done :
    {A : Type 0} (r : Result A) (v : Volume) {a : A} {w : Volume}
    → after r v ≡ done a w
    → (r ≡ ok a) × (v ≡ w)
after-done (ok a) v h = (cc, cc)
after-done (err e) v h = cc
after-done panic v h = cc
