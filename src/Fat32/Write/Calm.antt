-- ===== src/Fat32/Write/Calm.antt =====
-- What no writing operation of fat32/src/lib.rs does, whether it succeeds or fails: panic, or
-- change the length of the buffer, the parameters, or the reserved sectors before the FATs. The
-- rules for sequences; the children take them through the operations.
pub mod Table
pub mod Directory
pub mod File
use the_heap.Prelude.{
  ℕ, ◌+◌, ltb, Bool-cases, inr, false, ◌≤◌, ◌<◌, ◌≡◌, refl, ◌∙◌, inl, arith, Bool, true, false,
  List, if◌then◌else◌,
}
use the_heap.Bytes.{copy_from_slice, Memory}
use the_heap.Bytes.Region.{copy_from_slice-outside}
use the_heap.Fat32.Error.{Result, ok, err, panic, NoPanic, FatError}
use the_heap.Fat32.Volume.{Volume, fat_start_byte}
use the_heap.Fat32.Write.{with_bytes, write_range}
use the_heap.Fat32.Write.Effect.{
  Run, done, failed, panicked, Cmd, and_then, ◌>>=◌, left, after, reading,
}

abbrev pub Keeps : Volume → Volume → Type 0
Keeps v w =
    (w.disk.len ≡ v.disk.len)
    × (w.bpb ≡ v.bpb)
    × ((a : ℕ) → a < fat_start_byte v.bpb → w.disk.byte a ≡ v.disk.byte a)

pub Keeps-refl : (v : Volume) → Keeps v v
Keeps-refl v = (refl, refl, λ a lt. refl)

pub Keeps-trans : (u v w : Volume) → Keeps u v → Keeps v w → Keeps u w
Keeps-trans u v w h k = (k.0 ∙ h.0, k.1 ∙ h.1, λ a lt. k.2 a (rw h.1 lt) ∙ h.2 a lt)

pub copy-Keeps :
    (v : Volume) (off : ℕ) (bytes : List ℕ)
    → fat_start_byte v.bpb ≤ off
    → Keeps v (with_bytes v (copy_from_slice v.disk.byte off bytes))
copy-Keeps v off bytes le =
    (refl, refl, λ a lt. copy_from_slice-outside v.disk.byte off bytes a (inl (omega arith)))

-- The run returned, with the volume kept.
abbrev pub Calm : {A : Type 0} → Volume → Run A → Type 0
Calm v (done a w) = Keeps v w
Calm v (failed e w) = Keeps v w
Calm v (panicked w) = ⊥

abbrev pub IsCalm : {A : Type 0} → Cmd A → Type 0
IsCalm m = (v : Volume) → Calm v (m v)

pub Calm-from : {A : Type 0} (u v : Volume) (r : Run A) → Keeps u v → Calm v r → Calm u r
Calm-from u v (done a w) h c = Keeps-trans u v w h c
Calm-from u v (failed e w) h c = Keeps-trans u v w h c
Calm-from u v (panicked w) h c = c

pub and_then-Calm :
    {A B : Type 0} (v : Volume) (r : Run A) (k : A → Cmd B)
    → Calm v r
    → ((a : A) (w : Volume) → r ≡ done a w → Keeps v w → Calm w (k a w))
    → Calm v (and_then r k)
and_then-Calm v (done a w) k h step = Calm-from v w (k a w) h (step a w refl h)
and_then-Calm v (failed e w) k h step = h
and_then-Calm v (panicked w) k h step = h

pub >>=-IsCalm :
    {A B : Type 0} (m : Cmd A) (k : A → Cmd B)
    → IsCalm m
    → ((a : A) → IsCalm (k a))
    → IsCalm (m >>= k)
>>=-IsCalm m k h step v = and_then-Calm v (m v) k (h v) (λ a w e keeps. step a w)

pub after-Calm : {A : Type 0} (v : Volume) (r : Result A) → NoPanic r → Calm v (after r v)
after-Calm v (ok a) safe = Keeps-refl v
after-Calm v (err e) safe = Keeps-refl v
after-Calm v panic safe = safe

after_then-Calm :
    {A B : Type 0} (v : Volume) (r : Result A) (k : A → Cmd B)
    → NoPanic r
    → ((a : A) → r ≡ ok a → Calm v (k a v))
    → Calm v (and_then (after r v) k)
after_then-Calm v (ok a) k safe step = step a refl
after_then-Calm v (err e) k safe step = Keeps-refl v
after_then-Calm v panic k safe step = safe

-- What was read may be used.
pub reading-Calm :
    {A B : Type 0} (f : Volume → Result A) (k : A → Cmd B) (v : Volume)
    → NoPanic (f v)
    → ((a : A) → f v ≡ ok a → Calm v (k a v))
    → Calm v ((reading f >>= k) v)
reading-Calm f k v safe step = after_then-Calm v (f v) k safe step

pub if-IsCalm :
    {A : Type 0} (b : Bool) (m k : Cmd A) → IsCalm m → IsCalm k → IsCalm (if b then m else k)
if-IsCalm true m k h g = h
if-IsCalm false m k h g = g

pub if-Calm :
    {A : Type 0} (v : Volume) (b : Bool) (x y : Run A)
    → Calm v x
    → Calm v y
    → Calm v (if b then x else y)
if-Calm v true x y h k = h
if-Calm v false x y h k = k

-- Behind the test that the range lies in the buffer.
pub guard-Calm :
    {A : Type 0} (v : Volume) (off n : ℕ) (e : FatError) (r : Run A)
    → (off + n ≤ v.disk.len → Calm v r)
    → Calm v (if ltb v.disk.len (off + n) then failed e v else r)
guard-Calm v off n e r h = elim (Bool-cases (ltb v.disk.len (off + n))) [
  | inl short ↦ rw short (Keeps-refl v)
  | inr long ↦ rw long (h (ground arith))
]

-- A write inside the buffer does not panic.
pub write_range-Calm :
    (off n : ℕ) (f : Memory → Memory) (v : Volume)
    → off + n ≤ v.disk.len
    → Keeps v (with_bytes v (f v.disk.byte))
    → Calm v (write_range off n f v)
unfolding write_range
write_range-Calm off n f v le kept =
    let inside : ltb v.disk.len (off + n) ≡ false = ground arith in rw inside kept
