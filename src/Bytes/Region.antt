-- ===== src/Bytes/Region.antt =====
-- Reads behind writes.
use the_heap.Prelude.{
  ℕ, zero, suc, ◌+◌, ◌-◌, ◌<◌, ◌≤◌, ◌≡◌, refl, ap, ◌⊎◌, inl, inr, ◌∙◌, List, [], ◌∷◌, arith, length,
  get_or, All,
}
use the_heap.Bytes.{Memory, IsBytes, copy_from_slice, fill, slice}

pub length-slice : (m : Memory) (off n : ℕ) → length (slice m off n) ≡ n
unfolding slice
length-slice m off zero = refl
length-slice m off (suc n) = omega (arith, length-slice m (off + 1) n)

pub slice-lt : (m : Memory) (off n : ℕ) → IsBytes m → All (λ b. b < 256) (slice m off n)
unfolding slice
slice-lt m off zero h = tt
slice-lt m off (suc n) h = (h off, slice-lt m (off + 1) n h)

-- A slice depends on its own bytes.
pub slice_ext :
    (m k : Memory) (off n : ℕ)
    → ((a : ℕ) → off ≤ a → a < off + n → m a ≡ k a)
    → slice m off n ≡ slice k off n
unfolding slice
slice_ext m k off zero h = refl
slice_ext m k off (suc n) h = cc (
  h off (omega arith) (omega arith),
  slice_ext m k (off + 1) n λ a lo hi. h a (omega arith) (omega arith),
)

pub get_or-slice : (m : Memory) (off n i : ℕ) → i < n → get_or (slice m off n) i 0 ≡ m (off + i)
unfolding slice
get_or-slice m off zero i h = absurd (omega arith)
get_or-slice m off (suc n) zero h = ap m (omega arith)
get_or-slice m off (suc n) (suc i) h =
    get_or-slice m (off + 1) n i (omega arith) ∙ ap m (omega arith)

-- A slice is the list that its bytes spell.
pub slice-eq :
    (m : Memory) (off : ℕ) (xs : List ℕ)
    → ((i : ℕ) → i < length xs → m (off + i) ≡ get_or xs i 0)
    → slice m off (length xs) ≡ xs
unfolding slice
slice-eq m off [] h = refl
slice-eq m off (x ∷ xs) h =
    let first : m off ≡ x = ap m (omega arith) ∙ h 0 (omega arith) in
    let rest = slice-eq m (off + 1) xs λ i lt. ap m (omega arith) ∙ h (suc i) (omega arith) in cc

pub slice-copy_from_slice :
    (m : Memory) (off : ℕ) (src : List ℕ) → slice (copy_from_slice m off src) off (length src) ≡ src
unfolding copy_from_slice
slice-copy_from_slice m off src =
    slice-eq _ off src
      λ i lt. let e : off + i - off ≡ i = omega arith in ground (arith, ap (λ t. get_or src t 0) e)

-- Elsewhere a write changes nothing.
pub copy_from_slice-outside :
    (m : Memory) (off : ℕ) (src : List ℕ) (a : ℕ)
    → (a < off) ⊎ (off + length src ≤ a)
    → copy_from_slice m off src a ≡ m a
unfolding copy_from_slice
copy_from_slice-outside m off src a h = ground arith

pub slice-copy_from_slice_apart :
    (m : Memory) (off : ℕ) (src : List ℕ) (off' n : ℕ)
    → (off' + n ≤ off) ⊎ (off + length src ≤ off')
    → slice (copy_from_slice m off src) off' n ≡ slice m off' n
slice-copy_from_slice_apart m off src off' n h = slice_ext _ _ off' n λ a lo hi.
    copy_from_slice-outside m off src a
      (elim h [ inl l ↦ inl (omega arith) | inr r ↦ inr (omega arith) ])

pub fill-outside : (m : Memory) (off n v a : ℕ) → (a < off) ⊎ (off + n ≤ a) → fill m off n v a ≡ m a
unfolding fill
fill-outside m off n v a h = ground arith

get_or-lt : (xs : List ℕ) (i : ℕ) → All (λ b. b < 256) xs → get_or xs i 0 < 256
get_or-lt [] i h = omega arith
get_or-lt (x ∷ xs) zero h = h.0
get_or-lt (x ∷ xs) (suc i) h = get_or-lt xs i h.1

pub copy_from_slice-IsBytes :
    (m : Memory) (off : ℕ) (src : List ℕ)
    → IsBytes m
    → All (λ b. b < 256) src
    → IsBytes (copy_from_slice m off src)
unfolding copy_from_slice
copy_from_slice-IsBytes m off src hm hs a = ground (arith, hm a, get_or-lt src (a - off) hs)

pub fill-IsBytes : (m : Memory) (off n v : ℕ) → IsBytes m → v < 256 → IsBytes (fill m off n v)
unfolding fill
fill-IsBytes m off n v hm hv a = ground (arith, hm a)
