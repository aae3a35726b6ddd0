-- ===== src/Bytes/Codec.antt =====
-- Little-endian integers: the two directions are inverse.
use the_heap.Prelude.{
  ℕ, zero, suc, ◌+◌, ◌*◌, ◌/◌, ◌%◌, ◌^◌, ◌<◌, ◌≡◌, refl, List, [], ◌∷◌, arith, length, All,
}
use native.Mathlib.Nat.{pow-suc}
use the_heap.Bytes.{from_le_bytes, to_le_bytes}

pub length-to_le_bytes : (n v : ℕ) → length (to_le_bytes n v) ≡ n
unfolding to_le_bytes
length-to_le_bytes zero v = refl
length-to_le_bytes (suc n) v = omega (arith, length-to_le_bytes n (v / 256))

pub to_le_bytes-lt : (n v : ℕ) → All (λ b. b < 256) (to_le_bytes n v)
unfolding to_le_bytes
to_le_bytes-lt zero v = tt
to_le_bytes-lt (suc n) v = (omega arith, to_le_bytes-lt n (v / 256))

-- An integer that fits its bytes is read back.
pub from_le_bytes-to_le_bytes : (n v : ℕ) → v < 256 ^ n → from_le_bytes (to_le_bytes n v) ≡ v
unfolding from_le_bytes to_le_bytes
from_le_bytes-to_le_bytes zero v h = omega arith
from_le_bytes-to_le_bytes (suc n) v h =
    omega (arith, from_le_bytes-to_le_bytes n (v / 256) (omega (arith, pow-suc 256 n)))

-- Bytes are written back as they were read.
pub to_le_bytes-from_le_bytes :
    (bs : List ℕ) → All (λ b. b < 256) bs → to_le_bytes (length bs) (from_le_bytes bs) ≡ bs
unfolding from_le_bytes to_le_bytes
to_le_bytes-from_le_bytes [] h = refl
to_le_bytes-from_le_bytes (b ∷ bs) h =
    let rest = from_le_bytes bs in
    let low : (b + 256 * rest) % 256 ≡ b = omega arith in
    let high : (b + 256 * rest) / 256 ≡ rest = omega arith in
    rw (low, high, to_le_bytes-from_le_bytes bs h.1)

pub from_le_bytes-lt : (bs : List ℕ) → All (λ b. b < 256) bs → from_le_bytes bs < 256 ^ length bs
unfolding from_le_bytes
from_le_bytes-lt [] h = omega arith
from_le_bytes-lt (b ∷ bs) h = omega (arith, from_le_bytes-lt bs h.1, pow-suc 256 (length bs))
