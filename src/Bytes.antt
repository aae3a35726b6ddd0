-- ===== src/Bytes.antt =====
-- Raw bytes behind an address, and the little-endian integers read from and written to them:
-- the buffer of fat32/src/lib.rs and the heap region of slaballoc/src/allocator.rs. A region is a
-- function from an address to a byte; bounds are the caller's.
pub mod Codec
pub mod Region
use the_heap.Prelude.{
  ℕ, zero, suc, ◌+◌, ◌-◌, ◌*◌, ◌/◌, ◌%◌, ◌<◌, Bool, ◌&&◌, List, [], ◌∷◌, ltb, leb, if◌then◌else◌,
  length, get_or,
}

abbrev pub Memory : Type 0
Memory = ℕ → ℕ

-- Every byte is a `u8`.
abbrev pub IsBytes : Memory → Type 0
IsBytes m = (a : ℕ) → m a < 256

abbrev pub inside : ℕ → ℕ → ℕ → Bool
inside off n a = leb off a && ltb a (off + n)

-- `dst[off..off + src.len()].copy_from_slice(src)`.
unfoldable pub copy_from_slice : Memory → ℕ → List ℕ → Memory
copy_from_slice m off src a = if inside off (length src) a then get_or src (a - off) 0 else m a

-- `n` copies of one byte.
unfoldable pub fill : Memory → ℕ → ℕ → ℕ → Memory
fill m off n v a = if inside off n a then v else m a

-- `src[off..off + n]`.
unfoldable pub slice : Memory → ℕ → ℕ → List ℕ
slice m off zero = []
slice m off (suc n) = m off ∷ slice m (off + 1) n

-- `uN::from_le_bytes`, on the bytes in order.
unfoldable pub from_le_bytes : List ℕ → ℕ
from_le_bytes [] = 0
from_le_bytes (b ∷ bs) = b + 256 * from_le_bytes bs

-- `uN::to_le_bytes`, for an integer of `n` bytes.
unfoldable pub to_le_bytes : ℕ → ℕ → List ℕ
to_le_bytes zero v = []
to_le_bytes (suc n) v = v % 256 ∷ to_le_bytes n (v / 256)
