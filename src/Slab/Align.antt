-- ===== src/Slab/Align.antt =====
-- slaballoc/src/util.rs. A `usize` is a number below `2 ^ 64`; sums and differences wrap, as in a
-- release build.
pub mod Rounding
pub mod Powers
use the_heap.Prelude.{ℕ, ◌+◌, ◌-◌, ◌%◌, ◌^◌, Bool, ◌&&◌, not, bit_and, ◌==◌}

abbrev pub usize_mod : ℕ
usize_mod = 2 ^ 64

-- `x - 1` on a `usize`.
abbrev pub wrapping_pred : ℕ → ℕ
wrapping_pred x = (x + (2 ^ 64 - 1)) % 2 ^ 64

-- `!x` on a `usize`.
abbrev pub complement : ℕ → ℕ
complement x = 2 ^ 64 - 1 - x

unfoldable pub align_up : ℕ → ℕ → ℕ
align_up x align = bit_and (wrapping_pred ((x + align) % 2 ^ 64)) (complement (wrapping_pred align))

unfoldable pub is_power_of_two : ℕ → Bool
is_power_of_two x = not (x == 0) && (bit_and x (wrapping_pred x) == 0)
