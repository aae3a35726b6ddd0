-- ===== src/Kernel/Vga/Color.antt =====
-- The colours of kernel/src/vga.rs.
use Prim.Native.Nat.{bit_or}
use the_heap.Prelude.{
  ℕ, zero, suc, ◌*◌, ◌/◌, ◌%◌, ◌<◌, ◌≡◌, refl, arith, Bool, true, ◌&&◌, bit_and, ◌==◌,
}
use the_heap.Kernel.Vga.{Screen}

pub data Color : Type 0 where
  black : Color
  blue : Color
  green : Color
  cyan : Color
  red : Color
  magenta : Color
  brown : Color
  light_gray : Color
  dark_gray : Color
  light_blue : Color
  light_green : Color
  light_cyan : Color
  light_red : Color
  pink : Color
  yellow : Color
  white : Color

-- `color as u8`.
abbrev pub as_u8 : Color → ℕ
as_u8 black = 0x00
as_u8 blue = 0x01
as_u8 green = 0x02
as_u8 cyan = 0x03
as_u8 red = 0x04
as_u8 magenta = 0x05
as_u8 brown = 0x06
as_u8 light_gray = 0x07
as_u8 dark_gray = 0x08
as_u8 light_blue = 0x09
as_u8 light_green = 0x0A
as_u8 light_cyan = 0x0B
as_u8 light_red = 0x0C
as_u8 pink = 0x0D
as_u8 yellow = 0x0E
as_u8 white = 0x0F

-- `((bg & 0x0F) << 4) | (fg & 0x0F)`, in a byte.
abbrev pub attribute : ℕ → ℕ → ℕ
attribute fg bg = bit_or (bit_and bg 0x0F * 16 % 256) (bit_and fg 0x0F)

unfoldable pub vga_set_color : ℕ → ℕ → Screen → Screen
vga_set_color fg bg s = record s { writer = record (s.writer) { attr = attribute fg bg } }

unfoldable pub vga_set_colors : Color → Color → Screen → Screen
vga_set_colors foreground background s = record s {
  writer = record (s.writer) { attr = attribute (as_u8 foreground) (as_u8 background) };
}

all_below : ℕ → (ℕ → Bool) → Bool
all_below zero p = true
all_below (suc n) p = p n && all_below n p

all_below-lt : (n : ℕ) (p : ℕ → Bool) (x : ℕ) → all_below n p ≡ true → x < n → p x ≡ true
unfolding all_below
all_below-lt zero p x h lt = absurd (omega arith)
all_below-lt (suc n) p x h lt = ground (arith, all_below-lt n p x)

nibbles : ℕ → ℕ → Bool
nibbles bg fg = (attribute fg bg % 16 == fg) && (attribute fg bg / 16 == bg)

all_nibbles : all_below 16 (λ bg. all_below 16 (nibbles bg)) ≡ true
unfolding all_below nibbles
all_nibbles = refl

as_u8-lt : (c : Color) → as_u8 c < 16
as_u8-lt black = omega arith
as_u8-lt c = ground arith

-- The low four bits of the attribute are the foreground, the high four the background, and the
-- cursor and the buffer are as before.
pub vga_set_colors-attr :
    (foreground background : Color) (s : Screen)
    → ((vga_set_colors foreground background s).attr % 16 ≡ as_u8 foreground)
      × ((vga_set_colors foreground background s).attr / 16 ≡ as_u8 background)
      × ((vga_set_colors foreground background s).row ≡ s.row)
      × ((vga_set_colors foreground background s).col ≡ s.col)
      × ((vga_set_colors foreground background s).buffer ≡ s.buffer)
unfolding vga_set_colors nibbles
vga_set_colors-attr foreground background s =
    let f = as_u8 foreground in
    let b = as_u8 background in
    let row =
      all_below-lt 16 (λ bg. all_below 16 (nibbles bg)) b all_nibbles (as_u8-lt background) in
    let cell : nibbles b f ≡ true = all_below-lt 16 (nibbles b) f row (as_u8-lt foreground) in
    (ground (arith, cell), ground (arith, cell), refl, refl, refl)
