-- ===== src/Kernel/Vga.antt =====
-- The writer of kernel/src/vga.rs: a cursor on the 25 lines of 80 cells of the text buffer. The
-- buffer is a memory whose address 0 is 0xb8000; each cell is a character and an attribute.
pub mod Scroll
pub mod Color
use the_heap.Prelude.{ℕ, zero, suc, ◌+◌, ◌*◌, List, [], ◌∷◌, ltb, leb, ◌==◌, if◌then◌else◌}
use the_heap.Bytes.{Memory}

pub record Writer : Type 0 where
  pub row : ℕ
  pub col : ℕ
  pub attr : ℕ

-- The writer and the buffer.
pub record Screen : Type 0 where
  pub writer : Writer
  pub open writer use *
  pub buffer : Memory

-- The static `WRITER` before the first write.
abbrev pub initial : Writer
initial = record { row = 0; col = 0; attr = 0x0F }

-- The two writes of a cell at `idx`.
unfoldable pub put_cell : Memory → ℕ → ℕ → ℕ → Memory
put_cell m idx ch at a = if a == idx then ch else if a == idx + 1 then at else m a

-- The inner loop of `newline`: `n` cells of row `r` from column `c` on take what stands below.
unfoldable pub move_cells : ℕ → ℕ → ℕ → Memory → Memory
move_cells zero r c m = m
move_cells (suc n) r c m =
    let src = ((r + 1) * 80 + c) * 2 in
    let dst = (r * 80 + c) * 2 in move_cells n r (c + 1) (put_cell m dst (m src) (m (src + 1)))

-- The outer loop of `newline`.
unfoldable pub move_rows : ℕ → ℕ → Memory → Memory
move_rows zero r m = m
move_rows (suc n) r m = move_rows n (r + 1) (move_cells 80 r 0 m)

-- `n` cells of row `r` from column `c` on become spaces.
unfoldable pub blank_cells : ℕ → ℕ → ℕ → ℕ → Memory → Memory
blank_cells zero r c attr m = m
blank_cells (suc n) r c attr m =
    blank_cells n r (c + 1) attr (put_cell m ((r * 80 + c) * 2) b' ' attr)

unfoldable pub newline : Screen → Screen
newline s =
    if ltb s.row 24
    then record s { writer = record (s.writer) { row = s.row + 1; col = 0 } }
    else record {
      writer = record (s.writer) { row = 24; col = 0 };
      buffer = blank_cells 80 24 0 s.attr (move_rows 24 0 s.buffer);
    }

unfoldable pub write_byte : ℕ → Screen → Screen
write_byte b s =
    let idx = (s.row * 80 + s.col) * 2 in
    let written : Screen = record {
      writer = record (s.writer) { col = s.col + 1 };
      buffer = put_cell s.buffer idx b s.attr;
    } in
    if b == b'\n' then newline s else if leb 80 (s.col + 1) then newline written else written

unfoldable pub write_str : List ℕ → Screen → Screen
write_str [] s = s
write_str (b ∷ bs) s = write_str bs (write_byte b s)

-- `vga_clear`, on the rows from `r` on.
unfoldable pub clear_rows : ℕ → ℕ → ℕ → Memory → Memory
clear_rows zero r attr m = m
clear_rows (suc n) r attr m = clear_rows n (r + 1) attr (blank_cells 80 r 0 attr m)

unfoldable pub vga_clear : Screen → Screen
vga_clear s = record {
  writer = record (s.writer) { row = 0; col = 0 };
  buffer = clear_rows 25 0 s.attr s.buffer;
}
