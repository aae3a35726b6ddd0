-- ===== src/Kernel/Line.antt =====
-- `vga_write_line` of kernel/src/main.rs, on the text buffer of kernel/src/vga.rs.
use the_heap.Prelude.{
  sym, true, false, ℕ, suc, ◌+◌, ◌-◌, ◌*◌, ◌/◌, ◌%◌, ◌<◌, ◌≤◌, ◌≡◌, refl, ◌∙◌, arith, List, [], ◌∷◌,
  leb, ◌==◌, if◌then◌else◌, length, get_or, min, Bool-cases, inl, inr,
}
use the_heap.Bytes.{Memory, inside}
use the_heap.Kernel.Vga.{put_cell}

-- The loop from column `col` on, which is left behind the last column.
unfoldable pub write_cells : ℕ → ℕ → List ℕ → Memory → Memory
unfolding put_cell
write_cells row col [] m = m
write_cells row col (b ∷ bs) m =
    let m = put_cell m ((row * 80 + col) * 2) b 0x07 in
    let rest = write_cells row (col + 1) bs m in if leb 80 (col + 1) then m else rest

unfoldable pub vga_write_line : ℕ → List ℕ → Memory → Memory
unfolding write_cells
vga_write_line row s m = write_cells row 0 s m

-- A byte of the cells that show `s` from address `from` on.
abbrev shown : List ℕ → ℕ → ℕ → ℕ
shown s from a = if (a - from) % 2 == 0 then get_or s ((a - from) / 2) 0 else 0x07

shown-first : (b : ℕ) (bs : List ℕ) (from : ℕ) → shown (b ∷ bs) from from ≡ b
shown-first b bs from = let e : from - from ≡ 0 = omega arith in rw e refl

shown-second : (s : List ℕ) (from : ℕ) → shown s from (from + 1) ≡ 0x07
shown-second s from = let e : from + 1 - from ≡ 1 = omega arith in rw e refl

shown-later :
    (b : ℕ) (bs : List ℕ) (from a : ℕ)
    → from + 2 ≤ a
    → shown (b ∷ bs) from a ≡ shown bs (from + 2) a
shown-later b bs from a h =
    let e : (a - from) / 2 ≡ suc ((a - (from + 2)) / 2) = omega arith in
    let r : (a - from) % 2 ≡ (a - (from + 2)) % 2 = omega arith in rw (e, r) refl

-- One cell, and what the others show.
cell_step :
    (b : ℕ) (bs : List ℕ) (m : Memory) (from n a : ℕ) (value : ℕ)
    → value
      ≡ (if inside (from + 2) (2 * n) a then shown bs (from + 2) a else put_cell m from b 0x07 a)
    → value ≡ (if inside from (2 * suc n) a then shown (b ∷ bs) from a else m a)
unfolding put_cell
cell_step b bs m from n a value h = elim (Bool-cases (a == from)) [
  | inl first ↦ let e : a ≡ from = ground arith in h ∙ rw e (ground (arith, shown-first b bs from))
  | inr behind ↦ elim (Bool-cases (a == from + 1)) [
    | inl second ↦
        let e : a ≡ from + 1 = ground arith in h ∙ rw e (ground (arith, shown-second (b ∷ bs) from))
    | inr other ↦ elim (Bool-cases (inside (from + 2) (2 * n) a)) [
      | inl shows ↦
          let wider : inside from (2 * suc n) a ≡ true = ground arith in
          h ∙ rw (shows, wider) (sym (shown-later b bs from a (ground arith)))
      | inr outside ↦
          let wider : inside from (2 * suc n) a ≡ false = ground arith in
          h ∙ rw (outside, wider, behind, other) refl
    ]
  ]
]

write_cells-eq :
    (row col : ℕ) (s : List ℕ) (m : Memory) (a : ℕ)
    → col < 80
    → write_cells row col s m a ≡ (
        if inside ((row * 80 + col) * 2) (2 * min (80 - col) (length s)) a
        then shown s ((row * 80 + col) * 2) a
        else m a)
unfolding write_cells
write_cells-eq row col [] m a h = ground arith
write_cells-eq row col (b ∷ bs) m a h =
    let from = (row * 80 + col) * 2 in
    let m' = put_cell m from b 0x07 in
    elim (Bool-cases (leb 80 (col + 1))) [
      | inl last ↦
          let e : min (80 - col) (suc (length bs)) ≡ suc 0 = ground arith in
          rw (last, e) (cell_step b bs m from 0 a (m' a) (ground arith))
      | inr more ↦
          let e : min (80 - col) (suc (length bs)) ≡ suc (min (80 - (col + 1)) (length bs)) =
            ground arith in
          let next : (row * 80 + (col + 1)) * 2 ≡ from + 2 = omega arith in
          let ih = write_cells-eq row (col + 1) bs m' a (ground arith) in
          rw (more, e)
            (cell_step b bs m from (min (80 - (col + 1)) (length bs)) a
              (write_cells row (col + 1) bs m' a) (rw next at ih))
    ]

-- The first 80 bytes of the text stand in the row's cells, each with the attribute 0x07 behind it,
-- and no other byte of the buffer changed.
pub vga_write_line-eq :
    (row : ℕ) (s : List ℕ) (m : Memory) (a : ℕ)
    → vga_write_line row s m a ≡ (
        if inside (row * 160) (2 * min 80 (length s)) a
        then (if (a - row * 160) % 2 == 0 then get_or s ((a - row * 160) / 2) 0 else 0x07)
        else m a)
unfolding vga_write_line
vga_write_line-eq row s m a =
    let e : (row * 80 + 0) * 2 ≡ row * 160 = omega arith in
    rw e at (write_cells-eq row 0 s m a (omega arith))
