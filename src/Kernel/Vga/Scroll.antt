-- ===== src/Kernel/Vga/Scroll.antt =====
-- What a newline on the last line does to the buffer, and that no write leaves it
-- (kernel/src/vga.rs).
use the_heap.Prelude.{
  [], ◌∷◌, ℕ, zero, suc, ◌+◌, ◌*◌, ◌≤◌, ◌<◌, ◌≡◌, refl, ◌∙◌, arith, if◌then◌else◌, ltb, ◌-◌,
  Bool-cases, ◌%◌, ◌==◌, false, inl, inr, List, leb,
}
use the_heap.Bytes.{Memory, inside}
use the_heap.Kernel.Vga.{
  Screen, put_cell, move_cells, move_rows, blank_cells, newline, write_str, write_byte, leb, List,
  ◌∷◌, vga_clear, clear_rows,
}

-- The rows between two addresses take the bytes of the row below.
abbrev shifted : Memory → ℕ → ℕ → ℕ → ℕ
shifted m from n a = if inside from n a then m (a + 160) else m a

-- A cell that takes the cell one row below.
move_cell-eq :
    (m : Memory) (dst src a : ℕ)
    → src ≡ dst + 160
    → put_cell m dst (m src) (m (src + 1)) a ≡ shifted m dst 2 a
unfolding put_cell
move_cell-eq m dst src a e =
    let e1 : src + 1 ≡ dst + 1 + 160 = omega arith in
    rw (e1, e)
      (elim (Bool-cases (a == dst)) [
        | inl q ↦ let z : a ≡ dst = ground arith in rw z (ground arith)
        | inr q ↦ elim (Bool-cases (a == dst + 1)) [
          | inl q1 ↦ let z : a ≡ dst + 1 = ground arith in rw z (ground arith)
          | inr q1 ↦ ground arith
        ]
      ])

move_cells-eq :
    (n r c : ℕ) (m : Memory) (a : ℕ) → move_cells n r c m a ≡ shifted m (r * 160 + c * 2) (n * 2) a
unfolding move_cells
move_cells-eq zero r c m a = ground arith
move_cells-eq (suc n) r c m a =
    let src = ((r + 1) * 80 + c) * 2 in
    let dst = (r * 80 + c) * 2 in
    let moved = put_cell m dst (m src) (m (src + 1)) in
    let e : src ≡ dst + 160 = omega arith in
    let here = move_cell-eq m dst src a e in
    let below = move_cell-eq m dst src (a + 160) e in
    move_cells-eq n r (c + 1) moved a ∙ ground (arith, here, below)

move_rows-eq : (n r : ℕ) (m : Memory) (a : ℕ) → move_rows n r m a ≡ shifted m (r * 160) (n * 160) a
unfolding move_rows
move_rows-eq zero r m a = ground arith
move_rows-eq (suc n) r m a =
    let here = move_cells-eq 80 r 0 m a in
    let below = move_cells-eq 80 r 0 m (a + 160) in
    move_rows-eq n (r + 1) (move_cells 80 r 0 m) a ∙ ground (arith, here, below)

-- A space, or the attribute behind it.
abbrev blank : ℕ → ℕ → ℕ → ℕ
blank attr from a = if (a - from) % 2 == 0 then b' ' else attr

blank_cells-eq :
    (n r c attr : ℕ) (m : Memory) (a : ℕ)
    → blank_cells n r c attr m a
      ≡ (if inside (r * 160 + c * 2) (n * 2) a then blank attr (r * 160) a else m a)
unfolding blank_cells put_cell
blank_cells-eq zero r c attr m a = ground arith
blank_cells-eq (suc n) r c attr m a =
    blank_cells-eq n r (c + 1) attr (put_cell m ((r * 80 + c) * 2) b' ' attr) a ∙ ground arith

-- On the last line: after `newline` every line holds what the line below held, the last line
-- holds spaces with the attribute, no byte behind the 25 lines changed, and the cursor is at the
-- start of the last line.
pub newline-scrolls :
    (s : Screen)
    → s.row ≡ 24
    → ((newline s).row ≡ 24)
      × ((newline s).col ≡ 0)
      × ((a : ℕ) → a < 3840 → (newline s).buffer a ≡ s.buffer (a + 160))
      × ((a : ℕ)
          → 3840 ≤ a
          → a < 4000
          → (newline s).buffer a ≡ (if a % 2 == 0 then b' ' else s.attr))
      × ((a : ℕ) → 4000 ≤ a → (newline s).buffer a ≡ s.buffer a)
unfolding newline
newline-scrolls s e =
    let last : ltb s.row 24 ≡ false = ground arith in
    let value = λ (a : ℕ). blank_cells-eq 80 24 0 s.attr (move_rows 24 0 s.buffer) a in
    let moved = λ (a : ℕ). move_rows-eq 24 0 s.buffer a in
    rw last (
      refl,
      refl,
      λ a lt. value a ∙ ground (arith, moved a),
      λ a lo hi. value a ∙ ground arith,
      λ a lo. value a ∙ ground (arith, moved a),
    )

-- The cursor is on a cell.
abbrev pub OnScreen : Screen → Type 0
OnScreen s = (s.row < 25) × (s.col < 80)

-- A step keeps the cursor on a cell and leaves what is behind the text buffer alone.
abbrev pub Kept : Screen → Screen → Type 0
Kept s t = OnScreen t × ((a : ℕ) → 4000 ≤ a → t.buffer a ≡ s.buffer a)

newline-Kept : (s : Screen) → s.row < 25 → Kept s (newline s)
unfolding newline
newline-Kept s lt = elim (Bool-cases (ltb s.row 24)) [
  | inl more ↦ rw more ((ground arith, omega arith), λ a lo. refl)
  | inr last ↦
      let scrolled = newline-scrolls s (ground arith) in
      rw last (
        (omega arith, omega arith),
        λ a lo.
            blank_cells-eq 80 24 0 s.attr (move_rows 24 0 s.buffer) a
            ∙ ground (arith, move_rows-eq 24 0 s.buffer a),
      )
]

write_byte-Kept : (b : ℕ) (s : Screen) → OnScreen s → Kept s (write_byte b s)
unfolding write_byte put_cell
write_byte-Kept b s on = elim (Bool-cases (b == b'\n')) [
  | inl nl ↦ rw nl (newline-Kept s on.0)
  | inr ch ↦ elim (Bool-cases (leb 80 (s.col + 1))) [
    | inl full ↦
        let written : Screen = record {
          writer = record (s.writer) { col = s.col + 1 };
          buffer = put_cell s.buffer ((s.row * 80 + s.col) * 2) b s.attr;
        } in
        let k = newline-Kept written on.0 in rw (ch, full) (k.0, λ a lo. k.1 a lo ∙ ground arith)
    | inr room ↦ rw (ch, room) ((omega arith, ground arith), λ a lo. ground arith)
  ]
]

-- From a cursor on a cell of the screen: whatever text `write_str` prints, the cursor is on a cell
-- again, and no byte behind the 4000 of the text buffer changed.
pub write_str-Kept : (bs : List ℕ) (s : Screen) → OnScreen s → Kept s (write_str bs s)
unfolding write_str
write_str-Kept [] s on = (on, λ a lo. refl)
write_str-Kept (b ∷ bs) s on =
    let k = write_byte-Kept b s on in
    let h = write_str-Kept bs (write_byte b s) k.0 in (h.0, λ a lo. h.1 a lo ∙ k.1 a lo)

clear_rows-eq :
    (n r attr : ℕ) (m : Memory) (a : ℕ)
    → clear_rows n r attr m a
      ≡ (if inside (r * 160) (n * 160) a then (if a % 2 == 0 then b' ' else attr) else m a)
unfolding clear_rows
clear_rows-eq zero r attr m a = ground arith
clear_rows-eq (suc n) r attr m a =
    clear_rows-eq n (r + 1) attr (blank_cells 80 r 0 attr m) a
    ∙ ground (arith, blank_cells-eq 80 r 0 attr m a)

-- After `vga_clear` every cell of the 25 lines is a space with the attribute, no byte behind them
-- changed, and the cursor is at the start of the first line.
pub vga_clear-blank :
    (s : Screen) (a : ℕ)
    → ((vga_clear s).buffer a
        ≡ (if ltb a 4000 then (if a % 2 == 0 then b' ' else s.attr) else s.buffer a))
      × ((vga_clear s).row ≡ 0)
      × ((vga_clear s).col ≡ 0)
unfolding vga_clear
vga_clear-blank s a = (clear_rows-eq 25 0 s.attr s.buffer a ∙ ground arith, refl, refl)
