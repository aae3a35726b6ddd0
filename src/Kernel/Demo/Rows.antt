-- ===== src/Kernel/Demo/Rows.antt =====
-- Lines of text in the rows of the screen: `vga_write_line` of kernel/src/main.rs, row by row.
use the_heap.Prelude.{
  zero, ℕ, zero, suc, ◌+◌, ◌-◌, ◌*◌, ◌/◌, ◌%◌, ◌<◌, ◌≡◌, refl, ap, ◌∙◌, arith, true, false, List,
  [], ◌∷◌, ◌++◌, ◌==◌, length, get_or, min, inl, ◌⊎◌,
}
use the_heap.Bytes.{Memory, inside}
use the_heap.Fat32.Text.{Text}
use the_heap.Kernel.Line.{vga_write_line, vga_write_line-eq}

-- The address of the byte in row `r` and column `c`.
abbrev pub cell : ℕ → ℕ → ℕ
cell r c = (r * 80 + c) * 2

pub vga_write_line-cell :
    (r c : ℕ) (s : List ℕ) (m : Memory)
    → c < length s
    → c < 80
    → vga_write_line r s m (cell r c) ≡ get_or s c 0
vga_write_line-cell r c s m lt wide =
    let here : inside (r * 160) (2 * min 80 (length s)) (cell r c) ≡ true = ground arith in
    let even : ((cell r c - r * 160) % 2 == 0) ≡ true = ground arith in
    let column : (cell r c - r * 160) / 2 ≡ c = omega arith in
    vga_write_line-eq r s m (cell r c) ∙ rw (here, even, column) refl

pub vga_write_line-other :
    (row r c : ℕ) (s : List ℕ) (m : Memory)
    → (r < row) ⊎ (row < r)
    → c < 80
    → vga_write_line row s m (cell r c) ≡ m (cell r c)
vga_write_line-other row r c s m other wide =
    let away : inside (row * 160) (2 * min 80 (length s)) (cell r c) ≡ false = ground arith in
    vga_write_line-eq row s m (cell r c) ∙ rw away refl

-- The lines in the rows from `r` on.
abbrev pub draw : ℕ → List Text → Memory → Memory
draw r [] m = m
draw r (s ∷ ss) m = draw (r + 1) ss (vga_write_line r s m)

pub draw-append :
    (r : ℕ) (ss : List Text) (s : Text) (m : Memory)
    → draw r (ss ++ s ∷ []) m ≡ vga_write_line (r + length ss) s (draw r ss m)
draw-append r [] s m = ap (λ t. vga_write_line t s m) (omega arith)
draw-append r (x ∷ ss) s m =
    draw-append (r + 1) ss s (vga_write_line r x m)
    ∙ ap (λ t. vga_write_line t s (draw (r + 1) ss (vga_write_line r x m))) (omega arith)

draw-before :
    (r : ℕ) (ss : List Text) (m : Memory) (i c : ℕ)
    → i < r
    → c < 80
    → draw r ss m (cell i c) ≡ m (cell i c)
draw-before r [] m i c lt wide = refl
draw-before r (s ∷ ss) m i c lt wide =
    draw-before (r + 1) ss (vga_write_line r s m) i c (omega arith) wide
    ∙ vga_write_line-other r i c s m (inl lt) wide

pub draw-cell :
    (r : ℕ) (ss : List Text) (m : Memory) (i c : ℕ)
    → i < length ss
    → c < length (get_or ss i [])
    → c < 80
    → draw r ss m (cell (r + i) c) ≡ get_or (get_or ss i []) c 0
draw-cell r [] m i c lt in_line wide = absurd (omega arith)
draw-cell r (s ∷ ss) m zero c lt in_line wide =
    let e : cell (r + 0) c ≡ cell r c = omega arith in
    ap (draw r (s ∷ ss) m) e
    ∙ draw-before (r + 1) ss (vga_write_line r s m) r c (omega arith) wide
    ∙ vga_write_line-cell r c s m in_line wide
draw-cell r (s ∷ ss) m (suc i) c lt in_line wide =
    let e : cell (r + suc i) c ≡ cell (r + 1 + i) c = omega arith in
    ap (draw r (s ∷ ss) m) e
    ∙ draw-cell (r + 1) ss (vga_write_line r s m) i c (omega arith) in_line wide
