-- ===== src/Kernel/Serial.antt =====
-- The serial port COM1 of kernel/src/main.rs. What `inb` reads from the line status register is a
-- list of values to come, a parameter; what `outb` sends is a list of ports and bytes. `none` stands
-- for a wait that finds no value that is ready.
use the_heap.Prelude.{
  ℕ, ◌+◌, ◌≤◌, ◌≡◌, refl, sym, ap, ◌∙◌, arith, Option, none, some, List, [], ◌∷◌, ◌++◌, map, ◌==◌,
  if◌then◌else◌, length, Bool-cases, inl, inr, bit_and, suc, length-append,
}
use mathlib.Core.List.{append-nil, append_assoc, map-append}

pub record Ports : Type 0 where
  pub status : List ℕ
  pub sent : List (ℕ × ℕ)

unfoldable pub outb : ℕ → ℕ → Ports → Ports
outb port val p = record p { sent = p.sent ++ (port, val) ∷ [] }

unfoldable pub serial_init : Ports → Ports
unfolding outb
serial_init p =
    let p = outb (0x3F8 + 1) 0x00 p in
    let p = outb (0x3F8 + 3) 0x80 p in
    let p = outb (0x3F8 + 0) 0x01 p in
    let p = outb (0x3F8 + 1) 0x00 p in
    let p = outb (0x3F8 + 3) 0x03 p in let p = outb (0x3F8 + 2) 0xC7 p in outb (0x3F8 + 4) 0x0B p

-- The polling loop: the values behind the first one that is ready.
unfoldable pub wait_ready : List ℕ → Option (List ℕ)
wait_ready [] = none
wait_ready (s ∷ ss) = let rest = wait_ready ss in if bit_and s 0x20 == 0 then rest else some ss

unfoldable pub serial_write_byte : ℕ → Ports → Option Ports
unfolding wait_ready outb
serial_write_byte b p = elim (wait_ready p.status) [
  | none ↦ none
  | some rest ↦ some (outb 0x3F8 b (record p { status = rest }))
]

-- The loop of `serial_write_str`.
unfoldable pub serial_write_bytes : List ℕ → Ports → Option Ports
unfolding serial_write_byte
serial_write_bytes [] p = some p
serial_write_bytes (b ∷ bs) p = elim (serial_write_byte b p) [
  | none ↦ none
  | some q ↦ serial_write_bytes bs q
]

unfoldable pub serial_write_str : List ℕ → Ports → Option Ports
unfolding serial_write_bytes
serial_write_str s p = elim (serial_write_bytes s p) [
  | none ↦ none
  | some q ↦ serial_write_byte b'\n' q
]

-- How many of the values to come are ready.
abbrev pub count_ready : List ℕ → ℕ
count_ready [] = 0
count_ready (s ∷ ss) = if bit_and s 0x20 == 0 then count_ready ss else suc (count_ready ss)

abbrev pub to_com1 : List ℕ → List (ℕ × ℕ)
to_com1 = map (λ b. (0x3F8, b))

-- The bytes went out one by one, and a ready value was used for each.
pub record Sent (bytes : List ℕ) (p q : Ports) : Type 0 where
  pub sent : q.sent ≡ p.sent ++ to_com1 bytes
  pub used : count_ready q.status + length bytes ≡ count_ready p.status

wait_ready-some :
    (ss : List ℕ)
    → 1 ≤ count_ready ss
    → (rest : List ℕ) × (wait_ready ss ≡ some rest) × (count_ready rest + 1 ≡ count_ready ss)
unfolding wait_ready
wait_ready-some [] h = absurd (omega arith)
wait_ready-some (s ∷ ss) h = elim (Bool-cases (bit_and s 0x20 == 0)) [
  | inl busy ↦ rw busy (wait_ready-some ss (rw busy at h))
  | inr ready ↦ rw ready (ss, refl, omega arith)
]

serial_write_byte-Sent :
    (b : ℕ) (p : Ports)
    → 1 ≤ count_ready p.status
    → (q : Ports) × (serial_write_byte b p ≡ some q) × Sent (b ∷ []) p q
unfolding serial_write_byte outb
serial_write_byte-Sent b p h =
    let (rest, e, n) = wait_ready-some p.status h in
    (
      outb 0x3F8 b (record p { status = rest }),
      rw (e, serial_write_byte) refl,
      record { sent = refl; used = n },
    )

pub Sent-append : (xs ys : List ℕ) (p q r : Ports) → Sent xs p q → Sent ys q r → Sent (xs ++ ys) p r
Sent-append xs ys p q r s t = record {
  sent =
      t.sent
      ∙ ap (λ l. l ++ to_com1 ys) s.sent
      ∙ append_assoc p.sent (to_com1 xs) (to_com1 ys)
      ∙ ap (λ l. p.sent ++ l) (sym (map-append (λ b. (0x3F8, b)) xs ys));
  used = omega (arith, length-append xs ys, s.used, t.used);
}

serial_write_bytes-Sent :
    (bs : List ℕ) (p : Ports)
    → length bs ≤ count_ready p.status
    → (q : Ports) × (serial_write_bytes bs p ≡ some q) × Sent bs p q
unfolding serial_write_bytes
serial_write_bytes-Sent [] p h =
    (p, refl, record { sent = sym (append-nil p.sent); used = omega arith })
serial_write_bytes-Sent (b ∷ bs) p h =
    let (q, e, s) = serial_write_byte-Sent b p (omega arith) in
    let (r, f, t) = serial_write_bytes-Sent bs q (omega (arith, s.used)) in
    (r, rw (e, serial_write_bytes) f, Sent-append (b ∷ []) bs p q r s t)

-- Where the status register is ready as often as there are bytes, and once more: the text and a
-- line feed go out in order, after what was sent before, and as many ready values are used.
pub serial_write_str-Sent :
    (s : List ℕ) (p : Ports)
    → length s + 1 ≤ count_ready p.status
    → (q : Ports) × (serial_write_str s p ≡ some q) × Sent (s ++ b'\n' ∷ []) p q
unfolding serial_write_str
serial_write_str-Sent s p h =
    let (q, e, t) = serial_write_bytes-Sent s p (omega arith) in
    let (r, f, u) = serial_write_byte-Sent b'\n' q (omega (arith, t.used)) in
    (r, rw (e, serial_write_str) f, Sent-append s (b'\n' ∷ []) p q r t u)
