-- ===== src/Kernel/Witnesses.antt =====
-- The properties of the text buffer at concrete inputs.
use the_heap.Prelude.{
  ℕ, ◌+◌, ◌%◌, ◌≤◌, ◌<◌, ◌≡◌, refl, arith, ◌==◌, if◌then◌else◌, List, ◌⊎◌, Option, replicate, false,
  ◌≢◌,
}
use the_heap.Fat32.Text.{ascii, Text}
use the_heap.Kernel.Vga.{Screen, newline, write_str}
use the_heap.Prelude.{◌-◌, ◌/◌, ◌*◌, ◌∷◌, ◌++◌, [], some, length, get_or, min}
use the_heap.Bytes.{inside}
use the_heap.Kernel.Vga.{vga_clear}
use the_heap.Prelude.{ltb}
use the_heap.Kernel.Vga.Color.{vga_set_colors, yellow, blue, as_u8, vga_set_colors-attr}
use the_heap.Kernel.Serial.{Ports, serial_write_str, Sent, serial_write_str-Sent}
use the_heap.Slab.Allocator
use the_heap.Slab.Lock
use the_heap.Slab.Lock.{LockedAlloc}
use the_heap.Kernel.Demo.{Machine, demo, panicked, returned, layout, heap_size}
use the_heap.Kernel.Demo.Shown.{Shows, demo-Shows, file_lines, demo_lines}
use the_heap.Kernel.Line.{vga_write_line, vga_write_line-eq}
use the_heap.Kernel.Vga.Scroll.{newline-scrolls, vga_clear-blank, Kept, write_str-Kept}

-- A cursor on the last line.
abbrev bottom : Screen
bottom = record { writer = record { row = 24; col = 7; attr = 0x0F }; buffer = λ a. a % 256 }

newline-scrolls_example :
    ((newline bottom).row ≡ 24)
    × ((newline bottom).col ≡ 0)
    × ((a : ℕ) → a < 3840 → (newline bottom).buffer a ≡ bottom.buffer (a + 160))
    × ((a : ℕ)
        → 3840 ≤ a
        → a < 4000
        → (newline bottom).buffer a ≡ (if a % 2 == 0 then b' ' else bottom.attr))
    × ((a : ℕ) → 4000 ≤ a → (newline bottom).buffer a ≡ bottom.buffer a)
newline-scrolls_example = newline-scrolls bottom refl

write_str-Kept_example : Kept bottom (write_str (ascii "Hello") bottom)
write_str-Kept_example = write_str-Kept (ascii "Hello") bottom (omega arith, omega arith)

vga_set_colors-attr_example :
    ((vga_set_colors yellow blue bottom).attr % 16 ≡ as_u8 yellow)
    × ((vga_set_colors yellow blue bottom).attr / 16 ≡ as_u8 blue)
    × ((vga_set_colors yellow blue bottom).row ≡ bottom.row)
    × ((vga_set_colors yellow blue bottom).col ≡ bottom.col)
    × ((vga_set_colors yellow blue bottom).buffer ≡ bottom.buffer)
vga_set_colors-attr_example = vga_set_colors-attr yellow blue bottom

-- A status register that is busy once in a while.
com1 : Ports
com1 = record { status = 0x00 ∷ 0x60 ∷ 0x20 ∷ 0x40 ∷ 0x60 ∷ []; sent = [] }

serial_write_str-Sent_example :
    (q : Ports) × (serial_write_str (ascii "OK") com1 ≡ some q)
    × Sent (ascii "OK" ++ b'\n' ∷ []) com1 q
unfolding com1
serial_write_str-Sent_example = serial_write_str-Sent (ascii "OK") com1 (omega arith)

vga_write_line-eq_example : vga_write_line 2 (ascii "HELLO") (λ a. a % 256) 322 ≡ (
    if inside (2 * 160) (2 * min 80 (length (ascii "HELLO"))) 322
    then (if (322 - 2 * 160) % 2 == 0 then get_or (ascii "HELLO") ((322 - 2 * 160) / 2) 0 else 0x07)
    else 322 % 256)
vga_write_line-eq_example = vga_write_line-eq 2 (ascii "HELLO") (λ a. a % 256) 322

vga_clear-blank_example :
    ((vga_clear bottom).buffer 161
      ≡ (if ltb 161 4000 then (if 161 % 2 == 0 then b' ' else bottom.attr) else bottom.buffer 161))
    × ((vga_clear bottom).row ≡ 0)
    × ((vga_clear bottom).col ≡ 0)
vga_clear-blank_example = vga_clear-blank bottom 161

-- The demonstration on a port that is always ready, and a heap at `0x4000`.
abbrev booting : Machine
booting = record {
  ports = record { status = replicate 200 0x20; sent = [] };
  screen = λ a. 0;
  global_alloc = Lock.new (λ a. 0);
}

abbrev same_bytes : Text → List ℕ
same_bytes t = t

abbrev valid_utf8 : List ℕ → Option Text
valid_utf8 bs = some bs

abbrev no_collections : ℕ → LockedAlloc → Option LockedAlloc
no_collections i g = some g

-- What `init` leaves, which nothing changes before the request of the demonstration.
abbrev initialised : ℕ → LockedAlloc
initialised i = record {
  lock = record {
    locked = false;
    inner = Allocator.init 0x4000 heap_size booting.global_alloc.lock.inner;
  };
  memory = booting.global_alloc.memory;
}

demo-Shows_example :
    (ptr : ℕ) × (h : LockedAlloc) × (Lock.alloc layout (initialised 4) ≡ some (ptr, h))
    × (((ptr ≡ 0)
          × (q : Machine) × (demo same_bytes valid_utf8 no_collections 0x4000 booting ≡ panicked q)
          × Shows file_lines booting q)
        ⊎ ((ptr ≢ 0)
            × (q : Machine) × (demo same_bytes valid_utf8 no_collections 0x4000 booting
                ≡ returned tt q)
            × Shows demo_lines booting q))
unfolding Lock.init
demo-Shows_example =
    demo-Shows same_bytes valid_utf8 no_collections 0x4000 (λ t h. refl) (λ bs h. refl) booting
      initialised refl (λ i lt. refl) refl (omega arith)
