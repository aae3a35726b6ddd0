-- ===== src/Kernel/Demo.antt =====
-- `demo` of kernel/src/main.rs, the demonstration that the kernel runs. It sees the machine: the
-- serial port, the text buffer and the allocator. The library's conversions of texts are parameters,
-- and so is what the lists, the names and the formatted lines of the alloc crate ask of the
-- allocator, in the four stretches of the demonstration that have some; `none` stands for their
-- panic where the allocator has no block. That a run's requests are served is no law of theirs, but a
-- condition on the run where a theorem needs it.
pub mod Files
pub mod Rows
pub mod Progress
pub mod Shown
use the_heap.Prelude.{
  ℕ, ◌*◌, Bool, Option, none, some, List, [], ◌∷◌, ◌++◌, map, ◌==◌, if◌then◌else◌, false, true,
}
use the_heap.Bytes.{Memory}
use the_heap.Fat32.Error.{Result, ok, err}
use the_heap.Fat32.Read.{list_root, read_file_by_path}
use the_heap.Fat32.Text.{Text, ascii, space}
use the_heap.Fat32.Volume
use the_heap.Fat32.Volume.{Disk, Volume}
use the_heap.Fat32.Write.{write_file_by_path}
use the_heap.Fat32.Write.Effect
use the_heap.Fat32.Write.Effect.{Run}
use the_heap.Kernel.Image.{build_test_image}
use the_heap.Kernel.Line.{vga_write_line}
use the_heap.Kernel.Serial.{Ports, serial_init, serial_write_str}
use the_heap.Slab.Allocator.{Layout}
use the_heap.Slab.Lock
use the_heap.Slab.Lock.{LockedAlloc}

pub record Machine : Type 0 where
  pub ports : Ports
  pub screen : Memory
  pub global_alloc : LockedAlloc

-- How a run ends: it returns, it waits for ever (for the port or for the lock), or it panics.
pub data Ends (A : Type 0) : Type 0 where
  returned : A → Machine → Ends A
  waiting : Machine → Ends A
  panicked : Machine → Ends A

abbrev pub Act : Type 0 → Type 0
Act A = Machine → Ends A

abbrev pub and_then : {A B : Type 0} → Ends A → (A → Act B) → Ends B
and_then (returned a m) k = k a m
and_then (waiting m) k = waiting m
and_then (panicked m) k = panicked m

infixl 5 ◌>>=◌ ◌>>◌
abbrev pub ◌>>=◌ : {A B : Type 0} → Act A → (A → Act B) → Act B
◌>>=◌ f k m = and_then (f m) k

abbrev pub ◌>>◌ : {B : Type 0} → Act (Unit {0}) → Act B → Act B
f >> k = f >>= λ _. k

-- `.unwrap()`, of a `Result` and of an `Option`.
abbrev pub unwrap : {A : Type 0} → Result A → Act A
unwrap (ok a) m = returned a m
unwrap (err e) m = panicked m
unwrap Result.panic m = panicked m

abbrev pub unwrap_some : {A : Type 0} → Option A → Act A
unwrap_some (some a) m = returned a m
unwrap_some none m = panicked m

-- `.unwrap()` of a write, which leaves the disk.
abbrev pub unwrap_write : Run (Unit {0}) → Act Disk
unwrap_write (Effect.done u v) m = returned v.disk m
unwrap_write (Effect.failed e v) m = panicked m
unwrap_write (Effect.panicked v) m = panicked m

abbrev pub start_serial : Act (Unit {0})
start_serial m = returned tt (record m { ports = serial_init m.ports })

-- A call of the allocator, which waits where it would spin.
abbrev pub call : {A : Type 0} → (LockedAlloc → Option (A × LockedAlloc)) → Act A
call f m = elim (f m.global_alloc) [
  | none ↦ waiting m
  | some (a, g) ↦ returned a (record m { global_alloc = g })
]

-- `names.join(" ")`.
unfoldable pub join : List Text → Text
join [] = []
join (t ∷ []) = t
join (t ∷ u ∷ ts) = t ++ space ∷ join (u ∷ ts)

-- `assert!`.
abbrev pub assert : Bool → Act (Unit {0})
assert b m = if b then returned tt m else panicked m

abbrev pub heap_size : ℕ
heap_size = 128 * 1024

abbrev pub layout : Layout
layout = record { size = 32; align = 8 }

module _ (as_bytes : Text → List ℕ) (from_utf8 : List ℕ → Option Text)
    (collections : ℕ → LockedAlloc → Option LockedAlloc) (heap_space : ℕ) where
  -- A line on the serial port, and then in a row of the screen.
  unfoldable pub show : ℕ → Text → Act (Unit {0})
  unfolding serial_write_str vga_write_line
  show row s m = elim (serial_write_str (as_bytes s) m.ports) [
    | none ↦ waiting m
    | some p ↦
        returned tt (record m { ports = p; screen = vga_write_line row (as_bytes s) m.screen })
  ]

  -- The block that is asked for and given back.
  unfoldable pub try_allocator : Act (Unit {0})
  unfolding Lock.alloc Lock.dealloc
  try_allocator = do
    p ← call (Lock.alloc layout)
    assert (if p == 0 then false else true)
    call (Lock.dealloc p layout)

  -- The calls of the alloc crate in one stretch.
  abbrev pub stretch : ℕ → Act (Unit {0})
  stretch i m = elim (collections i m.global_alloc) [
    | none ↦ panicked m
    | some g ↦ returned tt (record m { global_alloc = g })
  ]

  unfoldable pub demo : Act (Unit {0})
  demo = do
    call (Lock.init heap_space heap_size)
    start_serial
    show 0 (ascii "The Heap - kernel")
    stretch 0
    let disk = build_test_image
    ro ← unwrap (Volume.new disk)
    root ← unwrap (list_root ro)
    let names = map (λ e. e.name) root
    show 1 (ascii "ROOT: " ++ join names)
    stretch 1
    found ← unwrap (read_file_by_path ro (ascii "/HELLO.TXT"))
    hello ← unwrap_some found
    hello_s ← unwrap_some (from_utf8 hello)
    show 2 hello_s
    stretch 2
    rw_volume ← unwrap (Volume.new disk)
    written ← unwrap_write (write_file_by_path (ascii "/NEW.TXT") (ascii "NEW!") rw_volume)
    ro2 ← unwrap (Volume.new written)
    root2 ← unwrap (list_root ro2)
    let names2 = map (λ e. e.name) root2
    show 3 (ascii "ROOT (apres ecriture): " ++ join names2)
    stretch 3
    found2 ← unwrap (read_file_by_path ro2 (ascii "/NEW.TXT"))
    newc ← unwrap_some found2
    new_s ← unwrap_some (from_utf8 newc)
    show 4 new_s
    try_allocator
    show 5 (ascii "The Heap: allocator OK")

  -- The panic handler, which loops for ever.
  abbrev pub panic : Act (Unit {0})
  panic m = waiting m

  -- The entry point, which loops for ever behind the demonstration.
  unfoldable pub kernel_main : Act (Unit {0})
  unfolding demo
  kernel_main m = elim (demo m) [
    | returned _ q ↦ waiting q
    | waiting q ↦ waiting q
    | panicked q ↦ panic q
  ]
