-- ===== src/Kernel/Demo/Shown.antt =====
-- What the demonstration of kernel/src/main.rs shows.
use the_heap.Prelude.{
  ℕ, ◌+◌, ◌<◌, ◌≤◌, ◌≡◌, refl, ap, ◌∙◌, arith, ◌⊎◌, inl, inr, Bool, true, false, Option, some, List,
  [], ◌∷◌, ◌++◌, ◌&&◌, length, get_or, ltb, suc, ◌≢◌,
}
use the_heap.Fat32.Text.{Text, ascii}
use the_heap.Kernel.Demo.{
  Machine, and_then, returned, panicked, show, demo, join, try_allocator, layout, call, heap_size,
}
use the_heap.Kernel.Demo.Files.{
  new-build_test_image, list_root-mounted, read_hello, write_new, new-with_new, list_root-with_new,
  read_new,
}
use the_heap.Kernel.Demo.Progress.{
  Progress, with_newlines, IsAscii, init-Progress, show-Progress, stretch-Progress,
  try_allocator-Progress, room,
}
use the_heap.Kernel.Demo.Rows.{cell, draw, draw-cell}
use the_heap.Kernel.Serial.{serial_init, count_ready, to_com1}
use the_heap.Slab.Lock
use the_heap.Slab.Lock.{LockedAlloc}

all_ascii : Text → Bool
all_ascii [] = true
all_ascii (c ∷ cs) = ltb c 128 && all_ascii cs

all_ascii-IsAscii : (t : Text) → all_ascii t ≡ true → IsAscii t
unfolding all_ascii
all_ascii-IsAscii [] h = tt
all_ascii-IsAscii (c ∷ cs) h =
    let rest : all_ascii cs ≡ true = ground (arith, h) in
    (ground (arith, h), all_ascii-IsAscii cs rest)

abbrev greeting : Text
greeting = ascii "The Heap - kernel"

abbrev root_line : Text
root_line = ascii "ROOT: HELLO.TXT DIR"

abbrev hello_text : Text
hello_text = ascii "HELLO"

abbrev new_root_line : Text
new_root_line = ascii "ROOT (apres ecriture): HELLO.TXT DIR NEW.TXT"

abbrev new_text : Text
new_text = ascii "NEW!"

abbrev last_line : Text
last_line = ascii "The Heap: allocator OK"

-- The lines of the demonstration before it tries the allocator, and all of them.
abbrev pub file_lines : List Text
file_lines = greeting ∷ root_line ∷ hello_text ∷ new_root_line ∷ new_text ∷ []

abbrev pub demo_lines : List Text
demo_lines = greeting ∷ root_line ∷ hello_text ∷ new_root_line ∷ new_text ∷ last_line ∷ []

-- The lines went out through the port that was set up, and stand in the rows of the screen.
pub record Shows (lines : List Text) (m q : Machine) : Type 0 where
  pub sent : q.ports.sent ≡ (serial_init m.ports).sent ++ to_com1 (with_newlines lines)
  pub rows :
      (r c : ℕ)
      → r < length lines
      → c < length (get_or lines r [])
      → c < 80
      → q.screen (cell r c) ≡ get_or (get_or lines r []) c 0

Progress-Shows :
    (lines : List Text) (g : LockedAlloc) (m q : Machine) → Progress lines g m q → Shows lines m q
Progress-Shows lines g m q p = record {
  sent = p.sent.sent;
  rows = λ r c lt in_line wide.
      let e : cell r c ≡ cell (0 + r) c = omega arith in
      ap (λ f. f (cell r c)) p.drawn
      ∙ ap (draw 0 lines m.screen) e
      ∙ draw-cell 0 lines m.screen r c lt in_line wide;
}

module _ (as_bytes : Text → List ℕ) (from_utf8 : List ℕ → Option Text)
    (collections : ℕ → LockedAlloc → Option LockedAlloc) (heap_space : ℕ)
    (ascii_bytes : (t : Text) → IsAscii t → as_bytes t ≡ t)
    (ascii_utf8 : (bs : List ℕ) → IsAscii bs → from_utf8 bs ≡ some bs) where
  line :
      (lines : List Text) (s : Text) (rest : List Text) (g : LockedAlloc) (m q : Machine)
      → Progress lines g m q
      → all_ascii s ≡ true
      → length (with_newlines (lines ++ s ∷ rest)) ≤ count_ready m.ports.status
      → (r : Machine) × (show as_bytes from_utf8 collections heap_space (length lines) s q
          ≡ returned tt r)
        × Progress (lines ++ s ∷ []) g m r
  line lines s rest g m q p is_ascii enough =
      show-Progress as_bytes from_utf8 collections heap_space ascii_bytes lines s g m q p
        (all_ascii-IsAscii s is_ascii) (room lines s rest g m q p enough)

  -- For a conversion of texts that keeps ASCII, a run in which `init` leaves the allocator `g 0`,
  -- the requests of the alloc crate in each stretch `i` are served and take the allocator from
  -- `g i` to `g (suc i)`, the lock is free behind the last of them, and the port is ready as often
  -- as the six lines have bytes, with a line feed each: the demonstration ends. Its own request
  -- goes to the allocator `g 4`. Where that answers null, the demonstration panics, and the first
  -- five lines went out through the port that was set up and stand in their rows of the screen, the
  -- last of them the content of the file that it wrote. Where it answers a block, the
  -- demonstration returns, with all six lines shown.
  pub demo-Shows :
      (m : Machine) (g : ℕ → LockedAlloc)
      → Lock.init heap_space heap_size m.global_alloc ≡ some (tt, g 0)
      → ((i : ℕ) → i < 4 → collections i (g i) ≡ some (g (suc i)))
      → (g 4).lock.locked ≡ false
      → length (with_newlines demo_lines) ≤ count_ready m.ports.status
      → (ptr : ℕ) × (h : LockedAlloc) × (Lock.alloc layout (g 4) ≡ some (ptr, h))
        × (((ptr ≡ 0)
              × (q : Machine) × (demo as_bytes from_utf8 collections heap_space m ≡ panicked q)
              × Shows file_lines m q)
            ⊎ ((ptr ≢ 0)
                × (q : Machine) × (demo as_bytes from_utf8 collections heap_space m ≡ returned tt q)
                × Shows demo_lines m q))
  unfolding demo join all_ascii
  demo-Shows m g e0 served unlocked enough =
      let next = stretch-Progress as_bytes from_utf8 collections heap_space ascii_bytes in
      let utf8 = λ (t : Text) (h : all_ascii t ≡ true). ascii_utf8 t (all_ascii-IsAscii t h) in
      let p0 = init-Progress m (g 0) in
      let (q1, e1, p1) =
        line [] greeting (root_line ∷ hello_text ∷ new_root_line ∷ new_text ∷ last_line ∷ []) (g 0)
          m _ p0 refl enough in
      let (q2, e2, p2) = next 0 (greeting ∷ []) (g 0) (g 1) m q1 (served 0 (omega arith)) p1 in
      let (q3, e3, p3) =
        line (greeting ∷ []) root_line (hello_text ∷ new_root_line ∷ new_text ∷ last_line ∷ [])
          (g 1) m q2 p2 refl enough in
      let (q4, e4, p4) =
        next 1 (greeting ∷ root_line ∷ []) (g 1) (g 2) m q3 (served 1 (omega arith)) p3 in
      let (q5, e5, p5) =
        line (greeting ∷ root_line ∷ []) hello_text (new_root_line ∷ new_text ∷ last_line ∷ [])
          (g 2) m q4 p4 refl enough in
      let (q6, e6, p6) =
        next 2 (greeting ∷ root_line ∷ hello_text ∷ []) (g 2) (g 3) m q5 (served 2 (omega arith))
          p5 in
      let (q7, e7, p7) =
        line (greeting ∷ root_line ∷ hello_text ∷ []) new_root_line (new_text ∷ last_line ∷ [])
          (g 3) m q6 p6 refl enough in
      let (q8, e8, p8) =
        next 3 (greeting ∷ root_line ∷ hello_text ∷ new_root_line ∷ []) (g 3) (g 4) m q7
          (served 3 (omega arith)) p7 in
      let (q9, e9, p9) =
        line (greeting ∷ root_line ∷ hello_text ∷ new_root_line ∷ []) new_text (last_line ∷ [])
          (g 4) m q8 p8 refl enough in
      let tail = λ (q : Machine).
        and_then (try_allocator as_bytes from_utf8 collections heap_space q)
          (λ _. show as_bytes from_utf8 collections heap_space 5 last_line) in
      let run : demo as_bytes from_utf8 collections heap_space m ≡ tail q9 =
        rw
          (
            demo,
            call,
            e0,
            e1,
            e2,
            new-build_test_image,
            list_root-mounted,
            e3,
            e4,
            read_hello,
            utf8 hello_text refl,
            e5,
            e6,
            write_new,
            new-with_new,
            list_root-with_new,
            e7,
            e8,
            read_new,
            utf8 new_text refl,
            e9,
          )
          refl in
      let (ptr, h, asked, ends) =
        try_allocator-Progress as_bytes from_utf8 collections heap_space ascii_bytes file_lines
          (g 4) m q9 unlocked p9 in
      (
        ptr,
        h,
        asked,
        elim ends [
          | inl (null, q, ea, pa) ↦
              inl (null, q, run ∙ rw ea refl, Progress-Shows file_lines h m q pa)
          | inr (block, k, q, ea, pa) ↦
              let (r, eb, pb) = line file_lines last_line [] k m q pa refl enough in
              inr (block, r, run ∙ rw (ea, eb) refl, Progress-Shows demo_lines k m r pb)
        ],
      )
