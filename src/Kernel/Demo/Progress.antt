-- ===== src/Kernel/Demo/Progress.antt =====
-- The steps of the demonstration of kernel/src/main.rs, and what each adds to the lines shown.
use the_heap.Prelude.{
  ==_iff, ℕ, ◌+◌, ◌<◌, ◌≤◌, ◌≡◌, refl, sym, ap, ◌∙◌, arith, ◌⊎◌, inl, inr, true, false, Option,
  some, List, [], ◌∷◌, ◌++◌, ◌==◌, length, All, Bool-cases, if◌then◌else◌, length-append, ◌≢◌,
}
use mathlib.Core.Path.{subst}
use mathlib.Core.List.{append-nil, append_assoc}
use the_heap.Fat32.Text.{Text}
use the_heap.Kernel.Demo.{
  Machine, Act, assert, and_then, ◌>>◌, Ends, returned, panicked, call, show, stretch,
  try_allocator, layout,
}
use the_heap.Kernel.Demo.Rows.{draw, draw-append}
use the_heap.Kernel.Line.{vga_write_line}
use the_heap.Kernel.Serial.{
  serial_init, serial_write_str, serial_write_str-Sent, Sent, Sent-append, count_ready,
}
use the_heap.Slab.Allocator
use the_heap.Slab.Lock
use the_heap.Slab.Lock.{LockedAlloc, locking, release, store, guarded, deref}

-- The lines as they go to the port.
abbrev pub with_newlines : List Text → List ℕ
with_newlines [] = []
with_newlines (t ∷ ts) = (t ++ b'\n' ∷ []) ++ with_newlines ts

with_newlines-append :
    (ts : List Text) (t : Text)
    → with_newlines (ts ++ t ∷ []) ≡ with_newlines ts ++ (t ++ b'\n' ∷ [])
with_newlines-append [] t = append-nil (t ++ b'\n' ∷ [])
with_newlines-append (u ∷ ts) t =
    ap (λ l. (u ++ b'\n' ∷ []) ++ l) (with_newlines-append ts t)
    ∙ sym (append_assoc (u ++ b'\n' ∷ []) (with_newlines ts) (t ++ b'\n' ∷ []))

length-with_newlines :
    (lines : List Text) (s : Text) (rest : List Text)
    → length (with_newlines lines) + (length s + 1) ≤ length (with_newlines (lines ++ s ∷ rest))
length-with_newlines [] s rest =
    omega
      (arith, length-append (s ++ b'\n' ∷ []) (with_newlines rest), length-append s (b'\n' ∷ []))
length-with_newlines (t ∷ lines) s rest = omega (
  arith,
  length-append (t ++ b'\n' ∷ []) (with_newlines lines),
  length-append (t ++ b'\n' ∷ []) (with_newlines (lines ++ s ∷ rest)),
  length-with_newlines lines s rest,
)

abbrev pub IsAscii : Text → Type 0
IsAscii t = All (λ c. c < 128) t

-- The lines went to the port that was set up, and to the rows of the screen from the first one on,
-- and the allocator has come to `g`.
pub record Progress (lines : List Text) (g : LockedAlloc) (m q : Machine) : Type 0 where
  pub sent : Sent (with_newlines lines) (serial_init m.ports) q.ports
  pub drawn : q.screen ≡ draw 0 lines m.screen
  pub global : q.global_alloc ≡ g

-- A call of the allocator while nobody has the lock.
locking-free :
    {A : Type 0} (body : LockedAlloc → A × LockedAlloc) (g : LockedAlloc)
    → g.lock.locked ≡ false
    → (a : A) × (h : LockedAlloc) × (locking body g ≡ some (a, h)) × (h.lock.locked ≡ false)
locking-free body g free =
    let r = body (record g { lock = record (g.lock) { locked = true } }) in
    (r.0, record (r.1) { lock = release r.1.lock }, rw free refl, refl)

pub init-Progress :
    (m : Machine) (g : LockedAlloc)
    → Progress [] g m (record m { ports = serial_init m.ports; global_alloc = g })
init-Progress m g = record {
  sent = record { sent = sym (append-nil (serial_init m.ports).sent); used = omega arith };
  drawn = refl;
  global = refl;
}

alloc-free :
    (g : LockedAlloc)
    → g.lock.locked ≡ false
    → (p : ℕ) × (h : LockedAlloc) × (Lock.alloc layout g ≡ some (p, h)) × (h.lock.locked ≡ false)
unfolding Lock.alloc
alloc-free g free =
    locking-free
      (λ s. let r = Allocator.alloc layout (guarded (deref s.lock) s.memory) in (r.0, store r.1 s))
      g free

dealloc-free :
    (p : ℕ) (g : LockedAlloc)
    → g.lock.locked ≡ false
    → (h : LockedAlloc) × (Lock.dealloc p layout g ≡ some (tt, h)) × (h.lock.locked ≡ false)
unfolding Lock.dealloc
dealloc-free p g free =
    let (_, h, e, released) =
      locking-free
        (λ s. (tt, store (Allocator.dealloc p layout (guarded (deref s.lock) s.memory)) s)) g
        free in
    (h, e, released)

call-returned :
    {A : Type 0} (f : LockedAlloc → Option (A × LockedAlloc)) (m : Machine) (a : A)
    (g : LockedAlloc)
    → f m.global_alloc ≡ some (a, g)
    → call f m ≡ returned a (record m { global_alloc = g })
call-returned f m a g e = rw (e, call) refl

-- `assert!(!p.is_null())`.
abbrev tested : ℕ → Act (Unit {0})
tested p = assert (if p == 0 then false else true)

tested-null : (p : ℕ) (m : Machine) → (p == 0) ≡ true → tested p m ≡ panicked m
tested-null p m null = rw null refl

tested-block : (p : ℕ) (m : Machine) → (p == 0) ≡ false → tested p m ≡ returned tt m
tested-block p m block = rw block refl

module _ (as_bytes : Text → List ℕ) (from_utf8 : List ℕ → Option Text)
    (collections : ℕ → LockedAlloc → Option LockedAlloc) (heap_space : ℕ)
    (ascii_bytes : (t : Text) → IsAscii t → as_bytes t ≡ t) where
  abbrev show_line : ℕ → Text → Machine → Ends (Unit {0})
  show_line = show as_bytes from_utf8 collections heap_space

  pub show-Progress :
      (lines : List Text) (s : Text) (g : LockedAlloc) (m q : Machine)
      → Progress lines g m q
      → IsAscii s
      → length s + 1 ≤ count_ready q.ports.status
      → (r : Machine) × (show_line (length lines) s q ≡ returned tt r)
        × Progress (lines ++ s ∷ []) g m r
  unfolding show
  show-Progress lines s g m q p is_ascii ready =
      let (ports, e, sent) = serial_write_str-Sent s q.ports ready in
      let bytes = ascii_bytes s is_ascii in
      (
        record q { ports = ports; screen = vga_write_line (length lines) s q.screen },
        subst
            (λ t.
              serial_write_str t q.ports ≡ some ports
              → show_line (length lines) s q
                ≡ returned tt
                    (record q { ports = ports; screen = vga_write_line (length lines) t q.screen }))
            bytes (λ h. rw (h, show) refl) e,
        record {
          sent =
              subst (λ l. Sent l (serial_init m.ports) ports) (sym (with_newlines-append lines s))
                (Sent-append (with_newlines lines) (s ++ b'\n' ∷ []) (serial_init m.ports) q.ports
                  ports p.sent sent);
          drawn =
              ap (vga_write_line (length lines) s) p.drawn
              ∙ ap (λ i. vga_write_line i s (draw 0 lines m.screen)) (omega arith)
              ∙ sym (draw-append 0 lines s m.screen);
          global = p.global;
        },
      )

  pub stretch-Progress :
      (i : ℕ) (lines : List Text) (g h : LockedAlloc) (m q : Machine)
      → collections i g ≡ some h
      → Progress lines g m q
      → (r : Machine) × (stretch as_bytes from_utf8 collections heap_space i q ≡ returned tt r)
        × Progress lines h m r
  stretch-Progress i lines g h m q served p =
      let e : collections i q.global_alloc ≡ some h = ap (collections i) p.global ∙ served in
      (
        record q { global_alloc = h },
        rw (e, stretch) refl,
        record { sent = p.sent; drawn = p.drawn; global = refl },
      )

  pub try_allocator-Progress :
      (lines : List Text) (g : LockedAlloc) (m q : Machine)
      → g.lock.locked ≡ false
      → Progress lines g m q
      → (ptr : ℕ) × (h : LockedAlloc) × (Lock.alloc layout g ≡ some (ptr, h))
        × (((ptr ≡ 0)
              × (r : Machine) × (try_allocator as_bytes from_utf8 collections heap_space q
                  ≡ panicked r)
              × Progress lines h m r)
            ⊎ ((ptr ≢ 0)
                × (k : LockedAlloc) × (r : Machine) × (try_allocator as_bytes from_utf8 collections
                      heap_space q
                    ≡ returned tt r)
                × Progress lines k m r))
  unfolding try_allocator
  try_allocator-Progress lines g m q unlocked p =
      let (ptr, h, e, free) = alloc-free g unlocked in
      let (k, f, free') = dealloc-free ptr h free in
      let m1 = record q { global_alloc = h } in
      let asked : Lock.alloc layout q.global_alloc ≡ some (ptr, h) =
        ap (Lock.alloc layout) p.global ∙ e in
      let first =
        ap (λ r. and_then r (λ a. tested a >> call (Lock.dealloc a layout)))
          (call-returned (Lock.alloc layout) q ptr h asked) in
      (
        ptr,
        h,
        e,
        elim (Bool-cases (ptr == 0)) [
          | inl null ↦ inl (
            (==_iff ptr 0).0 null,
            m1,
            first
                ∙ ap (λ r. and_then r (λ _. call (Lock.dealloc ptr layout)))
                    (tested-null ptr m1 null),
            record { sent = p.sent; drawn = p.drawn; global = refl },
          )
          | inr block ↦ inr (
            ground arith,
            k,
            record q { global_alloc = k },
            first
                ∙ ap (λ r. and_then r (λ _. call (Lock.dealloc ptr layout)))
                    (tested-block ptr m1 block)
                ∙ call-returned (Lock.dealloc ptr layout) m1 tt k f,
            record { sent = p.sent; drawn = p.drawn; global = refl },
          )
        ],
      )

-- There are ready values for one more line.
pub room :
    (lines : List Text) (s : Text) (rest : List Text) (g : LockedAlloc) (m q : Machine)
    → Progress lines g m q
    → length (with_newlines (lines ++ s ∷ rest)) ≤ count_ready m.ports.status
    → length s + 1 ≤ count_ready q.ports.status
unfolding serial_init
room lines s rest g m q p enough =
    let used : count_ready q.ports.status + length (with_newlines lines)
        ≡ count_ready m.ports.status =
      p.sent.used in
    omega (arith, used, enough, length-with_newlines lines s rest)
