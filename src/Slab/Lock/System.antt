-- ===== src/Slab/Lock/System.antt =====
-- Threads that call the global allocator of slaballoc/src/lib.rs, interleaved in any order. A
-- thread spins for the flag, and between the guard's `lock` and `drop` it reads the allocator's
-- fields into its own registers before it acts on them: without the lock two threads could act on
-- the same fields.
pub mod Exclusion
pub mod Serial
use the_heap.Prelude.{
  ℕ, ◌+◌, ◌≤◌, ◌<◌, ◌≡◌, true, false, none, some, List, ◌∷◌, ◌++◌, ◌==◌, if◌then◌else◌, Bool,
}
use the_heap.Bytes.{Memory}
use the_heap.Slab.Allocator.{Layout, SlabAllocator, alloc, dealloc}
use the_heap.Slab.Client
use the_heap.Slab.Client.{Held, poke}
use the_heap.Slab.Lock.{SpinLock, unlocked, try_lock, deref, deref_mut, release, guarded}
use the_heap.Slab.Ownership.Grant.{IsLayout}
use the_heap.Slab.Ownership.Update.{update}

pub data Request : Type 0 where
  alloc_call : Layout → Request
  dealloc_call : ℕ → Layout → Request

-- Where a thread stands, with what it holds in registers there.
pub data Pc : Type 0 where
  idle : Pc
  spinning : Request → Pc
  entered : Request → Pc
  loaded : Request → SlabAllocator → Pc
  leaving : ℕ → Pc

-- What the threads share, and who holds which block.
pub record Shared : Type 0 where
  pub lock : SpinLock SlabAllocator
  pub memory : Memory
  pub held : Held

-- The client's view: the allocator, the memory and what is held.
abbrev pub view : SlabAllocator → Shared → Client.System
view g s = record { heap = guarded g s.memory; held = s.held }

abbrev pub put_back : Client.System → Shared → Shared
put_back c s = record { lock = deref_mut c.heap.slab s.lock; memory = c.heap.memory; held = c.held }

abbrev pub after_alloc : Layout → Client.System → Client.System
after_alloc l c =
    let r = alloc l c.heap in
    record { heap = r.1; held = if r.0 == 0 then c.held else (r.0, l) ∷ c.held }

-- The call's work, for a caller that keeps the contract when its turn comes: a valid layout, a
-- block that is held. `r` is the pointer returned, 0 for `dealloc`.
abbrev pub Serve : Request → Client.System → ℕ → Client.System → Type 0
Serve (alloc_call l) c r d =
    IsLayout c.heap.heap_end l × (r ≡ (alloc l c.heap).0) × (d ≡ after_alloc l c)
Serve (dealloc_call p l) c r d =
    (before : Held) × (after : Held) × (c.held ≡ before ++ (p, l) ∷ after)
    × (r ≡ 0)
    × (d ≡ record { heap = dealloc p l c.heap; held = before ++ after })

-- The byte lies in a block that is held.
abbrev pub Writable : Held → ℕ → Type 0
Writable held a =
    (before : Held) × (after : Held) × (p : ℕ) × (l : Layout) × (held ≡ before ++ (p, l) ∷ after)
    × (p ≤ a)
    × (a < p + l.size)

-- One step of one thread.
pub data Move (s : Shared) : Pc → Shared → Pc → Type 0 where
  call : {q : Request} → Move s idle s (spinning q)
  spin : {q : Request} → try_lock s.lock ≡ none → Move s (spinning q) s (spinning q)
  enter :
      {q : Request} {l : SpinLock SlabAllocator}
      → try_lock s.lock ≡ some l
      → Move s (spinning q) (record s { lock = l }) (entered q)
  load : {q : Request} → Move s (entered q) s (loaded q (deref s.lock))
  serve :
      {q : Request} {g : SlabAllocator} {r : ℕ} {c : Client.System}
      → Serve q (view g s) r c
      → Move s (loaded q g) (put_back c s) (leaving r)
  leave : {r : ℕ} → Move s (leaving r) (record s { lock = release s.lock }) idle
  write :
      (a v : ℕ)
      → Writable s.held a
      → Move s idle (record s { memory = (poke (guarded (deref s.lock) s.memory) a v).memory }) idle

pub record System : Type 0 where
  pub shared : Shared
  pub pc : ℕ → Pc

pub data Step (s : System) : System → Type 0 where
  pick :
      (i : ℕ) {t : Shared} {p : Pc}
      → Move s.shared (s.pc i) t p
      → Step s (record { shared = t; pc = update s.pc i p })

-- Every thread idle, on an allocator that is set up.
abbrev pub start : Client.System → System
start c = record {
  shared = record { lock = unlocked c.heap.slab; memory = c.heap.memory; held = c.held };
  pc = λ _. idle;
}

pub data Reach (c : Client.System) : System → Type 0 where
  begin : Reach c (start c)
  later : {s t : System} → Reach c s → Step s t → Reach c t
