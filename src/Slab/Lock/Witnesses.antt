-- ===== src/Slab/Lock/Witnesses.antt =====
-- The properties of the locked allocator at a schedule of two threads.
use the_heap.Prelude.{ℕ, ◌≡◌, refl, arith, true}
use the_heap.Slab.Allocator.{Layout, alloc, init}
use the_heap.Slab.Client
use the_heap.Slab.Client.{booted}
use the_heap.Slab.Lock.System
use the_heap.Slab.Lock.System.{
  Request, alloc_call, call, enter, load, serve, leave, spin, pick, Reach, begin, later, view,
  after_alloc,
}
use the_heap.Slab.Lock.System.Exclusion.{critical, mutual_exclusion}
use the_heap.Slab.Lock.System.Serial.{abstract, Reach-refines}
use the_heap.Slab.Ownership.Grant.{IsLayout}

abbrev first : Client.System
first = booted 0x10000 0x8000 (λ _. 0xAA)

abbrev block : Layout
block = record { size = 64; align = 8 }

block-IsLayout : IsLayout first.heap.heap_end block
unfolding init
block-IsLayout = record {
  shift = 3;
  align_eq = refl;
  small = omega arith;
  sized = omega arith;
  fits = omega arith;
}

abbrev request : Request
request = alloc_call block

-- Thread 0 has the lock, and thread 1 spins for it.
contended : (t : System.System) × Reach first t
contended = (
  _,
  later
      (later (later (later begin (pick 0 (call {q = request}))) (pick 1 (call {q = request})))
        (pick 0 (enter {q = request} refl)))
      (pick 1 (spin {q = request} refl)),
)

mutual_exclusion_example :
    (contended.0.shared.lock.locked ≡ true)
    × ((j : ℕ) → critical (contended.0.pc j) ≡ true → ◌≡◌ {A = ℕ} 0 j)
unfolding contended
mutual_exclusion_example = mutual_exclusion contended.1 0 refl

-- Thread 0 is served and leaves; thread 1 has the lock now.
served : (t : System.System) × Reach first t
unfolding contended
served = (
  _,
  later
      (later
        (later (later contended.1 (pick 0 (load {q = request}))) (
          pick 0 (
            serve {q = request} {r = (alloc block first.heap).0} {c = after_alloc block first}
              (block-IsLayout, refl, refl))))
        (pick 0 leave))
      (pick 1 (enter {q = request} refl)),
)

Reach-refines_example : Client.Reach first (abstract served.0.shared)
Reach-refines_example = Reach-refines first served.1
