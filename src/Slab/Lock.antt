-- ===== src/Slab/Lock.antt =====
-- The spin lock and `LockedAlloc` of slaballoc/src/lib.rs. The flag and the value that it protects
-- are a record; a compare-exchange, a dereference and the guard's `drop` are functions on it. The
-- child System interleaves threads that use them.
pub mod System
mod Witnesses
use the_heap.Prelude.{ℕ, Bool, true, false, Option, none, some, if◌then◌else◌}
use the_heap.Bytes.{Memory}
use the_heap.Slab.Allocator
use the_heap.Slab.Allocator.{Layout, SlabAllocator, Heap}

pub record SpinLock {ℓ} (T : Type ℓ) : Type ℓ where
  pub locked : Bool
  pub inner : T

module _ {ℓ} {T : Type ℓ} where
  -- `SpinLock::new`.
  abbrev pub unlocked : T → SpinLock T
  unlocked value = record { locked = false; inner = value }

  -- One round of `lock`: the compare-exchange of `false` by `true`.
  abbrev pub try_lock : SpinLock T → Option (SpinLock T)
  try_lock l = if l.locked then none else some (record l { locked = true })

  -- `*guard`, and `*guard = value`.
  abbrev pub deref : SpinLock T → T
  deref l = l.inner

  abbrev pub deref_mut : T → SpinLock T → SpinLock T
  deref_mut value l = record l { inner = value }

  -- The guard's `drop`.
  abbrev pub release : SpinLock T → SpinLock T
  release l = record l { locked = false }

-- `LockedAlloc`, with the memory that all threads share.
pub record LockedAlloc : Type 0 where
  pub lock : SpinLock SlabAllocator
  pub memory : Memory

abbrev pub new : Memory → LockedAlloc
new m = record { lock = unlocked Allocator.new; memory = m }

-- The allocator behind the guard, and the state with what it became.
abbrev pub guarded : SlabAllocator → Memory → Heap
guarded g m = record { slab = g; memory = m }

abbrev pub store : Heap → LockedAlloc → LockedAlloc
store h s = record { lock = deref_mut h.slab s.lock; memory = h.memory }

-- A call that has the lock to itself: `none` where it would spin for ever.
abbrev pub locking :
    {A : Type 0} → (LockedAlloc → A × LockedAlloc) → LockedAlloc → Option (A × LockedAlloc)
locking body s = elim (try_lock s.lock) [
  | none ↦ none
  | some l ↦
      let r = body (record s { lock = l }) in some (r.0, record (r.1) { lock = release r.1.lock })
]

unfoldable pub init : ℕ → ℕ → LockedAlloc → Option (Unit {0} × LockedAlloc)
unfolding Allocator.init
init heap_start heap_size =
    locking
      (λ s. (tt, store (guarded (Allocator.init heap_start heap_size (deref s.lock)) s.memory) s))

unfoldable pub alloc : Layout → LockedAlloc → Option (ℕ × LockedAlloc)
unfolding Allocator.alloc
alloc layout =
    locking
      (λ s. let r = Allocator.alloc layout (guarded (deref s.lock) s.memory) in (r.0, store r.1 s))

unfoldable pub dealloc : ℕ → Layout → LockedAlloc → Option (Unit {0} × LockedAlloc)
unfolding Allocator.dealloc
dealloc ptr layout =
    locking (λ s. (tt, store (Allocator.dealloc ptr layout (guarded (deref s.lock) s.memory)) s))
