-- ===== src/Slab/Lock/System/Serial.antt =====
-- What the threads do together is a run of single calls (slaballoc/src/lib.rs).
use the_heap.Prelude.{ℕ, ◌≡◌, sym, ap, arith, inl, inr, Bool-cases, ◌==◌}
use mathlib.Core.Path.{subst}
use the_heap.Slab.Allocator.{Layout, SlabAllocator, alloc}
use the_heap.Slab.Client
use the_heap.Slab.Client.{granted, refused, returned, wrote, here, next}
use the_heap.Slab.Lock.{deref, SpinLock, try_lock}
use the_heap.Prelude.{true, some}
use the_heap.Slab.Lock.System.{
  Request, alloc_call, dealloc_call, Pc, Shared, view, Serve, after_alloc, Move, call, spin, enter,
  load, serve, leave, write, System, pick, Reach, begin, later,
}
use the_heap.Slab.Lock.System.Exclusion.{IsFresh, Reach-Inv}
use the_heap.Slab.Ownership.Grant.{IsLayout}

-- The shared state as the callers' system.
abbrev pub abstract : Shared → Client.System
abstract s = view (deref s.lock) s

alloc-Step :
    (c : Client.System) (l : Layout) → IsLayout c.heap.heap_end l → Client.Step c (after_alloc l c)
alloc-Step c l lay = elim (Bool-cases ((alloc l c.heap).0 == 0)) [
  | inl null ↦ rw null (refused c l lay (ground arith))
  | inr some_block ↦ rw some_block (granted c l lay (ground arith))
]

Serve-Step : (q : Request) (c d : Client.System) (r : ℕ) → Serve q c r d → Client.Step c d
Serve-Step (alloc_call l) c d r (lay, e, q) = subst (Client.Step c) (sym q) (alloc-Step c l lay)
Serve-Step (dealloc_call p l) c d r (before, after, h, e, q) =
    subst (Client.Step c) (sym q) (returned c before after p l h)

try_lock-deref : (l k : SpinLock SlabAllocator) → try_lock l ≡ some k → deref k ≡ deref l
try_lock-deref l k h = elim (Bool-cases l.locked) [
  | inl busy ↦ let q = rw busy at h in cc
  | inr open_lock ↦
      let q = rw open_lock at h in
      let e : record { locked = true; inner = l.inner } ≡ k = cc in ap deref (sym e)
]

Move-refines :
    {c : Client.System} {s t : Shared} {p p' : Pc}
    → IsFresh s p
    → Move s p t p'
    → Client.Reach c (abstract s)
    → Client.Reach c (abstract t)
Move-refines f call h = h
Move-refines f (spin busy) h = h
Move-refines {c} {s = s} f (enter {l = l} won) h =
    subst (λ g. Client.Reach c (view g s)) (sym (try_lock-deref s.lock l won)) h
Move-refines f load h = h
Move-refines {s = s} f (serve {q} {g} {r} {c = d} w) h =
    next h (Serve-Step q (abstract s) d r (subst (λ x. Serve q (view x s) r d) f w))
Move-refines f leave h = h
Move-refines {s = s} f (write a v (before, after, p, l, e, lo, hi)) h =
    next h (wrote (abstract s) before after p l a v e lo hi)

-- Whatever threads do from an allocator that is set up, with layouts as in `IsLayout` when
-- their turn comes, and giving back and writing only what they hold: the allocator, the memory and the held blocks are those of a run of single calls and
-- writes, one after the other.
pub Reach-refines :
    (c : Client.System) {t : System} → Reach c t → Client.Reach c (abstract t.shared)
Reach-refines c begin = here
Reach-refines c (later r (pick i mv)) = Move-refines ((Reach-Inv r).fresh i) mv (Reach-refines c r)
