-- ===== src/Slab/Client.antt =====
-- The callers of the allocator (`GlobalAlloc` of slaballoc/src/lib.rs, one call at a time, as the
-- lock makes it): what they hold, and what they may do. A caller asks with a valid layout, gives
-- back what it holds with the same layout, and writes into what it holds: the contract of
-- `GlobalAlloc` and of the `Safety` comments.
pub mod Lists
pub mod Boot
pub mod Holders
pub mod Safe
use the_heap.Prelude.{
  ℕ, ◌+◌, ◌≤◌, ◌<◌, ◌≡◌, ◌≢◌, ◌⊎◌, List, [], ◌∷◌, ◌++◌, All, ◌==◌, if◌then◌else◌,
}
use the_heap.Bytes.{Memory}
use the_heap.Slab.Allocator.{Heap, Layout, init, new, alloc, dealloc}
use the_heap.Slab.Ownership.Grant.{IsLayout}

-- A pointer and the layout that it was asked for by.
abbrev pub Held : Type 0
Held = List (ℕ × Layout)

pub record System : Type 0 where
  pub heap : Heap
  pub held : Held

-- A caller stores one byte.
abbrev pub poke : Heap → ℕ → ℕ → Heap
poke h a v = record h { memory = λ b. if a == b then v else h.memory b }

-- The heap behind `init` on `[start, start + size)`, over any bytes.
abbrev pub booted : ℕ → ℕ → Memory → System
booted start size m = record { heap = record { slab = init start size new; memory = m }; held = [] }

pub data Step : System → System → Type 0 where
  granted :
      (s : System) (l : Layout)
      → IsLayout s.heap.heap_end l
      → (alloc l s.heap).0 ≢ 0
      → Step s (record { heap = (alloc l s.heap).1; held = ((alloc l s.heap).0, l) ∷ s.held })
  refused :
      (s : System) (l : Layout)
      → IsLayout s.heap.heap_end l
      → (alloc l s.heap).0 ≡ 0
      → Step s (record s { heap = (alloc l s.heap).1 })
  returned :
      (s : System) (before after : Held) (p : ℕ) (l : Layout)
      → s.held ≡ before ++ (p, l) ∷ after
      → Step s (record { heap = dealloc p l s.heap; held = before ++ after })
  wrote :
      (s : System) (before after : Held) (p : ℕ) (l : Layout) (a v : ℕ)
      → s.held ≡ before ++ (p, l) ∷ after
      → p ≤ a
      → a < p + l.size
      → Step s (record s { heap = poke s.heap a v })

pub data Reach (s : System) : System → Type 0 where
  here : Reach s s
  next : {t u : System} → Reach s t → Step t u → Reach s u

-- Two held blocks share no byte.
abbrev pub Apart : ℕ × Layout → ℕ × Layout → Type 0
Apart (p, l) (q, m) = (p + l.size ≤ q) ⊎ (q + m.size ≤ p)

abbrev pub AllApart : Held → Type 0
AllApart [] = Unit
AllApart (b ∷ bs) = All (Apart b) bs × AllApart bs
