-- ===== src/Slab/Ownership/Bounds.antt =====
-- Where blocks and list heads can stand.
use the_heap.Prelude.{ℕ, ◌+◌, ◌^◌, ◌<◌, ◌≡◌, ◌≢◌, sym, Option, List, [], ◌∷◌, arith, All}
use mathlib.Core.Path.{subst}
use the_heap.Bytes.{Memory}
use the_heap.Slab.Allocator.{Heap}
use the_heap.Slab.Allocator.Nodes.{Linked, IsLink}
use the_heap.Slab.Ownership.{unused, free, extent, Inv, IsFreeList, Statuses, FreeLists}

module _ {h : Heap} {st : Statuses} {lists : FreeLists} (inv : Inv h st lists) where
  open inv use {blocks, start, room, top}

  pub address_bounds : (a : ℕ) → st a ≢ unused → (0 < a) × (a + extent (st a) < 2 ^ 64)
  address_bounds a u = let w = blocks.within a u in omega arith

  link :
      (m : Memory) (j : ℕ) (o : Option ℕ) (xs : List ℕ)
      → Linked m o xs
      → All (λ a. st a ≡ free j) xs
      → IsLink o
  link m j o [] l f = subst IsLink (sym l) tt
  link m j o (a ∷ rest) l f =
      let b = address_bounds a (λ u. cc) in subst IsLink (sym l.0) (b.0, omega arith)

  -- The head of a free list is a pointer that a node can store.
  pub IsFreeList-IsLink :
      {m : Memory} {j : ℕ} {o : Option ℕ} {xs : List ℕ} → IsFreeList st m j o xs → IsLink o
  IsFreeList-IsLink {m} {j} {o} {xs} f = link m j o xs f.linked f.listed
