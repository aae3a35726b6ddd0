-- ===== src/Slab/Client/Holders.antt =====
-- What callers of `GlobalAlloc` hold, against the ownership of blocks.
use the_heap.Prelude.{
  All-both, All-map, ℕ, ◌+◌, ◌%◌, ◌≤◌, ◌<◌, ◌≡◌, ◌≢◌, ap, ◌∙◌, inl, inr, arith, [], ◌∷◌, All, none,
  get_or,
}
use mathlib.Core.Path.{subst}
use native.Mathlib.Decide.{dec_lt}
use the_heap.Slab.Allocator.{Heap, Layout}
use the_heap.Slab.Client.{Held, Apart, AllApart, poke}
use the_heap.Slab.Ownership.{unused, IsLive, extent, Blocks, Inv, Statuses, FreeLists, free}
use the_heap.Slab.Ownership.Grant.{held_as, held_as-extent}
use the_heap.Slab.Client.Lists.{Pointers, OtherPointer}
use the_heap.Slab.Allocator.Nodes.{Linked-frame}
use the_heap.Slab.Ownership.Relabel.{InClass-extent}
use the_heap.Slab.Allocator.Classes.{class_size_lem}

-- What the invariant says of a held block.
abbrev pub Owned : Statuses → ℕ × Layout → Type 0
Owned st (p, l) = (st p ≡ held_as l) × (0 < p) × (p % l.align ≡ 0) × (0 < l.size)

-- A block as its holder sees it.
abbrev pub Inside : ℕ → ℕ → ℕ × Layout → Type 0
Inside lo hi (p, l) = (lo ≤ p) × (p + l.size ≤ hi) × (p % l.align ≡ 0)

-- A byte inside a held block is no byte of a free node.
node_apart :
    {lo hi : ℕ} {st : Statuses} (blocks : Blocks st lo hi) (p n q j : ℕ)
    → (n ≤ extent (st p)) × IsLive (st p)
    → st q ≡ free j
    → (a b : ℕ) → p ≤ a
    → a < p + n
    → q ≤ b
    → b < q + 8
    → a ≢ b
node_apart {st = st} blocks p n q j live e a b pa an qb b8 =
    let up : st p ≢ unused = λ u. subst IsLive u live.1 in
    let c = InClass-extent (st q) j (inl e) in
    let room = class_size_lem j (blocks.aligned q j (inl e)).0 in
    let ne : p ≢ q = λ x. subst IsLive (ap st x ∙ e) live.1 in
    elim (dec_lt p q) [
      | yes lt ↦ let d = blocks.apart p q lt up c.1 in omega arith
      | no ge ↦ let d = blocks.apart q p (omega arith) c.1 up in omega arith
    ]

-- A caller's write leaves the free lists alone.
pub poke-Inv :
    {h : Heap} {st : Statuses} {lists : FreeLists} (inv : Inv h st lists) (p n a v : ℕ)
    → (n ≤ extent (st p)) × IsLive (st p)
    → p ≤ a
    → a < p + n
    → Inv (poke h a v) st lists
poke-Inv {h} {st} {lists} inv p n a v live pa an = record {
  ready = inv.ready;
  classes = inv.classes;
  start = inv.start;
  started = inv.started;
  room = inv.room;
  top = inv.top;
  blocks = inv.blocks;
  free_lists = λ i lt.
      let f = inv.free_lists i lt in
      record {
        linked =
            Linked-frame h.memory (poke h a v).memory (get_or h.caches i none) (lists i)
              (All-map (lists i)
                (λ q e b qb b8.
                  let ne = node_apart inv.blocks p n q i live e a b pa an qb b8 in ground arith)
                f.listed)
              f.linked;
        listed = f.listed;
        distinct = f.distinct;
      };
}

Owned-Apart :
    {lo hi : ℕ} {st : Statuses} (blocks : Blocks st lo hi) (b c : ℕ × Layout)
    → OtherPointer b c
    → Owned st b
    → Owned st c
    → Apart b c
Owned-Apart {st = st} blocks b c ne ob oc =
    let lb = held_as-extent b.1 (st b.0) ob.0 in
    let lc = held_as-extent c.1 (st c.0) oc.0 in
    let ub : st b.0 ≢ unused = λ u. subst IsLive u lb.1 in
    let uc : st c.0 ≢ unused = λ u. subst IsLive u lc.1 in
    elim (dec_lt b.0 c.0) [
      | yes lt ↦ let d = blocks.apart b.0 c.0 lt ub uc in inl (omega arith)
      | no ge ↦ let d = blocks.apart c.0 b.0 (omega arith) uc ub in inr (omega arith)
    ]

pub Owned-AllApart :
    {lo hi : ℕ} {st : Statuses} (blocks : Blocks st lo hi) (bs : Held)
    → All (Owned st) bs
    → Pointers bs
    → AllApart bs
Owned-AllApart blocks [] o ps = tt
Owned-AllApart {st = st} blocks (b ∷ bs) o ps = (
  All-map bs (λ c q. Owned-Apart blocks b c q.0 o.0 q.1)
      (All-both (OtherPointer b) (Owned st) bs ps.0 o.1),
  Owned-AllApart blocks bs o.1 ps.1,
)
