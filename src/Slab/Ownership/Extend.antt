-- ===== src/Slab/Ownership/Extend.antt =====
-- New blocks behind the old ones: the invariant over a larger map, behind a bump allocation.
use the_heap.Prelude.{All-map, ℕ, ◌+◌, ◌%◌, ◌≤◌, ◌<◌, ◌≡◌, ◌≢◌, sym, ◌∙◌, inl, arith}
use mathlib.Core.Path.{subst}
use native.Mathlib.Decide.{dec_lt}
use the_heap.Bytes.Region.{fill-outside}
use the_heap.Slab.Allocator.{Heap, class_size}
use the_heap.Slab.Allocator.Classes.{class_size_lem}
use the_heap.Slab.Allocator.Nodes.{Linked-frame}
use the_heap.Slab.Ownership.{
  Status, unused, free, extent, Blocks, Inv, Statuses, FreeLists, InClass,
}
use the_heap.Slab.Ownership.Bump.{bumped}
use the_heap.Slab.Ownership.Relabel.{InClass-extent}

abbrev pub IsAligned : Status → ℕ → Type 0
IsAligned s a = (i : ℕ) → InClass s i → (i < 10) × (a % class_size i ≡ 0)

-- The block of the new map at `a`: a new one in the range, or what was there.
pub data Origin (st st' : Statuses) (start end a : ℕ) : Type 0 where
  fresh :
      start ≤ a
      → 0 < extent (st' a)
      → a + extent (st' a) ≤ end
      → IsAligned (st' a) a
      → Origin st st' start end a
  old : st' a ≡ st a → Origin st st' start end a

-- New blocks do not overlap one another.
abbrev pub FreshApart : Statuses → ℕ → Type 0
FreshApart st' start =
    (a b : ℕ) → start ≤ a → a < b → st' a ≢ unused → st' b ≢ unused → a + extent (st' a) ≤ b

module _ {st : Statuses} {lo hi : ℕ} (blocks : Blocks st lo hi) (st' : Statuses) (start end : ℕ)
    (lo_hi : lo ≤ hi) (behind : hi ≤ start) (forward : start ≤ end)
    (origin : (a : ℕ) → Origin st st' start end a) (fresh_apart : FreshApart st' start) where
  open blocks use {sized, within, apart, aligned}

  pub before : (a : ℕ) → st a ≢ unused → a < start
  before a u = let w = within a u in let z = sized a u in omega arith

  pub kept : (a : ℕ) → st a ≢ unused → st' a ≡ st a
  kept a u = elim (origin a) [
    | fresh from _ _ _ ↦ let b = before a u in absurd (omega arith)
    | old e ↦ e
  ]

  -- Below the range the map is the old one.
  low : (a : ℕ) → a < start → st' a ≡ st a
  low a lt = elim (origin a) [ fresh from _ _ _ ↦ absurd (omega arith) | old e ↦ e ]

  new_apart : (a b : ℕ) → a < b → st' a ≢ unused → st' b ≢ unused → a + extent (st' a) ≤ b
  new_apart a b lt ua ub = elim (dec_lt a start) [
    | no high ↦ fresh_apart a b (omega arith) lt ua ub
    | yes small ↦
        let ea = low a small in
        let ua' : st a ≢ unused = λ q. ua (ea ∙ q) in
        let w = within a ua' in
        elim (dec_lt b start) [
          | yes small_b ↦ rw ea (apart a b lt ua' (λ q. ub (low b small_b ∙ q)))
          | no high_b ↦ rw ea (omega arith)
        ]
  ]

  pub extend-Blocks : Blocks st' lo end
  extend-Blocks = record {
    sized =
        λ a u. elim (origin a) [ fresh _ pos _ _ ↦ pos | old e ↦ rw e (sized a (λ q. u (e ∙ q))) ];
    within = λ a u. elim (origin a) [
      | fresh from _ to _ ↦ (omega arith, to)
      | old e ↦ let w = within a (λ q. u (e ∙ q)) in rw e (omega arith)
    ];
    apart = new_apart;
    aligned = λ a i c. elim (origin a) [
      | fresh _ _ _ al ↦ al i c
      | old e ↦ aligned a i (subst (λ s. InClass s i) e c)
    ];
  }

module _ {h : Heap} {st : Statuses} {lists : FreeLists} (inv : Inv h st lists) (st' : Statuses)
    (start n : ℕ) (behind : h.bump ≤ start) (room : start + n ≤ h.heap_end)
    (origin : (a : ℕ) → Origin st st' start (start + n) a)
    (fresh_apart : FreshApart st' start) where
  open inv use {blocks, free_lists, started}

  stays : (a : ℕ) → st a ≢ unused → st' a ≡ st a
  stays = kept blocks st' start (start + n) started behind (omega arith) origin fresh_apart

  node_below : (a i : ℕ) → st a ≡ free i → (b : ℕ) → b < a + 8 → b < start
  node_below a i e b lt =
      let c = InClass-extent (st a) i (inl e) in
      let w = blocks.within a c.1 in
      let s = class_size_lem i (blocks.aligned a i (inl e)).0 in omega arith

  pub bumped-Inv : Inv (bumped h start n) st' lists
  bumped-Inv = record {
    ready = inv.ready;
    classes = inv.classes;
    start = inv.start;
    started = omega arith;
    room = room;
    top = inv.top;
    blocks =
        extend-Blocks blocks st' start (start + n) started behind (omega arith) origin fresh_apart;
    free_lists = λ i hi.
        let f = free_lists i hi in
        record {
          linked =
              Linked-frame h.memory _ _ (lists i)
                (All-map (lists i)
                  (λ a e b lo up.
                    sym (fill-outside h.memory start n 0 b (inl (node_below a i e b up))))
                  f.listed)
                f.linked;
          listed = All-map (lists i) (λ a e. stays a (λ q. cc) ∙ e) f.listed;
          distinct = f.distinct;
        };
  }
