-- ===== src/Slab/Client/Safe.antt =====
-- Whatever callers do, held blocks lie in the heap, aligned, and never overlap.
use the_heap.Prelude.{
  All-both, All-map, ℕ, ◌+◌, ◌^◌, ◌<◌, ◌≡◌, ◌≢◌, refl, sym, ap, ◌∙◌, ◌⊎◌, inl, inr, arith, [], ◌∷◌,
  ◌++◌, All,
}
use mathlib.Core.Path.{subst}
use the_heap.Slab.Allocator.{Layout, alloc, dealloc, chunk_size, init, new}
use the_heap.Slab.Allocator.Region.{alloc-SameRegion, dealloc-SameRegion}
use the_heap.Slab.Client.{
  System, Held, Step, granted, refused, returned, wrote, Reach, here, next, AllApart, booted,
}
use the_heap.Slab.Ownership.{unused, IsLive, Inv, Statuses, FreeLists}
use the_heap.Slab.Ownership.Grant.{Grant, alloc-Grant, held_as-extent, dealloc-Released}
use the_heap.Slab.Client.Lists.{
  Pointers, All-middle, Pointers-other, All-without, Pointers-without, OtherPointer,
}
use the_heap.Slab.Client.Holders.{Inside, Owned, poke-Inv, Owned-AllApart}
use the_heap.Slab.Client.Boot.{booted-Inv}

record Safe (lo hi : ℕ) (s : System) : Type 0 where
  st : Statuses
  lists : FreeLists
  inv : Inv s.heap st lists
  lo_eq : s.heap.heap_start ≡ lo
  hi_eq : s.heap.heap_end ≡ hi
  owned : All (Owned st) s.held
  pointers : Pointers s.held

booted-Safe :
    (lo size : ℕ) (m : ℕ → ℕ)
    → 0 < lo
    → lo + size + chunk_size < 2 ^ 64
    → Safe lo (lo + size) (booted lo size m)
unfolding init new
booted-Safe lo size m pos top = record {
  st = λ _. unused;
  lists = λ _. [];
  inv = booted-Inv lo size m pos top;
  lo_eq = refl;
  hi_eq = omega arith;
  owned = tt;
  pointers = tt;
}

granted-Safe :
    {lo hi : ℕ} (s : System) (l : Layout)
    → (safe : Safe lo hi s) → (alloc l s.heap ≡ (0, s.heap)) ⊎ Grant safe.st l (alloc l s.heap)
    → (alloc l s.heap).0 ≢ 0
    → 0 < l.size
    → Safe lo hi (record { heap = (alloc l s.heap).1; held = ((alloc l s.heap).0, l) ∷ s.held })
granted-Safe s l safe (inl e) ne sized = absurd (ne (ap (λ r. r.0) e))
granted-Safe s l safe (inr g) ne sized =
    let same = alloc-SameRegion l s.heap in
    record {
      st = g.st';
      lists = g.lists';
      inv = g.inv;
      lo_eq = same.0 ∙ safe.lo_eq;
      hi_eq = same.1 ∙ safe.hi_eq;
      owned = (
        (g.taken, g.nonzero, g.aligned, sized),
        All-map s.held
            (λ b o. (g.kept b.0 (held_as-extent b.1 (safe.st b.0) o.0).1 ∙ o.0, o.1, o.2, o.3))
            safe.owned,
      );
      pointers = (
        All-map s.held
            (λ b o e.
              g.unheld
                (subst (λ q. IsLive (safe.st q)) (sym e) (held_as-extent b.1 (safe.st b.0) o.0).1))
            safe.owned,
        safe.pointers,
      );
    }

refused-Safe :
    {lo hi : ℕ} (s : System) (l : Layout)
    → (safe : Safe lo hi s) → (alloc l s.heap ≡ (0, s.heap)) ⊎ Grant safe.st l (alloc l s.heap)
    → (alloc l s.heap).0 ≡ 0
    → Safe lo hi (record s { heap = (alloc l s.heap).1 })
refused-Safe {lo} {hi} s l safe (inl e) z =
    subst (λ h. Safe lo hi (record s { heap = h })) (sym (ap (λ r. r.1) e)) safe
refused-Safe s l safe (inr g) z = let n = g.nonzero in absurd (omega arith)

returned-Safe :
    {lo hi : ℕ} (s : System) (before after : Held) (p : ℕ) (l : Layout)
    → (safe : Safe lo hi s) → All (Owned safe.st) (before ++ (p, l) ∷ after)
    → Pointers (before ++ (p, l) ∷ after)
    → Safe lo hi (record { heap = dealloc p l s.heap; held = before ++ after })
returned-Safe s before after p l safe owned pointers =
    let o = All-middle (Owned safe.st) before (p, l) after owned in
    let r = dealloc-Released safe.inv p l o.1 o.0 in
    let same = dealloc-SameRegion p l s.heap in
    record {
      st = r.st';
      lists = r.lists';
      inv = r.inv;
      lo_eq = same.0 ∙ safe.lo_eq;
      hi_eq = same.1 ∙ safe.hi_eq;
      owned =
          All-map (before ++ after) (λ b q. (r.others b.0 q.0 ∙ q.1.0, q.1.1, q.1.2, q.1.3))
            (All-both (OtherPointer (p, l)) (Owned safe.st) (before ++ after)
              (Pointers-other before (p, l) after pointers)
              (All-without (Owned safe.st) before (p, l) after owned));
      pointers = Pointers-without before (p, l) after pointers;
    }

Step-Safe : {lo hi : ℕ} {s t : System} → Step s t → Safe lo hi s → Safe lo hi t
Step-Safe (granted s l lay ne) safe =
    granted-Safe s l safe (alloc-Grant safe.inv l lay) ne lay.sized
Step-Safe (refused s l lay e) safe = refused-Safe s l safe (alloc-Grant safe.inv l lay) e
Step-Safe (returned s before after p l e) safe =
    returned-Safe s before after p l safe (subst (All (Owned safe.st)) e safe.owned)
      (subst Pointers e safe.pointers)
Step-Safe (wrote s before after p l a v e lo hi) safe =
    let o =
      All-middle (Owned safe.st) before (p, l) after (subst (All (Owned safe.st)) e safe.owned) in
    record {
      st = safe.st;
      lists = safe.lists;
      inv = poke-Inv safe.inv p l.size a v (held_as-extent l (safe.st p) o.0) lo hi;
      lo_eq = safe.lo_eq;
      hi_eq = safe.hi_eq;
      owned = safe.owned;
      pointers = safe.pointers;
    }

Reach-Safe : {lo hi : ℕ} {s t : System} → Safe lo hi s → Reach s t → Safe lo hi t
Reach-Safe safe here = safe
Reach-Safe safe (next r step) = Step-Safe step (Reach-Safe safe r)

Owned-Inside :
    {lo hi : ℕ} {s : System} (safe : Safe lo hi s) (b : ℕ × Layout)
    → Owned safe.st b
    → Inside lo hi b
Owned-Inside safe b o =
    let live = held_as-extent b.1 (safe.st b.0) o.0 in
    let w = safe.inv.blocks.within b.0 (λ u. subst IsLive u live.1) in
    let room = safe.inv.room in
    let a = safe.lo_eq in let z = safe.hi_eq in (omega arith, omega arith, o.2)

Safe-Inside : {lo hi : ℕ} {s : System} → Safe lo hi s → All (Inside lo hi) s.held × AllApart s.held
Safe-Inside {s = s} safe = (
  All-map s.held (Owned-Inside safe) safe.owned,
  Owned-AllApart safe.inv.blocks s.held safe.owned safe.pointers,
)

-- On a heap of `size` bytes from `lo` on, that does not begin at the null pointer and ends more
-- than a page below the top of the address space: after any number of calls and writes by callers
-- that give back and write only what they hold, and ask only for layouts as in `IsLayout` (the
-- size is not zero, and the alignment is a power of two so small that the heap's end rounds up to
-- it without a wrap, which the contract of `GlobalAlloc` alone does not promise): every held block
-- lies in the heap and is aligned as asked, and no two held blocks share a byte.
pub Reach-Inside :
    (lo size : ℕ) (m : ℕ → ℕ) {t : System}
    → 0 < lo
    → lo + size + chunk_size < 2 ^ 64
    → Reach (booted lo size m) t
    → All (Inside lo (lo + size)) t.held × AllApart t.held
Reach-Inside lo size m pos top r = Safe-Inside (Reach-Safe (booted-Safe lo size m pos top) r)
