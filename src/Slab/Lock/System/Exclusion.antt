-- ===== src/Slab/Lock/System/Exclusion.antt =====
-- At most one thread is between `lock` and `drop`, and what the threads do together is a run of
-- single calls (slaballoc/src/lib.rs).
use the_heap.Prelude.{ℕ, ◌≡◌, refl, arith, true, false, Bool}
use the_heap.Slab.Client
use the_heap.Slab.Client.{granted, refused, returned, wrote, here, next, booted, AllApart}
use the_heap.Slab.Lock.{deref}
use the_heap.Slab.Lock.System.{
  Pc, idle, spinning, entered, loaded, leaving, Shared, Move, call, spin, enter, load, serve, leave,
  write, System, Step, pick, Reach, begin, later,
}
use the_heap.Slab.Ownership.Update.{update}

-- Between the return of `lock` and the guard's `drop`.
abbrev pub critical : Pc → Bool
critical idle = false
critical (spinning q) = false
critical (entered q) = true
critical (loaded q g) = true
critical (leaving r) = true

-- What the registers of a thread say of the shared fields.
abbrev pub IsFresh : Shared → Pc → Type 0
IsFresh s idle = Unit
IsFresh s (spinning q) = Unit
IsFresh s (entered q) = Unit
IsFresh s (loaded q g) = g ≡ deref s.lock
IsFresh s (leaving r) = Unit

pub record Inv (s : Shared) (pc : ℕ → Pc) : Type 0 where
  pub taken : (i : ℕ) → critical (pc i) ≡ true → s.lock.locked ≡ true
  pub unique : (i j : ℕ) → critical (pc i) ≡ true → critical (pc j) ≡ true → i ≡ j
  pub fresh : (i : ℕ) → IsFresh s (pc i)

Move-Inv :
    {s t : Shared} {p : Pc} (pc : ℕ → Pc) (i : ℕ) {p' : Pc}
    → Inv s pc
    → pc i ≡ p
    → Move s p t p'
    → Inv t (update pc i p')
Move-Inv pc i inv e call = record {
  taken = λ j c. ground (arith, inv.taken i, inv.taken j);
  unique = λ j k c d.
      ground (arith, inv.unique j k, inv.unique i j, inv.unique i k, inv.taken j, inv.taken k);
  fresh = λ j. ground (arith, inv.fresh j, inv.unique i j, inv.taken j);
}
Move-Inv pc i inv e (spin busy) = record {
  taken = λ j c. ground (arith, inv.taken i, inv.taken j);
  unique = λ j k c d.
      ground (arith, inv.unique j k, inv.unique i j, inv.unique i k, inv.taken j, inv.taken k);
  fresh = λ j. ground (arith, inv.fresh j, inv.unique i j, inv.taken j);
}
Move-Inv pc i inv e (enter won) = record {
  taken = λ j c. ground (arith, inv.taken i, inv.taken j);
  unique = λ j k c d.
      ground (arith, inv.unique j k, inv.unique i j, inv.unique i k, inv.taken j, inv.taken k);
  fresh = λ j. ground (arith, inv.fresh j, inv.unique i j, inv.taken j);
}
Move-Inv pc i inv e load = record {
  taken = λ j c. ground (arith, inv.taken i, inv.taken j);
  unique = λ j k c d.
      ground (arith, inv.unique j k, inv.unique i j, inv.unique i k, inv.taken j, inv.taken k);
  fresh = λ j. ground (arith, inv.fresh j, inv.unique i j, inv.taken j);
}
Move-Inv pc i inv e (serve q) = record {
  taken = λ j c. ground (arith, inv.taken i, inv.taken j);
  unique = λ j k c d.
      ground (arith, inv.unique j k, inv.unique i j, inv.unique i k, inv.taken j, inv.taken k);
  fresh = λ j. ground (arith, inv.fresh j, inv.unique i j, inv.taken j);
}
Move-Inv pc i inv e leave = record {
  taken = λ j c. ground (arith, inv.taken j, inv.unique i j);
  unique = λ j k c d.
      ground (arith, inv.unique j k, inv.unique i j, inv.unique i k, inv.taken j, inv.taken k);
  fresh = λ j. ground (arith, inv.fresh j, inv.unique i j, inv.taken j);
}
Move-Inv pc i inv e (write a v w) = record {
  taken = λ j c. ground (arith, inv.taken i, inv.taken j);
  unique = λ j k c d.
      ground (arith, inv.unique j k, inv.unique i j, inv.unique i k, inv.taken j, inv.taken k);
  fresh = λ j. ground (arith, inv.fresh j, inv.unique i j, inv.taken j);
}

Step-Inv : {s t : System} → Step s t → Inv s.shared s.pc → Inv t.shared t.pc
Step-Inv {s} (pick i mv) inv = Move-Inv s.pc i inv refl mv

pub Reach-Inv : {c : Client.System} {t : System} → Reach c t → Inv t.shared t.pc
Reach-Inv begin = record { taken = λ i h. cc; unique = λ i j h k. cc; fresh = λ i. tt }
Reach-Inv (later r st) = Step-Inv st (Reach-Inv r)

-- In every state that threads reach from an allocator that is set up: two threads are never both
-- between the return of `lock` and the guard's `drop`, and while one is there the flag is set.
pub mutual_exclusion :
    {c : Client.System} {t : System}
    → Reach c t
    → (i : ℕ) → critical (t.pc i) ≡ true
    → (t.shared.lock.locked ≡ true) × ((j : ℕ) → critical (t.pc j) ≡ true → i ≡ j)
mutual_exclusion r i h = let inv = Reach-Inv r in (inv.taken i h, λ j k. inv.unique i j h k)
