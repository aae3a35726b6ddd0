-- ===== src/Fat32/Write/Release.antt =====
-- `free_chain` of fat32/src/lib.rs: the clusters of a chain become free.
use the_heap.Prelude.{
  ℕ, ◌≤◌, ◌<◌, ◌≡◌, ◌≢◌, refl, ◌∙◌, ◌⊎◌, inl, inr, arith, List, [], ◌∷◌, length, All, Bool-cases,
  ==_iff, ltb, false, ◌==◌,
}
use mathlib.Core.Path.{subst}
use the_heap.Bytes.{Memory}
use the_heap.Fat32.Error.{ok}
use the_heap.Fat32.Volume.{Volume, data_start_byte, fat_start_byte, read_fat_entry, max_chain}
use the_heap.Fat32.Volume.Chain.{IsChain, follow_chain-IsChain}
use the_heap.Fat32.Write.{clear_entries, free_chain, with_bytes}
use the_heap.Fat32.Write.Table.{InTable, TablesFit, Written, write_fat_entry_all-Written}
use the_heap.Fat32.Write.Effect.{done}

-- The entries of the clusters read as free, and nothing else changed.
pub record Cleared (v : Volume) (cs : List ℕ) (m : Memory) : Type 0 where
  pub free : All (λ c. read_fat_entry (with_bytes v m) c ≡ ok 0) cs
  pub stay_free :
      (d : ℕ) → InTable v d → read_fat_entry v d ≡ ok 0 → read_fat_entry (with_bytes v m) d ≡ ok 0
  pub others :
      (d : ℕ)
      → InTable v d
      → All (λ x. x ≢ d) cs
      → read_fat_entry (with_bytes v m) d ≡ read_fat_entry v d
  pub outside :
      (a : ℕ) → (a < fat_start_byte v.bpb) ⊎ (data_start_byte v.bpb ≤ a) → m a ≡ v.disk.byte a

Cleared-cons :
    (v : Volume) (c : ℕ) (cs : List ℕ) (m k : Memory)
    → InTable v c
    → Written v c 0 m
    → Cleared (with_bytes v m) cs k
    → Cleared v (c ∷ cs) k
Cleared-cons v c cs m k inside w h = record {
  free = (h.stay_free c inside w.reads, h.free);
  stay_free = λ d ind z. elim (Bool-cases (c == d)) [
    | inl same ↦
        h.stay_free d ind
          (subst (λ x. read_fat_entry (with_bytes v m) x ≡ ok 0) ((==_iff c d).0 same) w.reads)
    | inr ne ↦ h.stay_free d ind (w.others d ind (ground arith) ∙ z)
  ];
  others = λ d ind ne. h.others d ind ne.1 ∙ w.others d ind ne.0;
  outside = λ a o. h.outside a o ∙ w.outside a o;
}

clear_entries-Cleared :
    (v : Volume) (cs : List ℕ)
    → TablesFit v
    → 0 < v.num_fats
    → All (InTable v) cs
    → (m : Memory) × (clear_entries cs v ≡ done tt (with_bytes v m)) × Cleared v cs m
unfolding clear_entries
clear_entries-Cleared v [] fit fats inside = (
  v.disk.byte,
  refl,
  record { free = tt; stay_free = λ d ind z. z; others = λ d ind ne. refl; outside = λ a o. refl },
)
clear_entries-Cleared v (c ∷ cs) fit fats inside =
    let (m, e, w) = write_fat_entry_all-Written v fit fats c 0 inside.0 in
    let (k, q, h) = clear_entries-Cleared (with_bytes v m) cs fit fats inside.1 in
    (k, rw (e, q) refl, Cleared-cons v c cs m k inside.0 w h)

-- With a FAT or more, room for the FATs in the buffer, and a chain of at most 4096 clusters, each
-- with its entry inside a FAT: `free_chain` of the first cluster succeeds, every cluster of the
-- chain is free then, every other FAT entry reads as before, and no byte before or behind the
-- FATs changed.
pub free_chain-Cleared :
    (v : Volume) (c : ℕ) (cs : List ℕ)
    → TablesFit v
    → 0 < v.num_fats
    → 2 ≤ c
    → IsChain v c cs
    → length cs ≤ max_chain
    → All (InTable v) cs
    → (m : Memory) × (free_chain c v ≡ done tt (with_bytes v m)) × Cleared v cs m
unfolding free_chain
free_chain-Cleared v c cs fit fats lo chain short inside =
    let valid : ltb c 2 ≡ false = ground arith in
    let (m, e, h) = clear_entries-Cleared v cs fit fats inside in
    (m, rw (valid, follow_chain-IsChain v c max_chain cs lo chain short, e) refl, h)
