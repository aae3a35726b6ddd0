-- ===== src/Fat32/Write/Link.antt =====
-- The links that `alloc_chain` of fat32/src/lib.rs writes into the FAT.
use the_heap.Prelude.{All-map, ℕ, ◌≤◌, ◌<◌, ◌≡◌, ◌≢◌, refl, ap, ◌∙◌, ◌⊎◌, arith, List, [], ◌∷◌, All}
use the_heap.Bytes.{Memory}
use the_heap.Fat32.Error.{ok}
use the_heap.Fat32.Volume.{
  Volume, data_start_byte, fat_start_byte, read_fat_entry, eoc_min, fat32_eoc,
}
use the_heap.Fat32.Volume.Chain.{IsChain}
use the_heap.Fat32.Write.{link_chain, with_bytes}
use the_heap.Fat32.Write.Table.{InTable, TablesFit, Written, write_fat_entry_all-Written}
use the_heap.Fat32.Write.Effect.{done}
use the_heap.Fat32.Write.Find.{Ascending}

-- The chain that `link_chain` leaves, and what it leaves alone.
pub record Chained (v : Volume) (c : ℕ) (cs : List ℕ) (m : Memory) : Type 0 where
  pub chain : IsChain (with_bytes v m) c cs
  pub others :
      (d : ℕ)
      → InTable v d
      → All (λ x. x ≢ d) cs
      → read_fat_entry (with_bytes v m) d ≡ read_fat_entry v d
  pub outside :
      (a : ℕ) → (a < fat_start_byte v.bpb) ⊎ (data_start_byte v.bpb ≤ a) → m a ≡ v.disk.byte a

module _ (v : Volume) (c : ℕ) (inside : InTable v c) where
  Chained-end : (m : Memory) → Written v c fat32_eoc m → Chained v c (c ∷ []) m
  Chained-end m w = record {
    chain = (refl, fat32_eoc, w.reads, omega arith);
    others = λ d ind ne. w.others d ind ne.0;
    outside = w.outside;
  }

  Chained-cons :
      (d : ℕ) (cs : List ℕ) (m k : Memory)
      → Written v c d m
      → Chained (with_bytes v m) d (d ∷ cs) k
      → 2 ≤ d
      → d < eoc_min
      → All (λ y. c < y) (d ∷ cs)
      → Chained v c (c ∷ d ∷ cs) k
  Chained-cons d cs m k w h lo hi later = record {
    chain = (
      refl,
      h.others c inside (All-map (d ∷ cs) (λ y lt e. omega arith) later)
          ∙ w.reads
          ∙ ap ok (omega arith),
      lo,
      hi,
      h.chain,
    );
    others = λ x ind ne. h.others x ind ne.1 ∙ w.others x ind ne.0;
    outside = λ a o. h.outside a o ∙ w.outside a o;
  }

-- A cluster that a chain can hold.
abbrev pub Linkable : Volume → ℕ → Type 0
Linkable v c = (2 ≤ c) × (c < eoc_min) × InTable v c

pub link_chain-Chained :
    (v : Volume) (c : ℕ) (cs : List ℕ)
    → TablesFit v
    → 0 < v.num_fats
    → All (Linkable v) (c ∷ cs)
    → Ascending (c ∷ cs)
    → (m : Memory) × (link_chain (c ∷ cs) v ≡ done tt (with_bytes v m)) × Chained v c (c ∷ cs) m
unfolding link_chain
link_chain-Chained v c [] fit fats ok_cs asc =
    let (m, e, w) = write_fat_entry_all-Written v fit fats c fat32_eoc ok_cs.0.2 in
    (m, e, Chained-end v c ok_cs.0.2 m w)
link_chain-Chained v c (d ∷ cs) fit fats ok_cs asc =
    let (m, e, w) = write_fat_entry_all-Written v fit fats c d ok_cs.0.2 in
    let (k, q, h) = link_chain-Chained (with_bytes v m) d cs fit fats ok_cs.1 asc.1 in
    (k, rw (e, q) refl, Chained-cons v c ok_cs.0.2 d cs m k w h ok_cs.1.0.0 ok_cs.1.0.1 asc.0)
