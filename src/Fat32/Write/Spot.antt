-- ===== src/Fat32/Write/Spot.antt =====
-- The 32-byte pieces of a directory behind the writes of `put_entry` of fat32/src/lib.rs.
use the_heap.Prelude.{
  ℕ, ◌+◌, ◌*◌, ◌≤◌, ◌<◌, ◌≡◌, ap, ◌∙◌, arith, ◌⊎◌, inl, inr, true, List, [], ◌∷◌, get_or, length,
}
use native.Mathlib.Decide.{dec_lt}
use the_heap.Bytes.{Memory, slice, copy_from_slice}
use the_heap.Bytes.Region.{
  slice_ext, get_or-slice, copy_from_slice-outside, slice-copy_from_slice_apart,
}
use the_heap.Fat32.Volume.{Volume, cluster_size, cluster_start}
use the_heap.Fat32.Write.Content.{InBuffer, cluster_start-lt}
use the_heap.Fat32.Write.Lookup.{matches, IsSlot, slice_written}

-- The place of an entry, and the end of what may change there.
pub record Spot (v : Volume) (off stop : ℕ) : Type 0 where
  pub cluster : ℕ
  pub index : ℕ
  pub inside : InBuffer v cluster
  pub place : off ≡ cluster_start v.bpb cluster + index * 32
  pub room : off + 32 ≤ stop
  pub end : stop ≤ cluster_start v.bpb cluster + cluster_size v.bpb

-- The entry is there, and but for a zero behind it nothing else changed.
pub record Slotted (m k : Memory) (src : List ℕ) (off stop : ℕ) : Type 0 where
  pub same : (a : ℕ) → (a < off) ⊎ (stop ≤ a) → k a ≡ m a
  pub written : slice k off 32 ≡ src
  pub mark : (k (off + 32) ≡ m (off + 32)) ⊎ (k (off + 32) ≡ 0)
  pub tail : (a : ℕ) → off + 33 ≤ a → k a ≡ m a

pub entry-Slotted :
    (m : Memory) (src : List ℕ) (off stop : ℕ)
    → length src ≡ 32
    → off + 32 ≤ stop
    → Slotted m (copy_from_slice m off src) src off stop
entry-Slotted m src off stop size le =
    let behind = λ (a : ℕ) (hi : off + 32 ≤ a).
      copy_from_slice-outside m off src a (inr (omega (arith, hi, size))) in
    record {
      same = λ a out. elim out [
        | inl lo ↦ copy_from_slice-outside m off src a (inl lo)
        | inr hi ↦ behind a (omega (arith, hi))
      ];
      written = slice_written m off src size;
      mark = inl (behind (off + 32) (omega arith));
      tail = λ a hi. behind a (omega (arith, hi));
    }

pub marker-Slotted :
    (m k : Memory) (src : List ℕ) (off stop : ℕ)
    → off + 32 < stop
    → Slotted m k src off stop
    → Slotted m (copy_from_slice k (off + 32) (0x00 ∷ [])) src off stop
unfolding copy_from_slice
marker-Slotted m k src off stop lt s =
    let apart = λ (a : ℕ) (out : (a < off + 32) ⊎ (off + 33 ≤ a)).
      copy_from_slice-outside k (off + 32) (0x00 ∷ []) a
        (elim out [ inl lo ↦ inl lo | inr hi ↦ inr (omega (arith, hi)) ]) in
    record {
      same = λ a out.
          apart a
            (elim out [ inl lo ↦ inl (omega (arith, lo)) | inr hi ↦ inr (omega (arith, hi, lt)) ])
          ∙ s.same a out;
      written =
          slice-copy_from_slice_apart k (off + 32) (0x00 ∷ []) off 32 (inl (omega arith))
          ∙ s.written;
      mark = inr (ground arith);
      tail = λ a hi. apart a (inr hi) ∙ s.tail a hi;
    }

-- Pieces of clusters lie apart, or are the same.
pub pieces_apart :
    (v : Volume) (x c i j : ℕ)
    → 2 ≤ x
    → 2 ≤ c
    → (i + 1) * 32 ≤ cluster_size v.bpb
    → (j + 1) * 32 ≤ cluster_size v.bpb
    → (cluster_start v.bpb x + i * 32 + 32 ≤ cluster_start v.bpb c + j * 32)
      ⊎ ((cluster_start v.bpb x + i * 32 ≡ cluster_start v.bpb c + j * 32)
          ⊎ (cluster_start v.bpb c + j * 32 + 32 ≤ cluster_start v.bpb x + i * 32))
pieces_apart v x c i j lx lc li lj = elim (dec_lt x c) [
  | yes lt ↦ inl (omega (arith, cluster_start-lt v x c lx lt))
  | no ge ↦ elim (dec_lt c x) [
    | yes lt ↦ inr (inr (omega (arith, cluster_start-lt v c x lc lt)))
    | no le ↦
        let q : x ≡ c = omega arith in
        let e : cluster_start v.bpb x ≡ cluster_start v.bpb c = ap (cluster_start v.bpb) q in
        elim (dec_lt i j) [
          | yes before ↦ inl (omega (arith, e))
          | no not_before ↦ elim (dec_lt j i) [
            | yes behind ↦ inr (inr (omega (arith, e)))
            | no not_behind ↦ inr (inl (omega (arith, e)))
          ]
        ]
  ]
]

-- A piece is as it was, or has the name, or begins with the end marker.
abbrev pub Piece : List ℕ → List ℕ → Memory → Memory → ℕ → Type 0
Piece name_raw ext_raw m k q =
    (slice k q 32 ≡ slice m q 32)
    ⊎ ((matches name_raw ext_raw (slice k q 32) ≡ true) ⊎ (get_or (slice k q 32) 0 0 ≡ 0))

pub Slotted-Piece :
    (v : Volume) (name_raw ext_raw src : List ℕ) (m k : Memory) (off stop : ℕ)
    → IsSlot name_raw ext_raw src
    → Spot v off stop
    → Slotted m k src off stop
    → (x i : ℕ) → 2 ≤ x
    → (i + 1) * 32 ≤ cluster_size v.bpb
    → Piece name_raw ext_raw m k (cluster_start v.bpb x + i * 32)
Slotted-Piece v name_raw ext_raw src m k off stop slot p s x i lx li =
    let q = cluster_start v.bpb x + i * 32 in
    let fits : (p.index + 1) * 32 ≤ cluster_size v.bpb = omega (arith, p.place, p.room, p.end) in
    elim (pieces_apart v x p.cluster i p.index lx p.inside.0 li fits) [
      | inl before ↦
          inl (slice_ext k m q 32 (λ a lo hi. s.same a (inl (omega (arith, hi, before, p.place)))))
      | inr (inl here) ↦
          let e : q ≡ off = omega (arith, here, p.place) in inr (inl (rw (e, s.written) slot.named))
      | inr (inr behind) ↦ elim (dec_lt (off + 32) q) [
        | yes far ↦ inl (slice_ext k m q 32 (λ a lo hi. s.tail a (omega (arith, lo, far))))
        | no near ↦
            let e : q ≡ off + 32 = omega (arith, behind, p.place) in
            elim s.mark [
              | inl kept ↦ inl (
                  slice_ext k m q 32 (λ a lo hi. elim (dec_lt (off + 32) a) [
                    | yes gt ↦ s.tail a (omega (arith, gt))
                    | no le ↦ let ea : a ≡ off + 32 = omega (arith, lo, e) in rw ea kept
                  ]))
              | inr zero_mark ↦
                  inr (
                    inr (get_or-slice k q 32 0 (omega arith) ∙ ap k (omega (arith, e)) ∙ zero_mark))
            ]
      ]
    ]
