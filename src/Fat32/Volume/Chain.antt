-- ===== src/Fat32/Volume/Chain.antt =====
-- `follow_chain` of fat32/src/lib.rs against the chains that stand in the FAT.
use the_heap.Prelude.{
  ℕ, zero, suc, ◌≤◌, ◌<◌, ◌≡◌, refl, ap, ◌∙◌, inl, inr, ◌⊎◌, arith, Bool-cases, true, false, List,
  [], ◌∷◌, length, ltb, leb,
}
use mathlib.Core.Path.{subst}
use the_heap.Fat32.Error.{ok, >>=-ok}
use the_heap.Fat32.Volume.{Volume, eoc_min, read_fat_entry, follow_loop, follow_chain}

-- The clusters, from `c` on, are linked by their FAT entries, and the last one's entry is an end
-- mark.
abbrev pub IsChain : Volume → ℕ → List ℕ → Type 0
IsChain v c [] = ⊥
IsChain v c (x ∷ []) = (c ≡ x) × (n : ℕ) × (read_fat_entry v c ≡ ok n) × (eoc_min ≤ n)
IsChain v c (x ∷ y ∷ cs) =
    (c ≡ x) × (read_fat_entry v c ≡ ok y) × (2 ≤ y) × (y < eoc_min) × IsChain v y (y ∷ cs)

follow_loop-IsChain :
    (v : Volume) (c rounds : ℕ) (cs : List ℕ)
    → IsChain v c cs
    → length cs ≤ rounds
    → follow_loop v rounds c ≡ ok cs
unfolding follow_loop
follow_loop-IsChain v c rounds [] h le = absurd h
follow_loop-IsChain v c zero (x ∷ cs) h le = absurd (omega arith)
follow_loop-IsChain v c (suc rounds) (x ∷ []) (e, n, r, last) le =
    let done : leb eoc_min n ≡ true = ground arith in rw (r, done, e) refl
follow_loop-IsChain v c (suc rounds) (x ∷ y ∷ cs) (e, r, lo, hi, h) le =
    let more : leb eoc_min y ≡ false = ground arith in
    let valid : ltb y 2 ≡ false = ground arith in
    rw (r, more, valid, follow_loop-IsChain v y rounds (y ∷ cs) h (omega arith), e) refl

single :
    (v : Volume) (c n rounds : ℕ)
    → read_fat_entry v c ≡ ok n
    → eoc_min ≤ n
    → (length (c ∷ []) ≡ suc rounds) ⊎ ((length (c ∷ []) < suc rounds) × IsChain v c (c ∷ []))
single v c n zero r last = inl refl
single v c n (suc rounds) r last = inr (omega arith, (refl, n, r, last))

-- One more cluster in front.
extend :
    (v : Volume) (c y rounds : ℕ) (cs : List ℕ)
    → read_fat_entry v c ≡ ok y
    → 2 ≤ y
    → y < eoc_min
    → (length cs ≡ rounds) ⊎ ((length cs < rounds) × IsChain v y cs)
    → (length (c ∷ cs) ≡ suc rounds) ⊎ ((length (c ∷ cs) < suc rounds) × IsChain v c (c ∷ cs))
extend v c y rounds cs r lo hi (inl e) = inl (omega arith)
extend v c y rounds [] r lo hi (inr (lt, h)) = absurd h
extend v c y rounds (x ∷ []) r lo hi (inr (lt, h)) =
    let e = h.0 in
    inr (
      omega arith,
      (
        refl,
        r ∙ ap ok h.0,
        omega arith,
        omega arith,
        (refl, h.1, subst (λ z. read_fat_entry v z ≡ ok h.1) e h.2, h.3),
      ),
    )
extend v c y rounds (x ∷ z ∷ cs) r lo hi (inr (lt, h)) = inr (
  omega arith,
  (
    refl,
    r ∙ ap ok h.0,
    omega (arith, h.0),
    omega (arith, h.0),
    subst (λ t. IsChain v t (x ∷ z ∷ cs)) h.0 h,
  ),
)

pub IsChain-follow_loop :
    (v : Volume) (c rounds : ℕ) (cs : List ℕ)
    → follow_loop v rounds c ≡ ok cs
    → (length cs ≡ rounds) ⊎ ((length cs < rounds) × IsChain v c cs)
unfolding follow_loop
IsChain-follow_loop v c zero cs h = let e : [] ≡ cs = cc in inl (rw (← e) refl)
IsChain-follow_loop v c (suc rounds) cs h =
    let (n, r, k) = >>=-ok (read_fat_entry v c) _ h in
    elim (Bool-cases (leb eoc_min n)) [
      | inl last ↦
          let q = rw last at k in
          let e : c ∷ [] ≡ cs = cc in rw (← e) (single v c n rounds r (ground arith))
      | inr more ↦ elim (Bool-cases (ltb n 2)) [
        | inl bad ↦ let q = rw (more, bad) at k in cc
        | inr good ↦
            let (rest, e, q) = >>=-ok (follow_loop v rounds n) _ (rw (more, good) at k) in
            let z : c ∷ rest ≡ cs = cc in
            rw (← z) (
              extend v c n rounds rest r (ground arith) (ground arith)
                (IsChain-follow_loop v n rounds rest e))
      ]
    ]

-- From a cluster that is 2 or more: the chain that stands in the FAT is what `follow_chain`
-- returns, if it has no more clusters than the bound.
pub follow_chain-IsChain :
    (v : Volume) (c max : ℕ) (cs : List ℕ)
    → 2 ≤ c
    → IsChain v c cs
    → length cs ≤ max
    → follow_chain v c max ≡ ok cs
unfolding follow_chain
follow_chain-IsChain v c max cs lo h le =
    let valid : ltb c 2 ≡ false = ground arith in rw valid (follow_loop-IsChain v c max cs h le)

-- Whatever `follow_chain` returns is a chain that stands in the FAT, from the given cluster to an
-- end mark, or it has as many clusters as the bound.
pub IsChain-follow_chain :
    (v : Volume) (c max : ℕ) (cs : List ℕ)
    → follow_chain v c max ≡ ok cs
    → (length cs ≡ max) ⊎ ((length cs < max) × IsChain v c cs)
unfolding follow_chain
IsChain-follow_chain v c max cs h = elim (Bool-cases (ltb c 2)) [
  | inl bad ↦ let q = rw bad at h in cc
  | inr good ↦ IsChain-follow_loop v c max cs (rw good at h)
]
