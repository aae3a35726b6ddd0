-- ===== src/Slab/Ownership/Update.antt =====
-- Maps changed at one key.
use the_heap.Prelude.{ℕ, ◌≡◌, ◌≢◌, arith, ◌==◌, if◌then◌else◌, List, [], ◌∷◌, All}

module _ {ℓ} {A : Type ℓ} where
  abbrev pub update : (ℕ → A) → ℕ → A → ℕ → A
  update f k v j = if k == j then v else f j

  pub update_self : (f : ℕ → A) (k : ℕ) (v : A) → update f k v k ≡ v
  update_self f k v = ground arith

  pub update_ne : (f : ℕ → A) (k j : ℕ) (v : A) → k ≢ j → update f k v j ≡ f j
  update_ne f k j v ne = ground arith

-- A list that does not hold the key does not see the change.
pub All-update {ℓ} :
    {A : Type ℓ} (f : ℕ → A) (k : ℕ) (v w : A) (xs : List ℕ)
    → All (λ x. k ≢ x) xs
    → All (λ x. f x ≡ w) xs
    → All (λ x. update f k v x ≡ w) xs
All-update f k v w [] out h = tt
All-update f k v w (x ∷ xs) out h =
    (rw (update_ne f k x v out.0) h.0, All-update f k v w xs out.1 h.1)
