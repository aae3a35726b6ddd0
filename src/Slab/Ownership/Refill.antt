-- ===== src/Slab/Ownership/Refill.antt =====
-- `refill_cache`: a chunk from the bump path is cut into free blocks, all of them.
use the_heap.Prelude.{
  ◌*◌, ℕ, zero, suc, ◌+◌, ◌-◌, ◌%◌, ◌≤◌, ◌<◌, ◌≡◌, ◌≢◌, refl, sym, ◌∙◌, ◌⊎◌, inl, inr, leb, arith,
  Bool-cases, List, [], ◌∷◌, ◌^◌,
}
use mathlib.Core.Path.{subst}
use native.Mathlib.Nat.{add-mod_right, mod-eq_of_lt}
use native.Mathlib.Decide.{dec_lt}
use the_heap.Slab.Allocator.{Heap, class_size, carve, push_node, chunk_size}
use the_heap.Slab.Allocator.Classes.{class_size_lem}
use the_heap.Slab.Ownership.{free, used, Inv, Statuses, FreeLists}
use the_heap.Slab.Ownership.Push.{push_node-Inv}
use the_heap.Slab.Ownership.Update.{update, update_self, update_ne}

abbrev pub IsNonEmpty : List ℕ → Type 0
IsNonEmpty [] = ⊥
IsNonEmpty (x ∷ xs) = Unit

-- The blocks of class `i` from `off` to `end` have become free, and nothing else has changed.
pub record Carved (st : Statuses) (lists : FreeLists) (i off end : ℕ) (h' : Heap) : Type 0 where
  pub st' : Statuses
  pub lists' : FreeLists
  pub inv : Inv h' st' lists'
  pub outside : (a : ℕ) → (a < off) ⊎ (end ≤ a) → st' a ≡ st a
  pub inside :
      (a : ℕ)
      → off ≤ a
      → a < end
      → ((a - off) % class_size i ≢ 0) × (st' a ≡ st a)
        ⊎ ((a - off) % class_size i ≡ 0) × (st' a ≡ free i)
  pub grows : (off + class_size i ≤ end) ⊎ IsNonEmpty (lists i) → IsNonEmpty (lists' i)

next_cut : (a off p : ℕ) → off + p ≤ a → (a - off) % p ≡ (a - (off + p)) % p
next_cut a off p le =
    let e : a - off ≡ a - (off + p) + p = omega arith in rw e (add-mod_right (a - (off + p)) p)

self_cut : (off p : ℕ) → (off - off) % p ≡ 0
self_cut off p = let e : off - off ≡ 0 = omega arith in rw e (omega arith)

-- Between two cuts there is no third.
no_cut : (a off p : ℕ) → off < a → a < off + p → (a - off) % p ≢ 0
no_cut a off p lo hi =
    let e : (a - off) % p ≡ a - off = mod-eq_of_lt (omega arith) in rw e (omega arith)

IsNonEmpty-update : (lists : FreeLists) (i a : ℕ) → IsNonEmpty (update lists i (a ∷ lists i) i)
IsNonEmpty-update lists i a = rw (update_self lists i (a ∷ lists i)) tt

module _ (i off end : ℕ) (class_lt : i < 10) {st : Statuses} {lists : FreeLists} {h' : Heap} where
  -- One block more in front.
  Carved-next :
      off + class_size i ≤ end
      → Carved
          (update st off (free i))
          (update lists i (off ∷ lists i))
          i
          (off + class_size i)
          end
          h'
      → Carved st lists i off end h'
  Carved-next room rest = record {
    st' = rest.st';
    lists' = rest.lists';
    inv = rest.inv;
    outside = λ a o.
        rest.outside a
          (elim o [ inl l ↦ inl (omega (arith, class_size_lem i class_lt)) | inr r ↦ inr r ])
        ∙ update_ne st off a (free i)
            (elim o [ inl l ↦ omega arith | inr r ↦ omega (arith, class_size_lem i class_lt) ]);
    inside = λ a lo hi. elim (dec_lt a (off + class_size i)) [
      | no far ↦
          let e = next_cut a off (class_size i) (omega arith) in
          let ne = update_ne st off a (free i) (omega (arith, class_size_lem i class_lt)) in
          rw e (elim (rest.inside a (omega arith) hi) [
            | inl (apart, same) ↦ inl (apart, same ∙ ne)
            | inr r ↦ inr r
          ])
      | yes near ↦ elim (dec_lt off a) [
        | yes behind ↦ inl (
          no_cut a off (class_size i) behind near,
          rest.outside a (inl near) ∙ update_ne st off a (free i) (omega arith),
        )
        | no here ↦
            let e : off ≡ a = omega arith in
            inr (
              subst (λ x. (x - off) % class_size i ≡ 0) e (self_cut off (class_size i)),
              rest.outside a (inl near)
                  ∙ subst (λ x. update st off (free i) x ≡ free i) e (update_self st off (free i)),
            )
      ]
    ];
    grows = λ _. rest.grows (inr (IsNonEmpty-update lists i off));
  }

  -- No block fits any more.
  Carved-done :
      Inv h' st lists
      → end < off + class_size i
      → (end - off) % class_size i ≡ 0
      → Carved st lists i off end h'
  Carved-done inv full whole = record {
    st' = st;
    lists' = lists;
    inv = inv;
    outside = λ a o. refl;
    inside = λ a lo hi. absurd (no_cut end off (class_size i) (omega arith) full whole);
    grows = elim [ inl room ↦ absurd (omega arith) | inr n ↦ n ];
  }

module _ (i end : ℕ) (class_lt : i < 10) (below : end + chunk_size < 2 ^ 64) where
  abbrev Cut : Statuses → ℕ → Type 0
  Cut st off = (a : ℕ) → off ≤ a → a < end → (a - off) % class_size i ≡ 0 → st a ≡ used i

  -- With a round of fuel for every eight bytes that are left, the loop ends by its test.
  pub carve-Carved :
      (fuel off : ℕ) (h : Heap) (st : Statuses) (lists : FreeLists)
      → Inv h st lists
      → Cut st off
      → off ≤ end
      → (end - off) % class_size i ≡ 0
      → end - off < 8 * fuel
      → Carved st lists i off end (carve fuel i (class_size i) end off h)
  unfolding carve
  carve-Carved zero off h st lists inv cut le whole enough = absurd (omega arith)
  carve-Carved (suc fuel) off h st lists inv cut le whole enough =
      let p = class_size i in
      let s = class_size_lem i class_lt in
      let flat : (off + p) % 2 ^ 64 ≡ off + p = mod-eq_of_lt (omega (arith, below, s)) in
      rw flat (elim (Bool-cases (leb (off + p) end)) [
        | inl more ↦
            let room : off + p ≤ end = ground arith in
            let held : st off ≡ used i =
              cut off (omega arith) (omega (arith, s)) (self_cut off p) in
            rw more (
              Carved-next i off end class_lt room (
                carve-Carved fuel (off + p) (push_node i off h) (update st off (free i))
                  (update lists i (off ∷ lists i)) (push_node-Inv inv i off held)
                  (λ a lo hi e.
                    update_ne st off a (free i) (omega (arith, s))
                    ∙ cut a (omega arith) hi (next_cut a off p lo ∙ e))
                  room (sym (next_cut end off p room) ∙ whole) (omega (arith, s))))
        | inr full ↦ rw full (Carved-done i off end class_lt inv (ground arith) whole)
      ])
