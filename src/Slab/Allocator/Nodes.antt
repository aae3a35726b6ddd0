-- ===== src/Slab/Allocator/Nodes.antt =====
-- Free lists threaded through memory: what `(*node).next` reads behind a write, and the lists
-- that a head stands for.
use the_heap.Prelude.{
  ℕ, ◌+◌, ◌^◌, ◌≤◌, ◌<◌, ◌≡◌, refl, ap, ◌∙◌, ◌⊎◌, Option, none, some, List, [], ◌∷◌, arith, All,
}
use the_heap.Bytes.{Memory, copy_from_slice, slice, from_le_bytes, to_le_bytes}
use the_heap.Bytes.Codec.{from_le_bytes-to_le_bytes, length-to_le_bytes}
use the_heap.Bytes.Region.{slice-copy_from_slice, slice_ext, copy_from_slice-outside}
use the_heap.Slab.Allocator.{load_next, store_next, non_null, or_null}

-- A pointer that a node can store.
abbrev pub IsLink : Option ℕ → Type 0
IsLink none = Unit
IsLink (some a) = (0 < a) × (a < 2 ^ 64)

non_null-or_null : (o : Option ℕ) → IsLink o → non_null (or_null o) ≡ o
non_null-or_null none h = refl
non_null-or_null (some a) h = ground arith

or_null-lt : (o : Option ℕ) → IsLink o → or_null o < 2 ^ 64
or_null-lt none h = omega arith
or_null-lt (some a) h = h.1

-- What is stored is loaded.
pub load_next-store_next :
    (m : Memory) (a : ℕ) (o : Option ℕ) → IsLink o → load_next (store_next m a o) a ≡ o
unfolding load_next store_next
load_next-store_next m a o h =
    let bytes = to_le_bytes 8 (or_null o) in
    let read : slice (copy_from_slice m a bytes) a 8 ≡ bytes =
      rw (length-to_le_bytes 8 (or_null o)) at (slice-copy_from_slice m a bytes) in
    ap (λ bs. non_null (from_le_bytes bs)) read
    ∙ ap non_null (from_le_bytes-to_le_bytes 8 (or_null o) (or_null-lt o h))
    ∙ non_null-or_null o h

-- The node's eight bytes decide what is loaded.
pub load_next_ext :
    (m k : Memory) (a : ℕ)
    → ((b : ℕ) → a ≤ b → b < a + 8 → m b ≡ k b)
    → load_next m a ≡ load_next k a
unfolding load_next
load_next_ext m k a h = ap (λ bs. non_null (from_le_bytes bs)) (slice_ext m k a 8 h)

pub store_next-outside :
    (m : Memory) (a : ℕ) (o : Option ℕ) (b : ℕ) → (b < a) ⊎ (a + 8 ≤ b) → store_next m a o b ≡ m b
unfolding store_next
store_next-outside m a o b h =
    copy_from_slice-outside m a (to_le_bytes 8 (or_null o)) b
      (rw (length-to_le_bytes 8 (or_null o)) h)

-- From the head `o` the links lead through the nodes of the list, in order.
abbrev pub Linked : Memory → Option ℕ → List ℕ → Type 0
Linked m o [] = o ≡ none
Linked m o (a ∷ rest) = (o ≡ some a) × Linked m (load_next m a) rest

-- A list survives a change that spares the bytes of its nodes.
pub Linked-frame :
    (m k : Memory) (o : Option ℕ) (xs : List ℕ)
    → All (λ a. (b : ℕ) → a ≤ b → b < a + 8 → m b ≡ k b) xs
    → Linked m o xs
    → Linked k o xs
Linked-frame m k o [] same l = l
Linked-frame m k o (a ∷ rest) same l =
    (l.0, rw (← load_next_ext m k a same.0) (Linked-frame m k (load_next m a) rest same.1 l.1))
