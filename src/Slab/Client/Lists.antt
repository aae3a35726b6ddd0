-- ===== src/Slab/Client/Lists.antt =====
-- The list of what callers hold, with one member taken out.
use the_heap.Prelude.{ℕ, ◌≢◌, sym, List, [], ◌∷◌, ◌++◌, All}
use the_heap.Slab.Allocator.{Layout}
use the_heap.Slab.Client.{Held}

pub All-middle {ℓ κ} :
    {A : Type ℓ} (P : A → Type κ) (before : List A) (x : A) (after : List A)
    → All P (before ++ x ∷ after)
    → P x
All-middle P [] x after h = h.0
All-middle P (b ∷ before) x after h = All-middle P before x after h.1

pub All-without {ℓ κ} :
    {A : Type ℓ} (P : A → Type κ) (before : List A) (x : A) (after : List A)
    → All P (before ++ x ∷ after)
    → All P (before ++ after)
All-without P [] x after h = h.1
All-without P (b ∷ before) x after h = (h.0, All-without P before x after h.1)

abbrev pub OtherPointer : ℕ × Layout → ℕ × Layout → Type 0
OtherPointer a b = a.0 ≢ b.0

-- No pointer is held twice.
abbrev pub Pointers : Held → Type 0
Pointers [] = Unit
Pointers (b ∷ bs) = All (OtherPointer b) bs × Pointers bs

pub Pointers-without :
    (before : Held) (x : ℕ × Layout) (after : Held)
    → Pointers (before ++ x ∷ after)
    → Pointers (before ++ after)
Pointers-without [] x after h = h.1
Pointers-without (b ∷ before) x after h =
    (All-without (OtherPointer b) before x after h.0, Pointers-without before x after h.1)

-- The member that is taken out has a pointer of its own.
pub Pointers-other :
    (before : Held) (x : ℕ × Layout) (after : Held)
    → Pointers (before ++ x ∷ after)
    → All (OtherPointer x) (before ++ after)
Pointers-other [] x after h = h.0
Pointers-other (b ∷ before) x after h =
    (λ e. All-middle (OtherPointer b) before x after h.0 (sym e), Pointers-other before x after h.1)
