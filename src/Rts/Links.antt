-- ===== src/Rts/Links.antt =====
-- Doubly linked lists of device indices, seen from their `next` and their `prev` pointers.
use toy_softswitch.Prelude.{ℕ, ◌≡◌, refl, true, none, some, List, [], ◌∷◌, arith, has}
use toy_softswitch.Context.{Ptr}

-- From `h` the `next` pointers lead through `xs` to null.
abbrev pub Forward : (ℕ → Ptr) → Ptr → List ℕ → Type 0
Forward nxt h [] = h ≡ none
Forward nxt h (x ∷ xs) = (h ≡ some x) × Forward nxt (nxt x) xs

-- Each `prev` pointer of `xs` leads to the element before, and the first one's to `b`.
abbrev pub Backward : (ℕ → Ptr) → Ptr → List ℕ → Type 0
Backward prv b [] = Unit {0}
Backward prv b (x ∷ xs) = (prv x ≡ b) × Backward prv (some x) xs

abbrev pub last_or : Ptr → List ℕ → Ptr
last_or b [] = b
last_or b (x ∷ xs) = last_or (some x) xs

-- The pointer to the first element.
abbrev pub first : List ℕ → Ptr
first [] = none
first (x ∷ xs) = some x

pub Forward-first : (nxt : ℕ → Ptr) (h : Ptr) (xs : List ℕ) → Forward nxt h xs → h ≡ first xs
Forward-first nxt h [] f = f
Forward-first nxt h (x ∷ xs) f = f.0

pub last_or-has :
    (b : Ptr) (x : ℕ) (xs : List ℕ) (i : ℕ) → last_or b (x ∷ xs) ≡ some i → has i (x ∷ xs) ≡ true
last_or-has b x [] i e = ground arith
last_or-has b x (y ∷ ys) i e = ground (arith, last_or-has (some x) y ys i)

last_or_any : (b c : Ptr) (x : ℕ) (xs : List ℕ) → last_or b (x ∷ xs) ≡ last_or c (x ∷ xs)
last_or_any b c x xs = refl

-- A list is only as good as the pointers at its own elements.
pub Forward-frame :
    (nxt nxt' : ℕ → Ptr) (h : Ptr) (xs : List ℕ)
    → Forward nxt h xs
    → ((i : ℕ) → has i xs ≡ true → nxt' i ≡ nxt i)
    → Forward nxt' h xs
Forward-frame nxt nxt' h [] f same = f
Forward-frame nxt nxt' h (x ∷ xs) f same = (
  f.0,
  Forward-frame nxt nxt' (nxt' x) xs (ground (arith, same x)) (λ i m. same i (ground arith)),
)

pub Backward-frame :
    (prv prv' : ℕ → Ptr) (b : Ptr) (xs : List ℕ)
    → Backward prv b xs
    → ((i : ℕ) → has i xs ≡ true → prv' i ≡ prv i)
    → Backward prv' b xs
Backward-frame prv prv' b [] k same = tt
Backward-frame prv prv' b (x ∷ xs) k same =
    (ground (arith, same x), Backward-frame prv prv' (some x) xs k.1 (λ i m. same i (ground arith)))

pub last_or-some : (x : ℕ) (xs : List ℕ) → (t : ℕ) × (last_or (some x) xs ≡ some t)
last_or-some x [] = (x, refl)
last_or-some x (y ∷ ys) = last_or-some y ys
