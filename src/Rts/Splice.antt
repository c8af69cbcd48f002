-- ===== src/Rts/Splice.antt =====
-- What the pointer writes of append, pop and remove do to a linked list of indices.
use toy_softswitch.Prelude.{
  ℕ, ◌≡◌, refl, ap, ◌≢◌, true, false, none, some, List, [], ◌∷◌, ◌++◌, arith, ◌==◌, if◌then◌else◌,
  has, erase, Distinct, inl, inr, Bool-cases,
}
use toy_softswitch.Context.{Ptr, ptr_eq}
use toy_softswitch.Rts.Links.{
  Forward, Backward, last_or, first, Forward-first, last_or-has, Forward-frame, Backward-frame,
}

-- Writing the last element's `next` and clearing `x`'s own puts `x` behind the list.
pub Forward-append :
    (nxt nxt' : ℕ → Ptr) (b h : Ptr) (x : ℕ) (xs : List ℕ)
    → Forward nxt h xs
    → Distinct xs
    → ((i : ℕ) → has i xs ≡ true → last_or b xs ≢ some i → nxt' i ≡ nxt i)
    → ((i : ℕ) → has i xs ≡ true → last_or b xs ≡ some i → nxt' i ≡ some x)
    → nxt' x ≡ none
    → Forward nxt' (first (xs ++ x ∷ [])) (xs ++ x ∷ [])
Forward-append nxt nxt' b h x [] f d keep link end = (refl, end)
Forward-append nxt nxt' b h x (y ∷ []) f d keep link end = (refl, (link y (ground arith) refl, end))
Forward-append nxt nxt' b h x (y ∷ z ∷ zs) f d keep link end = (
  refl,
  ground (
    arith,
    keep y (ground arith) (λ e. ground (arith, last_or-has (some y) z zs y)),
    Forward-append nxt nxt' (some y) (nxt y) x (z ∷ zs) f.1 d.1 (λ i m. keep i (ground arith))
        (λ i m. link i (ground arith)) end,
  ),
)

pub Backward-append :
    (prv prv' : ℕ → Ptr) (b : Ptr) (x : ℕ) (xs : List ℕ)
    → Backward prv b xs
    → ((i : ℕ) → has i xs ≡ true → prv' i ≡ prv i)
    → prv' x ≡ last_or b xs
    → Backward prv' b (xs ++ x ∷ [])
Backward-append prv prv' b x [] k same end = (end, tt)
Backward-append prv prv' b x (y ∷ ys) k same end = (
  ground (arith, same y),
  Backward-append prv prv' (some y) x ys k.1 (λ i m. same i (ground arith)) end,
)

pub last_or-append : (b : Ptr) (x : ℕ) (xs : List ℕ) → last_or b (xs ++ x ∷ []) ≡ some x
last_or-append b x [] = refl
last_or-append b x (y ∷ ys) = last_or-append (some y) x ys

-- An element that is not the first one has its predecessor in the list.
prev_has :
    (prv : ℕ → Ptr) (b : Ptr) (x y : ℕ) (ys : List ℕ)
    → Backward prv b (y ∷ ys)
    → has x ys ≡ true
    → (z : ℕ) × (prv x ≡ some z) × (has z (y ∷ ys) ≡ true)
prev_has prv b x y [] k m = cc
prev_has prv b x y (w ∷ ws) k m = elim (Bool-cases (x == w)) [
  | inl here ↦ (y, ground arith, ground arith)
  | inr there ↦
      let (z, e, i) = prev_has prv (some y) x w ws k.1 (ground arith) in (z, e, ground arith)
]

-- The element that follows another one in the list, or null.
pub next_has :
    (nxt : ℕ → Ptr) (h : Ptr) (x : ℕ) (xs : List ℕ)
    → Forward nxt h xs
    → has x xs ≡ true
    → (i : ℕ) → nxt x ≡ some i
    → has i xs ≡ true
next_has nxt h x [] f m i e = cc
next_has nxt h x (y ∷ ys) f m i e = elim (Bool-cases (x == y)) [
  | inl here ↦ ground (arith, Forward-first nxt (nxt y) ys f.1, first_has ys i)
  | inr there ↦ ground (arith, next_has nxt (nxt y) x ys f.1 (ground arith) i e)
]
  where
    first_has : (zs : List ℕ) (j : ℕ) → first zs ≡ some j → has j zs ≡ true
    first_has [] j p = cc
    first_has (z ∷ zs) j p = ground arith

-- Behind `y`, the first element's `prev` is `y` and no other's is.
next_prev :
    (nxt prv : ℕ → Ptr) (h : Ptr) (x y : ℕ) (ys : List ℕ)
    → Forward nxt h ys
    → Backward prv (some y) ys
    → has y ys ≡ false
    → has x ys ≡ true
    → ptr_eq (prv x) (some y) ≡ ptr_eq h (some x)
next_prev nxt prv h x y [] f k out m = cc
next_prev nxt prv h x y (z ∷ zs) f k out m = elim (Bool-cases (x == z)) [
  | inl here ↦ ground arith
  | inr there ↦ ground (arith, prev_has prv (some y) x z zs k)
]

-- Taking `x` out: its predecessor's `next` (or the head) becomes the `next` of `x`.
pub Forward-erase :
    (nxt prv nxt' : ℕ → Ptr) (b h : Ptr) (x : ℕ) (xs : List ℕ)
    → Forward nxt h xs
    → Backward prv b xs
    → Distinct xs
    → has x xs ≡ true
    → ((i : ℕ) → has i xs ≡ true → b ≢ some i)
    → ((i : ℕ) → nxt' i ≡ (if ptr_eq (prv x) (some i) then nxt x else nxt i))
    → Forward nxt' (if ptr_eq h (some x) then nxt x else h) (erase x xs)
Forward-erase nxt prv nxt' b h x [] f k d m out w = cc
Forward-erase nxt prv nxt' b h x (y ∷ ys) f k d m out w = elim (Bool-cases (x == y)) [
  | inl here ↦
      let same : x ≡ y = ground arith in
      let start : (if ptr_eq h (some x) then nxt x else h) ≡ nxt y = ground (arith, ap nxt same) in
      rw (here, start)
        (Forward-frame nxt nxt' (nxt y) ys f.1
          (λ i mi. ground (arith, w i, ap prv same, out i (ground arith))))
  | inr there ↦
      let start : (if ptr_eq h (some x) then nxt x else h) ≡ h = ground arith in
      let step : nxt' y ≡ (if ptr_eq (nxt y) (some x) then nxt x else nxt y) =
        ground (arith, w y, next_prev nxt prv (nxt y) x y ys f.1 k.1 d.0) in
      rw (there, start, step)
        (
          f.0,
          Forward-erase nxt prv nxt' (some y) (nxt y) x ys f.1 k.1 d.1 (ground arith)
              (λ i mi. ground arith) w,
        )
]

-- Taking `x` out: its successor's `prev` becomes the `prev` of `x`.
pub Backward-erase :
    (nxt prv prv' : ℕ → Ptr) (b h : Ptr) (x : ℕ) (xs : List ℕ)
    → Forward nxt h xs
    → Backward prv b xs
    → Distinct xs
    → has x xs ≡ true
    → ((i : ℕ) → prv' i ≡ (if ptr_eq (nxt x) (some i) then prv x else prv i))
    → Backward prv' b (erase x xs)
Backward-erase nxt prv prv' b h x [] f k d m w = tt
Backward-erase nxt prv prv' b h x (y ∷ ys) f k d m w = elim (Bool-cases (x == y)) [
  | inl here ↦ rw here (rest (ground arith) ys f.1 k.1 d)
  | inr there ↦
      let head : prv' y ≡ prv y =
        ground (arith, w y, next_has nxt (nxt y) x ys f.1 (ground arith) y) in
      rw (there, head)
        (k.0, Backward-erase nxt prv prv' (some y) (nxt y) x ys f.1 k.1 d.1 (ground arith) w)
]
  where
    rest :
        x ≡ y
        → (zs : List ℕ) → Forward nxt (nxt y) zs
        → Backward prv (some y) zs
        → Distinct (y ∷ zs)
        → Backward prv' b zs
    rest e [] f' k' d' = tt
    rest e (z ∷ zs) f' k' d' = (
      ground (arith, w z, ap nxt e, ap prv e),
      Backward-frame prv prv' (some z) zs k'.1 (λ i mi. ground (arith, w i, ap nxt e)),
    )

pub last_or-erase :
    (prv : ℕ → Ptr) (b : Ptr) (x : ℕ) (xs : List ℕ)
    → Backward prv b xs
    → Distinct xs
    → has x xs ≡ true
    → last_or b (erase x xs) ≡ (if ptr_eq (last_or b xs) (some x) then prv x else last_or b xs)
last_or-erase prv b x [] k d m = cc
last_or-erase prv b x (y ∷ []) k d m = ground arith
last_or-erase prv b x (y ∷ z ∷ zs) k d m = elim (Bool-cases (x == y)) [
  | inl here ↦ ground (arith, last_or-has (some y) z zs x)
  | inr there ↦ rw there (last_or-erase prv (some y) x (z ∷ zs) k.1 d.1 (ground arith))
]

pub head_iff :
    (prv : ℕ → Ptr) (h : Ptr) (i : ℕ) (xs : List ℕ)
    → h ≡ first xs
    → Backward prv none xs
    → has i xs ≡ true
    → Distinct xs
    → ptr_eq h (some i) ≡ ptr_eq (prv i) none
head_iff prv h i [] e k m d = cc
head_iff prv h i (y ∷ ys) e k m d = elim (Bool-cases (i == y)) [
  | inl here ↦ let same : i ≡ y = ground arith in ground (arith, ap prv same)
  | inr there ↦ ground (arith, prev_has prv none i y ys k)
]

pub tail_iff :
    (nxt : ℕ → Ptr) (b h : Ptr) (i : ℕ) (xs : List ℕ)
    → Forward nxt h xs
    → has i xs ≡ true
    → Distinct xs
    → ptr_eq (last_or b xs) (some i) ≡ ptr_eq (nxt i) none
tail_iff nxt b h i [] f m d = cc
tail_iff nxt b h i (y ∷ []) f m d = let same : i ≡ y = ground arith in ground (arith, ap nxt same)
tail_iff nxt b h i (y ∷ z ∷ zs) f m d = elim (Bool-cases (i == y)) [
  | inl here ↦
      let same : i ≡ y = ground arith in ground (arith, ap nxt same, last_or-has (some y) z zs i)
  | inr there ↦ tail_iff nxt (some y) (nxt y) i (z ∷ zs) f.1 (ground arith) d.1
]

pub next_ne :
    (nxt : ℕ → Ptr) (h : Ptr) (x : ℕ) (xs : List ℕ)
    → Forward nxt h xs
    → Distinct xs
    → has x xs ≡ true
    → (i : ℕ) → nxt x ≡ some i
    → (i == x) ≡ false
next_ne nxt h x [] f d m i e = cc
next_ne nxt h x (y ∷ []) f d m i e = let same : x ≡ y = ground arith in ground (arith, ap nxt same)
next_ne nxt h x (y ∷ z ∷ zs) f d m i e = elim (Bool-cases (x == y)) [
  | inl here ↦ let same : x ≡ y = ground arith in ground (arith, ap nxt same)
  | inr there ↦ next_ne nxt (nxt y) x (z ∷ zs) f.1 d.1 (ground arith) i e
]

-- The element before another one, and that it is another.
pub prev_in :
    (prv : ℕ → Ptr) (x : ℕ) (xs : List ℕ)
    → Backward prv none xs
    → Distinct xs
    → has x xs ≡ true
    → (i : ℕ) → prv x ≡ some i
    → (has i xs ≡ true) × ((i == x) ≡ false)
prev_in prv x [] k d m i e = cc
prev_in prv x (y ∷ ys) k d m i e = elim (Bool-cases (x == y)) [
  | inl here ↦ let same : x ≡ y = ground arith in absurd (ground (arith, ap prv same))
  | inr there ↦ ground (arith, prev_has prv none x y ys k, behind none y ys k d (ground arith))
]
  where
    behind :
        (b : Ptr) (w : ℕ) (ws : List ℕ)
        → Backward prv b (w ∷ ws)
        → Distinct (w ∷ ws)
        → has x ws ≡ true
        → (i == x) ≡ false
    behind b w [] k' d' m' = cc
    behind b w (v ∷ vs) k' d' m' = elim (Bool-cases (x == v)) [
      | inl here ↦ let same : x ≡ v = ground arith in ground (arith, ap prv same)
      | inr there ↦ behind (some w) v vs k'.1 d'.1 (ground arith)
    ]
