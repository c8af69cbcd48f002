-- ===== src/Receive/Search.antt =====
-- The binary search among a pin's sources.
use native.Mathlib.Decide.{dec_lt}
use toy_softswitch.Prelude.{
  ℕ, zero, suc, ◌+◌, ◌-◌, ◌/◌, ◌<◌, ◌≤◌, ◌≡◌, ◌≢◌, refl, sym, ap, subst, ◌∙◌, true, false, Option,
  none, some, List, [], ◌∷◌, ◌==◌, arith, if◌then◌else◌, get_elem?, length, Bool-cases, inl, inr,
  Yields,
}
use toy_softswitch.Context.{App, Address, InputPinBinding}
use toy_softswitch.Receive.{cmp_address, lower_bound_loop, lower_bound}
use toy_softswitch.Receive.Order.{cmp_address_trans, cmp_address_irrefl}

module _ {A : App} where
  -- The bindings stand in strictly rising order of their sources.
  abbrev pub IsSorted : List (InputPinBinding A) → Type 0
  IsSorted bs =
      (i j : ℕ) (x y : InputPinBinding A)
      → i < j
      → get_elem? bs i ≡ some x
      → get_elem? bs j ≡ some y
      → cmp_address x.source y.source ≡ true

  get_elem?-some :
      (bs : List (InputPinBinding A)) (i : ℕ)
      → i < length bs
      → (x : InputPinBinding A) × (get_elem? bs i ≡ some x)
  get_elem?-some [] i h = absurd (omega arith)
  get_elem?-some (b ∷ bs) zero h = (b, refl)
  get_elem?-some (b ∷ bs) (suc i) h = get_elem?-some bs i (omega arith)

  -- `r` parts the first `n` bindings into those before `a` and the rest.
  pub record IsBound (bs : List (InputPinBinding A)) (n : ℕ) (a : Address) (r : ℕ) : Type 0 where
    pub within : r ≤ n
    pub below :
        (i : ℕ) (x : InputPinBinding A)
        → i < r
        → get_elem? bs i ≡ some x
        → cmp_address x.source a ≡ true
    pub above :
        (i : ℕ) (x : InputPinBinding A)
        → r ≤ i
        → i < n
        → get_elem? bs i ≡ some x
        → cmp_address x.source a ≡ false

  module _ (bs : List (InputPinBinding A)) (n : ℕ) (a : Address) (sorted : IsSorted bs)
      (fits : n ≤ length bs) where
    abbrev Below : ℕ → Type 0
    Below k =
        (i : ℕ) (x : InputPinBinding A)
        → i < k
        → get_elem? bs i ≡ some x
        → cmp_address x.source a ≡ true

    abbrev Above : ℕ → Type 0
    Above k =
        (i : ℕ) (x : InputPinBinding A)
        → k ≤ i
        → i < n
        → get_elem? bs i ≡ some x
        → cmp_address x.source a ≡ false

    -- A binding before `a` has only such bindings below it.
    Below-of :
        (k : ℕ) (m : InputPinBinding A)
        → get_elem? bs k ≡ some m
        → cmp_address m.source a ≡ true
        → Below (k + 1)
    Below-of k m at lt i x h e = elim (dec_lt i k) [
      | yes far ↦ cmp_address_trans x.source m.source a (sorted i k x m far e at) lt
      | no near ↦
          let same : i ≡ k = omega arith in
          let there : some x ≡ some m = sym e ∙ ap (get_elem? bs) same ∙ at in ground arith
    ]

    -- One that is not before `a` has only such bindings above it.
    Above-of :
        (k : ℕ) (m : InputPinBinding A)
        → get_elem? bs k ≡ some m
        → cmp_address m.source a ≡ false
        → Above k
    Above-of k m at ge i x h hn e = elim (dec_lt k i) [
      | yes far ↦ elim (Bool-cases (cmp_address x.source a)) [
        | inl lt ↦
            let back = cmp_address_trans m.source x.source a (sorted k i m x far at e) lt in
            ground arith
        | inr fine ↦ fine
      ]
      | no near ↦
          let same : i ≡ k = omega arith in
          let there : some x ≡ some m = sym e ∙ ap (get_elem? bs) same ∙ at in ground arith
    ]

    abbrev Finds : ℕ → Type 0
    Finds fuel =
        (first len : ℕ)
        → len < fuel
        → first + len ≤ n
        → Below first
        → Above (first + len)
        → Yields (lower_bound_loop fuel bs a first len) (IsBound bs n a)

    halve :
        (fuel first len : ℕ) (m : InputPinBinding A)
        → Finds fuel
        → get_elem? bs (first + len / 2) ≡ some m
        → len ≢ 0
        → len < suc fuel
        → first + len ≤ n
        → Below first
        → Above (first + len)
        → Yields
            (if cmp_address m.source a
              then lower_bound_loop fuel bs a (first + len / 2 + 1) (len - len / 2 - 1)
              else lower_bound_loop fuel bs a first (len / 2))
            (IsBound bs n a)
    halve fuel first len m ih at ne h k below above = elim (Bool-cases (cmp_address m.source a)) [
      | inl lt ↦ rw lt (
          ih (first + len / 2 + 1) (len - len / 2 - 1) (omega arith) (omega arith)
            (Below-of (first + len / 2) m at lt) (λ i x hi hn e. above i x (omega arith) hn e))
      | inr ge ↦ rw ge (
          ih first (len / 2) (omega arith) (omega arith) below (Above-of (first + len / 2) m at ge))
    ]

    lower_bound_loop-IsBound : (fuel : ℕ) → Finds fuel
    unfolding lower_bound_loop
    lower_bound_loop-IsBound zero first len h k below above = absurd (omega arith)
    lower_bound_loop-IsBound (suc fuel) first len h k below above = elim (Bool-cases (len == 0)) [
      | inl empty ↦ rw empty (record {
        within = omega arith;
        below = below;
        above = λ i x hi hn e. above i x (ground arith) hn e;
      })
      | inr more ↦
          let (m, at) = get_elem?-some bs (first + len / 2) (ground arith) in
          let one =
            halve fuel first len m (lower_bound_loop-IsBound fuel) at (ground arith) h k below
              above in
          rw (more, at) one
    ]

    -- On bindings in order the search ends within its fuel, reads no binding past the end, and
    -- stops at the place that parts the bindings before the address from the rest.
    pub lower_bound-IsBound : Yields (lower_bound bs n a) (IsBound bs n a)
    unfolding lower_bound
    lower_bound-IsBound =
        lower_bound_loop-IsBound (n + 1) 0 n (omega arith) (omega arith)
          (λ i x hi e. absurd (omega arith)) (λ i x hi hn e. absurd (omega arith))

    -- If a source is the address itself, the search finds it.
    pub lower_bound-found :
        (e : ℕ) (b : InputPinBinding A)
        → e < n
        → get_elem? bs e ≡ some b
        → b.source ≡ a
        → lower_bound bs n a ≡ some e
    lower_bound-found e b h at eq = found (lower_bound bs n a) lower_bound-IsBound
      where
        found : (r : Option ℕ) → Yields r (IsBound bs n a) → r ≡ some e
        found none y = absurd y
        found (some r) y = elim (dec_lt e r) [
          | yes early ↦
              let before = y.below e b early at in
              let itself : cmp_address b.source a ≡ false =
                subst (λ x. cmp_address b.source x ≡ false) eq (cmp_address_irrefl b.source) in
              cc
          | no late ↦ elim (dec_lt r e) [
            | yes gap ↦
                let (x, there) = get_elem?-some bs r (omega arith) in
                let before : cmp_address x.source a ≡ true =
                  subst (λ z. cmp_address x.source z ≡ true) eq (sorted r e x b gap there at) in
                let not_before = y.above r x (omega arith) (omega arith) there in cc
            | no near ↦ let same : r ≡ e = omega arith in ap some same
          ]
        ]
