-- ===== src/Applications/Ring/Rounds.antt =====
-- The token goes round the ring.
use native.Mathlib.Nat.{mod-lt, mod-add-mod, mul_assoc}
use toy_softswitch.Prelude.{
  ℕ, suc, ◌+◌, ◌*◌, ◌/◌, ◌%◌, ◌^◌, ◌<◌, ◌≡◌, refl, List, [], ◌∷◌, ◌++◌, arith, ◌==◌, add32, inl,
  inr, sym, ap, ◌∙◌, Bool-cases,
}
use toy_softswitch.Applications.Ring.{GraphProps, TokenMsg, dev_ready_to_send_handler}
use toy_softswitch.Applications.Ring.Token.{
  System, start, send_token, receive_token, Step, Run, value, Holds, Flies, OneToken,
}

pair_eq {ℓ} : {A : Type ℓ} (x y : A) → x ∷ [] ≡ y ∷ [] → x ≡ y
pair_eq x y e = cc

-- A list of one, split at one of its members.
only_one {ℓ} :
    {A : Type ℓ} (xs ys : List A) (x y : A) → x ∷ [] ≡ xs ++ y ∷ ys → (x ≡ y) × (xs ++ ys ≡ [])
only_one [] ys x y e = (cc, cc)
only_one (z ∷ []) ys x y e = absurd cc
only_one (z ∷ w ∷ xs) ys x y e = absurd cc

not_empty {ℓ} : {A : Type ℓ} (xs ys : List A) (y : A) → ¬ ([] ≡ xs ++ y ∷ ys)
not_empty [] ys y e = cc
not_empty (x ∷ xs) ys y e = cc

module _ (g : GraphProps) (n : ℕ) where
  value-next : (h : ℕ) → add32 (value g n h) g.increment ≡ value g n (h + 1)
  value-next h =
      let more : (h + 1) * g.increment ≡ h * g.increment + g.increment = grind arith in
      omega (arith, more)

  hop :
      (s : System) (h i : ℕ)
      → Holds g n s (h % n) (value g n h)
      → (dev_ready_to_send_handler g tt (s.devs i)).1 ≡ 1
      → Flies g n (send_token g n s i) ((h + 1) % n) (value g n (h + 1))
  hop s h i (here, others, still) ready = elim (Bool-cases (h % n == i)) [
    | inl at ↦
        let same : i ≡ h % n = ground arith in
        let count = ap (λ x. (s.devs x).count) same ∙ here in
        (
          λ j. ground (arith, others j),
          rw still (λ x.
              (
                (ap (λ y. (y + 1) % n) same ∙ mod-add-mod h n 1) x,
                record { count = (ap (λ c. add32 c g.increment) count ∙ value-next h) x },
              )
              ∷ []),
        )
    | inr off ↦ let gone = others i off in absurd (ground arith)
  ]

  land :
      (s : System) (h j : ℕ) (msg : TokenMsg) (xs ys : List (ℕ × TokenMsg))
      → Flies g n s (h % n) (value g n h)
      → s.flight ≡ xs ++ (j, msg) ∷ ys
      → Holds g n (receive_token g n s j msg (xs ++ ys)) (h % n) (value g n h)
  land s h j msg xs ys (idle, way) e =
      let (same, rest) = only_one xs ys _ _ (sym way ∙ e) in
      let place : h % n ≡ j = ap (λ p. p.0) same in
      let count : value g n h ≡ msg.count = ap (λ p. p.1.count) same in
      (ground arith, λ i off. ground (arith, idle i), rest)

  Step-OneToken : (k : ℕ) (s u : System) → OneToken g n k s → Step g n s u → OneToken g n (suc k) u
  Step-OneToken k s u (h, inl (steps, holds)) (Step.dev_out i hi ready) =
      (h + 1, inr (omega arith, hop s h i holds ready))
  Step-OneToken k s u (h, inl (steps, holds)) (Step.dev_in xs ys j msg e) =
      absurd (not_empty xs ys (j, msg) (sym holds.2 ∙ e))
  Step-OneToken k s u (h, inr (steps, flies)) (Step.dev_out i hi ready) =
      let idle = flies.0 i in absurd (ground arith)
  Step-OneToken k s u (h, inr (steps, flies)) (Step.dev_in xs ys j msg e) =
      (h, inl (omega arith, land s h j msg xs ys flies e))

  start-OneToken : 0 < n → OneToken g n 0 (start g n)
  start-OneToken pos =
      let first : 0 % n ≡ 0 = grind arith in
      let one : (1 + 0 * g.increment) % 2 ^ 32 ≡ 1 = omega arith in
      (0, inl (refl, (rw (first, one) refl, λ j off. ground arith, refl)))

  -- In every run of a ring of at least one device there is exactly one token: after k handlers,
  -- either k is 2h, device h mod n holds it and nothing is on its way, or k + 1 is 2h, it is on its
  -- way to that device and no device holds one; in both cases its count is 1 + h * increment in 32
  -- bits.
  pub Run-OneToken : (k : ℕ) (s : System) → 0 < n → Run g n k s → OneToken g n k s
  Run-OneToken k s pos Run.here = start-OneToken pos
  Run-OneToken k s pos (Run.next {k = k'} {s = s'} r st) =
      Step-OneToken k' s' s (Run-OneToken k' s' pos r) st

-- With an even increment, such as that of the instances, the count stays odd.
value_odd : (g : GraphProps) (n h : ℕ) → g.increment % 2 ≡ 0 → value g n h % 2 ≡ 1
value_odd g n h even =
    let half : g.increment ≡ g.increment / 2 * 2 = omega arith in
    let twice : h * g.increment ≡ h * (g.increment / 2) * 2 =
      ap (λ x. h * x) half ∙ sym (mul_assoc h (g.increment / 2) 2) in
    omega (arith, twice)

-- With an even increment, such as that of the instances, the ring never stops: in every state of a
-- run some handler can run, also after the count has wrapped round.
pub Run-goes_on :
    (g : GraphProps) (n k : ℕ) (s : System)
    → 0 < n
    → g.increment % 2 ≡ 0
    → Run g n k s
    → (u : System) × Step g n s u
Run-goes_on g n k s pos even r = on (Run-OneToken g n k s pos r)
  where
    on : OneToken g n k s → (u : System) × Step g n s u
    on (h, inl (steps, (here, others, still))) =
        let odd = value_odd g n h even in (_, Step.dev_out (h % n) (mod-lt h pos) (ground arith))
    on (h, inr (steps, (idle, way))) = (_, Step.dev_in [] [] (h % n) _ way)

-- A device that holds a count of 0 does not send, and nothing else can.
stuck : (g : GraphProps) (n : ℕ) (s u : System) (i : ℕ) → Holds g n s i 0 → ¬ Step g n s u
stuck g n s u i (here, others, still) (Step.dev_out j hj ready) = elim (Bool-cases (i == j)) [
  | inl at ↦
      let same : j ≡ i = ground arith in
      let count = ap (λ x. (s.devs x).count) same ∙ here in absurd (ground arith)
  | inr off ↦ let none = others j off in absurd (ground arith)
]
stuck g n s u i (here, others, still) (Step.dev_in xs ys j msg e) =
    not_empty xs ys (j, msg) (sym still ∙ e)

-- A hop that brings the count of the token to 0 loses it: when it has landed, no handler of the
-- ring can run any more.
Run-dies :
    (g : GraphProps) (n h : ℕ) (s u : System)
    → 0 < n
    → Run g n (h + h) s
    → value g n h ≡ 0
    → ¬ Step g n s u
Run-dies g n h s u pos r gone st = stop (Run-OneToken g n (h + h) s pos r)
  where
    stop : OneToken g n (h + h) s → ⊥
    stop (h', inl (steps, holds)) =
        let same : h' ≡ h = omega (arith, steps) in
        stuck g n s u (h' % n) (holds.0 ∙ ap (value g n) same ∙ gone, holds.1, holds.2) st
    stop (h', inr (steps, flies)) = absurd (omega (arith, steps))
