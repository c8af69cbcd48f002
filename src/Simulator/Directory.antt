-- ===== src/Simulator/Directory.antt =====
-- The name of the directory of the sockets, made up so that mkdtemp takes it.
use mathlib.Core.List.{reverse-append, append_assoc, append-nil}
use toy_softswitch.Prelude.{
  ℕ, zero, suc, ◌+◌, ◌-◌, ◌≤◌, ◌≡◌, refl, ap, sym, ◌∙◌, true, false, List, [], ◌∷◌, ◌++◌, arith,
  ◌==◌, inl, inr, Bool-cases,
}
use toy_softswitch.Simulator.{leading_xs, num_xs, push_xs, mkdtemp_template}

num_xs-snoc : (d : List ℕ) → num_xs (d ++ 88 ∷ []) ≡ suc (num_xs d)
num_xs-snoc d = ap leading_xs (reverse-append d (88 ∷ []))

num_xs-dot : (d : List ℕ) → num_xs (d ++ 46 ∷ []) ≡ 0
num_xs-dot d = ap leading_xs (reverse-append d (46 ∷ []))

num_xs-push_xs : (n : ℕ) (d : List ℕ) → num_xs (push_xs n d) ≡ num_xs d + n
num_xs-push_xs zero d = omega arith
num_xs-push_xs (suc n) d = omega (arith, num_xs-push_xs n (d ++ 88 ∷ []), num_xs-snoc d)

push_xs-prefix : (n : ℕ) (d : List ℕ) → (rest : List ℕ) × (push_xs n d ≡ d ++ rest)
push_xs-prefix zero d = ([], sym (append-nil d))
push_xs-prefix (suc n) d =
    let (rest, e) = push_xs-prefix n (d ++ 88 ∷ []) in
    (88 ∷ rest, e ∙ append_assoc d (88 ∷ []) rest)

-- A template with eight `X` or more is left as it is.
mkdtemp_template_full : (d : List ℕ) → 8 ≤ num_xs d → mkdtemp_template d ≡ d
unfolding mkdtemp_template
mkdtemp_template_full d h =
    let some_xs : (num_xs d == 0) ≡ false = ground arith in
    let none_left : 8 - num_xs d ≡ 0 = omega arith in rw (some_xs, none_left) refl

mkdtemp_template_xs : (d : List ℕ) → 8 ≤ num_xs (mkdtemp_template d)
unfolding mkdtemp_template
mkdtemp_template_xs d = elim (Bool-cases (num_xs d == 0)) [
  | inl bare ↦
      rw bare (omega (arith, num_xs-push_xs (8 - num_xs d) (d ++ 46 ∷ []), num_xs-dot d, none bare))
  | inr some_xs ↦ rw some_xs (omega (arith, num_xs-push_xs (8 - num_xs d) d))
]
  where
    none : (num_xs d == 0) ≡ true → num_xs d ≡ 0
    none e = ground arith

mkdtemp_template_prefix : (d : List ℕ) → (rest : List ℕ) × (mkdtemp_template d ≡ d ++ rest)
unfolding mkdtemp_template
mkdtemp_template_prefix d = elim (Bool-cases (num_xs d == 0)) [
  | inl bare ↦
      let (rest, e) = push_xs-prefix (8 - num_xs d) (d ++ 46 ∷ []) in
      (46 ∷ rest, rw bare (e ∙ append_assoc d (46 ∷ []) rest))
  | inr some_xs ↦ let (rest, e) = push_xs-prefix (8 - num_xs d) d in (rest, rw some_xs e)
]

-- Whatever directory is given, the template for mkdtemp begins with it and ends in at least eight
-- X; a name that does so already is left as it is, and making a template of a template changes
-- nothing.
mkdtemp_template-IsTemplate :
    (d : List ℕ)
    → (8 ≤ num_xs (mkdtemp_template d))
      × ((rest : List ℕ) × (mkdtemp_template d ≡ d ++ rest))
      × (8 ≤ num_xs d → mkdtemp_template d ≡ d)
      × (mkdtemp_template (mkdtemp_template d) ≡ mkdtemp_template d)
mkdtemp_template-IsTemplate d = (
  mkdtemp_template_xs d,
  mkdtemp_template_prefix d,
  mkdtemp_template_full d,
  mkdtemp_template_full (mkdtemp_template d) (mkdtemp_template_xs d),
)
