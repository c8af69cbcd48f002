-- ===== src/Applications/Barrier/Count.antt =====
-- Sums over the devices of a barrier.
use toy_softswitch.Prelude.{
  ℕ, zero, suc, ◌+◌, ◌*◌, ◌<◌, ◌≤◌, ◌≡◌, refl, Bool, true, false, arith, update, leb, inl, inr,
  Bool-cases,
}
use toy_softswitch.Applications.Barrier.{DevState}

abbrev pub bit : Bool → ℕ
bit true = 1
bit false = 0

abbrev pub total : (DevState → ℕ) → (ℕ → DevState) → ℕ → ℕ
total f devs zero = 0
total f devs (suc n) = total f devs n + f (devs n)

-- How many of the first `n` devices pass a test.
abbrev pub tally : (DevState → Bool) → (ℕ → DevState) → ℕ → ℕ
tally p devs n = total (λ d. bit (p d)) devs n

total_beyond :
    (f : DevState → ℕ) (devs : ℕ → DevState) (i : ℕ) (d : DevState) (n : ℕ)
    → n ≤ i
    → total f (update devs i d) n ≡ total f devs n
total_beyond f devs i d zero h = refl
total_beyond f devs i d (suc n) h = ground (arith, total_beyond f devs i d n)

-- A write at one device changes the sum by what it changes there.
pub total-update :
    (f : DevState → ℕ) (devs : ℕ → DevState) (i : ℕ) (d : DevState) (n : ℕ)
    → i < n
    → total f (update devs i d) n + f (devs i) ≡ total f devs n + f d
total-update f devs i d zero h = absurd (omega arith)
total-update f devs i d (suc n) h =
    ground (arith, total_beyond f devs i d n, total-update f devs i d n)

pub tally-le : (p : DevState → Bool) (devs : ℕ → DevState) (n : ℕ) → tally p devs n ≤ n
tally-le p devs zero = omega arith
tally-le p devs (suc n) = ground (arith, tally-le p devs n)

pub tally_full :
    (p : DevState → Bool) (devs : ℕ → DevState) (n i : ℕ)
    → tally p devs n ≡ n
    → i < n
    → p (devs i) ≡ true
tally_full p devs zero i e h = absurd (omega arith)
tally_full p devs (suc n) i e h = ground (arith, tally_full p devs n i, tally-le p devs n)

pub tally_all :
    (p : DevState → Bool) (devs : ℕ → DevState) (n : ℕ)
    → ((i : ℕ) → i < n → p (devs i) ≡ true)
    → tally p devs n ≡ n
tally_all p devs zero all = refl
tally_all p devs (suc n) all =
    ground (arith, all n, tally_all p devs n (λ i h. all i (omega arith)))

pub tally_none :
    (p : DevState → Bool) (devs : ℕ → DevState) (n : ℕ)
    → ((i : ℕ) → i < n → p (devs i) ≡ false)
    → tally p devs n ≡ 0
tally_none p devs zero none = refl
tally_none p devs (suc n) none =
    ground (arith, none n, tally_none p devs n (λ i h. none i (omega arith)))

-- A device that passes the test, if any is counted.
pub tally_some :
    (p : DevState → Bool) (devs : ℕ → DevState) (n : ℕ)
    → 0 < tally p devs n
    → (i : ℕ) × (i < n) × (p (devs i) ≡ true)
tally_some p devs zero h = absurd (omega arith)
tally_some p devs (suc n) h = elim (Bool-cases (p (devs n))) [
  | inl here ↦ (n, omega arith, here)
  | inr away ↦ let (i, k, e) = tally_some p devs n (ground arith) in (i, omega (arith, k), e)
]

pub total-le :
    (f : DevState → ℕ) (devs : ℕ → DevState) (n b : ℕ)
    → ((i : ℕ) → i < n → f (devs i) ≤ b)
    → total f devs n ≤ n * b
total-le f devs zero b h = omega arith
total-le f devs (suc n) b h = grind (arith, h n, total-le f devs n b (λ i k. h i (omega arith)))

-- A device whose clock is least.
pub earliest :
    (devs : ℕ → DevState) (n : ℕ)
    → 0 < n
    → (i : ℕ) × (i < n) × ((j : ℕ) → j < n → (devs i).t ≤ (devs j).t)
earliest devs zero h = absurd (omega arith)
earliest devs (suc zero) h = (0, omega arith, λ j k. ground arith)
earliest devs (suc (suc n)) h =
    let (i, k, least) = earliest devs (suc n) (omega arith) in
    elim (Bool-cases (leb (devs i).t (devs (suc n)).t)) [
      | inl before ↦ (i, omega arith, λ j lt. ground (arith, least j))
      | inr after ↦ (suc n, omega arith, λ j lt. ground (arith, least j))
    ]

pub total_same :
    (f : DevState → ℕ) (devs : ℕ → DevState) (n b : ℕ)
    → ((i : ℕ) → i < n → f (devs i) ≡ b)
    → total f devs n ≡ n * b
total_same f devs zero b h = omega arith
total_same f devs (suc n) b h = grind (arith, h n, total_same f devs n b (λ i k. h i (omega arith)))
