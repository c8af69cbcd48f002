-- ===== src/Applications/EdgeProps/Bits.antt =====
-- A word as the set of its bits.
use toy_softswitch.Prelude.{
  ℕ, zero, suc, ◌+◌, ◌*◌, ◌-◌, ◌/◌, ◌%◌, ◌^◌, ◌<◌, ◌≤◌, ◌≡◌, refl, ap, ◌∙◌, Bool, true, false, ◌&&◌,
  ◌||◌, arith, ◌==◌, if◌then◌else◌, inl, inr, Bool-cases,
}
use toy_softswitch.Applications.EdgeProps.{bit_or, bit_and}

abbrev pub bit : Bool → ℕ
bit b = if b then 1 else 0

-- The word of the `n` bits of `f` from bit `k` on, the lowest first.
abbrev pub word : (ℕ → Bool) → ℕ → ℕ → ℕ
word f k zero = 0
word f k (suc n) = bit (f k) + 2 * word f (k + 1) n

bit-parts : (b : Bool) (m : ℕ) → ((bit b + 2 * m) % 2 ≡ bit b) × ((bit b + 2 * m) / 2 ≡ m)
bit-parts true m = (omega arith, omega arith)
bit-parts false m = (omega arith, omega arith)

bit_or_zero : (w : ℕ) → bit_or w 0 0 ≡ 0
unfolding bit_or
bit_or_zero zero = refl
bit_or_zero (suc w) = omega (arith, bit_or_zero w)

bit_and_zero : (w : ℕ) → bit_and w 0 0 ≡ 0
unfolding bit_and
bit_and_zero zero = refl
bit_and_zero (suc w) = omega (arith, bit_and_zero w)

bit-or : (a b : Bool) → (if bit a + bit b == 0 then 0 else 1) ≡ bit (a || b)
bit-or true true = refl
bit-or true false = refl
bit-or false true = refl
bit-or false false = refl

bit-and : (a b : Bool) → (if bit a + bit b == 2 then 1 else 0) ≡ bit (a && b)
bit-and true true = refl
bit-and true false = refl
bit-and false true = refl
bit-and false false = refl

pub bit_or-word :
    (f g : ℕ → Bool) (k n w : ℕ)
    → n ≤ w
    → bit_or w (word f k n) (word g k n) ≡ word (λ j. f j || g j) k n
unfolding bit_or
bit_or-word f g k zero w h = bit_or_zero w
bit_or-word f g k (suc n) zero h = absurd (omega arith)
bit_or-word f g k (suc n) (suc w) h =
    let (low, high) = bit-parts (f k) (word f (k + 1) n) in
    let (low', high') = bit-parts (g k) (word g (k + 1) n) in
    rw (low, high, low', high', bit-or (f k) (g k), bit_or-word f g (k + 1) n w (omega arith)) refl

pub bit_and-word :
    (f g : ℕ → Bool) (k n w : ℕ)
    → n ≤ w
    → bit_and w (word f k n) (word g k n) ≡ word (λ j. f j && g j) k n
unfolding bit_and
bit_and-word f g k zero w h = bit_and_zero w
bit_and-word f g k (suc n) zero h = absurd (omega arith)
bit_and-word f g k (suc n) (suc w) h =
    let (low, high) = bit-parts (f k) (word f (k + 1) n) in
    let (low', high') = bit-parts (g k) (word g (k + 1) n) in
    rw (low, high, low', high', bit-and (f k) (g k), bit_and-word f g (k + 1) n w (omega arith))
      refl

pub word_congr :
    (f g : ℕ → Bool) (k n : ℕ) → ((j : ℕ) → k ≤ j → j < k + n → f j ≡ g j) → word f k n ≡ word g k n
word_congr f g k zero h = refl
word_congr f g k (suc n) h =
    rw
      (
        h k (omega arith) (omega arith),
        word_congr f g (k + 1) n (λ j l u. h j (omega arith) (omega arith)),
      )
      refl

pub word_none : (k n : ℕ) → word (λ j. false) k n ≡ 0
word_none k zero = refl
word_none k (suc n) = omega (arith, word_none (k + 1) n)

-- One bit.
pub word_single : (i k n : ℕ) → k ≤ i → i < k + n → word (λ j. j == i) k n ≡ 2 ^ (i - k)
word_single i k zero h h' = absurd (omega arith)
word_single i k (suc n) h h' = elim (Bool-cases (k == i)) [
  | inl at ↦
      let here : k ≡ i = ground arith in
      let rest : word (λ j. j == i) (k + 1) n ≡ 0 =
        word_congr (λ j. j == i) (λ j. false) (k + 1) n (λ j l u. ground arith)
        ∙ word_none (k + 1) n in
      let e : i - k ≡ 0 = omega arith in rw (at, rest, e) refl
  | inr off ↦
      let rest = word_single i (k + 1) n (ground arith) (omega arith) in
      let e : i - k ≡ suc (i - (k + 1)) = ground arith in rw (off, rest, e) (ground arith)
]

-- The word is all ones exactly if every bit is.
pub word_bound : (f : ℕ → Bool) (k n : ℕ) → word f k n < 2 ^ n
word_bound f k zero = omega arith
word_bound f k (suc n) = ground (arith, word_bound f (k + 1) n)

pub word_full :
    (f : ℕ → Bool) (k n : ℕ) → ((j : ℕ) → k ≤ j → j < k + n → f j ≡ true) → word f k n ≡ 2 ^ n - 1
word_full f k zero h = refl
word_full f k (suc n) h =
    let rest = word_full f (k + 1) n (λ j l u. h j (omega arith) (omega arith)) in
    let bound = word_bound f (k + 1) n in rw (h k (omega arith) (omega arith)) (ground arith)

pub word_full_bits :
    (f : ℕ → Bool) (k n : ℕ) → word f k n ≡ 2 ^ n - 1 → (j : ℕ) → k ≤ j → j < k + n → f j ≡ true
word_full_bits f k zero e j l u = absurd (omega arith)
word_full_bits f k (suc n) e j l u =
    let bound = word_bound f (k + 1) n in
    elim (Bool-cases (f k)) [
      | inl on ↦ elim (Bool-cases (k == j)) [
        | inl at ↦ let here : k ≡ j = ground arith in ap f (ground arith) ∙ on
        | inr off ↦ word_full_bits f (k + 1) n (ground arith) j (ground arith) (omega arith)
      ]
      | inr off ↦ absurd (ground arith)
    ]
