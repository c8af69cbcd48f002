-- ===== src/Send/Bits.antt =====
-- `right_most_one` finds the lowest set bit.
use native.Mathlib.Decide.{dec_lt}
use native.Mathlib.Nat.{pow-suc, mul_right_comm}
use toy_softswitch.Prelude.{
  refl, some, ℕ, zero, suc, ◌+◌, ◌*◌, ◌/◌, ◌%◌, ◌^◌, ◌<◌, ◌≡◌, ◌≢◌, subst, inl, inr, true, arith,
  ◌==◌, Bool-cases, Yields, Yields_mono,
}
use toy_softswitch.Rts.{any_ready}
use toy_softswitch.Send.{right_most_loop, right_most_one}

-- Bit `k` of `x` is set and no lower one is.
pub record IsLowestBit (x k : ℕ) : Type 0 where
  pub above : ℕ
  pub value : x ≡ 2 ^ k * (2 * above + 1)

IsLowestBit-suc : (x k : ℕ) → x % 2 ≡ 0 → IsLowestBit (x / 2) k → IsLowestBit x (suc k)
IsLowestBit-suc x k e b = record {
  above = b.above;
  value = rw (pow-suc 2 k, mul_right_comm (2 ^ k) 2 (2 * b.above + 1)) (omega (arith, b.value));
}

right_most_loop-lowest :
    (fuel x index : ℕ)
    → x ≢ 0
    → x < 2 ^ fuel
    → Yields
        (right_most_loop fuel x index)
        (λ j. (k : ℕ) × (j ≡ index + k) × (k < fuel) × IsLowestBit x k)
unfolding right_most_loop
right_most_loop-lowest zero x index ne h = absurd (omega arith)
right_most_loop-lowest (suc fuel) x index ne h = elim (Bool-cases (x % 2 == 1)) [
  | inl odd ↦ rw odd (0, omega arith, omega arith, record { above = x / 2; value = ground arith })
  | inr even ↦ rw even (
      Yields_mono (right_most_loop fuel (x / 2) (index + 1))
        (right_most_loop-lowest fuel (x / 2) (index + 1) (λ e. ne (ground arith))
          (omega (arith, pow-suc 2 fuel)))
        λ j (k, e, l, b). (suc k, omega arith, omega arith, IsLowestBit-suc x k (ground arith) b))
]

-- On a 32-bit word that is not zero the loop ends, at the lowest set bit.
pub right_most_one-lowest :
    (x : ℕ) → x ≢ 0 → x < 2 ^ 32 → Yields (right_most_one x) (λ k. (k < 32) × IsLowestBit x k)
unfolding right_most_one
right_most_one-lowest x ne h =
    Yields_mono (right_most_loop 32 x 0) (right_most_loop-lowest 32 x 0 ne h)
      λ j (k, e, l, b). (omega arith, subst (IsLowestBit x) (omega arith) b)

-- A word with a ready output pin has its lowest set bit below the flag for computing.
lowest-lt_of_ready : (x k : ℕ) → any_ready x ≡ true → k < 32 → IsLowestBit x k → k < 31
lowest-lt_of_ready x k r l b = elim (dec_lt k 31) [
  | yes h ↦ h
  | no h ↦
      let last : k ≡ 31 = omega arith in
      let value : x ≡ 2 ^ 31 * (2 * b.above + 1) =
        subst (λ n. x ≡ 2 ^ n * (2 * b.above + 1)) last b.value in
      absurd (ground arith)
]

-- Pin 0 is the lowest one that can be ready.
pub right_most_one_first : right_most_one 1 ≡ some 0
unfolding right_most_one right_most_loop
right_most_one_first = refl
