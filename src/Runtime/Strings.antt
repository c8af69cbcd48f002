-- ===== src/Runtime/Strings.antt =====
-- What the string routines compute, against the bytes that stand in memory.
use toy_softswitch.Prelude.{
  ℕ, zero, suc, ◌+◌, ◌<◌, ◌≤◌, ◌≡◌, ◌≢◌, refl, ap, sym, ◌∙◌, true, false, some, arith, ltb, ◌==◌,
  if◌then◌else◌, ◌>>=◌,
}
use toy_softswitch.Runtime.{Memory, strlen, Comparison, strcmp}

-- A string of `n` characters stands at `str`.
pub record IsString (mem : Memory) (str n : ℕ) : Type 0 where
  pub ends : mem (str + n) ≡ 0
  pub characters : (k : ℕ) → k < n → mem (str + k) ≢ 0

pub tail_of : (mem : Memory) (str n : ℕ) → IsString mem str (suc n) → IsString mem (str + 1) n
tail_of mem str n s =
    let end : str + suc n ≡ str + 1 + n = omega arith in
    record {
      ends = sym (ap mem end) ∙ s.ends;
      characters = λ k h e.
          let place : str + suc k ≡ str + 1 + k = omega arith in
          s.characters (suc k) (omega arith) (ap mem place ∙ e);
    }

-- On a string of n characters strlen ends, given more than n rounds, and returns n.
strlen-IsString :
    (fuel : ℕ) (mem : Memory) (str n : ℕ)
    → IsString mem str n
    → n < fuel
    → strlen fuel mem str ≡ some n
unfolding strlen
strlen-IsString zero mem str n s h = absurd (omega arith)
strlen-IsString (suc fuel) mem str zero s h =
    let start : str + 0 ≡ str = omega arith in
    let stop : mem str == 0 ≡ true = ground (arith, sym (ap mem start) ∙ s.ends) in rw stop refl
strlen-IsString (suc fuel) mem str (suc n) s h =
    let start : str + 0 ≡ str = omega arith in
    let first : mem str ≢ 0 = λ e. s.characters 0 (omega arith) (ap mem start ∙ e) in
    let on : mem str == 0 ≡ false = ground arith in
    let count : n + 1 ≡ suc n = omega arith in
    rw on (
      ap (λ r. r >>= λ len. some (len + 1))
        (strlen-IsString fuel mem (str + 1) n (tail_of mem str n s) (omega arith))
      ∙ ap some count)

-- Both strings have the same characters, the end included.
abbrev pub SameString : Memory → ℕ → ℕ → ℕ → Type 0
SameString mem a b n = (k : ℕ) → k ≤ n → mem (a + k) ≡ mem (b + k)

-- Two strings that agree up to the end of the first are found to be the same, and two that first
-- differ at place `n`, before or at the end of the first, are ordered by their bytes there.
strcmp-same :
    (fuel : ℕ) (mem : Memory) (a b n : ℕ)
    → IsString mem a n
    → SameString mem a b n
    → n < fuel
    → strcmp fuel mem a b ≡ some Comparison.same
unfolding strcmp
strcmp-same zero mem a b n s e h = absurd (omega arith)
strcmp-same (suc fuel) mem a b zero s e h =
    let start : a + 0 ≡ a = omega arith in
    let start' : b + 0 ≡ b = omega arith in
    let here : mem a ≡ mem b = sym (ap mem start) ∙ e 0 (omega arith) ∙ ap mem start' in
    let stop : mem a ≡ 0 = sym (ap mem start) ∙ s.ends in ground arith
strcmp-same (suc fuel) mem a b (suc n) s e h =
    let start : a + 0 ≡ a = omega arith in
    let start' : b + 0 ≡ b = omega arith in
    let here : mem a ≡ mem b = sym (ap mem start) ∙ e 0 (omega arith) ∙ ap mem start' in
    let first : mem a ≢ 0 = λ z. s.characters 0 (omega arith) (ap mem start ∙ z) in
    let not_less : ltb (mem a) (mem b) ≡ false = ground arith in
    let not_more : ltb (mem b) (mem a) ≡ false = ground arith in
    let on : mem a == 0 ≡ false = ground arith in
    rw (not_less, not_more, on)
      (strcmp-same fuel mem (a + 1) (b + 1) n (tail_of mem a n s)
        (λ k hk.
          let p : a + suc k ≡ a + 1 + k = omega arith in
          let p' : b + suc k ≡ b + 1 + k = omega arith in
          sym (ap mem p) ∙ e (suc k) (omega arith) ∙ ap mem p')
        (omega arith))

-- The strings agree on `n` characters before either ends.
abbrev pub SamePrefix : Memory → ℕ → ℕ → ℕ → Type 0
SamePrefix mem a b n = (k : ℕ) → k < n → (mem (a + k) ≡ mem (b + k)) × (mem (a + k) ≢ 0)

abbrev pub ordered : ℕ → ℕ → Comparison
ordered x y = if ltb x y then Comparison.less else Comparison.greater

-- On two strings that agree on their first n characters and differ in the next byte, strcmp ends,
-- given more than n rounds, and orders them by that byte.
strcmp-differs :
    (fuel : ℕ) (mem : Memory) (a b n : ℕ)
    → SamePrefix mem a b n
    → mem (a + n) ≢ mem (b + n)
    → n < fuel
    → strcmp fuel mem a b ≡ some (ordered (mem (a + n)) (mem (b + n)))
unfolding strcmp
strcmp-differs zero mem a b n e ne h = absurd (omega arith)
strcmp-differs (suc fuel) mem a b zero e ne h =
    let start : a + 0 ≡ a = omega arith in
    let start' : b + 0 ≡ b = omega arith in
    let x = ap mem start in let y = ap mem start' in ground arith
strcmp-differs (suc fuel) mem a b (suc n) e ne h =
    let start : a + 0 ≡ a = omega arith in
    let start' : b + 0 ≡ b = omega arith in
    let (eq, first') = e 0 (omega arith) in
    let here : mem a ≡ mem b = sym (ap mem start) ∙ eq ∙ ap mem start' in
    let first : mem a ≢ 0 = λ z. first' (ap mem start ∙ z) in
    let not_less : ltb (mem a) (mem b) ≡ false = ground arith in
    let not_more : ltb (mem b) (mem a) ≡ false = ground arith in
    let on : mem a == 0 ≡ false = ground arith in
    let p : (k : ℕ) → a + 1 + k ≡ a + suc k = λ k. omega arith in
    let p' : (k : ℕ) → b + 1 + k ≡ b + suc k = λ k. omega arith in
    rw (not_less, not_more, on)
      (strcmp-differs fuel mem (a + 1) (b + 1) n
          (λ k hk.
            let (e', ne') = e (suc k) (omega arith) in
            (ap mem (p k) ∙ e' ∙ sym (ap mem (p' k)), λ z. ne' (sym (ap mem (p k)) ∙ z)))
          (λ z. ne (sym (ap mem (p n)) ∙ z ∙ ap mem (p' n))) (omega arith)
        ∙ λ i. some (ordered (ap mem (p n) i) (ap mem (p' n) i)))
