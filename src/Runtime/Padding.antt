-- ===== src/Runtime/Padding.antt =====
-- `strncpy` copies a string and fills up with zeros.
use toy_softswitch.Prelude.{
  ℕ, zero, suc, ◌+◌, ◌<◌, ◌≤◌, ◌≡◌, ◌≢◌, refl, ap, sym, ◌∙◌, true, false, arith, ltb, ◌==◌,
  if◌then◌else◌, update, ◌⊎◌, inl, inr, Bool-cases,
}
use toy_softswitch.Runtime.{Memory, strncpy_loop, strncpy}
use toy_softswitch.Runtime.Strings.{IsString, tail_of}

strncpy_loop_out :
    (m : ℕ) (mem : Memory) (curr source x : ℕ)
    → (x < curr) ⊎ (curr + m ≤ x)
    → strncpy_loop m mem curr source x ≡ mem x
strncpy_loop_out zero mem curr source x h = refl
strncpy_loop_out (suc m) mem curr source x h =
    let off : (curr == x) ≡ false = ground arith in
    strncpy_loop_out m (update mem curr (mem source)) (curr + 1)
      (if mem source == 0 then source else source + 1) x (ground arith)
    ∙ rw off refl

-- The destination does not reach into the string.
abbrev pub Clear : ℕ → ℕ → ℕ → ℕ → Type 0
Clear curr m source n = (curr + m ≤ source) ⊎ (source + n < curr)

written_IsString :
    (mem : Memory) (curr m source n v : ℕ)
    → IsString mem source n
    → Clear curr (suc m) source n
    → IsString (update mem curr v) source n
written_IsString mem curr m source n v s apart = record {
  ends = let off : (curr == source + n) ≡ false = ground arith in rw off s.ends;
  characters = λ k h e.
      let off : (curr == source + k) ≡ false = ground arith in
      s.characters k h (sym (same k off) ∙ e);
}
  where
    same :
        (k : ℕ) → (curr == source + k) ≡ false → update mem curr v (source + k) ≡ mem (source + k)
    same k off = rw off refl

-- Character `k` of the string, and zero past its end.
abbrev pub padded : Memory → ℕ → ℕ → ℕ → ℕ
padded mem source n k = if ltb k n then mem (source + k) else 0

strncpy_loop_in :
    (m : ℕ) (mem : Memory) (curr source n k : ℕ)
    → IsString mem source n
    → Clear curr m source n
    → k < m
    → strncpy_loop m mem curr source (curr + k) ≡ padded mem source n k
strncpy_loop_in zero mem curr source n k s apart h = absurd (omega arith)
strncpy_loop_in (suc m) mem curr source n zero s apart h =
    let at : (curr == curr + 0) ≡ true = ground arith in
    strncpy_loop_out m (update mem curr (mem source)) (curr + 1)
      (if mem source == 0 then source else source + 1) (curr + 0) (ground arith)
    ∙ rw at refl
    ∙ head_lem n s
  where
    head_lem : (n : ℕ) → IsString mem source n → mem source ≡ padded mem source n 0
    head_lem zero s = let start : source ≡ source + 0 = omega arith in ap mem start ∙ s.ends
    head_lem (suc n) s =
        let start : source ≡ source + 0 = omega arith in
        let some_left : ltb 0 (suc n) ≡ true = ground arith in rw some_left (ap mem start)
strncpy_loop_in (suc m) mem curr source zero (suc k) s apart h =
    let start : source ≡ source + 0 = omega arith in
    let stop : mem source == 0 ≡ true = ground (arith, ap mem start ∙ s.ends) in
    let place : curr + suc k ≡ curr + 1 + k = omega arith in
    let past : ltb k 0 ≡ false = ground arith in
    let past' : ltb (suc k) 0 ≡ false = ground arith in
    ap
      (λ q.
        strncpy_loop m (update mem curr (mem source)) (curr + 1) (if q then source else source + 1)
          (curr + suc k))
      stop
    ∙ ap (strncpy_loop m (update mem curr (mem source)) (curr + 1) source) place
    ∙ strncpy_loop_in m (update mem curr (mem source)) (curr + 1) source 0 k
        (written_IsString mem curr m source 0 (mem source) s apart) (ground arith) (omega arith)
    ∙ rw (past, past') refl
strncpy_loop_in (suc m) mem curr source (suc n) (suc k) s apart h =
    let start : source + 0 ≡ source = omega arith in
    let first : mem source ≢ 0 = λ z. s.characters 0 (omega arith) (ap mem start ∙ z) in
    let on : mem source == 0 ≡ false = ground arith in
    let place : curr + suc k ≡ curr + 1 + k = omega arith in
    ap
      (λ q.
        strncpy_loop m (update mem curr (mem source)) (curr + 1) (if q then source else source + 1)
          (curr + suc k))
      on
    ∙ ap (strncpy_loop m (update mem curr (mem source)) (curr + 1) (source + 1)) place
    ∙ strncpy_loop_in m (update mem curr (mem source)) (curr + 1) (source + 1) n k
        (tail_of (update mem curr (mem source)) source n
          (written_IsString mem curr m source (suc n) (mem source) s apart))
        (ground arith) (omega arith)
    ∙ shift (Bool-cases (ltb k n))
  where
    shift :
        (ltb k n ≡ true) ⊎ (ltb k n ≡ false)
        → padded (update mem curr (mem source)) (source + 1) n k ≡ padded mem source (suc n) (suc k)
    shift (inl within) =
        let within' : ltb (suc k) (suc n) ≡ true = ground arith in
        let off : (curr == source + 1 + k) ≡ false = ground arith in
        let place : source + 1 + k ≡ source + suc k = omega arith in
        rw (within, within', off) (ap mem place)
    shift (inr past) =
        let past' : ltb (suc k) (suc n) ≡ false = ground arith in rw (past, past') refl

-- Where the destination does not reach into the string, strncpy writes exactly num bytes: the
-- characters of the string as far as they fit, and then zeros; no other byte changes.
strncpy-pads :
    (mem : Memory) (destination source num n : ℕ)
    → IsString mem source n
    → Clear destination num source n
    → ((k : ℕ)
        → k < num
        → strncpy mem destination source num (destination + k) ≡ padded mem source n k)
      × ((x : ℕ)
          → (x < destination) ⊎ (destination + num ≤ x)
          → strncpy mem destination source num x ≡ mem x)
unfolding strncpy
strncpy-pads mem d source num n s apart = (
  λ k h. strncpy_loop_in num mem d source n k s apart h,
  λ x h. strncpy_loop_out num mem d source x h,
)
