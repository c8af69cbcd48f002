-- ===== src/Mailbox/Count.antt =====
-- The counters and the searches over the slots of a mailbox.
use native.Mathlib.Nat.{mod-lt, mod-eq_of_lt, add-mod_right}
use toy_softswitch.Prelude.{
  ℕ, zero, suc, ◌+◌, ◌-◌, ◌%◌, ◌^◌, ◌<◌, ◌≤◌, ◌≡◌, refl, ap, sym, ◌∙◌, Bool, true, false, arith,
  leb, ◌==◌, if◌then◌else◌, update, inl, inr, Bool-cases, add32,
}
use toy_softswitch.Mailbox.{MsgStatus, is_empty, is_full, Slot, count, first_full, select}

abbrev pub bit : Bool → ℕ
bit b = if b then 1 else 0

count-update_above :
    (test : MsgStatus → Bool) (slots : ℕ → Slot) (i n : ℕ) (s : Slot)
    → n ≤ i
    → count test (update slots i s) n ≡ count test slots n
count-update_above test slots i zero s h = refl
count-update_above test slots i (suc n) s h =
    let off : (i == n) ≡ false = ground arith in
    rw (off, count-update_above test slots i n s (omega arith)) refl

-- A slot that changes counts as it is instead of as it was.
pub count-update :
    (test : MsgStatus → Bool) (slots : ℕ → Slot) (i n : ℕ) (s : Slot)
    → i < n
    → count test (update slots i s) n + bit (test (slots i).status)
      ≡ count test slots n + bit (test s.status)
count-update test slots i zero s h = absurd (omega arith)
count-update test slots i (suc n) s h = elim (Bool-cases (i == n)) [
  | inl here ↦
      let same : i ≡ n = ground arith in
      let below = count-update_above test slots i n s (omega arith) in
      let old : bit (test (slots i).status) ≡ bit (test (slots n).status) =
        ap (λ k. bit (test (slots k).status)) same in
      rw (here, below) (omega (arith, old))
  | inr off ↦
      let below = count-update test slots i n s (ground arith) in rw off (omega (arith, below))
]

pub count-le : (test : MsgStatus → Bool) (slots : ℕ → Slot) (n : ℕ) → count test slots n ≤ n
count-le test slots zero = omega arith
count-le test slots (suc n) = ground (arith, count-le test slots n)

-- A counter above 0 has counted a slot.
pub count-some :
    (test : MsgStatus → Bool) (slots : ℕ → Slot) (n : ℕ)
    → 0 < count test slots n
    → (i : ℕ) × (i < n) × (test (slots i).status ≡ true)
count-some test slots zero h = absurd (omega arith)
count-some test slots (suc n) h = elim (Bool-cases (test (slots n).status)) [
  | inl found ↦ (n, omega arith, found)
  | inr not_it ↦ let (i, k, e) = count-some test slots n (ground arith) in (i, omega arith, e)
]

-- The loop stops at the first full slot.
pub first_full-first :
    (slots : ℕ → Slot) (n i e : ℕ)
    → i ≤ e
    → e < i + n
    → is_full (slots e).status ≡ true
    → (first_full n i slots < i + n)
      × (is_full (slots (first_full n i slots)).status ≡ true)
      × ((k : ℕ) → i ≤ k → k < first_full n i slots → is_full (slots k).status ≡ false)
unfolding first_full
first_full-first slots zero i e h k full = absurd (omega arith)
first_full-first slots (suc n) i e h k full = elim (Bool-cases (is_full (slots i).status)) [
  | inl here ↦ rw here (omega arith, here, λ j hj kj. absurd (omega arith))
  | inr not_here ↦
      let (bound, found, before) =
        first_full-first slots n (i + 1) e (past i e h full not_here) (omega arith) full in
      rw not_here (
        omega arith,
        found,
        λ j hj kj. elim (Bool-cases (i == j)) [
          | inl at ↦
              let same : i ≡ j = ground arith in
              sym (ap (λ q. is_full (slots q).status) same) ∙ not_here
          | inr off ↦ before j (ground arith) kj
        ],
      )
]
  where
    past :
        (i e : ℕ)
        → i ≤ e
        → is_full (slots e).status ≡ true
        → is_full (slots i).status ≡ false
        → i + 1 ≤ e
    past i e h full not_here = elim (Bool-cases (i == e)) [
      | inl at ↦
          let same : i ≡ e = ground arith in
          let both : is_full (slots i).status ≡ true =
            ap (λ q. is_full (slots q).status) same ∙ full in
          absurd cc
      | inr off ↦ ground arith
    ]

-- The search round the slots ends on an empty one.
pub select-empty :
    (msgs : ℕ) (slots : ℕ → Slot) (start n i sel k : ℕ)
    → 0 < msgs
    → i ≤ k
    → k < i + n
    → is_empty (slots (add32 k start % msgs)).status ≡ true
    → (select msgs n i start sel slots < msgs)
      × (is_empty (slots (select msgs n i start sel slots)).status ≡ true)
unfolding select
select-empty msgs slots start zero i sel k pos h hk e = absurd (omega arith)
select-empty msgs slots start (suc n) i sel k pos h hk e =
    elim (Bool-cases (is_empty (slots (add32 i start % msgs)).status)) [
      | inl here ↦ rw here (mod-lt (add32 i start) pos, here)
      | inr off ↦ rw off (
          select-empty msgs slots start n (i + 1) (add32 i start % msgs) k pos (past i k h e off)
            (omega arith) e)
    ]
  where
    past :
        (i k : ℕ)
        → i ≤ k
        → is_empty (slots (add32 k start % msgs)).status ≡ true
        → is_empty (slots (add32 i start % msgs)).status ≡ false
        → i + 1 ≤ k
    past i k h e off = elim (Bool-cases (i == k)) [
      | inl at ↦
          let same : i ≡ k = ground arith in
          let both : is_empty (slots (add32 i start % msgs)).status ≡ true =
            ap (λ q. is_empty (slots (add32 q start % msgs)).status) same ∙ e in
          absurd cc
      | inr ne ↦ ground arith
    ]

-- From every start the search reaches every slot.
pub reached :
    (msgs start e : ℕ)
    → start < msgs
    → e < msgs
    → msgs ≤ 2 ^ 31
    → (k : ℕ) × (k < msgs) × (add32 k start % msgs ≡ e)
reached msgs start e hs he fits = elim (Bool-cases (leb start e)) [
  | inl above ↦
      let word : add32 (e - start) start ≡ e = ground arith in
      (e - start, omega arith, ap (λ x. x % msgs) word ∙ mod-eq_of_lt he)
  | inr below ↦
      let word : add32 (e + msgs - start) start ≡ e + msgs = ground arith in
      (
        e + msgs - start,
        ground arith,
        ap (λ x. x % msgs) word ∙ add-mod_right e msgs ∙ mod-eq_of_lt he,
      )
]
