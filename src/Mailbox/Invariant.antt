-- ===== src/Mailbox/Invariant.antt =====
-- What every member of the mailbox keeps: the counters agree with the slots, and the one slot that is
-- being sent is the one that the registers name.
use toy_softswitch.Prelude.{
  ℕ, ◌+◌, ◌^◌, ◌<◌, ◌≤◌, ◌≡◌, refl, ap, sym, ◌∙◌, true, false, ◌&&◌, arith, ◌==◌, update, inl, inr,
  Bool-cases,
}
use toy_softswitch.Mailbox.{is_send, is_empty, is_full, Slot, TinselMbox, count, check_slots}
use toy_softswitch.Mailbox.Count.{bit, count-update}

pub record IsMbox (msgs : ℕ) (m : TinselMbox) : Type 0 where
  pub fits : msgs ≤ 2 ^ 31
  pub empty : m.num_slots_empty ≡ count is_empty m.slots msgs
  pub full : m.num_slots_full ≡ count is_full m.slots msgs
  pub sending : m.send_active ≡ true → m.send_slot < msgs
  -- A slot is in the hardware's hands for sending if and only if it is the one being sent.
  pub sole : (i : ℕ) → i < msgs → is_send (m.slots i).status ≡ (m.send_active && (m.send_slot == i))

-- The assertions of `check_slots` hold.
pub check_slots-IsMbox : (msgs : ℕ) (m : TinselMbox) → IsMbox msgs m → check_slots msgs m ≡ true
unfolding check_slots
check_slots-IsMbox msgs m q = ground (arith, q.empty, q.full)

-- A change of one slot, with the counters and registers that go with it.
pub record Changes (msgs : ℕ) (m m' : TinselMbox) (i : ℕ) (s : Slot) : Type 0 where
  pub within : i < msgs
  pub slots : m'.slots ≡ update m.slots i s
  pub empty :
      m'.num_slots_empty + bit (is_empty (m.slots i).status)
      ≡ m.num_slots_empty + bit (is_empty s.status)
  pub full :
      m'.num_slots_full + bit (is_full (m.slots i).status)
      ≡ m.num_slots_full + bit (is_full s.status)
  pub sending : m'.send_active ≡ true → m'.send_slot < msgs
  pub here : is_send s.status ≡ (m'.send_active && (m'.send_slot == i))
  pub elsewhere :
      (j : ℕ)
      → (i == j) ≡ false
      → (m'.send_active && (m'.send_slot == j)) ≡ (m.send_active && (m.send_slot == j))

pub Changes-IsMbox :
    (msgs : ℕ) (m m' : TinselMbox) (i : ℕ) (s : Slot)
    → IsMbox msgs m
    → Changes msgs m m' i s
    → IsMbox msgs m'
Changes-IsMbox msgs m m' i s q c = record {
  fits = q.fits;
  empty =
      let counted = count-update is_empty m.slots i msgs s c.within in
      let kept = c.empty in
      let was = q.empty in
      let now : count is_empty m'.slots msgs ≡ count is_empty (update m.slots i s) msgs =
        ap (λ f. count is_empty f msgs) c.slots in
      omega (arith, counted, kept, was, now);
  full =
      let counted = count-update is_full m.slots i msgs s c.within in
      let kept = c.full in
      let was = q.full in
      let now : count is_full m'.slots msgs ≡ count is_full (update m.slots i s) msgs =
        ap (λ f. count is_full f msgs) c.slots in
      omega (arith, counted, kept, was, now);
  sending = c.sending;
  sole = λ j h. elim (Bool-cases (i == j)) [
    | inl at ↦
        let same : i ≡ j = ground arith in
        let new : m'.slots j ≡ s = ap (λ f. f j) c.slots ∙ rw at refl in
        ap (λ k. is_send k.status) new
        ∙ c.here
        ∙ ap (λ k. m'.send_active && (m'.send_slot == k)) same
    | inr off ↦
        let old : m'.slots j ≡ m.slots j = ap (λ f. f j) c.slots ∙ rw off refl in
        ap (λ k. is_send k.status) old ∙ q.sole j h ∙ sym (c.elsewhere j off)
  ];
}
