-- ===== src/Mailbox/Transfer.antt =====
-- The members of the mailbox: each is defined wherever the protocol allows it, and moves one slot.

use toy_softswitch.Prelude.{
  ℕ, ◌+◌, ◌<◌, ◌≡◌, refl, ap, sym, subst, ◌∙◌, true, false, not, ◌&&◌, arith, ◌==◌, update, add32,
  sub32, Yields, lt→ltb, ==_self,
}
use toy_softswitch.Mailbox.{
  MsgStatus, is_send, is_empty, is_full, is_software, TinselMbox, with_status, find_slot, mbox_recv,
  mbox_alloc, mbox_send, first_full,
}
use toy_softswitch.Mailbox.Count.{bit, count-le, count-some, first_full-first}
use toy_softswitch.Mailbox.Invariant.{IsMbox, Changes-IsMbox, check_slots-IsMbox}

-- Only the status of slot `i` has changed among the slots.
abbrev pub Moves : TinselMbox → TinselMbox → ℕ → MsgStatus → Type 0
Moves m m' i s = m'.slots ≡ update m.slots i (record (m.slots i) { status = s })

status_full : (s : MsgStatus) → is_full s ≡ true → (is_empty s ≡ false) × (is_send s ≡ false)
status_full MsgStatus.hardware_full e = (refl, refl)
status_full MsgStatus.hardware_empty e = absurd cc
status_full MsgStatus.hardware_send e = absurd cc
status_full MsgStatus.software_owned e = absurd cc

pub status_empty : (s : MsgStatus) → is_empty s ≡ true → (is_full s ≡ false) × (is_send s ≡ false)
status_empty MsgStatus.hardware_empty e = (refl, refl)
status_empty MsgStatus.hardware_full e = absurd cc
status_empty MsgStatus.hardware_send e = absurd cc
status_empty MsgStatus.software_owned e = absurd cc

pub status_send : (s : MsgStatus) → is_send s ≡ true → (is_full s ≡ false) × (is_empty s ≡ false)
status_send MsgStatus.hardware_send e = (refl, refl)
status_send MsgStatus.hardware_full e = absurd cc
status_send MsgStatus.hardware_empty e = absurd cc
status_send MsgStatus.software_owned e = absurd cc

status_software :
    (s : MsgStatus)
    → is_software s ≡ true
    → (is_full s ≡ false) × (is_empty s ≡ false) × (is_send s ≡ false)
status_software MsgStatus.software_owned e = (refl, refl, refl)
status_software MsgStatus.hardware_full e = absurd cc
status_software MsgStatus.hardware_empty e = absurd cc
status_software MsgStatus.hardware_send e = absurd cc

module _ (msgs : ℕ) where
  -- A slot that the software owns may be given to the hardware to receive into: the call is
  -- defined, counts one more empty slot, and no other slot changes.
  pub mbox_alloc-Moves :
      (m : TinselMbox) (p : ℕ)
      → IsMbox msgs m
      → p < msgs
      → is_software (m.slots p).status ≡ true
      → Yields (mbox_alloc msgs m p) (λ m'.
        IsMbox msgs m'
        × Moves m m' p MsgStatus.hardware_empty
        × (m'.num_slots_empty ≡ m.num_slots_empty + 1))
  unfolding mbox_alloc find_slot
  mbox_alloc-Moves m p q h own =
      let m' : TinselMbox = record (with_status m p MsgStatus.hardware_empty) {
        num_slots_empty = add32 m.num_slots_empty 1;
      } in
      let (full, empty, send) = status_software (m.slots p).status own in
      let no_full = ap bit full in
      let no_empty = ap bit empty in
      let bound = count-le is_empty m.slots msgs in
      let more : add32 m.num_slots_empty 1 ≡ m.num_slots_empty + 1 = omega (arith, bound) in
      let q' : IsMbox msgs m' =
        Changes-IsMbox msgs m m' p (record (m.slots p) { status = MsgStatus.hardware_empty }) q
          (record {
            within = h;
            slots = refl;
            empty = omega (arith, more, no_empty);
            full = omega (arith, no_full);
            sending = q.sending;
            here = sym send ∙ q.sole p h;
            elsewhere = λ j ne. refl;
          }) in
      rw (check_slots-IsMbox msgs m q, lt→ltb _ _ h, own, check_slots-IsMbox msgs m' q')
        (q', refl, more)

  -- When a slot is full, a receive is defined: it takes the first full slot and gives it to the
  -- software with its bytes unchanged, and no other slot changes.
  pub mbox_recv-Moves :
      (m : TinselMbox)
      → IsMbox msgs m
      → 0 < m.num_slots_full
      → Yields (mbox_recv msgs m) (λ (m', i).
        IsMbox msgs m'
        × (i < msgs)
        × (is_full (m.slots i).status ≡ true)
        × ((k : ℕ) → k < i → is_full (m.slots k).status ≡ false)
        × Moves m m' i MsgStatus.software_owned
        × (m.num_slots_full ≡ m'.num_slots_full + 1))
  unfolding mbox_recv
  mbox_recv-Moves m q h =
      let (e, he, fe) = count-some is_full m.slots msgs (subst (λ n. 0 < n) q.full h) in
      let i = first_full msgs 0 m.slots in
      let (hi, found, before) = first_full-first m.slots msgs 0 e (omega arith) (omega arith) fe in
      let within : i < msgs = omega (arith, hi) in
      let m' : TinselMbox = record (with_status m i MsgStatus.software_owned) {
        num_slots_full = sub32 m.num_slots_full 1;
      } in
      let (empty, send) = status_full (m.slots i).status found in
      let no_empty = ap bit empty in
      let one_full = ap bit found in
      let bound = count-le is_full m.slots msgs in
      let less : m.num_slots_full ≡ sub32 m.num_slots_full 1 + 1 = omega (arith, bound) in
      let q' : IsMbox msgs m' =
        Changes-IsMbox msgs m m' i (record (m.slots i) { status = MsgStatus.software_owned }) q
          (record {
            within = within;
            slots = refl;
            empty = omega (arith, no_empty);
            full = omega (arith, less, one_full);
            sending = q.sending;
            here = sym send ∙ q.sole i within;
            elsewhere = λ j ne. refl;
          }) in
      rw
        (
          check_slots-IsMbox msgs m q,
          lt→ltb _ _ h,
          lt→ltb _ _ within,
          found,
          check_slots-IsMbox msgs m' q',
        )
        (q', within, found, λ k hk. before k (omega arith) hk, refl, less)

  -- When no send is in progress, a send of a slot that the software owns is defined: it hands that
  -- slot to the hardware with its bytes unchanged, under the address and the length that were set,
  -- and no other slot changes.
  pub mbox_send-Moves :
      (m : TinselMbox) (address p : ℕ)
      → IsMbox msgs m
      → m.send_active ≡ false
      → p < msgs
      → is_software (m.slots p).status ≡ true
      → Yields (mbox_send msgs m address p) (λ m'.
        IsMbox msgs m'
        × Moves m m' p MsgStatus.hardware_send
        × (m'.send_active ≡ true)
        × (m'.send_slot ≡ p)
        × (m'.send_address ≡ address)
        × (m'.send_length ≡ m.send_length))
  unfolding mbox_send find_slot
  mbox_send-Moves m address p q idle h own =
      let m' : TinselMbox = record (with_status m p MsgStatus.hardware_send) {
        send_active = true;
        send_address = address;
        send_slot = p;
      } in
      let (full, empty, send) = status_software (m.slots p).status own in
      let no_full = ap bit full in
      let no_empty = ap bit empty in
      let q' : IsMbox msgs m' =
        Changes-IsMbox msgs m m' p (record (m.slots p) { status = MsgStatus.hardware_send }) q
          (record {
            within = h;
            slots = refl;
            empty = omega (arith, no_empty);
            full = omega (arith, no_full);
            sending = λ e. h;
            here = sym (==_self p);
            elsewhere = λ j ne. ne ∙ sym (ap (λ b. b && (m.send_slot == j)) idle);
          }) in
      let free : not m.send_active ≡ true = ap not idle in
      rw (free, check_slots-IsMbox msgs m q, lt→ltb _ _ h, own, check_slots-IsMbox msgs m' q')
        (q', refl, refl, refl, refl, refl)
