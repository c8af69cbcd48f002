-- ===== src/Mailbox/Network.antt =====
-- The network's side of the mailbox: taking a message that is sent, and delivering one.
use native.Mathlib.Nat.{mod-lt}
use toy_softswitch.Prelude.{
  ℕ, ◌+◌, ◌*◌, ◌%◌, ◌<◌, ◌≤◌, ◌≡◌, refl, ap, sym, subst, ◌∙◌, Bool, true, false, not, ◌&&◌, Option,
  some, arith, leb, ◌==◌, update, add32, sub32, Yields, ==_self,
}
use toy_softswitch.Mailbox.{
  MsgStatus, is_send, is_empty, is_full, Slot, TinselMbox, Attempt, Message, copy, with_status,
  net_pull_message, net_push_message, select,
}
use toy_softswitch.Mailbox.Count.{bit, count-le, count-some, select-empty, reached}
use toy_softswitch.Mailbox.Invariant.{IsMbox, Changes-IsMbox, check_slots-IsMbox}
use toy_softswitch.Mailbox.Transfer.{Moves, status_empty, status_send}

module _ (msgs words : ℕ) where
  -- The message of the send in progress, as it stands in the caller's buffer.
  abbrev sent : TinselMbox → (ℕ → ℕ) → Message
  sent m buffer = record {
    thread = m.send_address;
    length = m.send_length;
    data_at = copy buffer (m.slots m.send_slot).buffer m.send_length;
  }

  -- What a successful pull is: the message that stands in the slot being sent, and the slot is the
  -- software's again.
  abbrev pub Pulled : TinselMbox → (ℕ → ℕ) → Attempt (TinselMbox × Option Message) → Type 0
  Pulled m buffer Attempt.waits = ⊥
  Pulled m buffer (Attempt.returns (m', msg)) =
      IsMbox msgs m'
      × (msg ≡ some (sent m buffer))
      × Moves m m' m.send_slot MsgStatus.software_owned
      × (m'.send_active ≡ false)

  -- While a send of at most the slot's size is in progress, the network gets the message of that
  -- send, with its address, length and bytes, whether it would have waited or not; the slot is the
  -- software's again and no send is in progress.
  pub net_pull_message-Pulled :
      (m : TinselMbox) (buffer : ℕ → ℕ) (block : Bool)
      → IsMbox msgs m
      → m.send_active ≡ true
      → m.send_length ≤ 4 * words
      → Yields (net_pull_message msgs words m buffer block) (Pulled m buffer)
  unfolding net_pull_message
  net_pull_message-Pulled m buffer block q busy short =
      let h : m.send_slot < msgs = q.sending busy in
      let m' : TinselMbox = record (with_status m m.send_slot MsgStatus.software_owned) {
        send_active = false;
      } in
      let this : is_send (m.slots m.send_slot).status ≡ true =
        q.sole m.send_slot h
        ∙ ap (λ b. b && (m.send_slot == m.send_slot)) busy
        ∙ ==_self m.send_slot in
      let (full, empty) = status_send (m.slots m.send_slot).status this in
      let no_full = ap bit full in
      let no_empty = ap bit empty in
      let q' : IsMbox msgs m' =
        Changes-IsMbox msgs m m' m.send_slot
          (record (m.slots m.send_slot) { status = MsgStatus.software_owned }) q
          (record {
            within = h;
            slots = refl;
            empty = omega (arith, no_empty);
            full = omega (arith, no_full);
            sending = λ e. absurd cc;
            here = refl;
            elsewhere = λ j ne. sym (ap (λ b. b && (m.send_slot == j)) busy ∙ ne);
          }) in
      let occupied : not m.send_active ≡ false = ap not busy in
      let room : leb m.send_length (4 * words) ≡ true = ground arith in
      rw (occupied, check_slots-IsMbox msgs m q, room, this, check_slots-IsMbox msgs m' q')
        (q', refl, refl, refl)

  -- What a successful push is: one slot that the hardware held empty is full, and holds the message.
  abbrev pub Pushed : TinselMbox → Message → Attempt (TinselMbox × Bool) → Type 0
  Pushed m msg Attempt.waits = ⊥
  Pushed m msg (Attempt.returns (m', ok)) =
      (i : ℕ) × IsMbox msgs m'
      × (ok ≡ true)
      × (i < msgs)
      × (is_empty (m.slots i).status ≡ true)
      × (m'.slots
          ≡ update m.slots i (record {
            status = MsgStatus.hardware_full;
            buffer = copy (m.slots i).buffer msg.data_at msg.length;
          }))
      × (m.num_slots_empty ≡ m'.num_slots_empty + 1)
      × (m'.num_slots_full ≡ m.num_slots_full + 1)

  -- A message for the mailbox's own thread that is not too long is delivered whenever the hardware
  -- holds an empty slot, from whatever slot the random search starts: one slot that was empty is
  -- full and holds the bytes of the message, no other slot changes, and the counters follow.
  pub net_push_message-Pushed :
      (m : TinselMbox) (random : ℕ) (msg : Message) (block : Bool)
      → IsMbox msgs m
      → 0 < m.num_slots_empty
      → msg.thread ≡ m.my_thread_id
      → msg.length ≤ 4 * words
      → Yields (net_push_message msgs words m random msg block) (Pushed m msg)
  unfolding net_push_message
  net_push_message-Pushed m random msg block q pos mine short =
      let (e, he, ee) = count-some is_empty m.slots msgs (subst (λ n. 0 < n) q.empty pos) in
      let some_slot : 0 < msgs = omega arith in
      let start = random % msgs in
      let hs : start < msgs = mod-lt random some_slot in
      let (k, hk, at) = reached msgs start e hs he q.fits in
      let there : is_empty (m.slots (add32 k start % msgs)).status ≡ true =
        ap (λ j. is_empty (m.slots j).status) at ∙ ee in
      let i = select msgs msgs 0 start 0 m.slots in
      let (hi, found) =
        select-empty msgs m.slots start msgs 0 0 k some_slot (omega arith) (omega arith) there in
      push_into m random msg block i q refl pos mine short hi found
    where
      push_into :
          (m : TinselMbox) (random : ℕ) (msg : Message) (block : Bool) (i : ℕ)
          → IsMbox msgs m
          → select msgs msgs 0 (random % msgs) 0 m.slots ≡ i
          → 0 < m.num_slots_empty
          → msg.thread ≡ m.my_thread_id
          → msg.length ≤ 4 * words
          → i < msgs
          → is_empty (m.slots i).status ≡ true
          → Yields (net_push_message msgs words m random msg block) (Pushed m msg)
      push_into m random msg block i q chosen pos mine short hi found =
          let s : Slot = record {
            status = MsgStatus.hardware_full;
            buffer = copy (m.slots i).buffer msg.data_at msg.length;
          } in
          let m' : TinselMbox = record m {
            num_slots_empty = sub32 m.num_slots_empty 1;
            num_slots_full = add32 m.num_slots_full 1;
            slots = update m.slots i s;
          } in
          let (full, send) = status_empty (m.slots i).status found in
          let no_full = ap bit full in
          let one_empty = ap bit found in
          let bound = count-le is_empty m.slots msgs in
          let bound' = count-le is_full m.slots msgs in
          let less : m.num_slots_empty ≡ sub32 m.num_slots_empty 1 + 1 = omega (arith, bound) in
          let more : add32 m.num_slots_full 1 ≡ m.num_slots_full + 1 = omega (arith, bound') in
          let q' : IsMbox msgs m' = Changes-IsMbox msgs m m' i s q (record {
            within = hi;
            slots = refl;
            empty = omega (arith, less, one_empty);
            full = omega (arith, more, no_full);
            sending = q.sending;
            here = sym send ∙ q.sole i hi;
            elsewhere = λ j ne. refl;
          }) in
          let for_me : msg.thread == m.my_thread_id ≡ true = ground arith in
          let room : leb msg.length (4 * words) ≡ true = ground arith in
          let some_empty : m.num_slots_empty == 0 ≡ false = ground arith in
          rw
            (
              chosen,
              for_me,
              room,
              check_slots-IsMbox msgs m q,
              some_empty,
              found,
              check_slots-IsMbox msgs m' q',
            )
            (i, q', refl, hi, found, refl, less, more)
