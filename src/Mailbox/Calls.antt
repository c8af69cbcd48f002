-- ===== src/Mailbox/Calls.antt =====
-- The calls of the thread and of the network on one mailbox.
use toy_softswitch.Prelude.{
  ℕ, ◌+◌, none, ◌>>=◌, update, Yields_bind, ◌*◌, ◌<◌, ◌≤◌, ◌≡◌, refl, ap, Bool, true, false, not,
  Option, some, Yields,
}
use toy_softswitch.Mailbox.{
  MsgStatus, is_empty, is_full, is_software, TinselMbox, Attempt, Message, copy, mbox_recv,
  mbox_alloc, mbox_send, mbox_set_len, net_pull_message, net_push_message,
}
use toy_softswitch.Mailbox.Invariant.{IsMbox}
use toy_softswitch.Mailbox.Transfer.{Moves, mbox_alloc-Moves, mbox_recv-Moves, mbox_send-Moves}
use toy_softswitch.Mailbox.Network.{
  Pulled, Pushed, net_pull_message-Pulled, net_push_message-Pushed,
}

-- A call on the mailbox: the thread's four, with the slot, the length or the address that it is
-- given, and the network's two.
pub data Call : Type 0 where
  alloc : ℕ → Call
  recv : Call
  set_len : ℕ → Call
  send : ℕ → ℕ → Call
  pull : (ℕ → ℕ) → Bool → Call
  push : ℕ → Message → Bool → Call

-- What a call returns beside the mailbox.
pub data Reply : Type 0 where
  nothing : Reply
  slot : ℕ → Reply
  message : Option Message → Reply
  pushes : Bool → Reply

abbrev pulls : Attempt (TinselMbox × Option Message) → Option (TinselMbox × Reply)
pulls Attempt.waits = none
pulls (Attempt.returns (m, msg)) = some (m, Reply.message msg)

abbrev takes : Attempt (TinselMbox × Bool) → Option (TinselMbox × Reply)
takes Attempt.waits = none
takes (Attempt.returns (m, ok)) = some (m, Reply.pushes ok)

module _ (msgs words : ℕ) where
  -- The call itself; a failed assertion and a wait are `none`.
  unfoldable pub calls : TinselMbox → Call → Option (TinselMbox × Reply)
  calls m (Call.alloc p) = do m' ← mbox_alloc msgs m p; some (m', Reply.nothing)
  calls m Call.recv = do (m', i) ← mbox_recv msgs m; some (m', Reply.slot i)
  calls m (Call.set_len n) = do m' ← mbox_set_len m n; some (m', Reply.nothing)
  calls m (Call.send address p) = do m' ← mbox_send msgs m address p; some (m', Reply.nothing)
  calls m (Call.pull buffer block) = net_pull_message msgs words m buffer block >>= pulls
  calls m (Call.push random msg block) = net_push_message msgs words m random msg block >>= takes

  -- When the caller may make the call.
  abbrev pub IsAllowed : TinselMbox → Call → Type 0
  IsAllowed m (Call.alloc p) = (p < msgs) × (is_software (m.slots p).status ≡ true)
  IsAllowed m Call.recv = 0 < m.num_slots_full
  IsAllowed m (Call.set_len n) = m.send_active ≡ false
  IsAllowed m (Call.send address p) =
      (m.send_active ≡ false) × (p < msgs) × (is_software (m.slots p).status ≡ true)
  IsAllowed m (Call.pull buffer block) = (m.send_active ≡ true) × (m.send_length ≤ 4 * words)
  IsAllowed m (Call.push random msg block) =
      (0 < m.num_slots_empty) × (msg.thread ≡ m.my_thread_id) × (msg.length ≤ 4 * words)

  -- What the call does to the mailbox, and what it returns.
  abbrev pub Effect : TinselMbox → Call → TinselMbox × Reply → Type 0
  Effect m (Call.alloc p) (m', r) =
      Moves m m' p MsgStatus.hardware_empty × (m'.num_slots_empty ≡ m.num_slots_empty + 1)
  Effect m Call.recv (m', r) =
      (i : ℕ) × (r ≡ Reply.slot i)
      × (is_full (m.slots i).status ≡ true)
      × Moves m m' i MsgStatus.software_owned
      × (m.num_slots_full ≡ m'.num_slots_full + 1)
  Effect m (Call.set_len n) (m', r) = m' ≡ record m { send_length = n }
  Effect m (Call.send address p) (m', r) =
      Moves m m' p MsgStatus.hardware_send
      × (m'.send_active ≡ true)
      × (m'.send_slot ≡ p)
      × (m'.send_address ≡ address)
      × (m'.send_length ≡ m.send_length)
  Effect m (Call.pull buffer block) (m', r) =
      (msg : Message) × (r ≡ Reply.message (some msg))
      × (msg.thread ≡ m.send_address)
      × (msg.length ≡ m.send_length)
      × (msg.data_at ≡ copy buffer (m.slots m.send_slot).buffer m.send_length)
      × Moves m m' m.send_slot MsgStatus.software_owned
      × (m'.send_active ≡ false)
  Effect m (Call.push random msg block) (m', r) =
      (i : ℕ) × (r ≡ Reply.pushes true)
      × (is_empty (m.slots i).status ≡ true)
      × (m'.slots
          ≡ update m.slots i (record {
            status = MsgStatus.hardware_full;
            buffer = copy (m.slots i).buffer msg.data_at msg.length;
          }))
      × (m.num_slots_empty ≡ m'.num_slots_empty + 1)
      × (m'.num_slots_full ≡ m.num_slots_full + 1)

mbox_set_len-IsMbox :
    (msgs n : ℕ) (m : TinselMbox)
    → IsMbox msgs m
    → m.send_active ≡ false
    → Yields (mbox_set_len m n) (λ m'. IsMbox msgs m' × (m' ≡ record m { send_length = n }))
unfolding mbox_set_len
mbox_set_len-IsMbox msgs n m q idle =
    let free : not m.send_active ≡ true = ap not idle in
    rw free (
      record { fits = q.fits; empty = q.empty; full = q.full; sending = q.sending; sole = q.sole },
      refl,
    )

module _ (msgs words : ℕ) where
  pub calls-Effect :
      (m : TinselMbox) (call : Call)
      → IsMbox msgs m
      → IsAllowed msgs words m call
      → Yields (calls msgs words m call) (λ x. IsMbox msgs x.0 × Effect msgs words m call x)
  unfolding calls
  calls-Effect m (Call.alloc p) q (h, own) =
      Yields_bind (mbox_alloc msgs m p) _ _ (mbox_alloc-Moves msgs m p q h own)
        λ m' (q', moves, more). (q', (moves, more))
  calls-Effect m Call.recv q h =
      Yields_bind (mbox_recv msgs m) _ _ (mbox_recv-Moves msgs m q h)
        λ x (q', within, full, first, moves, less). (q', (x.1, refl, full, moves, less))
  calls-Effect m (Call.set_len n) q idle =
      Yields_bind (mbox_set_len m n) _ _ (mbox_set_len-IsMbox msgs n m q idle) λ m' y. y
  calls-Effect m (Call.send address p) q (idle, h, own) =
      Yields_bind (mbox_send msgs m address p) _ _ (mbox_send-Moves msgs m address p q idle h own)
        λ m' (q', moves, busy, here, to, size). (q', (moves, busy, here, to, size))
  calls-Effect m (Call.pull buffer block) q (busy, short) =
      Yields_bind (net_pull_message msgs words m buffer block) pulls _
        (net_pull_message-Pulled msgs words m buffer block q busy short) after
    where
      after :
          (x : Attempt (TinselMbox × Option Message))
          → Pulled msgs words m buffer x
          → Yields (pulls x) (λ x. IsMbox msgs x.0 × Effect msgs words m (Call.pull buffer block) x)
      after Attempt.waits y = y
      after (Attempt.returns (m', msg)) (q', same, moves, idle) =
          (q', (_, ap Reply.message same, refl, refl, refl, moves, idle))
  calls-Effect m (Call.push random msg block) q (pos, mine, short) =
      Yields_bind (net_push_message msgs words m random msg block) takes _
        (net_push_message-Pushed msgs words m random msg block q pos mine short) after
    where
      after :
          (x : Attempt (TinselMbox × Bool))
          → Pushed msgs words m msg x
          → Yields
              (takes x)
              (λ x. IsMbox msgs x.0 × Effect msgs words m (Call.push random msg block) x)
      after Attempt.waits y = y
      after (Attempt.returns (m', ok)) (i, q', took, within, there, slots, less, more) =
          (q', (i, ap Reply.pushes took, there, slots, less, more))
