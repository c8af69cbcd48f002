-- ===== src/Mailbox/Protocol.antt =====
-- Thread and network at work on one mailbox, in any order.
use toy_softswitch.Prelude.{
  ℕ, zero, suc, Yields_some, ◌^◌, ◌<◌, ◌≤◌, ◌≡◌, refl, ap, sym, ◌∙◌, Bool, true, false, not, ◌&&◌,
  some, arith, ltb, ◌==◌, if◌then◌else◌, Yields, Yields_at, lt→ltb, ◌⊎◌, inl, inr, Bool-cases,
  ==_self,
}
use toy_softswitch.Mailbox.{
  MsgStatus, is_send, is_empty, is_full, Slot, TinselMbox, count, check_slots, init, mbox_can_send,
}
use toy_softswitch.Mailbox.Count.{count-le}
use toy_softswitch.Mailbox.Invariant.{IsMbox, check_slots-IsMbox}
use toy_softswitch.Mailbox.Calls.{Call, Reply, calls, IsAllowed, Effect, calls-Effect}

module _ (msgs words : ℕ) where
  -- A state that allowed calls lead to from the constructor's, in any order.
  pub data Reachable : TinselMbox → Type 0 where
    started : (m m' : TinselMbox) (t : ℕ) → init msgs t m ≡ some m' → Reachable m'
    called :
        (m m' : TinselMbox) (call : Call) (r : Reply)
        → Reachable m
        → IsAllowed msgs words m call
        → calls msgs words m call ≡ some (m', r)
        → Reachable m'

-- The assertions that a member makes hold, both counters are in range, and mboxCanSend answers.
pub record IsSafe (msgs : ℕ) (m : TinselMbox) : Type 0 where
  pub checked : check_slots msgs m ≡ true
  pub empty : m.num_slots_empty ≤ msgs
  pub full : m.num_slots_full ≤ msgs
  pub can_send : mbox_can_send msgs m ≡ some (not m.send_active)

none_counted :
    (test : MsgStatus → Bool) (slots : ℕ → Slot) (n : ℕ)
    → ((i : ℕ) → i < n → test (slots i).status ≡ false)
    → count test slots n ≡ 0
none_counted test slots zero h = refl
none_counted test slots (suc n) h =
    rw (none_counted test slots n (λ i k. h i (omega arith)), h n (omega arith)) refl

-- The constructor's state.
abbrev fresh : ℕ → ℕ → TinselMbox → TinselMbox
fresh msgs t m = record m {
  my_thread_id = t;
  num_slots_empty = 0;
  num_slots_full = 0;
  send_active = false;
  slots = λ i.
      if ltb i msgs then record (m.slots i) { status = MsgStatus.software_owned } else m.slots i;
}

fresh_status :
    (msgs t : ℕ) (m : TinselMbox) (test : MsgStatus → Bool)
    → test MsgStatus.software_owned ≡ false
    → (i : ℕ) → i < msgs
    → test ((fresh msgs t m).slots i).status ≡ false
fresh_status msgs t m test e i h = rw (lt→ltb _ _ h) e

fresh-IsMbox : (msgs t : ℕ) (m : TinselMbox) → msgs ≤ 2 ^ 31 → IsMbox msgs (fresh msgs t m)
fresh-IsMbox msgs t m h = record {
  fits = h;
  empty =
      sym (none_counted is_empty (fresh msgs t m).slots msgs (fresh_status msgs t m is_empty refl));
  full =
      sym (none_counted is_full (fresh msgs t m).slots msgs (fresh_status msgs t m is_full refl));
  sending = λ e. absurd cc;
  sole = fresh_status msgs t m is_send refl;
}

-- The constructor's assertions hold.
init-IsMbox : (msgs t : ℕ) (m : TinselMbox) → msgs ≤ 2 ^ 31 → Yields (init msgs t m) (IsMbox msgs)
unfolding init
init-IsMbox msgs t m h =
    let q = fresh-IsMbox msgs t m h in rw (check_slots-IsMbox msgs (fresh msgs t m) q) q

module _ (msgs words : ℕ) where
  Reachable-IsMbox : (m : TinselMbox) → msgs ≤ 2 ^ 31 → Reachable msgs words m → IsMbox msgs m
  Reachable-IsMbox m h (Reachable.started m₀ m₁ t e) =
      Yields_at (IsMbox msgs) (init msgs t m₀) m₁ (init-IsMbox msgs t m₀ h) e
  Reachable-IsMbox m h (Reachable.called m₀ m₁ call r reached ok e) =
      (Yields_at _ (calls msgs words m₀ call) (m₁, r)
        (calls-Effect msgs words m₀ call (Reachable-IsMbox m₀ h reached) ok) e).0

IsMbox-IsSafe : (msgs : ℕ) (m : TinselMbox) → IsMbox msgs m → IsSafe msgs m
unfolding mbox_can_send
IsMbox-IsSafe msgs m q =
    let empty = count-le is_empty m.slots msgs in
    let full = count-le is_full m.slots msgs in
    let checked = check_slots-IsMbox msgs m q in
    record {
      checked = checked;
      empty = omega (arith, q.empty, empty);
      full = omega (arith, q.full, full);
      can_send = can q checked (Bool-cases m.send_active);
    }
  where
    can :
        IsMbox msgs m
        → check_slots msgs m ≡ true
        → (m.send_active ≡ true) ⊎ (m.send_active ≡ false)
        → mbox_can_send msgs m ≡ some (not m.send_active)
    can q checked (inl busy) =
        let this : is_send (m.slots m.send_slot).status ≡ true =
          q.sole m.send_slot (q.sending busy)
          ∙ ap (λ b. b && (m.send_slot == m.send_slot)) busy
          ∙ ==_self m.send_slot in
        rw (checked, this, busy) refl
    can q checked (inr idle) = rw (checked, idle) refl

-- For a mailbox of at most 2^31 slots, the constructor is defined on every object, and in every
-- state that it and allowed calls of the thread and the network lead to, every allowed call is
-- defined, no assertion fails in it, and a pull or a push does not wait; what it does is the effect
-- of that call on the slots, the counters and the registers, and it leads to such a state again. In
-- all these states the assertions of check_slots hold, neither counter exceeds the number of slots,
-- and mboxCanSend passes its assertions and answers whether no send is in progress. Allowed are the
-- giving and the sending of a slot that the software owns, a send and the setting of the length
-- while no send is in progress, a receive while a slot is full, a pull of a send that fits the
-- slot, and a push of a message for this thread that fits, while a slot is empty.
pub Reachable-calls :
    (msgs words : ℕ) (m : TinselMbox) (call : Call)
    → msgs ≤ 2 ^ 31
    → Reachable msgs words m
    → IsAllowed msgs words m call
    → ((t : ℕ) (m₀ : TinselMbox)
        → Yields (init msgs t m₀) (λ m'. Reachable msgs words m' × IsSafe msgs m'))
      × IsSafe msgs m
      × Yields
          (calls msgs words m call)
          (λ x. Reachable msgs words x.0 × IsSafe msgs x.0 × Effect msgs words m call x)
Reachable-calls msgs words m call h r ok =
    let q = Reachable-IsMbox msgs words m h r in
    let (x, e, (q', effect)) =
      Yields_some _ (calls msgs words m call) (calls-Effect msgs words m call q ok) in
    (
      λ t m₀.
          let (m', made, q₀) = Yields_some _ (init msgs t m₀) (init-IsMbox msgs t m₀ h) in
          rw made (Reachable.started m₀ m' t made, IsMbox-IsSafe msgs m' q₀),
      IsMbox-IsSafe msgs m q,
      rw e (Reachable.called m x.0 call x.1 r ok e, IsMbox-IsSafe msgs x.0 q', effect),
    )
