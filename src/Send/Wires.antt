-- ===== src/Send/Wires.antt =====
-- A send keeps the thread's wires, and its message goes along them.
use toy_softswitch.Prelude.{
  ℕ, arith, ◌<◌, ◌≡◌, refl, ap, none, some, if◌then◌else◌, get_elem?, ◌==◌, inl, inr, Bool-cases,
}
use toy_softswitch.Context.{App, Ptr, OutputPinVTable, PThreadContext}
use toy_softswitch.Wiring.{
  Always, Always_mono, Always_bind, Always_next, Keeps, Keeps-refl, Keeps-trans, store-Keeps,
  load-Always, either-Always,
}
use toy_softswitch.Wiring.{Pending, IsWire-Keeps, NoApps, NoApps-Keeps}
use toy_softswitch.Rts.{softswitch_pop_rts}
use toy_softswitch.Rts.Wires.{softswitch_pop_rts-Keeps, polled-Keeps}
use toy_softswitch.Send.{
  Buffer, Prepared, right_most_one, address_message, call_send_handler, finish_send, prepare,
  softswitch_on_send,
}

module _ {A : App} where
  -- What a send leaves in order.
  abbrev pub Wired : PThreadContext A → ℕ → Prepared A → Type 0
  Wired c app r =
      Keeps c r.context
      × Pending c r.message.packet.source r.num_targets r.is_app r.targets
      × (NoApps c → app ≡ 0 → r.is_app ≡ 0)

  finish_send-Keeps : (c : PThreadContext A) (i : ℕ) → Always (finish_send c i) (Keeps c)
  unfolding finish_send
  finish_send-Keeps c i = load-Always c i _ (Keeps c) λ h. polled-Keeps c c i _ (Keeps-refl c) refl

  call_send_handler-Keeps :
      (c : PThreadContext A) (i k : ℕ) (pin : OutputPinVTable A) (m : Buffer A)
      → Keeps c (call_send_handler c i (c.devices i) k pin m).0
  unfolding call_send_handler
  call_send_handler-Keeps c i k pin m =
      let s =
        store-Keeps c i
          (record (c.devices i) {
            state =
                (pin.send_handler c.graph_props (c.devices i).properties (c.devices i).state _).0;
          })
          refl in
      record { thread = refl; size = refl; device = s.device }

  -- The address list of a message is that of its pin.
  address_message-Pending :
      (c c' : PThreadContext A) (i k : ℕ) (pin : OutputPinVTable A) (m : Buffer A)
      → i < c.num_devices
      → c'.thread_id ≡ c.thread_id
      → Always
          (address_message c' (c.devices i) k pin m)
          (λ (m', n, ts, app). Pending c m'.packet.source n app ts × (pin.is_app ≡ 0 → app ≡ 0))
  unfolding address_message
  address_message-Pending c c' i k pin m h e = elim (Bool-cases (pin.is_app == 0)) [
    | inl normal ↦ rw normal (
        Always_next (get_elem? (c.devices i).targets k) _ _ λ t its. (
          λ n a less z goes. record {
            device = i;
            pin = k;
            place = n;
            target = t;
            within = h;
            from = ap (λ t. record { thread = t; device = (c.devices i).index; pin = k }) e;
            its = its;
            counted = less;
            goes = goes;
          },
          λ z. refl,
        ))
    | inr host ↦ rw host (λ n a less z goes. absurd (omega arith), λ z. absurd (ground arith))
  ]

  prepare-Wired :
      (c : PThreadContext A) (i : ℕ) (m : Buffer A) (app : ℕ)
      → Always (prepare c i m app) (Wired c app)
  unfolding prepare
  prepare-Wired c i m app = load-Always c i _ (Wired c app) λ h.
      Always_next (right_most_one (c.devices i).rts_flags) _ (Wired c app) λ k _.
        Always_next (get_elem? (c.devices i).vtable.output_pins k) _ (Wired c app) λ pin its.
          let called = call_send_handler c i (c.devices i) k pin m in
          let kept : Keeps c called.0 = call_send_handler-Keeps c i k pin m in
          Always_bind
            (λ (m', n, ts, app').
              Pending c m'.packet.source n app' ts × (pin.is_app ≡ 0 → app ≡ 0 → app' ≡ 0))
            (if called.2
              then address_message called.0 (c.devices i) k pin called.1
              else some (called.1, 0, none, app))
            _ (Wired c app)
            (either-Always called.2 _ (address_message called.0 (c.devices i) k pin called.1) _
              (Always_mono (address_message called.0 (c.devices i) k pin called.1)
                (address_message-Pending c called.0 i k pin called.1 h kept.thread)
                λ x (p, q). (p, λ normal z. q normal))
              (λ n a less z goes. absurd (omega arith), λ normal z. z))
            λ x (p, q).
              Always_bind (Keeps called.0) (finish_send called.0 i) _ (Wired c app)
                (finish_send-Keeps called.0 i)
                λ c' k'. (Keeps-trans c called.0 c' kept k', p, λ plain. q (plain i k pin h its))

  pub softswitch_on_send-Wired :
      (c : PThreadContext A) (m : Buffer A) (app : ℕ)
      → Always (softswitch_on_send c m app) (Wired c app)
  unfolding softswitch_on_send
  softswitch_on_send-Wired c m app =
      Always_bind (λ r. Keeps c r.0) (softswitch_pop_rts c) _ (Wired c app)
        (softswitch_pop_rts-Keeps c) popped
    where
      popped :
          (r : PThreadContext A × Ptr)
          → Keeps c r.0
          → Always
              (elim r.1 [
                | none ↦ some (record {
                  context = r.0;
                  message = m;
                  num_targets = 0;
                  targets = none;
                  is_app = app;
                  size = 0;
                })
                | some i ↦ prepare r.0 i m app
              ])
              (Wired c app)
      popped (c', none) k = (k, λ n a less z goes. absurd (omega arith), λ plain z. z)
      popped (c', some i) k =
          Always_mono (prepare c' i m app) (prepare-Wired c' i m app) λ r (k', p, q). (
            Keeps-trans c c' r.context k k',
            λ n a less z goes. IsWire-Keeps c c' _ a k (p n a less z goes),
            λ plain. q (NoApps-Keeps c c' k plain),
          )
