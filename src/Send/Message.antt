-- ===== src/Send/Message.antt =====
-- The message that the head of the list prepares, and the context that it leaves.

use toy_softswitch.Prelude.{
  ℕ, ◌+◌, ◌%◌, ◌^◌, ◌<◌, ◌≡◌, ◌≢◌, ap, sym, ◌∙◌, refl, subst, inl, inr, Bool, true, false, Option,
  none, some, arith, ◌==◌, if◌then◌else◌, Bool-cases, Yields, Yields_bind, List, ◌∷◌, get_elem?,
  lt→ltb, ==_self, ◌>>=◌,
}
use toy_softswitch.Context.{
  App, Address, PThreadContext, DeviceContext, OutputPinVTable, OutputPinTargets,
}
use toy_softswitch.Rts.{wants_compute, any_ready, poll_flags}
use toy_softswitch.Rts.Queue.{IsRts, Relinked, unlinked, unlinked-Relinked, flags_of}
use toy_softswitch.Rts.Update.{Tracks, polled, polled_flags, IsRts-same}
use toy_softswitch.Send.{
  Buffer, Prepared, right_most_one, address, payload_of, address_message, call_send_handler,
  finish_send, prepare,
}
use toy_softswitch.Send.Popped.{rotated, cleared, Popped, finish_send-Tracks}

-- What the send handler of `pin` returned on device `d`: new state, payload, and whether to send.
abbrev pub handled :
    {A : App}
    → A.GraphProps
    → DeviceContext A
    → OutputPinVTable A
    → Buffer A
    → A.DevState × A.Payload × Bool
handled g d pin m = pin.send_handler g d.properties d.state (payload_of m pin)

-- The ready-to-send handler's answer on the state that the send handler left.
abbrev pub repolled :
    {A : App} → A.GraphProps → DeviceContext A → OutputPinVTable A → Buffer A → A.DevState × ℕ
repolled g d pin m = d.vtable.ready_to_send_handler g d.properties (handled g d pin m).0

-- The message that device `d` of thread `tid` prepared on its pin number `k`.
pub record IsMessage {A : App} (g : A.GraphProps) (tid : ℕ) (d : DeviceContext A) (k : ℕ)
    (pin : OutputPinVTable A) (t : OutputPinTargets) (m : Buffer A) (r : Prepared A) : Type 0 where
  pub size : r.size ≡ pin.message_size
  -- The handler may decline to send.
  pub declined : (handled g d pin m).2 ≡ false → r.num_targets ≡ 0
  pub multicast :
      (handled g d pin m).2 ≡ true
      → pin.is_app ≡ 0
      → (r.num_targets ≡ t.num_targets)
        × (r.targets ≡ some t.targets)
        × (r.is_app ≡ 0)
        × (r.message.packet.source ≡ address tid d.index k)
        × (r.message.packet.size ≡ pin.message_size)
        × (r.message.packet.payload ≡ (handled g d pin m).1)
  pub to_host :
      (handled g d pin m).2 ≡ true
      → pin.is_app ≢ 0
      → (r.num_targets ≡ 1)
        × (r.targets ≡ none)
        × (r.is_app ≡ 1)
        × (r.message.host_msg.source ≡ address tid d.index k)
        × (r.message.host_msg.size ≡ pin.message_size)
        × (r.message.host_msg.type ≡ pin.message_type_numid)
        × (r.message.host_msg.payload ≡ (handled g d pin m).1)

-- The context after the message: the list, the device's new state, and the thread's clock.
pub record AfterSend {A : App} (c : PThreadContext A) (y : ℕ) (ys : List ℕ) (d : DeviceContext A)
    (pin : OutputPinVTable A) (m : Buffer A) (c' : PThreadContext A) : Type 0 where
  pub tracks : Tracks c' (rotated (any_ready (repolled c.graph_props d pin m).1) y ys)
  pub device :
      unlinked (c'.devices y)
      ≡ unlinked (record d {
        state = (repolled c.graph_props d pin m).0;
        rts_flags = (repolled c.graph_props d pin m).1;
      })
  pub clock : c'.lamport ≡ (c.lamport + 1) % 2 ^ 32
  pub size : c'.num_devices ≡ c.num_devices
  pub host : c'.host ≡ c.host
  pub offset : c'.rtc_offset ≡ c.rtc_offset
  pub checked :
      c'.rtc_checked
      ≡ (if wants_compute (repolled c.graph_props d pin m).1 then 0 else c.rtc_checked)
  pub others : (j : ℕ) → (j == y) ≡ false → unlinked (c'.devices j) ≡ unlinked (c.devices j)

module _ {A : App} where
  pub pop-Popped :
      (c c₁ : PThreadContext A) (y : ℕ) (ys : List ℕ)
      → Tracks c (y ∷ ys)
      → IsRts c₁ ys
      → Relinked c c₁
      → Popped c₁ y ys
  pop-Popped c c₁ y ys t q r = record {
    list = q;
    within = subst (λ n. y < n) (sym size) t.list.bounded.0;
    out = t.list.distinct.0;
    others = λ j h ne.
        let old : j < c.num_devices = subst (λ n. j < n) size h in
        let same : flags_of c₁ j ≡ flags_of c j = ap (λ d. d.rts_flags) (r.devices j) in
        ground (arith, t.ready j old, ap any_ready same);
  }
    where
      size : c₁.num_devices ≡ c.num_devices
      size = ap (λ k. k.num_devices) r.rest

  module _ (c : PThreadContext A) (y k : ℕ) (ys : List ℕ) (pin : OutputPinVTable A)
      (t : OutputPinTargets) (m : Buffer A) (app : ℕ) (p : Popped c y ys)
      (found : right_most_one (flags_of c y) ≡ some k)
      (its : get_elem? (c.devices y).vtable.output_pins k ≡ some pin)
      (goes : get_elem? (c.devices y).targets k ≡ some t) where
    abbrev called : PThreadContext A × Buffer A × Bool
    called = call_send_handler c y (c.devices y) k pin m

    called-Popped : Popped called.0 y ys
    unfolding call_send_handler
    called-Popped = record {
      list = IsRts-same c called.0 ys p.list (λ j. (ground arith, ground arith)) refl refl refl;
      within = p.within;
      out = p.out;
      others = λ j h ne. ground (arith, p.others j h ne);
    }

    cleared-called : (cleared called.0 y).devices y ≡ record (c.devices y) {
      state = (handled c.graph_props (c.devices y) pin m).0;
      rts_flags = 0;
    }
    unfolding call_send_handler
    cleared-called = rw (==_self y) refl

    polled_flags-called :
        polled_flags (cleared called.0 y) y ≡ (repolled c.graph_props (c.devices y) pin m).1
    unfolding call_send_handler poll_flags
    polled_flags-called =
        ap (λ d. (d.vtable.ready_to_send_handler c.graph_props d.properties d.state).1)
          cleared-called

    device-called : (polled (cleared called.0 y) y).devices y ≡ record (c.devices y) {
      state = (repolled c.graph_props (c.devices y) pin m).0;
      rts_flags = (repolled c.graph_props (c.devices y) pin m).1;
    }
    unfolding call_send_handler poll_flags
    device-called = rw (==_self y) refl

    others-called :
        (j : ℕ) → (j == y) ≡ false → (polled (cleared called.0 y) y).devices j ≡ c.devices j
    unfolding call_send_handler poll_flags
    others-called j ne = let ne' : (y == j) ≡ false = ground arith in rw ne'

    clock-called : (polled (cleared called.0 y) y).lamport ≡ (c.lamport + 1) % 2 ^ 32
    unfolding call_send_handler poll_flags
    clock-called = refl

    rest-called :
        ((polled (cleared called.0 y) y).num_devices ≡ c.num_devices)
        × ((polled (cleared called.0 y) y).host ≡ c.host)
        × ((polled (cleared called.0 y) y).rtc_offset ≡ c.rtc_offset)
        × ((polled (cleared called.0 y) y).rtc_checked
            ≡ (if wants_compute (polled_flags (cleared called.0 y) y) then 0 else c.rtc_checked))
    unfolding call_send_handler poll_flags
    rest-called = (refl, refl, refl, refl)

    finished-AfterSend :
        (c' : PThreadContext A)
        → Tracks c' (rotated (any_ready (polled_flags (cleared called.0 y) y)) y ys)
        → Relinked (polled (cleared called.0 y) y) c'
        → AfterSend c y ys (c.devices y) pin m c'
    finished-AfterSend c' q r = record {
      tracks = subst (λ f. Tracks c' (rotated (any_ready f) y ys)) polled_flags-called q;
      device = unlinked-Relinked (polled (cleared called.0 y) y) c' y r ∙ ap unlinked device-called;
      clock = ap (λ e. e.lamport) r.rest ∙ clock-called;
      size = ap (λ e. e.num_devices) r.rest ∙ rest-called.0;
      host = ap (λ e. e.host) r.rest ∙ rest-called.1;
      offset = ap (λ e. e.rtc_offset) r.rest ∙ rest-called.2;
      checked =
          ap (λ e. e.rtc_checked) r.rest
          ∙ rest-called.3
          ∙ ap (λ f. if wants_compute f then 0 else c.rtc_checked) polled_flags-called;
      others = λ j ne.
          unlinked-Relinked (polled (cleared called.0 y) y) c' j r
          ∙ ap unlinked (others-called j ne);
    }

    abbrev result : Buffer A → ℕ → Option (List Address) → ℕ → PThreadContext A → Prepared A
    result m' n tg a c' = record {
      context = c';
      message = m';
      num_targets = n;
      targets = tg;
      is_app = a;
      size = pin.message_size;
    }

    abbrev pub Served : Prepared A → Type 0
    Served r =
        IsMessage c.graph_props c.thread_id (c.devices y) k pin t m r
        × AfterSend c y ys (c.devices y) pin m r.context

    complete :
        (m' : Buffer A) (n : ℕ) (tg : Option (List Address)) (a : ℕ)
        → ((c' : PThreadContext A)
            → IsMessage c.graph_props c.thread_id (c.devices y) k pin t m (result m' n tg a c'))
        → Yields (finish_send called.0 y >>= λ c'. some (result m' n tg a c')) Served
    complete m' n tg a is =
        Yields_bind (finish_send called.0 y) _ Served
          (finish_send-Tracks called.0 y ys called-Popped)
          λ c' (q, r). (is c', finished-AfterSend c' q r)

    payload_normal : (pin.is_app == 0) ≡ true → payload_of m pin ≡ m.packet.payload
    payload_normal e = rw e refl

    payload_host : (pin.is_app == 0) ≡ false → payload_of m pin ≡ m.host_msg.payload
    payload_host e = rw e refl

    answer : A.Payload → A.Payload
    answer x = (pin.send_handler c.graph_props (c.devices y).properties (c.devices y).state x).1

    -- How the message is addressed, in the three cases.
    addressed :
        Yields
          (if called.2
            then address_message called.0 (c.devices y) k pin called.1
            else some (called.1, 0, none, app))
          (λ (m', n, tg, a).
            (c' : PThreadContext A)
            → IsMessage c.graph_props c.thread_id (c.devices y) k pin t m (result m' n tg a c'))
    unfolding call_send_handler address_message answer
    addressed = elim (Bool-cases (handled c.graph_props (c.devices y) pin m).2) [
      | inl send ↦ elim (Bool-cases (pin.is_app == 0)) [
        | inl normal ↦
            rw (send, normal, goes)
              (λ c'. record {
                size = refl;
                declined = λ e. cc;
                multicast =
                    λ e z. (refl, refl, refl, refl, refl, ap answer (sym (payload_normal normal)));
                to_host = λ e z. absurd (ground arith);
              })
        | inr host ↦
            rw (send, host)
              (λ c'. record {
                size = refl;
                declined = λ e. cc;
                multicast = λ e z. absurd (ground arith);
                to_host = λ e z.
                    (refl, refl, refl, refl, refl, refl, ap answer (sym (payload_host host)));
              })
      ]
      | inr decline ↦ rw decline (λ c'. record {
        size = refl;
        declined = λ e. refl;
        multicast = λ e z. cc;
        to_host = λ e z. cc;
      })
    ]

    pub prepare-Served : Yields (prepare c y m app) Served
    unfolding prepare
    prepare-Served =
        rw (lt→ltb _ _ p.within, found, its)
          (Yields_bind
            (if called.2
              then address_message called.0 (c.devices y) k pin called.1
              else some (called.1, 0, none, app))
            _ Served addressed λ (m', n, tg, a) is. complete m' n tg a is)
