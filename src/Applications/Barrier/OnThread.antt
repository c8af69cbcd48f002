-- ===== src/Applications/Barrier/OnThread.antt =====
-- A barrier's handlers as the softswitch runs them: its receive and its send of a tick are the steps of
-- Network on the device concerned.
use toy_softswitch.Prelude.{
  ℕ, ◌%◌, ◌<◌, ◌≡◌, refl, ap, ◌∙◌, subst, some, none, true, false, List, ◌∷◌, get_elem?, Yields,
  Yields_mono, ◌==◌,
}
use toy_softswitch.Context.{InputPinVTable, OutputPinVTable, OutputPinTargets, PThreadContext}
use toy_softswitch.Rts.{any_ready}
use toy_softswitch.Rts.Queue.{flags_of, unlinked}
use toy_softswitch.Rts.Update.{Tracks, requeue}
use toy_softswitch.Rts.Handler.{asked}
use toy_softswitch.Send.{Packet, Buffer, right_most_one, softswitch_on_send}
use toy_softswitch.Send.Message.{repolled, handled}
use toy_softswitch.Send.Popped.{rotated}
use toy_softswitch.Send.Bits.{right_most_one_first}
use toy_softswitch.Send.Rotation.{softswitch_on_send-IsMessage}
use toy_softswitch.Receive.{softswitch_on_receive}
use toy_softswitch.Receive.Delivery.{received, find_edge_plain, softswitch_on_receive-AfterHandler}
use toy_softswitch.Applications.Barrier.{
  DevState, TickMsg, State, Msg, barrier_app, output_flag_dev_out, dev_vtable, dev_in, dev_out,
  dev_ready_to_send_handler, dev_in_receive_handler, dev_out_send_handler, dev_halt_send_handler,
}

abbrev pub in_pin : InputPinVTable barrier_app
in_pin = record { receive_handler = dev_in; message_size = 20; properties_size = 0; state_size = 0 }

abbrev pub out_pin : OutputPinVTable barrier_app
out_pin = record { send_handler = dev_out; message_size = 20; is_app = 0; message_type_numid = 0 }

-- What a poll after the receipt of a tick answers.
asked-received :
    (c : PThreadContext barrier_app) (i k : ℕ) (x : Msg) (d : DevState) (msg : TickMsg)
    → (c.devices i).vtable ≡ dev_vtable
    → (c.devices i).state ≡ State.dev_state d
    → x ≡ Msg.tick_msg msg
    → asked c.graph_props (received c.graph_props (c.devices i) k in_pin none x) ≡ (
      State.dev_state (dev_in_receive_handler d msg),
      dev_ready_to_send_handler c.graph_props (dev_in_receive_handler d msg),
    )
unfolding dev_ready_to_send_handler dev_in_receive_handler dev_out_send_handler
    dev_halt_send_handler
asked-received c i k x d msg vt st pl = λ j.
    (vt j).ready_to_send_handler c.graph_props tt
      (dev_in c.graph_props tt (st j) none none (pl j)).0

-- When the softswitch receives a tick for a barrier device of the thread, the device's state
-- becomes what dev_in_receive_handler makes of it, the list holds the device exactly if
-- dev_ready_to_send_handler then finds it ready, and no other device changes.
pub softswitch_on_receive-tick :
    (c : PThreadContext barrier_app) (m : Packet barrier_app) (d : DevState) (msg : TickMsg)
    (xs : List ℕ)
    → Tracks c xs
    → m.dest.device < c.num_devices
    → (c.devices m.dest.device).is_external % 256 ≡ 0
    → (c.devices m.dest.device).vtable ≡ dev_vtable
    → (c.devices m.dest.device).state ≡ State.dev_state d
    → m.dest.pin ≡ 0
    → m.payload ≡ Msg.tick_msg msg
    → Yields (softswitch_on_receive c m) (λ c'.
      ((c'.devices m.dest.device).state ≡ State.dev_state (dev_in_receive_handler d msg))
      × Tracks c' (
          requeue
            (any_ready (dev_ready_to_send_handler c.graph_props (dev_in_receive_handler d msg)))
            m.dest.device
            xs)
      × ((j : ℕ) → (j == m.dest.device) ≡ false → unlinked (c'.devices j) ≡ unlinked (c.devices j)))
unfolding dev_ready_to_send_handler dev_in_receive_handler dev_out_send_handler
    dev_halt_send_handler
softswitch_on_receive-tick c m d msg xs t within own vt st pin pl =
    let its : get_elem? (c.devices m.dest.device).vtable.input_pins m.dest.pin ≡ some in_pin =
      λ j. get_elem? (vt j).input_pins (pin j) in
    let answer = asked-received c m.dest.device m.dest.pin m.payload d msg vt st pl in
    Yields_mono (softswitch_on_receive c m)
      (softswitch_on_receive-AfterHandler c m in_pin none xs t within own its
        (find_edge_plain (c.devices m.dest.device) m.dest.pin in_pin m.source refl refl))
      λ c' a. (
        ap (λ e. e.state) a.device ∙ ap (λ r. r.0) answer,
        subst (λ (r : State × ℕ). Tracks c' (requeue (any_ready r.1) m.dest.device xs)) answer
            a.tracks,
        a.others,
      )

repolled-sent :
    (c : PThreadContext barrier_app) (y : ℕ) (m : Buffer barrier_app) (d : DevState)
    → (c.devices y).vtable ≡ dev_vtable
    → (c.devices y).state ≡ State.dev_state d
    → repolled c.graph_props (c.devices y) out_pin m ≡ (
      State.dev_state (dev_out_send_handler d).0,
      dev_ready_to_send_handler c.graph_props (dev_out_send_handler d).0,
    )
unfolding dev_ready_to_send_handler dev_in_receive_handler dev_out_send_handler
    dev_halt_send_handler
repolled-sent c y m d vt st = λ j.
    (vt j).ready_to_send_handler c.graph_props tt
      (dev_out c.graph_props tt (st j) m.packet.payload).0

-- When the list begins with a barrier device that wants to send a tick, softswitch_onSend prepares
-- the tick of dev_out_send_handler for all of its targets, leaves the device in the state of that
-- handler, and puts it at the back of the list exactly if it is ready again.
pub softswitch_on_send-tick :
    (c : PThreadContext barrier_app) (y : ℕ) (ys : List ℕ) (d : DevState) (t : OutputPinTargets)
    (m : Buffer barrier_app) (app : ℕ)
    → Tracks c (y ∷ ys)
    → flags_of c y ≡ output_flag_dev_out
    → (c.devices y).vtable ≡ dev_vtable
    → (c.devices y).state ≡ State.dev_state d
    → get_elem? (c.devices y).targets 0 ≡ some t
    → Yields (softswitch_on_send c m app) (λ r.
      (r.num_targets ≡ t.num_targets)
      × (r.targets ≡ some t.targets)
      × (r.message.packet.payload ≡ Msg.tick_msg (dev_out_send_handler d).1)
      × ((r.context.devices y).state ≡ State.dev_state (dev_out_send_handler d).0)
      × Tracks r.context (
          rotated
            (any_ready (dev_ready_to_send_handler c.graph_props (dev_out_send_handler d).0))
            y
            ys))
unfolding dev_ready_to_send_handler dev_in_receive_handler dev_out_send_handler
    dev_halt_send_handler
softswitch_on_send-tick c y ys d t m app tr flags vt st goes =
    let its : get_elem? (c.devices y).vtable.output_pins 0 ≡ some out_pin =
      λ j. get_elem? (vt j).output_pins 0 in
    let sends : handled c.graph_props (c.devices y) out_pin m ≡ (
      State.dev_state (dev_out_send_handler d).0,
      Msg.tick_msg (dev_out_send_handler d).1,
      true,
    ) =
      λ j. dev_out c.graph_props tt (st j) m.packet.payload in
    let answer = repolled-sent c y m d vt st in
    Yields_mono (softswitch_on_send c m app)
      (softswitch_on_send-IsMessage c y 0 ys out_pin t m app tr
        (ap right_most_one flags ∙ right_most_one_first) its goes)
      λ r (is, after).
        let multicast = is.multicast (ap (λ h. h.2) sends) refl in
        (
          multicast.0,
          multicast.1,
          multicast.5 ∙ ap (λ h. h.1) sends,
          ap (λ k. k.state) after.device ∙ ap (λ r. r.0) answer,
          subst (λ (a : State × ℕ). Tracks r.context (rotated (any_ready a.1) y ys)) answer
              after.tracks,
        )
