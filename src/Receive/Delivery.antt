-- ===== src/Receive/Delivery.antt =====
-- What `softswitch_onReceive` does with a packet.
use toy_softswitch.Prelude.{
  ℕ, ◌%◌, ◌<◌, ◌≤◌, ◌≡◌, ◌≢◌, refl, true, false, not, ◌||◌, Option, none, some, List, arith, ◌==◌,
  get_elem?, length, lt→ltb, Yields, ◌⊎◌,
}
use toy_softswitch.Context.{
  App, Address, DeviceContext, InputPinVTable, InputPinBinding, InputPinSources, PThreadContext,
  store,
}
use toy_softswitch.Rts.Update.{Tracks}
use toy_softswitch.Rts.Handler.{AfterHandler, noted, touched-AfterHandler}
use toy_softswitch.Send.{Packet}
use toy_softswitch.Receive.{
  find_edge, edge_properties_of, edge_state_of, store_edge_state, call_receive_handler,
  softswitch_on_receive,
}
use toy_softswitch.Receive.Search.{IsSorted, lower_bound-found}

module _ {A : App} where
  -- What the receive handler of `pin` makes of device `d`.
  abbrev pub received :
      A.GraphProps
      → DeviceContext A
      → ℕ
      → InputPinVTable A
      → Option (ℕ × InputPinBinding A)
      → A.Payload
      → DeviceContext A
  received g d k pin edge x =
      let (state, edge_state) =
        pin.receive_handler g d.properties d.state (edge_properties_of edge) (edge_state_of edge)
          x in
      record d { state = state; sources = store_edge_state d.sources k edge edge_state }

  pub call_receive_handler_perf :
      (c : PThreadContext A) (d : DeviceContext A) (pin : InputPinVTable A)
      (edge : Option (ℕ × InputPinBinding A)) (m : Packet A)
      → (call_receive_handler c d pin edge m).perf ≡ c.perf
  unfolding call_receive_handler
  call_receive_handler_perf c d pin edge m = refl

  call_receive_handler_lem :
      (c : PThreadContext A) (d : DeviceContext A) (pin : InputPinVTable A)
      (edge : Option (ℕ × InputPinBinding A)) (m : Packet A)
      → call_receive_handler c d pin edge m
        ≡ store
            (noted c m.dest.device 1 m.dest.pin)
            m.dest.device
            (received c.graph_props d m.dest.pin pin edge m.payload)
  unfolding call_receive_handler
  call_receive_handler_lem c d pin edge m = refl

  pub softswitch_on_receive-AfterHandler :
      (c : PThreadContext A) (m : Packet A) (pin : InputPinVTable A)
      (edge : Option (ℕ × InputPinBinding A)) (xs : List ℕ)
      → Tracks c xs
      → m.dest.device < c.num_devices
      → (c.devices m.dest.device).is_external % 256 ≡ 0
      → get_elem? (c.devices m.dest.device).vtable.input_pins m.dest.pin ≡ some pin
      → find_edge (c.devices m.dest.device) m.dest.pin pin m.source ≡ some edge
      → Yields (softswitch_on_receive c m) (
          AfterHandler c m.dest.device
            (received c.graph_props (c.devices m.dest.device) m.dest.pin pin edge m.payload)
            xs)
  unfolding softswitch_on_receive
  softswitch_on_receive-AfterHandler c m pin edge xs t within own its found =
      let here : (c.devices m.dest.device).is_external % 256 == 0 ≡ true = ground arith in
      rw
        (
          lt→ltb _ _ within,
          here,
          its,
          found,
          call_receive_handler_lem c (c.devices m.dest.device) pin edge m,
        )
        (touched-AfterHandler c m.dest.device m.dest.device 1 m.dest.pin _ xs t within refl refl
          refl)

  -- A packet for an external device is dropped, and changes nothing.
  pub softswitch_on_receive_external :
      (c : PThreadContext A) (m : Packet A)
      → m.dest.device < c.num_devices
      → (c.devices m.dest.device).is_external % 256 ≢ 0
      → softswitch_on_receive c m ≡ some c
  unfolding softswitch_on_receive
  softswitch_on_receive_external c m within other =
      let there : (c.devices m.dest.device).is_external % 256 == 0 ≡ false = ground arith in
      rw (lt→ltb _ _ within, there) refl

  pub find_edge_plain :
      (d : DeviceContext A) (k : ℕ) (pin : InputPinVTable A) (a : Address)
      → pin.properties_size ≡ 0
      → pin.state_size ≡ 0
      → find_edge d k pin a ≡ some none
  unfolding find_edge
  find_edge_plain d k pin a e e' =
      let bare : (not (pin.properties_size == 0) || not (pin.state_size == 0)) ≡ false =
        ground arith in
      rw bare refl

  -- On a pin whose edges carry properties or state, and whose sources are in order, a packet from
  -- source number e of the pin finds that source's own edge.
  pub find_edge-own :
      (d : DeviceContext A) (k e : ℕ) (pin : InputPinVTable A) (s : InputPinSources A)
      (b : InputPinBinding A)
      → (pin.properties_size ≢ 0) ⊎ (pin.state_size ≢ 0)
      → get_elem? d.sources k ≡ some s
      → IsSorted s.source_bindings
      → s.num_sources ≤ length s.source_bindings
      → e < s.num_sources
      → get_elem? s.source_bindings e ≡ some b
      → find_edge d k pin b.source ≡ some (some (e, b))
  unfolding find_edge
  find_edge-own d k e pin s b carries at sorted fits h its =
      let carry : (not (pin.properties_size == 0) || not (pin.state_size == 0)) ≡ true =
        ground arith in
      rw
        (
          carry,
          at,
          lower_bound-found s.source_bindings s.num_sources b.source sorted fits e b h its refl,
          its,
        )
        refl
