-- ===== src/Receive.antt =====
-- src/softswitch/softswitch_on_receive.cpp: a packet is handed to its device's receive handler.
--
-- Assertions are compiled out, so an edge that is not found is not noticed.
pub mod Order
pub mod Search
pub mod Delivery
pub mod Wires
pub mod Tests
use toy_softswitch.Prelude.{
  ℕ, zero, suc, ◌+◌, ◌-◌, ◌/◌, ◌%◌, Bool, true, false, not, ◌||◌, Option, none, some, List, [], ◌∷◌,
  ◌==◌, ltb, if◌then◌else◌, ◌>>=◌, get_elem?, set, update,
}
use toy_softswitch.Context.{
  App, Address, Ptr, DeviceContext, InputPinVTable, InputPinBinding, InputPinSources,
  PThreadContext, load, store,
}
use toy_softswitch.Rts.{softswitch_update_rts}
use toy_softswitch.Send.{Packet}

-- The lambda `cmpAddress`.
pub cmp_address : Address → Address → Bool
cmp_address a b =
    if ltb a.thread b.thread
    then true
    else if ltb b.thread a.thread
    then false
    else if ltb a.device b.device
    then true
    else if ltb b.device a.device
    then false
    else ltb a.pin b.pin

module _ {A : App} where
  -- `std::lower_bound` on `len` bindings from `first` on: `len` is halved until it is 0.
  lower_bound_loop : ℕ → List (InputPinBinding A) → Address → ℕ → ℕ → Option ℕ
  lower_bound_loop zero bs a first len = none
  lower_bound_loop (suc fuel) bs a first len = if len == 0 then some first else do
    middle ← get_elem? bs (first + len / 2)
    let right = lower_bound_loop fuel bs a (first + len / 2 + 1) (len - len / 2 - 1)
    let left = lower_bound_loop fuel bs a first (len / 2)
    if cmp_address middle.source a then right else left

  pub lower_bound : List (InputPinBinding A) → ℕ → Address → Option ℕ
  unfolding lower_bound_loop
  lower_bound bs n a = lower_bound_loop (n + 1) bs a 0 n

  -- The binding of the edge that a packet from `a` came over: its place among the sources of the
  -- pin, for a pin that has properties or state, and nothing for any other.
  pub find_edge :
      DeviceContext A → ℕ → InputPinVTable A → Address → Option (Option (ℕ × InputPinBinding A))
  find_edge dev pin_index pin a =
      if not (pin.properties_size == 0) || not (pin.state_size == 0)
      then (do
        s ← get_elem? dev.sources pin_index
        edge ← lower_bound s.source_bindings s.num_sources a
        binding ← get_elem? s.source_bindings edge
        some (some (edge, binding)))
      else some none

  abbrev pub edge_properties_of : Option (ℕ × InputPinBinding A) → Option A.EdgeProps
  edge_properties_of none = none
  edge_properties_of (some (e, b)) = b.edge_properties

  abbrev pub edge_state_of : Option (ℕ × InputPinBinding A) → Option A.EdgeState
  edge_state_of none = none
  edge_state_of (some (e, b)) = b.edge_state

  -- The handler's write through `eState`.
  abbrev pub set_binding :
      List (InputPinSources A) → ℕ → ℕ → InputPinBinding A → List (InputPinSources A)
  set_binding [] k e b = []
  set_binding (s ∷ ss) zero e b = record s { source_bindings = set s.source_bindings e b } ∷ ss
  set_binding (s ∷ ss) (suc k) e b = s ∷ set_binding ss k e b

  abbrev pub store_edge_state :
      List (InputPinSources A)
      → ℕ
      → Option (ℕ × InputPinBinding A)
      → Option A.EdgeState
      → List (InputPinSources A)
  store_edge_state ss k none s = ss
  store_edge_state ss k (some (e, b)) s = set_binding ss k e (record b { edge_state = s })

  -- The receive handler runs, with the thread's notes for handler logging.
  pub call_receive_handler :
      PThreadContext A
      → DeviceContext A
      → InputPinVTable A
      → Option (ℕ × InputPinBinding A)
      → Packet A
      → PThreadContext A
  call_receive_handler c dev pin edge m =
      let (state, edge_state) =
        pin.receive_handler c.graph_props dev.properties dev.state (edge_properties_of edge)
          (edge_state_of edge) m.payload in
      store
        (record c {
          current_device = m.dest.device;
          current_handler_type = 1;
          current_pin = m.dest.pin;
        })
        m.dest.device
        (record dev {
          state = state;
          sources = store_edge_state dev.sources m.dest.pin edge edge_state;
        })

  -- `uint8_t isExternal` keeps the low byte; a packet for an external device is dropped.
  unfoldable pub softswitch_on_receive : PThreadContext A → Packet A → Option (PThreadContext A)
  softswitch_on_receive c m = do
    dev ← load c m.dest.device
    if dev.is_external % 256 == 0
        then (do
          pin ← get_elem? dev.vtable.input_pins m.dest.pin
          edge ← find_edge dev m.dest.pin pin m.source
          softswitch_update_rts (call_receive_handler c dev pin edge m) m.dest.device)
        else some c
