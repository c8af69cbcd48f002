-- ===== src/Receive/Tests.antt =====
-- The inner device of the edge_props application gets a tick.
use toy_softswitch.Prelude.{◌≡◌, refl, some, arith, inl}
use toy_softswitch.Send.{Packet}
use toy_softswitch.Receive.{find_edge}
use toy_softswitch.Receive.Delivery.{find_edge-own}
use toy_softswitch.Applications.EdgeProps.{
  edge_props_app, inner_device, inner_in_pin, binding_of, dev3_in_bindings-IsSorted, dev3_sources,
}
use toy_softswitch.Applications.Ring.{input_of}

abbrev tick : Packet edge_props_app
tick = record { dest = input_of 0 3; source = input_of 0 1; size = 17; payload = tt }

find_edge-own_example :
    find_edge inner_device 0 inner_in_pin (input_of 0 1) ≡ some (some (1, binding_of 1 2))
find_edge-own_example =
    find_edge-own inner_device 0 1 inner_in_pin dev3_sources (binding_of 1 2)
      (inl (λ e. omega arith)) refl dev3_in_bindings-IsSorted (omega arith) (omega arith) refl
