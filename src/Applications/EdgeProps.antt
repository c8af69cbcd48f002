-- ===== src/Applications/EdgeProps.antt =====
-- src/applications/edge_props: three outer devices tick one inner device, which tells them apart by the
-- masks on its edges.
pub mod Bits
pub mod Ticks
pub mod Tests
use toy_softswitch.Prelude.{
  ◌-◌, ◌^◌, ℕ, zero, suc, ◌+◌, ◌*◌, ◌/◌, ◌%◌, ◌<◌, ◌≡◌, refl, ap, sym, ◌∙◌, Bool, true, false,
  Option, none, some, List, [], ◌∷◌, arith, ◌==◌, if◌then◌else◌, get_elem?, inl,
}
use toy_softswitch.Context.{
  App, InputPinVTable, DeviceTypeVTable, InputPinBinding, InputPinSources, DeviceContext,
  PThreadContext,
}
use toy_softswitch.Receive.{find_edge}
use toy_softswitch.Receive.Order.{cmp_address-device}
use toy_softswitch.Receive.Search.{IsSorted}
use toy_softswitch.Receive.Delivery.{find_edge-own}
use toy_softswitch.Applications.{new_device, new_thread}

-- The states and the properties of the two device types.
pub data DevState : Type 0 where
  outer_state : ℕ → DevState
  inner_state : ℕ → DevState

pub data DevProps : Type 0 where
  outer_props : DevProps
  inner_props : ℕ → DevProps

pub record InnerInProps : Type 0 where
  pub mask : ℕ

abbrev pub edge_props_app : App
edge_props_app = record {
  GraphProps = Unit;
  DevProps = DevProps;
  DevState = DevState;
  EdgeProps = InnerInProps;
  EdgeState = Unit;
  Payload = Unit;
}

-- `a | b` on `n` bits.
pub bit_or : ℕ → ℕ → ℕ → ℕ
bit_or zero a b = 0
bit_or (suc n) a b = (if a % 2 + b % 2 == 0 then 0 else 1) + 2 * bit_or n (a / 2) (b / 2)

-- `a & b` on `n` bits.
pub bit_and : ℕ → ℕ → ℕ → ℕ
bit_and zero a b = 0
bit_and (suc n) a b = (if a % 2 + b % 2 == 2 then 1 else 0) + 2 * bit_and n (a / 2) (b / 2)

-- A handler is called on its own type's state only; on another it does nothing.
abbrev pub outer_ready_to_send_handler : Unit {0} → DevProps → DevState → DevState × ℕ
outer_ready_to_send_handler g p (DevState.outer_state ready) =
    (DevState.outer_state ready, if ready == 0 then 0 else 1)
outer_ready_to_send_handler g p (DevState.inner_state acc) = (DevState.inner_state acc, 0)

abbrev pub outer_out_send_handler :
    Unit {0} → DevProps → DevState → Unit {0} → DevState × Unit {0} × Bool
outer_out_send_handler g p (DevState.outer_state ready) msg = (DevState.outer_state 0, msg, true)
outer_out_send_handler g p (DevState.inner_state acc) msg = (DevState.inner_state acc, msg, true)

abbrev pub inner_ready_to_send_handler : Unit {0} → DevProps → DevState → DevState × ℕ
inner_ready_to_send_handler g p s = (s, 0)

-- Whether the assertion of the receive handler holds, and whether the program exits after it.
abbrev pub inner_in_asserts : DevState → InnerInProps → Bool
inner_in_asserts (DevState.inner_state acc) e = bit_and 32 acc e.mask == 0
inner_in_asserts (DevState.outer_state ready) e = true

abbrev pub inner_in_exits : DevProps → DevState → Bool
inner_in_exits (DevProps.inner_props outer_count) (DevState.inner_state acc) =
    acc == 2 ^ outer_count - 1
inner_in_exits (DevProps.inner_props outer_count) (DevState.outer_state ready) = false
inner_in_exits DevProps.outer_props s = false

-- The edge has properties.
abbrev pub inner_in_receive_handler :
    Unit {0}
    → DevProps
    → DevState
    → Option InnerInProps
    → Option (Unit {0})
    → Unit {0}
    → DevState × Option (Unit {0})
inner_in_receive_handler g p (DevState.inner_state acc) (some e) edge_state msg =
    (DevState.inner_state (bit_or 32 acc e.mask), edge_state)
inner_in_receive_handler g p (DevState.inner_state acc) none edge_state msg =
    (DevState.inner_state acc, edge_state)
inner_in_receive_handler g p (DevState.outer_state ready) e edge_state msg =
    (DevState.outer_state ready, edge_state)

abbrev pub outer_vtable : DeviceTypeVTable edge_props_app
outer_vtable = record {
  init_handler = λ g p s. s;
  ready_to_send_handler = outer_ready_to_send_handler;
  output_pins =
      (record {
        send_handler = outer_out_send_handler;
        message_size = 17;
        is_app = 0;
        message_type_numid = 0;
      })
      ∷ [];
  num_inputs = 0;
  input_pins = [];
  compute_handler = none;
  on_hardware_idle_handler = none;
}

-- An empty message has a `sizeof` of 1, and the mask has 4 bytes.
abbrev pub inner_in_pin : InputPinVTable edge_props_app
inner_in_pin = record {
  receive_handler = inner_in_receive_handler;
  message_size = 17;
  properties_size = 4;
  state_size = 0;
}

abbrev pub inner_vtable : DeviceTypeVTable edge_props_app
inner_vtable = record {
  init_handler = λ g p s. s;
  ready_to_send_handler = inner_ready_to_send_handler;
  output_pins = [];
  num_inputs = 1;
  input_pins = inner_in_pin ∷ [];
  compute_handler = none;
  on_hardware_idle_handler = none;
}

abbrev pub outer_device : ℕ → DeviceContext edge_props_app
outer_device i =
    new_device outer_vtable DevProps.outer_props (DevState.outer_state 1) i
      ((record { num_targets = 1; targets = (record { thread = 0; device = 3; pin = 0 }) ∷ [] })
        ∷ [])
      []

abbrev pub binding_of : ℕ → ℕ → InputPinBinding edge_props_app
binding_of i mask = record {
  source = record { thread = 0; device = i; pin = 0 };
  edge_properties = some (record { mask = mask });
  edge_state = none;
}

abbrev pub dev3_in_bindings : List (InputPinBinding edge_props_app)
dev3_in_bindings = binding_of 0 1 ∷ binding_of 1 2 ∷ binding_of 2 4 ∷ []

abbrev pub dev3_sources : InputPinSources edge_props_app
dev3_sources = record { num_sources = 3; source_bindings = dev3_in_bindings }

abbrev pub inner_device : DeviceContext edge_props_app
inner_device =
    new_device inner_vtable (DevProps.inner_props 3) (DevState.inner_state 0) 3 []
      (dev3_sources ∷ [])

-- edge_props_dev4_threads1.cpp.
abbrev pub dev4_threads1 : PThreadContext edge_props_app
dev4_threads1 = new_thread 0 tt 4 λ i. if i == 3 then inner_device else outer_device i

abbrev thread_of : Option (InputPinBinding edge_props_app) → ℕ
thread_of none = 0
thread_of (some b) = b.source.thread

abbrev device_of : Option (InputPinBinding edge_props_app) → ℕ
device_of none = 0
device_of (some b) = b.source.device

-- The place of a binding is the number of its device, and there are three.
binding_at :
    (i : ℕ) (b : InputPinBinding edge_props_app)
    → get_elem? dev3_in_bindings i ≡ some b
    → (b.source.thread ≡ 0) × (b.source.device ≡ i) × (i < 3)
binding_at zero b e = (sym (ap thread_of e), sym (ap device_of e), omega arith)
binding_at (suc zero) b e = (sym (ap thread_of e), sym (ap device_of e), omega arith)
binding_at (suc (suc zero)) b e = (sym (ap thread_of e), sym (ap device_of e), omega arith)
binding_at (suc (suc (suc i))) b e = absurd cc

-- The bindings of the inner device are in order.
pub dev3_in_bindings-IsSorted : IsSorted dev3_in_bindings
dev3_in_bindings-IsSorted i j x y h p q =
    let (t, d, k) = binding_at i x p in
    let (t', d', k') = binding_at j y q in
    cmp_address-device x.source y.source (t ∙ sym t') (omega (arith, d, d'))

-- Each tick of an outer device is handled with the mask of that device.
pub find_edge-dev3 :
    (i : ℕ) (b : InputPinBinding edge_props_app)
    → get_elem? dev3_in_bindings i ≡ some b
    → find_edge inner_device 0 inner_in_pin b.source ≡ some (some (i, b))
find_edge-dev3 i b e =
    let (t, d, k) = binding_at i b e in
    find_edge-own inner_device 0 i inner_in_pin dev3_sources b (inl (λ z. ground arith)) refl
      dev3_in_bindings-IsSorted (ground arith) k e
