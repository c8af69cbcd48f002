-- ===== src/Context.antt =====
-- The data of include/softswitch.hpp: addresses, vtables, device contexts and the thread context.
--
-- A `DeviceContext *` is null or points into the thread's array `devices`, so a pointer is an
-- optional index; `none` is the null pointer. A read through null or past the array is `none`.
pub mod Host
use toy_softswitch.Prelude.{
  ℕ, Bool, Option, none, some, List, ltb, ◌==◌, if◌then◌else◌, ◌>>=◌, update,
}
use Host.{HostBuffer, Counters}

-- The fields of `address_t` that the program uses. As a packet's source it also holds the size.
pub record Address : Type 0 where
  pub thread : ℕ
  pub device : ℕ
  pub pin : ℕ

-- What the application supplies through `void *` pointers.
pub record App : Type 1 where
  pub GraphProps : Type 0
  pub DevProps : Type 0
  pub DevState : Type 0
  pub EdgeProps : Type 0
  pub EdgeState : Type 0
  pub Payload : Type 0

pub record InputPinVTable (A : App) : Type 0 where
  pub receive_handler :
      A.GraphProps
      → A.DevProps
      → A.DevState
      → Option A.EdgeProps
      → Option A.EdgeState
      → A.Payload
      → A.DevState × Option A.EdgeState
  pub message_size : ℕ
  pub properties_size : ℕ
  pub state_size : ℕ

pub record OutputPinVTable (A : App) : Type 0 where
  pub send_handler :
      A.GraphProps → A.DevProps → A.DevState → A.Payload → A.DevState × A.Payload × Bool
  pub message_size : ℕ
  pub is_app : ℕ
  pub message_type_numid : ℕ

-- The handlers that the program calls without a test are functions; a compute handler may be null.
pub record DeviceTypeVTable (A : App) : Type 0 where
  pub init_handler : A.GraphProps → A.DevProps → A.DevState → A.DevState
  pub ready_to_send_handler : A.GraphProps → A.DevProps → A.DevState → A.DevState × ℕ
  pub output_pins : List (OutputPinVTable A)
  pub num_inputs : ℕ
  pub input_pins : List (InputPinVTable A)
  pub compute_handler : Option (A.GraphProps → A.DevProps → A.DevState → A.DevState)
  pub on_hardware_idle_handler : Option (A.GraphProps → A.DevProps → A.DevState → A.DevState)

pub record OutputPinTargets : Type 0 where
  pub num_targets : ℕ
  pub targets : List Address

pub record InputPinBinding (A : App) : Type 0 where
  pub source : Address
  pub edge_properties : Option A.EdgeProps
  pub edge_state : Option A.EdgeState

pub record InputPinSources (A : App) : Type 0 where
  pub num_sources : ℕ
  pub source_bindings : List (InputPinBinding A)

abbrev pub Ptr : Type 0
Ptr = Option ℕ

pub record DeviceContext (A : App) : Type 0 where
  pub vtable : DeviceTypeVTable A
  pub properties : A.DevProps
  pub state : A.DevState
  pub index : ℕ
  pub targets : List OutputPinTargets
  pub sources : List (InputPinSources A)
  pub rts_flags : ℕ
  pub prev : Ptr
  pub next : Ptr
  pub is_external : ℕ

pub record PThreadContext (A : App) : Type 0 where
  pub thread_id : ℕ
  pub graph_props : A.GraphProps
  pub num_devices : ℕ
  pub devices : ℕ → DeviceContext A
  pub lamport : ℕ
  pub rts_head : Ptr
  pub rts_tail : Ptr
  pub rtc_checked : ℕ
  pub rtc_offset : ℕ
  pub current_device : ℕ
  pub current_handler_type : ℕ
  pub current_pin : ℕ
  pub current_size : ℕ
  pub host : HostBuffer
  pub perf : Counters

-- Pointer comparison.
abbrev pub ptr_eq : Ptr → Ptr → Bool
ptr_eq none none = Bool.true
ptr_eq none (some j) = Bool.false
ptr_eq (some i) none = Bool.false
ptr_eq (some i) (some j) = i == j

module _ {A : App} where
  -- `*(ctxt->devices + i)`, undefined past the array.
  abbrev pub load : PThreadContext A → ℕ → Option (DeviceContext A)
  load c i = if ltb i c.num_devices then some (c.devices i) else none

  abbrev pub store : PThreadContext A → ℕ → DeviceContext A → PThreadContext A
  store c i d = record c { devices = update c.devices i d }

  -- An assignment to fields of `*p`.
  abbrev pub modify :
      PThreadContext A → Ptr → (DeviceContext A → DeviceContext A) → Option (PThreadContext A)
  modify c none f = none
  modify c (some i) f = if ltb i c.num_devices then some (store c i (f (c.devices i))) else none
