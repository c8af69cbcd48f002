-- ===== src/Applications.antt =====
-- src/applications: the programs that run on the softswitch, as their vtables and their initial contexts.
--
-- The sources are written for an older softswitch.hpp: their vtables have no init handler, and a
-- device context has a field `rtc`, which is false. Here the missing handler leaves the state alone.
pub mod Ring
pub mod EdgeProps
pub mod Barrier
use toy_softswitch.Prelude.{ℕ, Option, none, some, List, [], ◌∷◌, get_elem?}
use toy_softswitch.Context.{
  App, DeviceContext, DeviceTypeVTable, OutputPinTargets, InputPinSources, PThreadContext,
}
use toy_softswitch.Context.Host.{HostMsg, HostBuffer, Counters}

abbrev pub blank_host_msg : HostMsg
blank_host_msg = record { thread = 0; device = 0; pin = 0; size = 0; type = 0; payload = λ i. 0 }

abbrev pub empty_host_buffer : HostBuffer
empty_host_buffer = record { host_buffer = λ i. blank_host_msg; hbuf_head = 0; hbuf_tail = 0 }

abbrev pub no_counts : Counters
no_counts = record {
  thread_cycles_tstart = 0;
  thread_cycles = 0;
  send_blocked_cycles = 0;
  recv_blocked_cycles = 0;
  idle_cycles = 0;
  perfmon_cycles = 0;
  send_cycles = 0;
  send_handler_cycles = 0;
  recv_cycles = 0;
  recv_handler_cycles = 0;
}

module _ {A : App} where
  -- The initialiser of a device: everything that is not listed is 0.
  abbrev pub new_device :
      DeviceTypeVTable A
      → A.DevProps
      → A.DevState
      → ℕ
      → List OutputPinTargets
      → List (InputPinSources A)
      → DeviceContext A
  new_device vtable properties state index targets sources = record {
    vtable = vtable;
    properties = properties;
    state = state;
    index = index;
    targets = targets;
    sources = sources;
    rts_flags = 0;
    prev = none;
    next = none;
    is_external = 0;
  }

  -- The initialiser of a thread.
  abbrev pub new_thread : ℕ → A.GraphProps → ℕ → (ℕ → DeviceContext A) → PThreadContext A
  new_thread thread_id graph_props num_devices devices = record {
    thread_id = thread_id;
    graph_props = graph_props;
    num_devices = num_devices;
    devices = devices;
    lamport = 0;
    rts_head = none;
    rts_tail = none;
    rtc_checked = 0;
    rtc_offset = 0;
    current_device = 0;
    current_handler_type = 0;
    current_pin = 0;
    current_size = 0;
    host = empty_host_buffer;
    perf = no_counts;
  }
