-- ===== src/Send.antt =====
-- src/softswitch/softswitch_on_send.cpp: the head of the ready-to-send list prepares a message.
pub mod Bits
pub mod Popped
pub mod Message
pub mod Perf
pub mod Rotation
pub mod Wires
pub mod Tests
use toy_softswitch.Prelude.{
  ℕ, zero, suc, ◌+◌, ◌/◌, ◌%◌, ◌^◌, Bool, true, false, not, Option, none, some, List, ◌==◌,
  if◌then◌else◌, ◌>>=◌, get_elem?, update,
}
use toy_softswitch.Context.{
  App, Address, Ptr, DeviceContext, OutputPinVTable, PThreadContext, load, store,
}
use toy_softswitch.Rts.{softswitch_pop_rts, softswitch_update_rts}

-- `while(!(x&1)){ index++; x=x>>1; }` on fuel.
right_most_loop : ℕ → ℕ → ℕ → Option ℕ
right_most_loop zero x index = none
right_most_loop (suc fuel) x index =
    let rest = right_most_loop fuel (x / 2) (index + 1) in if x % 2 == 1 then some index else rest

-- A 32-bit word has 32 bits to look at; on zero the loop does not end.
pub right_most_one : ℕ → Option ℕ
unfolding right_most_loop
right_most_one x = right_most_loop 32 x 0

-- A packet: `packet_header_t`, whose source also carries the size, and the payload behind it.
pub record Packet (A : App) : Type 0 where
  pub dest : Address
  pub source : Address
  pub size : ℕ
  pub payload : A.Payload

-- A message to the host, laid out as a `hostMsg`.
pub record HostPacket (A : App) : Type 0 where
  pub source : Address
  pub size : ℕ
  pub type : ℕ
  pub payload : A.Payload

-- The send slot, read and written in two layouts. A message is read in the layout that it was
-- written in, so the two are kept apart.
pub record Buffer (A : App) : Type 0 where
  pub packet : Packet A
  pub host_msg : HostPacket A

-- What the caller is handed: the out parameters and the returned size.
pub record Prepared (A : App) : Type 0 where
  pub context : PThreadContext A
  pub message : Buffer A
  pub num_targets : ℕ
  pub targets : Option (List Address)
  pub is_app : ℕ
  pub size : ℕ

abbrev address : ℕ → ℕ → ℕ → Address
address t d p = record { thread = t; device = d; pin = p }

module _ {A : App} where
  -- The payload that the send handler reads and writes.
  abbrev payload_of : Buffer A → OutputPinVTable A → A.Payload
  payload_of m pin = if pin.is_app == 0 then m.packet.payload else m.host_msg.payload

  abbrev set_payload : Buffer A → OutputPinVTable A → A.Payload → Buffer A
  set_payload m pin x =
      if pin.is_app == 0
      then record m { packet = record (m.packet) { payload = x } }
      else record m { host_msg = record (m.host_msg) { payload = x } }

  -- Header and targets of a message that is to be sent.
  pub address_message :
      PThreadContext A
      → DeviceContext A
      → ℕ
      → OutputPinVTable A
      → Buffer A
      → Option (Buffer A × ℕ × Option (List Address) × ℕ)
  address_message c dev pin_index pin m =
      let source = address c.thread_id dev.index pin_index in
      if pin.is_app == 0
      then (do
        t ← get_elem? dev.targets pin_index
        some (
          record m { packet = record (m.packet) { source = source; size = pin.message_size } },
          t.num_targets,
          some t.targets,
          0,
        ))
      else some (
        record m {
          host_msg = record (m.host_msg) {
            source = source;
            size = pin.message_size;
            type = pin.message_type_numid;
          };
        },
        1,
        none,
        1,
      )

  -- The send handler of the pin runs, with the thread's notes for handler logging.
  pub call_send_handler :
      PThreadContext A
      → ℕ
      → DeviceContext A
      → ℕ
      → OutputPinVTable A
      → Buffer A
      → PThreadContext A × Buffer A × Bool
  call_send_handler c i dev pin_index pin m =
      let (state, payload, do_send) =
        pin.send_handler c.graph_props dev.properties dev.state (payload_of m pin) in
      (
        store
            (record c {
              lamport = (c.lamport + 1) % 2 ^ 32;
              current_device = dev.index;
              current_handler_type = 2;
              current_pin = pin_index;
            })
            i (record dev { state = state }),
        set_payload m pin payload,
        do_send,
      )

  -- The flags of the popped device are cleared, and it is polled anew.
  pub finish_send : PThreadContext A → ℕ → Option (PThreadContext A)
  finish_send c i = do
    dev ← load c i
    softswitch_update_rts (store c i (record dev { rts_flags = 0 })) i

  unfoldable pub prepare : PThreadContext A → ℕ → Buffer A → ℕ → Option (Prepared A)
  prepare c i m is_app = do
    dev ← load c i
    pin_index ← right_most_one dev.rts_flags
    pin ← get_elem? dev.vtable.output_pins pin_index
    let (c, m, do_send) = call_send_handler c i dev pin_index pin m
    (m, num_targets, targets, is_app) ←
        (if do_send then address_message c dev pin_index pin m else some (m, 0, none, is_app))
    c ← finish_send c i
    some (record {
      context = c;
      message = m;
      num_targets = num_targets;
      targets = targets;
      is_app = is_app;
      size = pin.message_size;
    })

  unfoldable pub softswitch_on_send : PThreadContext A → Buffer A → ℕ → Option (Prepared A)
  softswitch_on_send c m is_app = do
    (c, head) ← softswitch_pop_rts c
    elim head [
      | none ↦ some (record {
        context = c;
        message = m;
        num_targets = 0;
        targets = none;
        is_app = is_app;
        size = 0;
      })
      | some i ↦ prepare c i m is_app
    ]
