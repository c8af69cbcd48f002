-- ===== src/Main.antt =====
-- src/softswitch/softswitch_main.cpp: one round of the thread's loop, without profiling.
--
-- What the mailbox hardware answers during the round is an argument, and so is the packet that
-- waits in it. What the round sends is a list of outputs, in order.
pub mod Room
pub mod Forward
pub mod Branches
pub mod Sound
pub mod Thread
pub mod HardwareIdle
pub mod Inside
pub mod Message
pub mod Invariant
pub mod Start
pub mod Run
pub mod Idling
pub mod Wires
pub mod Tests
use toy_softswitch.Prelude.{
  ℕ, zero, suc, ◌+◌, ◌-◌, ◌%◌, ◌^◌, Bool, true, false, not, ◌&&◌, ◌||◌, Option, none, some, List,
  [], ◌∷◌, ◌++◌, ltb, leb, ◌==◌, if◌then◌else◌, ◌>>=◌,
}
use toy_softswitch.Context.{App, Address, PThreadContext}
use toy_softswitch.Context.Host.{HostMsg, HostBuffer}
use toy_softswitch.Rts.{softswitch_is_rts_ready}
use toy_softswitch.Init.{softswitch_init}
use toy_softswitch.Send.{Packet, HostPacket, Buffer, Prepared, softswitch_on_send}
use toy_softswitch.Receive.{softswitch_on_receive}
use toy_softswitch.Idle.{softswitch_on_idle, softswitch_on_hardware_idle}
use toy_softswitch.Host.{
  hostbuffer_size, max_host_per_handler, host_msg_buffer_size, host_msg_buffer_space,
  host_message_buffer_pop_send, host_message_slow_pop_send,
}

-- The build's switches, this thread's number, and how a hostMsg is laid out.
pub record Config : Type 0 where
  pub enable_intra_thread_send : Bool
  pub enable_send_over_recv : Bool
  pub enable_hardware_idle : Bool
  pub this_thread_id : ℕ
  pub bytes : HostMsg → List ℕ
  pub sizeof_host_msg : ℕ

-- The mailbox before and after the wait: whether it can receive and send, the verdict of
-- `tinsel_mboxIdle`, and the packet that a receive gets.
pub record Hardware (A : App) : Type 0 where
  pub can_recv : Bool
  pub can_send : Bool
  pub idle : Bool
  pub woken_can_recv : Bool
  pub woken_can_send : Bool
  pub incoming : Packet A

-- The locals of `softswitch_main`.
pub record Locals (A : App) : Type 0 where
  pub ctxt : PThreadContext A
  pub send_buffer : Buffer A
  pub curr_send_address_list : Option (List Address)
  pub curr_send_todo : ℕ
  pub curr_size : ℕ
  pub is_app : ℕ

abbrev pub adequate : HostBuffer → Bool
adequate b = leb max_host_per_handler (host_msg_buffer_space b)

abbrev pub host_empty : HostBuffer → Bool
host_empty b = host_msg_buffer_size b == 0

pub data Output (A : App) : Type 0 where
  to_thread : ℕ → Packet A → ℕ → Output A
  app_to_host : HostPacket A → ℕ → Output A
  buffered_to_host : HostMsg → Output A
  over_uart : List ℕ → Output A

module _ {A : App} where
  abbrev pub with_host : PThreadContext A → HostBuffer → PThreadContext A
  with_host c b = record c { host = b }

  -- `while(!adequateHostBufferSpace)` on fuel.
  make_room_loop : ℕ → Config → HostBuffer → Option (HostBuffer × List (Output A))
  make_room_loop zero cfg b = none
  make_room_loop (suc fuel) cfg b =
      let popped = host_message_slow_pop_send cfg.bytes cfg.sizeof_host_msg b in
      let rest = (do
        (b', out) ← make_room_loop fuel cfg popped.0
        some (b', Output.over_uart popped.1 ∷ out)) in
      if adequate b then some (b, []) else rest

  pub make_room : Config → HostBuffer → Option (HostBuffer × List (Output A))
  unfolding make_room_loop
  make_room cfg b = make_room_loop (hostbuffer_size + 1) cfg b

  -- Before the loop: the host buffer is empty, the devices are initialised, no message is in progress.
  -- A thread without devices only waits, so there is no loop.
  pub softswitch_main_start : PThreadContext A → Buffer A → Option (Locals A)
  softswitch_main_start c slot = if c.num_devices == 0 then none else do
    c ← softswitch_init (with_host c (record (c.host) { hbuf_head = 0; hbuf_tail = 0 }))
    some (record {
      ctxt = c;
      send_buffer = slot;
      curr_send_address_list = none;
      curr_send_todo = 0;
      curr_size = 0;
      is_app = 0;
    })

  pub want_to_send : Locals A → Bool
  want_to_send l =
      ltb 0 l.curr_send_todo || (softswitch_is_rts_ready l.ctxt || not (host_empty l.ctxt.host))

  abbrev pub packet_to : Locals A → Address → Packet A
  packet_to l a = record (l.send_buffer.packet) { dest = a }

  abbrev pub with_dest : Locals A → Address → Buffer A
  with_dest l a = record (l.send_buffer) { packet = packet_to l a }

  -- The message goes to the address at the head of the list, and the list moves on.
  pub send_to :
      Config → Bool → Locals A → Option (List Address) → Option (Locals A × List (Output A))
  send_to cfg room l none = none
  send_to cfg room l (some []) = none
  send_to cfg room l (some (a ∷ rest)) =
      let next : Locals A = record l {
        send_buffer = with_dest l a;
        curr_send_address_list = some rest;
        curr_send_todo = l.curr_send_todo - 1;
      } in
      if cfg.enable_intra_thread_send && ((a.thread == cfg.this_thread_id) && room)
      then (do
        c ← softswitch_on_receive l.ctxt (packet_to l a)
        some (record next { ctxt = c }, []))
      else some (next, Output.to_thread a.thread (packet_to l a) l.curr_size ∷ [])

  -- An application message has no address; a build with sends inside the thread reads one anyway.
  pub send_app : Config → Locals A → Option (Locals A × List (Output A))
  send_app cfg l =
      if cfg.enable_intra_thread_send
      then none
      else some (record l { curr_send_todo = 0 }, Output.app_to_host l.send_buffer.host_msg 64 ∷ [])

  pub forward_message : Config → Bool → Locals A → Option (Locals A × List (Output A))
  unfolding send_to send_app
  forward_message cfg room l =
      if ltb 0 l.curr_send_todo
      then if l.is_app == 0 then send_to cfg room l l.curr_send_address_list else send_app cfg l
      else some (l, [])

  pub prepare_message : Locals A → Option (Locals A)
  prepare_message l = do
    p ← softswitch_on_send l.ctxt l.send_buffer l.is_app
    some (record {
      ctxt = record (p.context) { current_size = p.size };
      send_buffer = p.message;
      curr_send_address_list = p.targets;
      curr_send_todo = p.num_targets;
      curr_size = p.size;
      is_app = p.is_app;
    })

  -- The branch under `if(doSend)`; whether the host buffer was empty was read at the top.
  pub send_branch : Config → Bool → Bool → Locals A → Option (Locals A × List (Output A))
  send_branch cfg room was_empty l =
      if not was_empty
      then (let (b, msg) = host_message_buffer_pop_send l.ctxt.host in
          some (record l { ctxt = with_host l.ctxt b }, Output.buffered_to_host msg ∷ []))
      else do
        l ← (if l.curr_send_todo == 0 then prepare_message l else some l)
        forward_message cfg room l

  pub receive_branch : Hardware A → Locals A → Option (Locals A × List (Output A))
  receive_branch hw l = do
    c ← softswitch_on_receive l.ctxt hw.incoming
    some (record l { ctxt = c }, [])

  -- After the wait: room for what handlers may write, then one receive or one send.
  pub after_wait :
      Config → Hardware A → Bool → Bool → Locals A → Option (Locals A × List (Output A))
  after_wait cfg hw want was_empty l = do
    (b, drained) ← make_room cfg l.ctxt.host
    let l = record l { ctxt = with_host l.ctxt b }
    let do_recv =
        (if cfg.enable_send_over_recv
          then not (hw.woken_can_send && want)
          else hw.woken_can_recv && adequate b)
    (l, out) ← (if do_recv then receive_branch hw l else send_branch cfg (adequate b) was_empty l)
    some (l, drained ++ out)

  pub wait : Config → Hardware A → Bool → Bool → Locals A → Option (Locals A × List (Output A))
  wait cfg hw want was_empty l =
      if cfg.enable_hardware_idle && (not want && hw.idle)
      then (do c ← softswitch_on_hardware_idle l.ctxt; some (record l { ctxt = c }, []))
      else after_wait cfg hw want was_empty l

  -- One round of `while(1)`; what is wanted and whether the host buffer is empty is read at the top.
  pub main_round : Config → Hardware A → Locals A → Option (Locals A × List (Output A))
  main_round cfg hw l =
      let want = want_to_send l in
      let was_empty = host_empty l.ctxt.host in
      if not hw.can_recv && (not want || not hw.can_send)
      then (do
        (c, more) ← softswitch_on_idle l.ctxt
        if more
            then some (record l { ctxt = c }, [])
            else wait cfg hw want was_empty (record l { ctxt = c }))
      else wait cfg hw want was_empty l
