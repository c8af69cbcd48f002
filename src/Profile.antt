-- ===== src/Profile.antt =====
-- The build with SOFTSWITCH_ENABLE_PROFILE: the sections of src/softswitch/softswitch_on_receive.cpp,
-- softswitch_on_send.cpp, softswitch_init.cpp and softswitch_main.cpp that count cycles.
--
-- Each reading of the 32-bit cycle counter is an argument.
pub mod Elapsed
pub mod Same
pub mod Export
pub mod Accounts
pub mod Reports
pub mod Tests
use toy_softswitch.Prelude.{
  ℕ, ◌%◌, ◌^◌, Bool, true, false, Option, none, some, List, [], ltb, ◌==◌, if◌then◌else◌, ◌>>=◌,
  get_elem?, add32,
}
use toy_softswitch.Context.{App, Address, PThreadContext, load}
use toy_softswitch.Context.Host.{HostMsg, HostBuffer, Counters}
use toy_softswitch.Rts.{softswitch_update_rts, softswitch_pop_rts}
use toy_softswitch.Rts.Perf.{with_perf}
use toy_softswitch.Host.{
  host_msg_buffer_space, host_message_slow_pop_send, softswitch_flush_perfmon, delta_cycles,
}
use toy_softswitch.Init.{softswitch_init}
use toy_softswitch.Send.{
  Packet, Buffer, Prepared, right_most_one, address_message, call_send_handler, finish_send,
}
use toy_softswitch.Receive.{find_edge, call_receive_handler}

-- `counter += deltaCycles(tstart, tend)`.
abbrev pub add_cycles : ℕ → ℕ → ℕ → ℕ
add_cycles counter tstart tend = add32 counter (delta_cycles tstart tend)

-- The readings in a handler: at its start, around the application's handler, and at its end.
pub record Readings : Type 0 where
  pub tstart : ℕ
  pub hstart : ℕ
  pub hend : ℕ
  pub tend : ℕ

abbrev pub count_receive_handler : Readings → Counters → Counters
count_receive_handler t k = record k {
  recv_handler_cycles = add_cycles k.recv_handler_cycles t.hstart t.hend;
}

abbrev pub count_receive : Readings → Counters → Counters
count_receive t k = record k { recv_cycles = add_cycles k.recv_cycles t.tstart t.tend }

abbrev pub count_send_handler : Readings → Counters → Counters
count_send_handler t k = record k {
  send_handler_cycles = add_cycles k.send_handler_cycles t.hstart t.hend;
}

abbrev pub count_send : Readings → Counters → Counters
count_send t k = record k { send_cycles = add_cycles k.send_cycles t.tstart t.tend }

-- `zeroProfileCounters`.
abbrev pub zero_profile_counters : Counters
zero_profile_counters = record {
  thread_cycles_tstart = 0;
  thread_cycles = 0;
  send_blocked_cycles = 0;
  recv_blocked_cycles = 0;
  idle_cycles = 0;
  perfmon_cycles = 0;
  send_cycles = 0;
  send_handler_cycles = 0;
  recv_cycles = 0;
  recv_handler_cycles = 0;
}

module _ {A : App} where
  pub softswitch_on_receive_profiled :
      Readings → PThreadContext A → Packet A → Option (PThreadContext A)
  softswitch_on_receive_profiled t c m = do
    dev ← load c m.dest.device
    c ←
        (if dev.is_external % 256 == 0
          then (do
            pin ← get_elem? dev.vtable.input_pins m.dest.pin
            edge ← find_edge dev m.dest.pin pin m.source
            let c = call_receive_handler c dev pin edge m
            softswitch_update_rts (with_perf (count_receive_handler t c.perf) c) m.dest.device)
          else some c)
    some (with_perf (count_receive t c.perf) c)

  prepare_profiled : Readings → PThreadContext A → ℕ → Buffer A → ℕ → Option (Prepared A)
  prepare_profiled t c i m is_app = do
    dev ← load c i
    pin_index ← right_most_one dev.rts_flags
    pin ← get_elem? dev.vtable.output_pins pin_index
    let (c, m, do_send) = call_send_handler c i dev pin_index pin m
    let c = with_perf (count_send_handler t c.perf) c
    (m, num_targets, targets, is_app) ←
        (if do_send then address_message c dev pin_index pin m else some (m, 0, none, is_app))
    c ← finish_send c i
    some (record {
      context = with_perf (count_send t c.perf) c;
      message = m;
      num_targets = num_targets;
      targets = targets;
      is_app = is_app;
      size = pin.message_size;
    })

  -- With an empty list the function returns before it counts.
  pub softswitch_on_send_profiled : Readings → PThreadContext A → Buffer A → ℕ → Option (Prepared A)
  unfolding prepare_profiled
  softswitch_on_send_profiled t c m is_app = do
    (c, head) ← softswitch_pop_rts c
    elim head [
      | none ↦ some (record {
        context = c;
        message = m;
        num_targets = 0;
        targets = none;
        is_app = is_app;
        size = 0;
      })
      | some i ↦ prepare_profiled t c i m is_app
    ]

  pub softswitch_init_profiled : PThreadContext A → Option (PThreadContext A)
  softswitch_init_profiled c = softswitch_init (with_perf zero_profile_counters c)

-- The loop's own variables; the rate of the reports is SOFTSWITCH_ENABLE_PROFILE.
pub record LoopProfile : Type 0 where
  pub start_perfmon : Bool
  pub perfmon_flush_rate_cnt : ℕ

-- Before the loop.
abbrev pub start_profile : ℕ → Counters → Counters × LoopProfile
start_profile reading k = (
  record k { thread_cycles_tstart = reading },
  record { start_perfmon = false; perfmon_flush_rate_cnt = 1 },
)

-- The readings where there is no idle work left, in order.
pub record IdleReadings : Type 0 where
  pub idle_start : ℕ
  pub idle_end : ℕ
  pub thread_end : ℕ
  pub thread_start : ℕ
  pub perfmon_end : ℕ

-- The time that the wait took counts as blocked.
abbrev pub count_blocked : Bool → ℕ → ℕ → Counters → Counters
count_blocked want blocked_start now k =
    if want
    then record k { send_blocked_cycles = add_cycles k.send_blocked_cycles blocked_start now }
    else record k { recv_blocked_cycles = add_cycles k.recv_blocked_cycles blocked_start now }

module _ (bytes : HostMsg → List ℕ) (sizeof : ℕ) (blank : HostMsg) (tinsel_id : ℕ) where
  -- The counters go to the host buffer; the bytes are what goes over the UART.
  pub report_cycles : IdleReadings → HostBuffer → Counters → HostBuffer × Counters × List ℕ
  report_cycles t b k =
      let k = record k {
        thread_cycles = delta_cycles k.thread_cycles_tstart t.thread_end;
        thread_cycles_tstart = t.thread_start;
      } in
      let (b, sent) =
        (if host_msg_buffer_space b == 0
          then host_message_slow_pop_send bytes sizeof b
          else (b, [])) in
      let (b, k) = softswitch_flush_perfmon blank tinsel_id b k in
      (b, record k { perfmon_cycles = delta_cycles t.thread_start t.perfmon_end }, sent)

  -- Under `if(!softswitch_onIdle(ctxt))`.
  pub count_idle :
      ℕ
      → IdleReadings
      → LoopProfile
      → HostBuffer
      → Counters
      → LoopProfile × HostBuffer × Counters × List ℕ
  count_idle perfmon_flush_rate t p b k =
      if p.start_perfmon
      then (let k = record k { idle_cycles = add_cycles k.idle_cycles t.idle_start t.idle_end } in
          if ltb p.perfmon_flush_rate_cnt perfmon_flush_rate
          then (
            record {
              start_perfmon = true;
              perfmon_flush_rate_cnt = add32 p.perfmon_flush_rate_cnt 1;
            },
            b,
            k,
            [],
          )
          else (let (b, k, sent) = report_cycles t b k in
              (record { start_perfmon = true; perfmon_flush_rate_cnt = 1 }, b, k, sent)))
      else (record p { start_perfmon = true }, b, k, [])
