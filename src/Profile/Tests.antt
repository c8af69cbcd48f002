-- ===== src/Profile/Tests.antt =====
-- A profiled thread of the ring, and its first report.
use mathlib.Core.Option
use toy_softswitch.Prelude.{◌+◌, ◌≤◌, ◌≡◌, refl, ℕ, true, false, List, [], ◌∷◌, arith}
use toy_softswitch.Context.Host.{HostMsg}
use toy_softswitch.Rts.Perf.{with_perf}
use toy_softswitch.Send.{softswitch_on_send}
use toy_softswitch.Receive.{softswitch_on_receive}
use toy_softswitch.Host.{delta_cycles, host_msg_buffer_size}
use toy_softswitch.Host.Queue.{contents}
use toy_softswitch.Profile.{
  Readings, softswitch_on_receive_profiled, softswitch_on_send_profiled, zero_profile_counters,
  count_idle,
}
use toy_softswitch.Profile.Elapsed.{IsReadings, received_cycles, sent_cycles}
use toy_softswitch.Profile.Same.{
  with_counters, softswitch_on_receive_profiled-same, softswitch_on_send_profiled-same,
}
use toy_softswitch.Profile.Accounts.{Times, IdleTimes, idle_readings}
use toy_softswitch.Profile.Reports.{Timed, Section, Run, Run-reports}
use toy_softswitch.Applications.{empty_host_buffer, blank_host_msg}
use toy_softswitch.Examples.{busy, busy-Tracks, quiet, empty_buffer}

abbrev some_readings : Readings
some_readings = record { tstart = 4294967290; hstart = 4294967294; hend = 3; tend = 9 }

some_readings-IsReadings : IsReadings some_readings
some_readings-IsReadings = record {
  tstart = omega arith;
  hstart = omega arith;
  hend = omega arith;
  tend = omega arith;
}

softswitch_on_receive_profiled-same_example :
    softswitch_on_receive_profiled some_readings quiet empty_buffer.packet
    ≡ Option.map
        (with_perf (received_cycles some_readings true quiet.perf))
        (softswitch_on_receive quiet empty_buffer.packet)
softswitch_on_receive_profiled-same_example =
    softswitch_on_receive_profiled-same some_readings quiet empty_buffer.packet
      some_readings-IsReadings

softswitch_on_send_profiled-same_example :
    softswitch_on_send_profiled some_readings busy empty_buffer 0
    ≡ Option.map
        (with_counters (sent_cycles some_readings (0 ∷ []) busy.perf))
        (softswitch_on_send busy empty_buffer 0)
softswitch_on_send_profiled-same_example =
    softswitch_on_send_profiled-same some_readings busy empty_buffer 0 (0 ∷ [])
      some_readings-IsReadings busy-Tracks

abbrev bytes_of : HostMsg → List ℕ
bytes_of m = m.thread ∷ m.type ∷ []

-- The loop's first idle work, a packet, and idle work again, with a report at every time.
abbrev first_idle : IdleTimes
first_idle = record {
  idle_start = 4294967000;
  idle_end = 4294967010;
  thread_end = 4294967010;
  thread_start = 4294967010;
  perfmon_end = 4294967010;
}

abbrev one_packet : Times
one_packet = record {
  tstart = 4294967280;
  hstart = 4294967290;
  hend = 4294967300;
  tend = 4294967320;
}

abbrev second_idle : IdleTimes
second_idle = record {
  idle_start = 4294967400;
  idle_end = 4294967450;
  thread_end = 4294967460;
  thread_start = 4294967461;
  perfmon_end = 4294967500;
}

abbrev began : Timed
began = record {
  since = 4294966000;
  now = 4294966000;
  counters = record zero_profile_counters { thread_cycles_tstart = 4294966000 };
  loop = record { start_perfmon = false; perfmon_flush_rate_cnt = 1 };
}

abbrev idled_once : Timed
idled_once = record began {
  now = 4294967010;
  loop = record { start_perfmon = true; perfmon_flush_rate_cnt = 1 };
}

idled_once-Run : Run bytes_of 2 1 blank_host_msg 7 4294966000 idled_once
unfolding count_idle
idled_once-Run = Run.next began idled_once Run.started (
    Section.idles first_idle empty_host_buffer (record {
      begins = omega arith;
      idles = omega arith;
      stops = omega arith;
      starts = omega arith;
      ends = omega arith;
      soon = omega arith;
    }))

abbrev received_once : Timed
received_once = record idled_once {
  now = 4294967320;
  counters = record (idled_once.counters) { recv_handler_cycles = 10; recv_cycles = 40 };
}

received_once-Run : Run bytes_of 2 1 blank_host_msg 7 4294966000 received_once
unfolding delta_cycles
received_once-Run = Run.next idled_once received_once idled_once-Run (
    Section.receives one_packet (record {
      begins = omega arith;
      enters = omega arith;
      leaves = omega arith;
      ends = omega arith;
      soon = omega arith;
    }))

Run-reports_example :
    (m : HostMsg) × (contents
        (count_idle bytes_of 2 blank_host_msg 7 1
          (idle_readings second_idle)
          received_once.loop
          empty_host_buffer
          received_once.counters).1
      ≡ m ∷ [])
    × (m.payload 0 ≡ 1460)
    × (m.payload 1 + m.payload 2 + m.payload 3 + m.payload 4 + m.payload 5 + m.payload 7
        ≤ m.payload 0)
    × (m.payload 6 ≤ m.payload 5)
    × (m.payload 8 ≤ m.payload 7)
unfolding host_msg_buffer_size
Run-reports_example =
    Run-reports bytes_of 2 1 blank_host_msg 7 4294966000 received_once second_idle empty_host_buffer
      received_once-Run
      (record {
        begins = omega arith;
        idles = omega arith;
        stops = omega arith;
        starts = omega arith;
        ends = omega arith;
        soon = omega arith;
      })
      refl (record { head = omega arith; tail = omega arith }) (omega arith)
