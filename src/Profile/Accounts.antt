-- ===== src/Profile/Accounts.antt =====
-- Every cycle is counted once: the counters of a thread never exceed the time since its last report.
use toy_softswitch.Prelude.{ℕ, ◌+◌, ◌-◌, ◌%◌, ◌^◌, ◌<◌, ◌≤◌, ◌≡◌, Bool, true, false, arith}
use toy_softswitch.Context.Host.{Counters}
use toy_softswitch.Host.{delta_cycles}
use toy_softswitch.Host.Reports.{delta_cycles-add32}
use toy_softswitch.Profile.{
  add_cycles, Readings, IdleReadings, count_receive_handler, count_receive, count_send_handler,
  count_send, count_blocked,
}

-- `tinsel_CycleCount` at a time in cycles.
abbrev pub tinsel_cycle_count : ℕ → ℕ
tinsel_cycle_count t = t % 2 ^ 32

pub delta_cycles-reading :
    (a b : ℕ)
    → a ≤ b
    → b < a + 2 ^ 32
    → delta_cycles (tinsel_cycle_count a) (tinsel_cycle_count b) ≡ b - a
delta_cycles-reading a b h k =
    delta_cycles-add32 (tinsel_cycle_count a) (tinsel_cycle_count b) (b - a) (omega arith)
      (omega arith) (omega arith)

-- A count that stays below 2^32 grows by the time between the readings.
add_cycles-reading :
    (n a b : ℕ)
    → a ≤ b
    → n + (b - a) < 2 ^ 32
    → add_cycles n (tinsel_cycle_count a) (tinsel_cycle_count b) ≡ n + (b - a)
add_cycles-reading n a b h k =
    let d = delta_cycles-reading a b h (omega arith) in rw d (omega arith)

-- What a thread has spent its time on, apart from the parts of a part.
abbrev pub spent : Counters → ℕ
spent k =
    k.idle_cycles + k.send_blocked_cycles + k.recv_blocked_cycles + k.perfmon_cycles + k.send_cycles
    + k.recv_cycles

-- The counters at time `now`, where counting began at `since`.
pub record IsAccount (since now : ℕ) (k : Counters) : Type 0 where
  pub start : k.thread_cycles_tstart ≡ tinsel_cycle_count since
  pub within : since + spent k ≤ now
  pub soon : now < since + 2 ^ 32
  pub send_part : k.send_handler_cycles ≤ k.send_cycles
  pub recv_part : k.recv_handler_cycles ≤ k.recv_cycles

-- The times of a handler, as its readings.
pub record Times : Type 0 where
  pub tstart : ℕ
  pub hstart : ℕ
  pub hend : ℕ
  pub tend : ℕ

abbrev pub readings : Times → Readings
readings t = record {
  tstart = tinsel_cycle_count t.tstart;
  hstart = tinsel_cycle_count t.hstart;
  hend = tinsel_cycle_count t.hend;
  tend = tinsel_cycle_count t.tend;
}

pub record InOrder (since now : ℕ) (t : Times) : Type 0 where
  pub begins : now ≤ t.tstart
  pub enters : t.tstart ≤ t.hstart
  pub leaves : t.hstart ≤ t.hend
  pub ends : t.hend ≤ t.tend
  pub soon : t.tend < since + 2 ^ 32

pub receive-IsAccount :
    (since now : ℕ) (k : Counters) (t : Times)
    → IsAccount since now k
    → InOrder since now t
    → IsAccount since t.tend (count_receive (readings t) (count_receive_handler (readings t) k))
receive-IsAccount since now k t a o =
    let h = add_cycles-reading k.recv_handler_cycles t.hstart t.hend o.leaves (omega arith) in
    let w = add_cycles-reading k.recv_cycles t.tstart t.tend (omega arith) (omega arith) in
    record {
      start = a.start;
      within = omega arith;
      soon = o.soon;
      send_part = a.send_part;
      recv_part = omega arith;
    }

pub drop-IsAccount :
    (since now : ℕ) (k : Counters) (t : Times)
    → IsAccount since now k
    → InOrder since now t
    → IsAccount since t.tend (count_receive (readings t) k)
drop-IsAccount since now k t a o =
    let w = add_cycles-reading k.recv_cycles t.tstart t.tend (omega arith) (omega arith) in
    record {
      start = a.start;
      within = omega arith;
      soon = o.soon;
      send_part = a.send_part;
      recv_part = omega arith;
    }

pub send-IsAccount :
    (since now : ℕ) (k : Counters) (t : Times)
    → IsAccount since now k
    → InOrder since now t
    → IsAccount since t.tend (count_send (readings t) (count_send_handler (readings t) k))
send-IsAccount since now k t a o =
    let h = add_cycles-reading k.send_handler_cycles t.hstart t.hend o.leaves (omega arith) in
    let w = add_cycles-reading k.send_cycles t.tstart t.tend (omega arith) (omega arith) in
    record {
      start = a.start;
      within = omega arith;
      soon = o.soon;
      send_part = omega arith;
      recv_part = a.recv_part;
    }

pub blocked-IsAccount :
    (since now : ℕ) (k : Counters) (want : Bool) (from to : ℕ)
    → IsAccount since now k
    → now ≤ from
    → from ≤ to
    → to < since + 2 ^ 32
    → IsAccount since to (count_blocked want (tinsel_cycle_count from) (tinsel_cycle_count to) k)
blocked-IsAccount since now k true from to a h l s =
    let w = add_cycles-reading k.send_blocked_cycles from to l (omega arith) in
    record {
      start = a.start;
      within = omega arith;
      soon = s;
      send_part = a.send_part;
      recv_part = a.recv_part;
    }
blocked-IsAccount since now k false from to a h l s =
    let w = add_cycles-reading k.recv_blocked_cycles from to l (omega arith) in
    record {
      start = a.start;
      within = omega arith;
      soon = s;
      send_part = a.send_part;
      recv_part = a.recv_part;
    }

-- The times where there is no idle work left.
pub record IdleTimes : Type 0 where
  pub idle_start : ℕ
  pub idle_end : ℕ
  pub thread_end : ℕ
  pub thread_start : ℕ
  pub perfmon_end : ℕ

abbrev pub idle_readings : IdleTimes → IdleReadings
idle_readings t = record {
  idle_start = tinsel_cycle_count t.idle_start;
  idle_end = tinsel_cycle_count t.idle_end;
  thread_end = tinsel_cycle_count t.thread_end;
  thread_start = tinsel_cycle_count t.thread_start;
  perfmon_end = tinsel_cycle_count t.perfmon_end;
}

pub record IdleInOrder (since now : ℕ) (t : IdleTimes) : Type 0 where
  pub begins : now ≤ t.idle_start
  pub idles : t.idle_start ≤ t.idle_end
  pub stops : t.idle_end ≤ t.thread_end
  pub starts : t.thread_end ≤ t.thread_start
  pub ends : t.thread_start ≤ t.perfmon_end
  pub soon : t.perfmon_end < since + 2 ^ 32

-- The counters after idle work.
abbrev pub idled : IdleTimes → Counters → Counters
idled t k = record k {
  idle_cycles =
      add_cycles k.idle_cycles (tinsel_cycle_count t.idle_start) (tinsel_cycle_count t.idle_end);
}

pub idle-IsAccount :
    (since now later : ℕ) (k : Counters) (t : IdleTimes)
    → IsAccount since now k
    → IdleInOrder since now t
    → t.idle_end ≤ later
    → later ≤ t.perfmon_end
    → IsAccount since later (idled t k)
idle-IsAccount since now later k t a o h l =
    let w = add_cycles-reading k.idle_cycles t.idle_start t.idle_end o.idles (omega arith) in
    record {
      start = a.start;
      within = omega arith;
      soon = omega arith;
      send_part = a.send_part;
      recv_part = a.recv_part;
    }
