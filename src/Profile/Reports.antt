-- ===== src/Profile/Reports.antt =====
-- The sections of a profiled thread in the order of its time, and what it reports.
use toy_softswitch.Prelude.{
  ℕ, ◌+◌, ◌-◌, ◌^◌, ◌<◌, ◌≤◌, ◌≡◌, refl, ap, ◌∙◌, Bool, true, false, not, ◌&&◌, List, [], ◌∷◌, ◌++◌,
  arith, ltb, ◌==◌, inl, inr, if◌then◌else◌, Bool-cases,
}
use toy_softswitch.Context.Host.{HostMsg, HostBuffer, Counters}
use toy_softswitch.Host.{
  delta_cycles, host_msg_buffer_size, host_msg_buffer_space, softswitch_flush_perfmon,
}
use toy_softswitch.Host.Queue.{
  IsHostBuffer, contents, host_msg_buffer_size-contents, host_msg_buffer_push-contents,
}
use toy_softswitch.Profile.{
  LoopProfile, count_receive_handler, count_receive, count_send_handler, count_send, count_blocked,
  zero_profile_counters, start_profile, report_cycles, count_idle,
}
use toy_softswitch.Profile.Accounts.{
  tinsel_cycle_count, delta_cycles-reading, IsAccount, Times, readings, InOrder, IdleTimes,
  idle_readings, IdleInOrder, idled, receive-IsAccount, drop-IsAccount, send-IsAccount,
  blocked-IsAccount, idle-IsAccount,
}

-- A thread's counters at a time, and the time from which it counts.
pub record Timed : Type 0 where
  pub since : ℕ
  pub now : ℕ
  pub counters : Counters
  pub loop : LoopProfile

module _ (bytes : HostMsg → List ℕ) (sizeof perfmon_flush_rate : ℕ) (blank : HostMsg)
    (tinsel_id : ℕ) where
  -- Whether the section without idle work ends in a report.
  abbrev pub is_report : LoopProfile → Bool
  is_report p = p.start_perfmon && not (ltb p.perfmon_flush_rate_cnt perfmon_flush_rate)

  -- A section of the loop that counts; between sections handlers may write to the host buffer.
  pub data Section (s : Timed) : Timed → Type 0 where
    receives :
        (t : Times)
        → InOrder s.since s.now t
        → Section s (record s {
          now = t.tend;
          counters = count_receive (readings t) (count_receive_handler (readings t) s.counters);
        })
    drops :
        (t : Times)
        → InOrder s.since s.now t
        → Section s (record s { now = t.tend; counters = count_receive (readings t) s.counters })
    sends :
        (t : Times)
        → InOrder s.since s.now t
        → Section s (record s {
          now = t.tend;
          counters = count_send (readings t) (count_send_handler (readings t) s.counters);
        })
    waits :
        (want : Bool) (from to : ℕ)
        → s.now ≤ from
        → from ≤ to
        → to < s.since + 2 ^ 32
        → Section s (record s {
          now = to;
          counters =
              count_blocked want (tinsel_cycle_count from) (tinsel_cycle_count to) s.counters;
        })
    idles :
        (t : IdleTimes) (b : HostBuffer)
        → IdleInOrder s.since s.now t
        → Section s (record {
          since = if is_report s.loop then t.thread_start else s.since;
          now = t.perfmon_end;
          loop =
              (count_idle bytes sizeof blank tinsel_id perfmon_flush_rate
                (idle_readings t)
                s.loop
                b
                s.counters).0;
          counters =
              (count_idle bytes sizeof blank tinsel_id perfmon_flush_rate
                (idle_readings t)
                s.loop
                b
                s.counters).2;
        })

  -- A thread that has started at time `start`, with its counters at zero, and run some sections.
  pub data Run (start : ℕ) : Timed → Type 0 where
    started : Run start (record {
      since = start;
      now = start;
      counters = (start_profile (tinsel_cycle_count start) zero_profile_counters).0;
      loop = (start_profile (tinsel_cycle_count start) zero_profile_counters).1;
    })
    next : (s s' : Timed) → Run start s → Section s s' → Run start s'

  -- The counters start anew, with the time that the report took.
  report_cycles-IsAccount :
      (t : IdleTimes) (b : HostBuffer) (k : Counters)
      → t.thread_start ≤ t.perfmon_end
      → t.perfmon_end < t.thread_start + 2 ^ 32
      → IsAccount t.thread_start t.perfmon_end
          (report_cycles bytes sizeof blank tinsel_id (idle_readings t) b k).1
  unfolding report_cycles softswitch_flush_perfmon
  report_cycles-IsAccount t b k h l =
      let d = delta_cycles-reading t.thread_start t.perfmon_end h l in
      record {
        start = refl;
        within = omega arith;
        soon = l;
        send_part = omega arith;
        recv_part = omega arith;
      }

  count_idle-IsAccount :
      (s : Timed) (t : IdleTimes) (b : HostBuffer)
      → IsAccount s.since s.now s.counters
      → IdleInOrder s.since s.now t
      → IsAccount
          (if is_report s.loop then t.thread_start else s.since)
          t.perfmon_end
          (count_idle bytes sizeof blank tinsel_id perfmon_flush_rate
            (idle_readings t)
            s.loop
            b
            s.counters).2
  unfolding count_idle report_cycles
  count_idle-IsAccount s t b a o = elim (Bool-cases s.loop.start_perfmon) [
    | inr first ↦ rw first (record {
      start = a.start;
      within = omega arith;
      soon = o.soon;
      send_part = a.send_part;
      recv_part = a.recv_part;
    })
    | inl again ↦ elim (Bool-cases (ltb s.loop.perfmon_flush_rate_cnt perfmon_flush_rate)) [
      | inl early ↦
          rw (again, early)
            (idle-IsAccount s.since s.now t.perfmon_end s.counters t a o (omega arith)
              (omega arith))
      | inr late ↦
          rw (again, late) (report_cycles-IsAccount t b (idled t s.counters) o.ends (omega arith))
    ]
  ]

  Section-IsAccount :
      (s s' : Timed)
      → IsAccount s.since s.now s.counters
      → Section s s'
      → IsAccount s'.since s'.now s'.counters
  Section-IsAccount s _ a (Section.receives t o) = receive-IsAccount s.since s.now s.counters t a o
  Section-IsAccount s _ a (Section.drops t o) = drop-IsAccount s.since s.now s.counters t a o
  Section-IsAccount s _ a (Section.sends t o) = send-IsAccount s.since s.now s.counters t a o
  Section-IsAccount s _ a (Section.waits want from to h l e) =
      blocked-IsAccount s.since s.now s.counters want from to a h l e
  Section-IsAccount s _ a (Section.idles t b o) = count_idle-IsAccount s t b a o

  pub Run-IsAccount : (start : ℕ) (s : Timed) → Run start s → IsAccount s.since s.now s.counters
  Run-IsAccount start _ Run.started = record {
    start = refl;
    within = omega arith;
    soon = omega arith;
    send_part = omega arith;
    recv_part = omega arith;
  }
  Run-IsAccount start _ (Run.next s s' r k) = Section-IsAccount s s' (Run-IsAccount start s r) k

  report_cycles-reports :
      (since : ℕ) (t : IdleTimes) (b : HostBuffer) (k : Counters)
      → IsHostBuffer b
      → host_msg_buffer_size b < 39
      → IsAccount since t.thread_end k
      → (m : HostMsg) × (contents
            (report_cycles bytes sizeof blank tinsel_id (idle_readings t) b k).0
          ≡ contents b ++ m ∷ [])
        × (m.payload 0 ≡ t.thread_end - since)
        × (m.payload 1 + m.payload 2 + m.payload 3 + m.payload 4 + m.payload 5 + m.payload 7
            ≤ m.payload 0)
        × (m.payload 6 ≤ m.payload 5)
        × (m.payload 8 ≤ m.payload 7)
  unfolding report_cycles softswitch_flush_perfmon
  report_cycles-reports since t b k q h a =
      let (n, bound, space, room) = host_msg_buffer_size-contents b q in
      let some_space : host_msg_buffer_space b == 0 ≡ false = ground arith in
      let elapsed = delta_cycles-reading since t.thread_end (omega arith) a.soon in
      let total : delta_cycles k.thread_cycles_tstart (tinsel_cycle_count t.thread_end)
          ≡ t.thread_end - since =
        ap (λ n. delta_cycles n (tinsel_cycle_count t.thread_end)) a.start ∙ elapsed in
      rw some_space
        (_, (host_msg_buffer_push-contents b _ q h).1, total, omega arith, a.send_part, a.recv_part)

  -- In a run of the profiled sections since the last report, in any order, the report that the main
  -- loop makes when its count is due, less than 2^32 cycles after that one, is the message added to
  -- the host buffer. It holds the cycles since the last report; idle, blocked, flushing, sending
  -- and receiving sum to no more than those, and neither handler part exceeds the whole that it is
  -- a part of. The buffer has less than 39 messages.
  pub Run-reports :
      (start : ℕ) (s : Timed) (t : IdleTimes) (b : HostBuffer)
      → Run start s
      → IdleInOrder s.since s.now t
      → is_report s.loop ≡ true
      → IsHostBuffer b
      → host_msg_buffer_size b < 39
      → (m : HostMsg) × (contents
            (count_idle bytes sizeof blank tinsel_id perfmon_flush_rate
              (idle_readings t)
              s.loop
              b
              s.counters).1
          ≡ contents b ++ m ∷ [])
        × (m.payload 0 ≡ t.thread_end - s.since)
        × (m.payload 1 + m.payload 2 + m.payload 3 + m.payload 4 + m.payload 5 + m.payload 7
            ≤ m.payload 0)
        × (m.payload 6 ≤ m.payload 5)
        × (m.payload 8 ≤ m.payload 7)
  unfolding count_idle
  Run-reports start s t b r o late q h =
      let a = Run-IsAccount start s r in
      let again : s.loop.start_perfmon ≡ true = ground arith in
      let due : ltb s.loop.perfmon_flush_rate_cnt perfmon_flush_rate ≡ false = ground arith in
      rw (again, due)
        (report_cycles-reports s.since t b (idled t s.counters) q h
          (idle-IsAccount s.since s.now t.thread_end s.counters t a o (omega arith) (omega arith)))
