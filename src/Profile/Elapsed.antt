-- ===== src/Profile/Elapsed.antt =====
-- The counters of the profiled handlers as a 32-bit clock that wraps round.
use toy_softswitch.Prelude.{
  ℕ, ◌+◌, ◌-◌, ◌^◌, ◌<◌, arith, true, false, ◌%◌, ◌≡◌, Bool, List, [], ◌∷◌, if◌then◌else◌,
}
use toy_softswitch.Context.Host.{Counters}
use toy_softswitch.Host.{delta_cycles}
use toy_softswitch.Profile.{
  add_cycles, Readings, count_receive_handler, count_receive, count_send_handler, count_send,
}

-- A 32-bit counter after the time from one 32-bit reading to another, round the wrap-around.
abbrev pub with_elapsed : ℕ → ℕ → ℕ → ℕ
with_elapsed counter from till = (counter + (till + 2 ^ 32 - from) % 2 ^ 32) % 2 ^ 32

-- The readings are 32 bits wide.
pub record IsReadings (t : Readings) : Type 0 where
  pub tstart : t.tstart < 2 ^ 32
  pub hstart : t.hstart < 2 ^ 32
  pub hend : t.hend < 2 ^ 32
  pub tend : t.tend < 2 ^ 32

-- The counters after a send: with an empty list nothing is counted.
abbrev pub sent_cycles : Readings → List ℕ → Counters → Counters
sent_cycles t [] k = k
sent_cycles t (y ∷ ys) k = record k {
  send_cycles = with_elapsed k.send_cycles t.tstart t.tend;
  send_handler_cycles = with_elapsed k.send_handler_cycles t.hstart t.hend;
}

-- The counters after a packet: a device of another program runs no handler.
abbrev pub received_cycles : Readings → Bool → Counters → Counters
received_cycles t own k = record k {
  recv_cycles = with_elapsed k.recv_cycles t.tstart t.tend;
  recv_handler_cycles =
      if own then with_elapsed k.recv_handler_cycles t.hstart t.hend else k.recv_handler_cycles;
}

add_cycles-with_elapsed :
    (counter from till : ℕ)
    → from < 2 ^ 32
    → till < 2 ^ 32
    → add_cycles counter from till ≡ with_elapsed counter from till
unfolding delta_cycles
add_cycles-with_elapsed counter from till h k = ground arith

pub count_receive-own :
    (t : Readings) (k : Counters)
    → IsReadings t
    → count_receive t (count_receive_handler t k) ≡ received_cycles t true k
count_receive-own t k q = λ i. record k {
  recv_cycles = add_cycles-with_elapsed k.recv_cycles t.tstart t.tend q.tstart q.tend i;
  recv_handler_cycles =
      add_cycles-with_elapsed k.recv_handler_cycles t.hstart t.hend q.hstart q.hend i;
}

pub count_receive-other :
    (t : Readings) (k : Counters) → IsReadings t → count_receive t k ≡ received_cycles t false k
count_receive-other t k q = λ i. record k {
  recv_cycles = add_cycles-with_elapsed k.recv_cycles t.tstart t.tend q.tstart q.tend i;
}

pub count_send-sent :
    (t : Readings) (y : ℕ) (ys : List ℕ) (k : Counters)
    → IsReadings t
    → count_send t (count_send_handler t k) ≡ sent_cycles t (y ∷ ys) k
count_send-sent t y ys k q = λ i. record k {
  send_cycles = add_cycles-with_elapsed k.send_cycles t.tstart t.tend q.tstart q.tend i;
  send_handler_cycles =
      add_cycles-with_elapsed k.send_handler_cycles t.hstart t.hend q.hstart q.hend i;
}
