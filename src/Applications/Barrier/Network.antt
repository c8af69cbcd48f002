-- ===== src/Applications/Barrier/Network.antt =====
-- A barrier at run time: its devices and the messages on their way, sent and delivered in any order.
--
-- The devices are numbered through, over all threads. A message on its way is one that a send handler
-- made and no receive handler has had; of a message only its destination and its content count.
use toy_softswitch.Prelude.{ℕ, suc, ◌+◌, ◌-◌, ◌<◌, ◌≡◌, ◌==◌, if◌then◌else◌, update}
use toy_softswitch.Applications.Barrier.{
  GraphProps, DevState, HaltState, TickMsg, output_flag_dev_out, output_flag_halt_out,
  dev_ready_to_send_handler, dev_in_receive_handler, dev_out_send_handler, dev_halt_send_handler,
  halt_in_receive_handler, start_state,
}

-- `ticks j t` is the number of ticks of time `t` on their way to device `j`.
pub record System : Type 0 where
  pub devs : ℕ → DevState
  pub halt : HaltState
  pub ticks : ℕ → ℕ → ℕ
  pub dones : ℕ

abbrev pub post : (ℕ → ℕ → ℕ) → TickMsg → ℕ → ℕ → ℕ
post ticks msg j t = ticks j t + (if t == msg.t then 1 else 0)

abbrev pub take_off : (ℕ → ℕ → ℕ) → ℕ → TickMsg → ℕ → ℕ → ℕ
take_off ticks i msg j t = if i == j then ticks j t - (if t == msg.t then 1 else 0) else ticks j t

-- The send handler of device `i`: its tick goes to every device.
abbrev pub send_tick : System → ℕ → System
send_tick s i = record s {
  devs = update s.devs i (dev_out_send_handler (s.devs i)).0;
  ticks = post s.ticks (dev_out_send_handler (s.devs i)).1;
}

abbrev pub receive_tick : System → ℕ → TickMsg → System
receive_tick s j msg = record s {
  devs = update s.devs j (dev_in_receive_handler (s.devs j) msg);
  ticks = take_off s.ticks j msg;
}

-- The other send handler of device `i`: its done message goes to the halt device.
abbrev pub send_done : System → ℕ → System
send_done s i = record s {
  devs = update s.devs i (dev_halt_send_handler (s.devs i));
  dones = s.dones + 1;
}

abbrev pub receive_done : System → System
receive_done s = record s { halt = halt_in_receive_handler s.halt; dones = s.dones - 1 }

module _ (g : GraphProps) where
  -- The instances start with devices at time 0 that have seen a full step.
  abbrev pub start : System
  start = record {
    devs = λ i. start_state g.dev_count;
    halt = record { seen = 0 };
    ticks = λ j t. 0;
    dones = 0;
  }

  -- A send handler runs on a device that its ready-to-send handler found ready, and a receive
  -- handler on a message on its way.
  pub data Step (s : System) : System → Type 0 where
    dev_out :
        (i : ℕ)
        → i < g.dev_count
        → dev_ready_to_send_handler g (s.devs i) ≡ output_flag_dev_out
        → Step s (send_tick s i)
    dev_in :
        (j : ℕ) (msg : TickMsg)
        → j < g.dev_count
        → 0 < s.ticks j msg.t
        → Step s (receive_tick s j msg)
    halt_out :
        (i : ℕ)
        → i < g.dev_count
        → dev_ready_to_send_handler g (s.devs i) ≡ output_flag_halt_out
        → Step s (send_done s i)
    halt_in : 0 < s.dones → Step s (receive_done s)

  -- A run of `k` steps from the start.
  pub data Run : ℕ → System → Type 0 where
    here : Run 0 start
    next : {k : ℕ} {s u : System} → Run k s → Step s u → Run (suc k) u
