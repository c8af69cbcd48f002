-- ===== src/Context/Host.antt =====
-- The thread's part of the host message buffer and its cycle counters, of include/softswitch.hpp.
use toy_softswitch.Prelude.{ℕ}

-- The fields of a `hostMsg` that the program reads or writes; the payload is an array of words.
pub record HostMsg : Type 0 where
  pub thread : ℕ
  pub device : ℕ
  pub pin : ℕ
  pub size : ℕ
  pub type : ℕ
  pub payload : ℕ → ℕ

pub record HostBuffer : Type 0 where
  pub host_buffer : ℕ → HostMsg
  pub hbuf_head : ℕ
  pub hbuf_tail : ℕ

pub record Counters : Type 0 where
  pub thread_cycles_tstart : ℕ
  pub thread_cycles : ℕ
  pub send_blocked_cycles : ℕ
  pub recv_blocked_cycles : ℕ
  pub idle_cycles : ℕ
  pub perfmon_cycles : ℕ
  pub send_cycles : ℕ
  pub send_handler_cycles : ℕ
  pub recv_cycles : ℕ
  pub recv_handler_cycles : ℕ
