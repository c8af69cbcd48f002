-- ===== src/Host.antt =====
-- src/softswitch/softswitch_hostmessaging.cpp: the circular buffer of messages to the host, the slow
-- channel over the UART, and the messages that the softswitch writes itself.
--
-- A hostMsg goes over the UART as its bytes: their layout, and sizeof(hostMsg), come from hostMsg.hpp,
-- which is not in the repository, so they are parameters. So is HOST_MSG_PAYLOAD, and so is what is on the stack where a
-- message is declared, as its fields are not all set. A byte is put again until the UART takes it.
pub mod Ring
pub mod Queue
pub mod Channel
pub mod Reports
pub mod Log
pub mod Tests
use toy_softswitch.Prelude.{
  ℕ, zero, suc, ◌+◌, ◌%◌, ◌^◌, Bool, true, false, Option, none, some, List, [], ◌∷◌, ◌++◌, ltb,
  ◌==◌, if◌then◌else◌, ◌>>=◌, update, take, add32, sub32,
}
use toy_softswitch.Context.Host.{HostMsg, HostBuffer, Counters}

-- HOSTBUFFER_SIZE.
abbrev pub hostbuffer_size : ℕ
hostbuffer_size = 40

-- MAX_HOST_PER_HANDLER.
abbrev pub max_host_per_handler : ℕ
max_host_per_handler = 2

unfoldable pub host_msg_buffer_size : HostBuffer → ℕ
host_msg_buffer_size b =
    if ltb b.hbuf_tail b.hbuf_head
    then sub32 (add32 b.hbuf_tail hostbuffer_size) b.hbuf_head
    else sub32 b.hbuf_tail b.hbuf_head

unfoldable pub host_msg_buffer_space : HostBuffer → ℕ
host_msg_buffer_space b = sub32 hostbuffer_size (host_msg_buffer_size b)

-- `x = x + 1; if(x == HOSTBUFFER_SIZE) x = 0;`
abbrev pub next_index : ℕ → ℕ
next_index i = if add32 i 1 == hostbuffer_size then 0 else add32 i 1

pub host_msg_buffer_push : HostBuffer → HostMsg → HostBuffer
host_msg_buffer_push b msg = record b {
  host_buffer = update b.host_buffer b.hbuf_tail msg;
  hbuf_tail = next_index b.hbuf_tail;
}

-- The message that goes to the host is the second part.
pub host_message_buffer_pop_send : HostBuffer → HostBuffer × HostMsg
host_message_buffer_pop_send b =
    (record b { hbuf_head = next_index b.hbuf_head }, b.host_buffer b.hbuf_head)

-- The bytes that the UART is given; `num` is a `uint8_t`.
pub uart_put_length_prefixed_bytes : List ℕ → ℕ → List ℕ
uart_put_length_prefixed_bytes bytes num = num % 256 ∷ take (num % 256) bytes

abbrev pub exit_message : HostMsg → ℕ → ℕ → HostMsg
exit_message blank tinsel_id code = record blank {
  thread = tinsel_id;
  type = 255;
  payload = update blank.payload 0 (code % 2 ^ 32);
}

module _ (bytes : HostMsg → List ℕ) (sizeof : ℕ) where
  pub direct_host_message_slow_send : HostMsg → List ℕ
  direct_host_message_slow_send msg = uart_put_length_prefixed_bytes (bytes msg) sizeof

  pub host_message_slow_pop_send : HostBuffer → HostBuffer × List ℕ
  host_message_slow_pop_send b = (
    record b { hbuf_head = next_index b.hbuf_head },
    uart_put_length_prefixed_bytes (bytes (b.host_buffer b.hbuf_head)) sizeof,
  )

  -- `while(hostMsgBufferSize() > 0) hostMessageSlowPopSend();` on fuel.
  drain_loop : ℕ → HostBuffer → Option (HostBuffer × List ℕ)
  drain_loop zero b = none
  drain_loop (suc fuel) b =
      let rest = (do
        (b', sent) ← drain_loop fuel (host_message_slow_pop_send b).0
        some (b', (host_message_slow_pop_send b).1 ++ sent)) in
      if ltb 0 (host_msg_buffer_size b) then rest else some (b, [])

  -- A buffer holds fewer messages than it has places.
  pub drain : HostBuffer → Option (HostBuffer × List ℕ)
  unfolding drain_loop
  drain b = drain_loop hostbuffer_size b

  pub softswitch_handler_exit : HostMsg → ℕ → HostBuffer → ℕ → Option (HostBuffer × List ℕ)
  softswitch_handler_exit blank tinsel_id b code = do
    (b, sent) ← drain b
    some (b, sent ++ direct_host_message_slow_send (exit_message blank tinsel_id code))

  -- The parameters of a log call go into the payload from `cnt` on, and the message goes over the
  -- UART. A write past the payload, which has `host_msg_payload` words, is `none`.
  pub log_peel_params : ℕ → HostBuffer → HostMsg → ℕ → List ℕ → Option ((HostBuffer × List ℕ) × ℕ)
  log_peel_params host_msg_payload b hmsg cnt [] =
      let (b', sent) =
        (if host_msg_buffer_space b == 0 then host_message_slow_pop_send b else (b, [])) in
      some ((b', sent ++ direct_host_message_slow_send hmsg), cnt)
  log_peel_params host_msg_payload b hmsg cnt (p ∷ ps) =
      let rest =
        log_peel_params host_msg_payload b
          (record hmsg { payload = update hmsg.payload cnt (p % 2 ^ 32) }) (add32 cnt 1) ps in
      if ltb cnt host_msg_payload then rest else none

-- The nine counters of the payload.
abbrev perfmon_payload : (ℕ → ℕ) → Counters → ℕ → ℕ
perfmon_payload p k =
    update
      (update
        (update
          (update
            (update
              (update
                (update (update (update p 0 k.thread_cycles) 1 k.send_blocked_cycles) 2
                  k.recv_blocked_cycles)
                3 k.idle_cycles)
              4 k.perfmon_cycles)
            5 k.send_cycles)
          6 k.send_handler_cycles)
        7 k.recv_cycles)
      8 k.recv_handler_cycles

unfoldable pub softswitch_flush_perfmon :
    HostMsg → ℕ → HostBuffer → Counters → HostBuffer × Counters
softswitch_flush_perfmon blank tinsel_id b k = (
  host_msg_buffer_push b
      (record blank { thread = tinsel_id; type = 224; payload = perfmon_payload blank.payload k }),
  record k {
    thread_cycles = 0;
    send_blocked_cycles = 0;
    recv_blocked_cycles = 0;
    idle_cycles = 0;
    perfmon_cycles = 0;
    send_cycles = 0;
    send_handler_cycles = 0;
    recv_cycles = 0;
    recv_handler_cycles = 0;
  },
)

-- src/softswitch/softswitch_perfmon.cpp.
unfoldable pub delta_cycles : ℕ → ℕ → ℕ
delta_cycles tstart tend =
    if ltb tstart tend then sub32 tend tstart else (sub32 tend tstart + 2 ^ 32) % 2 ^ 32
