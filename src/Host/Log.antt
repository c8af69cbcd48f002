-- ===== src/Host/Log.antt =====
-- The log calls of include/softswitch_hostmessaging.hpp, and __assert_func of
-- src/softswitch/softswitch_hostmessaging.cpp.
--
-- A string goes to the host as its address, a number. The names of pins and devices are not fields of
-- the contexts here, so where they stand is a parameter. So is the thread's applLogLevel. A failed
-- assertion is `none`.
use Prim.Native.Nat.{bit_or}
use toy_softswitch.Prelude.{
  ℕ, ◌*◌, ◌%◌, ◌^◌, ◌≡◌, not, leb, Bool-cases, inl, inr, ◌>>◌, assert, refl, false, Option, none,
  some, List, [], ◌∷◌, arith, ltb, ◌==◌, if◌then◌else◌, ◌>>=◌, update, add32, get_elem?,
}
use toy_softswitch.Context.{
  App, InputPinVTable, OutputPinVTable, DeviceContext, PThreadContext, load,
}
use toy_softswitch.Context.Host.{HostMsg, HostBuffer}
use toy_softswitch.Host.{host_msg_buffer_space, direct_host_message_slow_send, log_peel_params}
use toy_softswitch.Host.Queue.{IsHostBuffer, host_msg_buffer_size-contents}

-- `softswitch_pthread_contexts + tinsel_myId()`, or null.
pub softswitch_get_ctxt : ℕ → ℕ → Option ℕ
softswitch_get_ctxt tinsel_my_id pthread_count =
    if ltb tinsel_my_id pthread_count then some tinsel_my_id else none

-- Where the names stand in memory.
pub record Names (A : App) : Type 0 where
  pub input_pin : InputPinVTable A → ℕ
  pub output_pin : OutputPinVTable A → ℕ
  pub device : DeviceContext A → ℕ

-- The first four words of a log message.
abbrev pub log_header : (ℕ → ℕ) → ℕ → ℕ → ℕ → ℕ → ℕ → ℕ
log_header p w₀ w₁ w₂ w₃ = update (update (update (update p 0 w₀) 1 w₁) 2 w₂) 3 w₃

module _ (bytes : HostMsg → List ℕ) (sizeof : ℕ) where
  -- As log_peel_params, but the buffer is not looked at.
  pub log_peel_params_ss : ℕ → HostMsg → ℕ → List ℕ → Option (List ℕ × ℕ)
  log_peel_params_ss host_msg_payload hmsg cnt [] =
      some (direct_host_message_slow_send bytes sizeof hmsg, cnt)
  log_peel_params_ss host_msg_payload hmsg cnt (p ∷ ps) =
      let rest =
        log_peel_params_ss host_msg_payload
          (record hmsg { payload = update hmsg.payload cnt (p % 2 ^ 32) }) (add32 cnt 1) ps in
      if ltb cnt host_msg_payload then rest else none

  -- With both indices in the buffer, log_peel_params does what log_peel_params_ss does, which does
  -- not look at the buffer: the test for room never fails, and the buffer is left alone.
  pub log_peel_params-log_peel_params_ss :
      (host_msg_payload : ℕ) (b : HostBuffer) (m : HostMsg) (cnt : ℕ) (ps : List ℕ)
      → IsHostBuffer b
      → log_peel_params bytes sizeof host_msg_payload b m cnt ps
        ≡ (log_peel_params_ss host_msg_payload m cnt ps >>= λ (sent, n). some ((b, sent), n))
  unfolding log_peel_params log_peel_params_ss
  log_peel_params-log_peel_params_ss host_msg_payload b m cnt [] q =
      let (n, bound, space, room) = host_msg_buffer_size-contents b q in
      let some_space : (host_msg_buffer_space b == 0) ≡ false = ground arith in rw some_space refl
  log_peel_params-log_peel_params_ss host_msg_payload b m cnt (p ∷ ps) q =
      elim (Bool-cases (ltb cnt host_msg_payload)) [
        | inl inside ↦
            let rest =
              log_peel_params-log_peel_params_ss host_msg_payload b
                (record m { payload = update m.payload cnt (p % 2 ^ 32) }) (add32 cnt 1) ps q in
            rw inside rest
        | inr past ↦ rw past refl
      ]

  -- What is sent; the call then stays in a loop for ever.
  pub assert_func : HostMsg → ℕ → ℕ → ℕ → ℕ → ℕ → List ℕ
  assert_func blank tinsel_id file line function cond =
      direct_host_message_slow_send bytes sizeof (record blank {
        thread = tinsel_id;
        device = 0;
        type = 254;
        payload =
            log_header blank.payload (file % 2 ^ 32) (line % 2 ^ 32) (function % 2 ^ 32)
              (cond % 2 ^ 32);
      })

  pub softswitch_softswitch_log_impl : ℕ → HostMsg → ℕ → ℕ → ℕ → ℕ → ℕ → List ℕ → Option (List ℕ)
  softswitch_softswitch_log_impl host_msg_payload blank tinsel_id appl_log_level level pc msg
        params =
      if ltb appl_log_level level then some [] else do
        (sent, cnt) ←
            log_peel_params_ss host_msg_payload
              (record blank {
                thread = tinsel_id;
                device = 65535;
                type = 240;
                payload = log_header blank.payload (msg % 2 ^ 32) (pc * 256 % 2 ^ 32) 0 0;
              })
              4 params
        if leb cnt host_msg_payload then some sent else none

  module _ {A : App} (names : Names A) where
    -- Outside receive and send handlers `pin` keeps what is on the stack.
    unfoldable pub pin_name : PThreadContext A → DeviceContext A → ℕ → Option ℕ
    pin_name c dev stack =
        if c.current_handler_type == 1
        then (do pin ← get_elem? dev.vtable.input_pins c.current_pin; some (names.input_pin pin))
        else if c.current_handler_type == 2
        then (do pin ← get_elem? dev.vtable.output_pins c.current_pin; some (names.output_pin pin))
        else some stack

    -- The message of a handler on device `dev`, before its parameters.
    abbrev pub handler_message :
        HostMsg → ℕ → ℕ → ℕ → PThreadContext A → DeviceContext A → ℕ → HostMsg
    handler_message blank tinsel_id pc msg c dev pin = record blank {
      thread = tinsel_id;
      device = dev.index;
      type = 240;
      payload =
          log_header blank.payload (msg % 2 ^ 32)
            (bit_or (pc * 256 % 2 ^ 32) c.current_handler_type) (pin % 2 ^ 32)
            (names.device dev % 2 ^ 32);
    }

    pub softswitch_handler_log_impl :
        ℕ
        → HostMsg
        → ℕ
        → ℕ
        → ℕ
        → ℕ
        → ℕ
        → ℕ
        → List ℕ
        → PThreadContext A
        → Option (PThreadContext A × List ℕ)
    softswitch_handler_log_impl host_msg_payload blank stack tinsel_id appl_log_level level pc msg
          params c =
        do
          assert (not (c.current_handler_type == 0))
          dev ← load c c.current_device
          if ltb appl_log_level level then some (c, []) else do
            pin ← pin_name c dev stack
            ((host, sent), cnt) ←
                log_peel_params bytes sizeof host_msg_payload c.host
                  (handler_message blank tinsel_id pc msg c dev pin) 4 params
            assert (leb cnt host_msg_payload)
            some (record c { host = host }, sent)
