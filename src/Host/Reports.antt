-- ===== src/Host/Reports.antt =====
-- Log messages and performance reports.
use toy_softswitch.Prelude.{
  ℕ, zero, suc, ◌+◌, ◌%◌, ◌^◌, ◌<◌, ltb, ◌≤◌, ◌≡◌, refl, ap, ◌∙◌, true, false, some, List, [], ◌∷◌,
  ◌++◌, arith, ◌==◌, update, length, get_elem?, map, add32,
}
use toy_softswitch.Context.Host.{HostMsg, HostBuffer, Counters}
use toy_softswitch.Host.{
  host_msg_buffer_size, host_msg_buffer_space, direct_host_message_slow_send, log_peel_params,
  softswitch_flush_perfmon, delta_cycles,
}
use toy_softswitch.Host.Queue.{
  IsHostBuffer, contents, host_msg_buffer_size-contents, host_msg_buffer_push-contents,
}

module _ (bytes : HostMsg → List ℕ) (sizeof : ℕ) where
  -- What the call sends: the parameters one after another in the payload, from `cnt` on.
  abbrev pub with_params : (ℕ → ℕ) → ℕ → List ℕ → ℕ → ℕ
  with_params p cnt [] = p
  with_params p cnt (x ∷ xs) = with_params (update p cnt (x % 2 ^ 32)) (add32 cnt 1) xs

  log_peel_params_lem :
      (host_msg_payload : ℕ) (b : HostBuffer) (m : HostMsg) (cnt : ℕ) (ps : List ℕ)
      → IsHostBuffer b
      → host_msg_payload < 2 ^ 32
      → cnt + length ps ≤ host_msg_payload
      → log_peel_params bytes sizeof host_msg_payload b m cnt ps
        ≡ some (
          (
            b,
            direct_host_message_slow_send bytes sizeof
                (record m { payload = with_params m.payload cnt ps }),
          ),
          cnt + length ps,
        )
  unfolding log_peel_params
  log_peel_params_lem host_msg_payload b m cnt [] q small h =
      let (n, bound, space, room) = host_msg_buffer_size-contents b q in
      let some_space : (host_msg_buffer_space b == 0) ≡ false = ground arith in
      let count : cnt ≡ cnt + 0 = omega arith in
      rw some_space (ap (λ c. some ((b, direct_host_message_slow_send bytes sizeof m), c)) count)
  log_peel_params_lem host_msg_payload b m cnt (p ∷ ps) q small h =
      let inside : ltb cnt host_msg_payload ≡ true = ground arith in
      let next : add32 cnt 1 ≡ cnt + 1 = omega arith in
      let count : add32 cnt 1 + length ps ≡ cnt + suc (length ps) = omega arith in
      let rest =
        log_peel_params_lem host_msg_payload b
          (record m { payload = update m.payload cnt (p % 2 ^ 32) }) (add32 cnt 1) ps q small
          (omega arith) in
      rw inside (
        rest
        ∙ ap
            (λ c. some (
              (
                b,
                direct_host_message_slow_send bytes sizeof
                    (record m { payload = with_params m.payload cnt (p ∷ ps) }),
              ),
              c,
            ))
            count)

  with_params_below :
      (p : ℕ → ℕ) (cnt : ℕ) (ps : List ℕ) (i : ℕ)
      → cnt + length ps < 2 ^ 32
      → i < cnt
      → with_params p cnt ps i ≡ p i
  with_params_below p cnt [] i h k = refl
  with_params_below p cnt (x ∷ ps) i h k =
      let off : (cnt == i) ≡ false = ground arith in
      with_params_below (update p cnt (x % 2 ^ 32)) (add32 cnt 1) ps i (omega arith) (omega arith)
      ∙ rw off refl

  with_params_at :
      (p : ℕ → ℕ) (cnt : ℕ) (ps : List ℕ) (i x : ℕ)
      → cnt + length ps < 2 ^ 32
      → get_elem? ps i ≡ some x
      → with_params p cnt ps (cnt + i) ≡ x % 2 ^ 32
  with_params_at p cnt [] i x h e = absurd (ground arith)
  with_params_at p cnt (y ∷ ps) zero x h e =
      let here : (cnt == cnt + 0) ≡ true = ground arith in
      let same : y ≡ x = ground arith in
      with_params_below (update p cnt (y % 2 ^ 32)) (add32 cnt 1) ps (cnt + 0) (omega arith)
        (omega arith)
      ∙ rw here (ap (λ z. z % 2 ^ 32) same)
  with_params_at p cnt (y ∷ ps) (suc i) x h e =
      let place : cnt + suc i ≡ add32 cnt 1 + i = omega arith in
      ap (with_params (update p cnt (y % 2 ^ 32)) (add32 cnt 1) ps) place
      ∙ with_params_at (update p cnt (y % 2 ^ 32)) (add32 cnt 1) ps i x (omega arith) e

  -- With both indices in the buffer and a word of the payload, which has fewer than 2^32, for every
  -- parameter, a log call sends one message at once and leaves the buffer alone: the parameters stand in order from place cnt
  -- of the payload on, each cut to a word, and the places before stay.
  pub log_peel_params-payload :
      (host_msg_payload : ℕ) (b : HostBuffer) (m : HostMsg) (cnt : ℕ) (ps : List ℕ)
      → IsHostBuffer b
      → host_msg_payload < 2 ^ 32
      → cnt + length ps ≤ host_msg_payload
      → (payload : ℕ → ℕ) × (log_peel_params bytes sizeof host_msg_payload b m cnt ps
          ≡ some (
            (b, direct_host_message_slow_send bytes sizeof (record m { payload = payload })),
            cnt + length ps,
          ))
        × ((i x : ℕ) → get_elem? ps i ≡ some x → payload (cnt + i) ≡ x % 2 ^ 32)
        × ((i : ℕ) → i < cnt → payload i ≡ m.payload i)
  log_peel_params-payload host_msg_payload b m cnt ps q small h = (
    with_params m.payload cnt ps,
    log_peel_params_lem host_msg_payload b m cnt ps q small h,
    λ i x e. with_params_at m.payload cnt ps i x (omega arith) e,
    λ i k. with_params_below m.payload cnt ps i (omega arith) k,
  )

-- While fewer than 39 messages wait, the flush puts one message at the end of the queue that holds
-- the nine counters, in order, and sets the counters to zero.
pub softswitch_flush_perfmon-reports :
    (blank : HostMsg) (tinsel_id : ℕ) (b : HostBuffer) (k : Counters)
    → IsHostBuffer b
    → host_msg_buffer_size b < 39
    → (m : HostMsg) × (contents (softswitch_flush_perfmon blank tinsel_id b k).0
        ≡ contents b ++ m ∷ [])
      × (map m.payload (0 ∷ 1 ∷ 2 ∷ 3 ∷ 4 ∷ 5 ∷ 6 ∷ 7 ∷ 8 ∷ [])
          ≡ k.thread_cycles ∷ k.send_blocked_cycles ∷ k.recv_blocked_cycles ∷ k.idle_cycles
            ∷ k.perfmon_cycles ∷ k.send_cycles ∷ k.send_handler_cycles ∷ k.recv_cycles
            ∷ k.recv_handler_cycles ∷ [])
      × (m.thread ≡ tinsel_id)
      × (m.type ≡ 224)
      × ((softswitch_flush_perfmon blank tinsel_id b k).1 ≡ record {
        thread_cycles_tstart = k.thread_cycles_tstart;
        thread_cycles = 0;
        send_blocked_cycles = 0;
        recv_blocked_cycles = 0;
        idle_cycles = 0;
        perfmon_cycles = 0;
        send_cycles = 0;
        send_handler_cycles = 0;
        recv_cycles = 0;
        recv_handler_cycles = 0;
      })
unfolding softswitch_flush_perfmon
softswitch_flush_perfmon-reports blank tinsel_id b k q h =
    (_, (host_msg_buffer_push-contents b _ q h).1, refl, refl, refl, refl)

-- The difference of two readings of the 32-bit cycle counter is the time between them, also when
-- the counter wrapped round once.
pub delta_cycles-add32 :
    (tstart tend elapsed : ℕ)
    → tstart < 2 ^ 32
    → elapsed < 2 ^ 32
    → tend ≡ add32 tstart elapsed
    → delta_cycles tstart tend ≡ elapsed
unfolding delta_cycles
delta_cycles-add32 tstart tend elapsed h k e = ground arith
