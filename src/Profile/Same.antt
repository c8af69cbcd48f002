-- ===== src/Profile/Same.antt =====
-- The profiled handlers do what the plain ones do, but for the counters.
use mathlib.Core.Option
use toy_softswitch.Prelude.{
  ℕ, ◌%◌, ◌≡◌, refl, ap, ◌∙◌, Bool, Option, none, some, List, [], ◌∷◌, ltb, ◌==◌, inl, inr,
  if◌then◌else◌, Bool-cases, ◌>>=◌, get_elem?, Yields_some,
}
use toy_softswitch.Context.{App, DeviceContext, OutputPinVTable, PThreadContext, load}
use toy_softswitch.Context.Host.{Counters}
use toy_softswitch.Rts.{rts_pop, softswitch_update_rts}
use toy_softswitch.Rts.Perf.{with_perf, bind_both, bind_equal, softswitch_update_rts-with_perf}
use toy_softswitch.Rts.Queue.{rts_pop-IsRts, rts_pop_empty, softswitch_pop_rts_lem}
use toy_softswitch.Rts.Update.{Tracks}
use toy_softswitch.Send.{
  Packet, Buffer, Prepared, right_most_one, prepare, address_message, call_send_handler,
  finish_send, softswitch_on_send,
}
use toy_softswitch.Send.Perf.{
  address_message-with_perf, call_send_handler_perf, finish_send-with_perf,
}
use toy_softswitch.Receive.{find_edge, call_receive_handler, softswitch_on_receive}
use toy_softswitch.Receive.Delivery.{call_receive_handler_perf}
use toy_softswitch.Init.{softswitch_init}
use toy_softswitch.Init.Perf.{softswitch_init-with_perf}
use toy_softswitch.Profile.{
  softswitch_init_profiled, zero_profile_counters, Readings, count_receive_handler, count_receive,
  count_send_handler, count_send, softswitch_on_receive_profiled, prepare_profiled,
  softswitch_on_send_profiled,
}
use toy_softswitch.Profile.Elapsed.{
  IsReadings, sent_cycles, received_cycles, count_receive-own, count_receive-other, count_send-sent,
}

module _ {A : App} where
  -- Whether the packet is for a device of this program.
  abbrev pub is_own : PThreadContext A → Packet A → Bool
  is_own c m = (c.devices m.dest.device).is_external % 256 == 0

  count_last :
      (t : Readings) (k total : Counters) (r r' : Option (PThreadContext A))
      → count_receive t k ≡ total
      → r' ≡ Option.map (with_perf k) r
      → (r' >>= λ c. some (with_perf (count_receive t c.perf) c)) ≡ Option.map (with_perf total) r
  count_last t k total none r' q e =
      ap (λ o. o >>= λ c. some (with_perf (count_receive t c.perf) c)) e
  count_last t k total (some c) r' q e =
      ap (λ o. o >>= λ c. some (with_perf (count_receive t c.perf) c)) e
      ∙ ap (λ k. some (with_perf k c)) q

  -- For 32-bit readings, counting cycles changes nothing else: with profiling softswitch_onReceive
  -- is defined for exactly the packets that it is defined for without, and its context differs in
  -- two counters only. recv_cycles grows by the time between the first and the last reading,
  -- recv_handler_cycles by the time between the two around the handler, and for a device of another
  -- program not at all; the times and the counters are those of a 32-bit clock that wraps round.
  pub softswitch_on_receive_profiled-same :
      (t : Readings) (c : PThreadContext A) (m : Packet A)
      → IsReadings t
      → softswitch_on_receive_profiled t c m
        ≡ Option.map (with_perf (received_cycles t (is_own c m) c.perf)) (softswitch_on_receive c m)
  unfolding softswitch_on_receive_profiled softswitch_on_receive
  softswitch_on_receive_profiled-same t c m q =
      elim (Bool-cases (ltb m.dest.device c.num_devices)) [
        | inr off ↦ rw off refl
        | inl on ↦ elim (Bool-cases ((c.devices m.dest.device).is_external % 256 == 0)) [
          | inr other ↦
              rw (on, other) (ap (λ k. some (with_perf k c)) (count_receive-other t c.perf q))
          | inl own ↦
              rw (on, own)
                (count_last t (count_receive_handler t c.perf) _ _ _ (count_receive-own t c.perf q)
                  (bind_both _ (get_elem? (c.devices m.dest.device).vtable.input_pins m.dest.pin) _
                    _
                    λ pin.
                      bind_both _ (find_edge (c.devices m.dest.device) m.dest.pin pin m.source) _ _
                        λ edge.
                          ap
                            (λ k.
                              softswitch_update_rts
                                (with_perf (count_receive_handler t k)
                                  (call_receive_handler c (c.devices m.dest.device) pin edge m))
                                m.dest.device)
                            (call_receive_handler_perf c (c.devices m.dest.device) pin edge m)
                          ∙ softswitch_update_rts-with_perf (count_receive_handler t c.perf)
                              (call_receive_handler c (c.devices m.dest.device) pin edge m)
                              m.dest.device))
        ]
      ]

  abbrev pub with_counters : Counters → Prepared A → Prepared A
  with_counters k p = record p { context = with_perf k (p.context) }

  finish_last :
      (t : Readings) (k k' : Counters) (p : Prepared A) (r r' : Option (PThreadContext A))
      → k ≡ k'
      → r' ≡ Option.map (with_perf k) r
      → (r' >>= λ c. some (record p { context = with_perf (count_send t c.perf) c }))
        ≡ Option.map (with_counters (count_send t k')) (r >>= λ c. some (record p { context = c }))
  finish_last t k k' p none r' q e =
      ap (λ o. o >>= λ c. some (record p { context = with_perf (count_send t c.perf) c })) e
  finish_last t k k' p (some c) r' q e =
      ap (λ o. o >>= λ c. some (record p { context = with_perf (count_send t c.perf) c })) e
      ∙ ap (λ k. some (record p { context = with_perf (count_send t k) c })) q

  -- What follows the application's handler.
  after_handler :
      (t : Readings) (k k' : Counters) (c : PThreadContext A) (i : ℕ) (d : DeviceContext A) (n : ℕ)
      (pin : OutputPinVTable A) (m : Buffer A) (app : ℕ) (do_send : Bool)
      → k ≡ k'
      → ((if do_send then address_message (with_perf k c) d n pin m else some (m, 0, none, app))
          >>= λ x. finish_send (with_perf k c) i >>= λ e. some (record {
            context = with_perf (count_send t e.perf) e;
            message = x.0;
            num_targets = x.1;
            targets = x.2;
            is_app = x.3;
            size = pin.message_size;
          }))
        ≡ Option.map (with_counters (count_send t k')) (
            (if do_send then address_message c d n pin m else some (m, 0, none, app)) >>= λ x.
            finish_send c i >>= λ e. some (record {
              context = e;
              message = x.0;
              num_targets = x.1;
              targets = x.2;
              is_app = x.3;
              size = pin.message_size;
            }))
  after_handler t k k' c i d n pin m app do_send q =
      bind_equal _ (if do_send then address_message c d n pin m else some (m, 0, none, app)) _ _
        (ap (λ r. if do_send then r else some (m, 0, none, app))
          (address_message-with_perf k c d n pin m))
        λ x.
          finish_last t k k'
            (record {
              context = c;
              message = x.0;
              num_targets = x.1;
              targets = x.2;
              is_app = x.3;
              size = pin.message_size;
            })
            _ _ q (finish_send-with_perf k c i)

  prepare_profiled-same :
      (t : Readings) (c : PThreadContext A) (i : ℕ) (m : Buffer A) (app : ℕ)
      → prepare_profiled t c i m app
        ≡ Option.map
            (with_counters (count_send t (count_send_handler t c.perf)))
            (prepare c i m app)
  unfolding prepare_profiled prepare
  prepare_profiled-same t c i m app = bind_both _ (load c i) _ _ λ dev.
      bind_both _ (right_most_one dev.rts_flags) _ _ λ n.
        bind_both _ (get_elem? dev.vtable.output_pins n) _ _ λ pin.
          after_handler t _ _ (call_send_handler c i dev n pin m).0 i dev n pin
            (call_send_handler c i dev n pin m).1 app (call_send_handler c i dev n pin m).2
            (ap (count_send_handler t) (call_send_handler_perf c i dev n pin m))

  -- For 32-bit readings, on a thread whose list is in order, softswitch_onSend with profiling is
  -- defined exactly where it is without, and gives the same message, targets and size; its context
  -- differs in two counters only. send_cycles grows by the time between the first and the last
  -- reading, send_handler_cycles by the time between the two around the handler, as a 32-bit clock
  -- counts it; with an empty list nothing is counted, as the function has then returned.
  pub softswitch_on_send_profiled-same :
      (t : Readings) (c : PThreadContext A) (m : Buffer A) (app : ℕ) (xs : List ℕ)
      → IsReadings t
      → Tracks c xs
      → softswitch_on_send_profiled t c m app
        ≡ Option.map (with_counters (sent_cycles t xs c.perf)) (softswitch_on_send c m app)
  unfolding softswitch_on_send_profiled softswitch_on_send
  softswitch_on_send_profiled-same t c m app [] w q =
      rw (softswitch_pop_rts_lem c, rts_pop_empty c q.list) refl
  softswitch_on_send_profiled-same t c m app (y ∷ ys) w q =
      let ((c₁, p), e, (head, _, r)) = Yields_some _ (rts_pop c) (rts_pop-IsRts c y ys q.list) in
      let popped : rts_pop c ≡ some (c₁, some y) = e ∙ ap (λ h. some (c₁, h)) head in
      rw (softswitch_pop_rts_lem c, popped)
        (prepare_profiled-same t c₁ y m app
          ∙ ap
              (λ k.
                Option.map (with_counters (count_send t (count_send_handler t k)))
                  (prepare c₁ y m app))
              (ap (λ d. d.perf) r.rest)
          ∙ ap (λ k. Option.map (with_counters k) (prepare c₁ y m app))
              (count_send-sent t y ys c.perf w))

  pub softswitch_init_profiled-same :
      (c : PThreadContext A)
      → softswitch_init_profiled c
        ≡ Option.map (with_perf zero_profile_counters) (softswitch_init c)
  unfolding softswitch_init_profiled
  softswitch_init_profiled-same c = softswitch_init-with_perf zero_profile_counters c
