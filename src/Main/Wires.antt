-- ===== src/Main/Wires.antt =====
-- A round of the main loop keeps the thread's wires, and sends along them only.
use toy_softswitch.Prelude.{
  ℕ, arith, ◌<◌, ◌-◌, ◌&&◌, [], ◌∷◌, zero, suc, ◌+◌, ◌≡◌, refl, Bool, true, false, Option, none,
  some, if◌then◌else◌, List, not, ◌==◌, ◌||◌,
}
use toy_softswitch.Context.{App, Address, PThreadContext}
use toy_softswitch.Wiring.{Always, Always_bind, Keeps, Keeps-trans, from-Keeps, either-Always}
use toy_softswitch.Prelude.{All, append-All, Bool-cases, inl, inr, ltb}
use toy_softswitch.Wiring.{NoApps, NoApps-Keeps, Pending, IsWire, IsWire-Keeps}
use toy_softswitch.Context.Host.{HostBuffer}
use toy_softswitch.Host.{hostbuffer_size, host_message_slow_pop_send}
use toy_softswitch.Init.{softswitch_init}
use toy_softswitch.Init.Wires.{softswitch_init-Keeps}
use toy_softswitch.Idle.{softswitch_on_idle, softswitch_on_hardware_idle}
use toy_softswitch.Idle.Wires.{softswitch_on_idle-Keeps, softswitch_on_hardware_idle-Keeps}
use toy_softswitch.Send.{Buffer, softswitch_on_send}
use toy_softswitch.Send.Wires.{Wired, softswitch_on_send-Wired}
use toy_softswitch.Receive.{softswitch_on_receive}
use toy_softswitch.Receive.Wires.{softswitch_on_receive-Keeps}
use toy_softswitch.Main.{
  Config, Hardware, Locals, Output, adequate, host_empty, with_host, packet_to, make_room_loop,
  make_room, want_to_send, softswitch_main_start, forward_message, prepare_message, send_to,
  send_app, send_branch, receive_branch, after_wait, wait, main_round,
}

module _ {A : App} where
  -- The thread's wires are those of `c`, and the message in progress goes along them.
  abbrev pub Along : PThreadContext A → Locals A → Type 0
  Along c l =
      Keeps c l.ctxt
      × Pending c l.send_buffer.packet.source l.curr_send_todo l.is_app l.curr_send_address_list
      × (NoApps c → l.is_app ≡ 0)

  -- A packet that is sent goes along a wire, to the thread that its address names.
  abbrev pub Sends : PThreadContext A → Output A → Type 0
  Sends c (Output.to_thread t p size) = (p.dest.thread ≡ t) × IsWire c p.source p.dest
  Sends c (Output.app_to_host m size) = Unit
  Sends c (Output.buffered_to_host m) = Unit
  Sends c (Output.over_uart bs) = Unit

  abbrev pub Goes : PThreadContext A → Locals A × List (Output A) → Type 0
  Goes c (l, out) = Along c l × All (Sends c) out

  make_room_loop-Sends :
      (c : PThreadContext A) (fuel : ℕ) (cfg : Config) (b : HostBuffer)
      → Always (make_room_loop fuel cfg b) (λ r. All (Sends c) r.1)
  unfolding make_room_loop
  make_room_loop-Sends c zero cfg b = tt
  make_room_loop-Sends c (suc fuel) cfg b =
      let popped = host_message_slow_pop_send cfg.bytes cfg.sizeof_host_msg b in
      either-Always (adequate b) (λ r. All (Sends c) r.1) (some (b, [])) _ tt
        (Always_bind (λ r. All (Sends c) r.1) (make_room_loop fuel cfg popped.0) _ _
          (make_room_loop-Sends c fuel cfg popped.0) λ r s. (tt, s))

  send_to-Goes :
      (c : PThreadContext A) (cfg : Config) (room : Bool) (l : Locals A)
      (list : Option (List Address))
      → Keeps c l.ctxt
      → l.is_app ≡ 0
      → 0 < l.curr_send_todo
      → Pending c l.send_buffer.packet.source l.curr_send_todo l.is_app list
      → Always (send_to cfg room l list) (Goes c)
  unfolding send_to
  send_to-Goes c cfg room l none k z more p = tt
  send_to-Goes c cfg room l (some []) k z more p = tt
  send_to-Goes c cfg room l (some (a ∷ rest)) k z more p =
      let on : Pending c l.send_buffer.packet.source (l.curr_send_todo - 1) l.is_app (some rest) =
        λ n b less y goes. p (suc n) b (omega arith) y goes in
      either-Always (cfg.enable_intra_thread_send && ((a.thread == cfg.this_thread_id) && room))
        (Goes c) _ _
        (Always_bind (Keeps l.ctxt) (softswitch_on_receive l.ctxt (packet_to l a)) _ (Goes c)
          (softswitch_on_receive-Keeps l.ctxt (packet_to l a))
          λ c' k'. ((Keeps-trans c l.ctxt c' k k', on, λ plain. z), tt))
        ((k, on, λ plain. z), ((refl, p 0 a more z refl), tt))

  forward_message-Goes :
      (c : PThreadContext A) (cfg : Config) (room : Bool) (l : Locals A)
      → Along c l
      → Always (forward_message cfg room l) (Goes c)
  unfolding forward_message send_app
  forward_message-Goes c cfg room l (k, p, q) = elim (Bool-cases (ltb 0 l.curr_send_todo)) [
    | inr done ↦ rw done ((k, p, q), tt)
    | inl more ↦ elim (Bool-cases (l.is_app == 0)) [
      | inl normal ↦
          rw (more, normal)
            (send_to-Goes c cfg room l l.curr_send_address_list k (ground arith) (ground arith) p)
      | inr app ↦
          rw (more, app)
            (either-Always cfg.enable_intra_thread_send (Goes c) none _ tt
              ((k, λ n a less z goes. absurd (omega arith), q), (tt, tt)))
    ]
  ]

  pub prepare_message-Along :
      (c : PThreadContext A) (l : Locals A) → Along c l → Always (prepare_message l) (Along c)
  unfolding prepare_message
  prepare_message-Along c l (k, _, still) =
      Always_bind (Wired l.ctxt l.is_app) (softswitch_on_send l.ctxt l.send_buffer l.is_app) _
        (Along c) (softswitch_on_send-Wired l.ctxt l.send_buffer l.is_app)
        λ r (k', p, q). (
          Keeps-trans c r.context _ (Keeps-trans c l.ctxt r.context k k')
              (record { thread = refl; size = refl; device = λ j. refl }),
          λ n a less z goes. IsWire-Keeps c l.ctxt _ a k (p n a less z goes),
          λ plain. q (NoApps-Keeps c l.ctxt k plain) (still plain),
        )

  pub with_host-Along :
      (c : PThreadContext A) (l : Locals A) (b : HostBuffer)
      → Along c l
      → Along c (record l { ctxt = with_host l.ctxt b })
  with_host-Along c l b (k, p, q) =
      (record { thread = k.thread; size = k.size; device = k.device }, p, q)

  send_branch-Goes :
      (c : PThreadContext A) (cfg : Config) (room was_empty : Bool) (l : Locals A)
      → Along c l
      → Always (send_branch cfg room was_empty l) (Goes c)
  unfolding send_branch
  send_branch-Goes c cfg room false l s = (with_host-Along c l _ s, (tt, tt))
  send_branch-Goes c cfg room true l s =
      Always_bind (Along c) (if l.curr_send_todo == 0 then prepare_message l else some l) _ (Goes c)
        (either-Always (l.curr_send_todo == 0) (Along c) (prepare_message l) (some l)
          (prepare_message-Along c l s) s)
        λ l' s'. forward_message-Goes c cfg room l' s'

  receive_branch-Goes :
      (c : PThreadContext A) (hw : Hardware A) (l : Locals A)
      → Along c l
      → Always (receive_branch hw l) (Goes c)
  unfolding receive_branch
  receive_branch-Goes c hw l (k, p, q) =
      Always_bind (Keeps l.ctxt) (softswitch_on_receive l.ctxt hw.incoming) _ (Goes c)
        (softswitch_on_receive-Keeps l.ctxt hw.incoming)
        λ c' k'. ((Keeps-trans c l.ctxt c' k k', p, q), tt)

  after_wait-Goes :
      (c : PThreadContext A) (cfg : Config) (hw : Hardware A) (want was_empty : Bool) (l : Locals A)
      → Along c l
      → Always (after_wait cfg hw want was_empty l) (Goes c)
  unfolding after_wait make_room
  after_wait-Goes c cfg hw want was_empty l s =
      Always_bind (λ r. All (Sends c) r.1) (make_room_loop (hostbuffer_size + 1) cfg l.ctxt.host) _
        (Goes c) (make_room_loop-Sends c (hostbuffer_size + 1) cfg l.ctxt.host)
        λ (b, drained) d.
          let l' : Locals A = record l { ctxt = with_host l.ctxt b } in
          let s' = with_host-Along c l b s in
          Always_bind (Goes c)
            (if (if cfg.enable_send_over_recv
                then not (hw.woken_can_send && want)
                else hw.woken_can_recv && adequate b)
              then receive_branch hw l'
              else send_branch cfg (adequate b) was_empty l')
            _ (Goes c)
            (either-Always _ (Goes c) (receive_branch hw l')
              (send_branch cfg (adequate b) was_empty l') (receive_branch-Goes c hw l' s')
              (send_branch-Goes c cfg (adequate b) was_empty l' s'))
            λ (l'', out) (s'', o). (s'', append-All (Sends c) drained out d o)

  wait-Goes :
      (c : PThreadContext A) (cfg : Config) (hw : Hardware A) (want was_empty : Bool) (l : Locals A)
      → Along c l
      → Always (wait cfg hw want was_empty l) (Goes c)
  unfolding wait
  wait-Goes c cfg hw want was_empty l s =
      either-Always (cfg.enable_hardware_idle && (not want && hw.idle)) (Goes c) _ _
        (Always_bind (Keeps l.ctxt) (softswitch_on_hardware_idle l.ctxt) _ (Goes c)
          (softswitch_on_hardware_idle-Keeps l.ctxt)
          λ c' k'. ((Keeps-trans c l.ctxt c' s.0 k', s.1, s.2), tt))
        (after_wait-Goes c cfg hw want was_empty l s)

  -- In every build, and whatever the hardware answers.
  pub main_round-Goes :
      (c : PThreadContext A) (cfg : Config) (hw : Hardware A) (l : Locals A)
      → Along c l
      → Always (main_round cfg hw l) (Goes c)
  unfolding main_round
  main_round-Goes c cfg hw l s =
      let want = want_to_send l in
      let was_empty = host_empty l.ctxt.host in
      either-Always (not hw.can_recv && (not want || not hw.can_send)) (Goes c) _ _
        (Always_bind (λ r. Keeps l.ctxt r.0) (softswitch_on_idle l.ctxt) _ (Goes c)
          (softswitch_on_idle-Keeps l.ctxt)
          λ (c', more) k'.
            let s' : Along c (record l { ctxt = c' }) =
              (Keeps-trans c l.ctxt c' s.0 k', s.1, s.2) in
            either-Always more (Goes c) _ _ (s', tt)
              (wait-Goes c cfg hw want was_empty (record l { ctxt = c' }) s'))
        (wait-Goes c cfg hw want was_empty l s)

  pub softswitch_main_start-Along :
      (c : PThreadContext A) (slot : Buffer A) → Always (softswitch_main_start c slot) (Along c)
  unfolding softswitch_main_start
  softswitch_main_start-Along c slot = either-Always (c.num_devices == 0) (Along c) none _ tt (
      Always_bind (Keeps c)
        (softswitch_init (with_host c (record (c.host) { hbuf_head = 0; hbuf_tail = 0 }))) _
        (Along c)
        (from-Keeps c _ _ (record { thread = refl; size = refl; device = λ j. refl })
          (softswitch_init-Keeps _))
        λ c' k. (k, λ n a less z goes. absurd (omega arith), λ plain. refl))
