-- ===== src/Main/Branches.antt =====
-- What a round of the default build does, by what the mailbox answers and what the thread wants.
use toy_softswitch.Prelude.{
  ◌<◌, ◌≡◌, refl, ap, ◌∙◌, Bool, true, false, not, ◌&&◌, ◌||◌, Option, none, some, List, [], ◌∷◌,
  ◌++◌, arith, ltb, if◌then◌else◌, ◌>>=◌,
}
use toy_softswitch.Context.{App, Address, PThreadContext}
use toy_softswitch.Context.Host.{HostMsg, HostBuffer}
use toy_softswitch.Rts.{softswitch_is_rts_ready}
use toy_softswitch.Receive.{softswitch_on_receive}
use toy_softswitch.Idle.{softswitch_on_idle, softswitch_on_hardware_idle}
use toy_softswitch.Host.{host_msg_buffer_size, host_message_buffer_pop_send}
use toy_softswitch.Host.Queue.{
  IsHostBuffer, contents, host_msg_buffer_size-contents, host_message_buffer_pop_send-contents,
}
use toy_softswitch.Main.Room.{make_room_none}
use toy_softswitch.Main.Forward.{IsForwarding, send_branch-owed}
use toy_softswitch.Main.{
  Config, Hardware, Locals, Output, adequate, host_empty, with_host, packet_to, want_to_send,
  send_branch, receive_branch, after_wait, wait, main_round,
}

-- No sends inside the thread, and receives first: as long as the build's flags say nothing else.
pub record IsDefault (cfg : Config) : Type 0 where
  pub no_intra : cfg.enable_intra_thread_send ≡ false
  pub recv_first : cfg.enable_send_over_recv ≡ false

bind_some {ℓ κ} : {A : Type ℓ} {B : Type κ} (r : Option (A × B)) → (r >>= λ x. some (x.0, x.1)) ≡ r
bind_some none = refl
bind_some (some x) = refl

module _ {A : App} where
  abbrev act : Config → Hardware A → Bool → Bool → Locals A → Option (Locals A × List (Output A))
  act cfg hw do_recv was_empty l =
      if do_recv then receive_branch hw l else send_branch cfg (adequate l.ctxt.host) was_empty l

  after_wait_lem :
      (cfg : Config) (hw : Hardware A) (want was_empty : Bool) (l : Locals A)
      → cfg.enable_send_over_recv ≡ false
      → adequate l.ctxt.host ≡ true
      → after_wait cfg hw want was_empty l ≡ act cfg hw hw.woken_can_recv was_empty l
  unfolding after_wait
  after_wait_lem cfg hw want was_empty l first room =
      ap
        (λ r. r >>= λ x.
          (let k : Locals A = record l { ctxt = with_host l.ctxt x.0 } in
            (if (if cfg.enable_send_over_recv
                then not (hw.woken_can_send && want)
                else hw.woken_can_recv && adequate x.0)
              then receive_branch hw k
              else send_branch cfg (adequate x.0) was_empty k)
            >>= λ y. some (y.0, x.1 ++ y.1)))
        (make_room_none cfg l.ctxt.host room)
      ∙ ap
          (λ b.
            (if (if b
                then not (hw.woken_can_send && want)
                else hw.woken_can_recv && adequate l.ctxt.host)
              then receive_branch hw l
              else send_branch cfg (adequate l.ctxt.host) was_empty l)
            >>= λ y. some (y.0, y.1))
          first
      ∙ bind_some _
      ∙ ap (λ b. act cfg hw (hw.woken_can_recv && b) was_empty l) room
      ∙ ap (λ b. act cfg hw b was_empty l) (and_true hw.woken_can_recv)
    where
      and_true : (b : Bool) → (b && true) ≡ b
      and_true true = refl
      and_true false = refl

  wait_lem :
      (cfg : Config) (hw : Hardware A) (want was_empty : Bool) (l : Locals A)
      → (cfg.enable_hardware_idle && (not want && hw.idle)) ≡ false
      → wait cfg hw want was_empty l ≡ after_wait cfg hw want was_empty l
  unfolding wait
  wait_lem cfg hw want was_empty l no_idle =
      ap
        (λ b.
          if b
          then (softswitch_on_hardware_idle l.ctxt >>= λ c. some (record l { ctxt = c }, []))
          else after_wait cfg hw want was_empty l)
        no_idle

  main_round_lem :
      (cfg : Config) (hw : Hardware A) (l : Locals A)
      → (not hw.can_recv && (not (want_to_send l) || not hw.can_send)) ≡ false
      → main_round cfg hw l ≡ wait cfg hw (want_to_send l) (host_empty l.ctxt.host) l
  unfolding main_round
  main_round_lem cfg hw l busy =
      ap
        (λ b.
          if b
          then (softswitch_on_idle l.ctxt >>= λ x.
              if x.1
              then some (record l { ctxt = x.0 }, [])
              else wait cfg hw (want_to_send l) (host_empty l.ctxt.host) (record l { ctxt = x.0 }))
          else wait cfg hw (want_to_send l) (host_empty l.ctxt.host) l)
        busy

  round_lem :
      (cfg : Config) (hw : Hardware A) (l : Locals A)
      → IsDefault cfg
      → adequate l.ctxt.host ≡ true
      → (not hw.can_recv && (not (want_to_send l) || not hw.can_send)) ≡ false
      → (cfg.enable_hardware_idle && (not (want_to_send l) && hw.idle)) ≡ false
      → main_round cfg hw l ≡ act cfg hw hw.woken_can_recv (host_empty l.ctxt.host) l
  round_lem cfg hw l d room busy awake =
      main_round_lem cfg hw l busy
      ∙ wait_lem cfg hw (want_to_send l) (host_empty l.ctxt.host) l awake
      ∙ after_wait_lem cfg hw (want_to_send l) (host_empty l.ctxt.host) l d.recv_first room

  -- In a round of the default build in which a packet waits, with room in the host buffer, the
  -- packet is received and nothing is sent, unless the hardware says that all threads are idle.
  main_round-receives :
      (cfg : Config) (hw : Hardware A) (l : Locals A) (c : PThreadContext A)
      → IsDefault cfg
      → adequate l.ctxt.host ≡ true
      → hw.can_recv ≡ true
      → hw.woken_can_recv ≡ true
      → hw.idle ≡ false
      → softswitch_on_receive l.ctxt hw.incoming ≡ some c
      → main_round cfg hw l ≡ some (record l { ctxt = c }, [])
  unfolding receive_branch
  main_round-receives cfg hw l c d room waiting still awake e =
      round_lem cfg hw l d room
        (ap (λ b. not b && (not (want_to_send l) || not hw.can_send)) waiting)
        (not_idle cfg.enable_hardware_idle (want_to_send l) hw.idle awake)
      ∙ ap (λ b. act cfg hw b (host_empty l.ctxt.host) l) still
      ∙ ap (λ r. r >>= λ k. some (record l { ctxt = k }, [])) e
    where
      not_idle : (f w i : Bool) → i ≡ false → (f && (not w && i)) ≡ false
      not_idle f w i e = ground arith

  -- A round in which the mailbox can send and has nothing to receive goes on with a send, whenever
  -- there is something to send.
  round_sends :
      (cfg : Config) (hw : Hardware A) (l : Locals A)
      → IsDefault cfg
      → adequate l.ctxt.host ≡ true
      → want_to_send l ≡ true
      → hw.can_send ≡ true
      → hw.woken_can_recv ≡ false
      → main_round cfg hw l ≡ send_branch cfg (adequate l.ctxt.host) (host_empty l.ctxt.host) l
  round_sends cfg hw l d room want can nothing =
      round_lem cfg hw l d room (busy hw.can_recv (want_to_send l) hw.can_send want can)
        (not_idle cfg.enable_hardware_idle (want_to_send l) hw.idle want)
      ∙ ap (λ b. act cfg hw b (host_empty l.ctxt.host) l) nothing
    where
      busy : (r w s : Bool) → w ≡ true → s ≡ true → (not r && (not w || not s)) ≡ false
      busy r w s e f = ground arith

      not_idle : (f w i : Bool) → w ≡ true → (f && (not w && i)) ≡ false
      not_idle f w i e = ground arith

  -- In a round of the default build in which the mailbox can send and has nothing to receive, with
  -- room in the host buffer and a message waiting in it, the oldest message for the host is sent,
  -- and nothing but the buffer changes.
  main_round-host_first :
      (cfg : Config) (hw : Hardware A) (l : Locals A)
      → IsDefault cfg
      → adequate l.ctxt.host ≡ true
      → IsHostBuffer l.ctxt.host
      → 0 < host_msg_buffer_size l.ctxt.host
      → hw.can_send ≡ true
      → hw.woken_can_recv ≡ false
      → (m : HostMsg) × (b : HostBuffer) × (main_round cfg hw l
          ≡ some (record l { ctxt = with_host l.ctxt b }, Output.buffered_to_host m ∷ []))
        × (contents l.ctxt.host ≡ m ∷ contents b)
  unfolding want_to_send send_branch
  main_round-host_first cfg hw l d room q some_left can nothing =
      let (q', e) = host_message_buffer_pop_send-contents l.ctxt.host q some_left in
      let occupied : host_empty l.ctxt.host ≡ false = ground arith in
      (
        (host_message_buffer_pop_send l.ctxt.host).1,
        (host_message_buffer_pop_send l.ctxt.host).0,
        round_sends cfg hw l d room
              (wanted (ltb 0 l.curr_send_todo) (softswitch_is_rts_ready l.ctxt)
                (host_empty l.ctxt.host) occupied)
              can nothing
            ∙ ap (λ b. send_branch cfg (adequate l.ctxt.host) b l) occupied,
        e,
      )
    where
      wanted : (t r e : Bool) → e ≡ false → (t || (r || not e)) ≡ true
      wanted t r e f = ground arith

  -- In a round of the default build in which the mailbox can send and has nothing to receive, with
  -- no message for the host waiting, a packet in progress goes to the next of its targets and stays
  -- owed to the others, and the thread's context is left alone.
  pub main_round-forwards :
      (cfg : Config) (hw : Hardware A) (l : Locals A) (a : Address) (ts : List Address)
      → IsDefault cfg
      → IsHostBuffer l.ctxt.host
      → host_msg_buffer_size l.ctxt.host ≡ 0
      → IsForwarding l (a ∷ ts)
      → hw.can_send ≡ true
      → hw.woken_can_recv ≡ false
      → (l' : Locals A) × (main_round cfg hw l
          ≡ some (l', Output.to_thread a.thread (packet_to l a) l.curr_size ∷ []))
        × IsForwarding l' ts
        × (l'.ctxt ≡ l.ctxt)
  unfolding want_to_send
  main_round-forwards cfg hw l a ts d q empty f can nothing =
      let (n, bound, space, room_) = host_msg_buffer_size-contents l.ctxt.host q in
      let room : adequate l.ctxt.host ≡ true = ground arith in
      let vacant : host_empty l.ctxt.host ≡ true = ground arith in
      let todo = f.todo in
      let some_todo : ltb 0 l.curr_send_todo ≡ true = ground arith in
      let (l', e, f', kept, same) =
        send_branch-owed cfg (adequate l.ctxt.host) l a ts d.no_intra f in
      (
        l',
        round_sends cfg hw l d room
              (wanted (ltb 0 l.curr_send_todo)
                (softswitch_is_rts_ready l.ctxt || not (host_empty l.ctxt.host)) some_todo)
              can nothing
            ∙ ap (λ b. send_branch cfg (adequate l.ctxt.host) b l) vacant
            ∙ e,
        f',
        same,
      )
    where
      wanted : (t r : Bool) → t ≡ true → (t || r) ≡ true
      wanted t r f = ground arith
