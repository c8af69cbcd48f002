-- ===== src/Main/Invariant.antt =====
-- Every round keeps the thread in order.
use toy_softswitch.Prelude.{
  ◌≡◌, refl, sym, subst, Bool, true, false, not, ◌&&◌, ◌||◌, some, [], arith, if◌then◌else◌, ◌>>=◌,
  Yields, Yields_bind, none, inl, inr, Bool-cases, ltb,
}
use toy_softswitch.Context.{App, PThreadContext}
use toy_softswitch.Context.Host.{HostBuffer}
use toy_softswitch.Idle.{softswitch_on_idle, softswitch_on_hardware_idle}
use toy_softswitch.Rts.{softswitch_is_rts_ready}
use toy_softswitch.Rts.Queue.{softswitch_is_rts_ready-false}
use toy_softswitch.Idle.Progress.{Idled, Outcome, softswitch_on_idle-Idled}
use toy_softswitch.Host.Queue.{IsHostBuffer}
use toy_softswitch.Main.{
  Config, Hardware, Locals, adequate, host_empty, with_host, want_to_send, make_room, send_branch,
  receive_branch, after_wait, wait, main_round,
}
use toy_softswitch.Main.Room.{make_room-adequate}
use toy_softswitch.Main.HardwareIdle.{softswitch_on_hardware_idle-IsThread}
use toy_softswitch.Main.Sound.{AllSound-CanCompute}
use toy_softswitch.Main.Thread.{Deliverable, Outcome-IsThread, IsThread-host}
use toy_softswitch.Main.Inside.{Allows, with_host-Allows}
use toy_softswitch.Main.Message.{IsLoop, Loops, send_branch-IsLoop, receive_branch-IsLoop}

module _ {A : App} where
  -- What a packet asks of a context does not depend on the host buffer.
  Deliverable-host :
      (c : PThreadContext A) (b : HostBuffer) (hw : Hardware A)
      → Deliverable c hw.incoming
      → Deliverable (with_host c b) hw.incoming
  Deliverable-host c b hw (Deliverable.external h e) = Deliverable.external h e
  Deliverable-host c b hw (Deliverable.own pin edge h e its found) =
      Deliverable.own pin edge h e its found

  -- A build that prefers sending takes it that the wait ends with a packet unless it can send.
  abbrev pub Wakes : Config → Hardware A → Bool → Type 0
  Wakes cfg hw want =
      cfg.enable_send_over_recv ≡ true
      → not (hw.woken_can_send && want) ≡ true
      → hw.woken_can_recv ≡ true

  after_wait-IsLoop :
      (cfg : Config) (hw : Hardware A) (want was_empty : Bool) (l : Locals A)
      → Allows cfg l
      → Wakes cfg hw want
      → IsLoop l
      → (hw.woken_can_recv ≡ true → Deliverable l.ctxt hw.incoming)
      → Yields (after_wait cfg hw want was_empty l) Loops
  unfolding after_wait
  after_wait-IsLoop cfg hw want was_empty l d wake k p =
      Yields_bind (make_room cfg l.ctxt.host) _ Loops room λ (b, drained) q.
        Yields_bind
          (if (if cfg.enable_send_over_recv
              then not (hw.woken_can_send && want)
              else hw.woken_can_recv && adequate b)
            then receive_branch hw (record l { ctxt = with_host l.ctxt b })
            else send_branch cfg (adequate b) was_empty (record l { ctxt = with_host l.ctxt b }))
          _ Loops (act b q) λ x k'. k'
    where
      room : Yields (make_room {A = A} cfg l.ctxt.host) (λ x. IsHostBuffer x.0)
      room =
          let (b', ms, e, q, space, c) = make_room-adequate cfg l.ctxt.host k.thread.host in
          subst (λ r. Yields r (λ x. IsHostBuffer x.0)) (sym e) q

      branch :
          (b : HostBuffer) (do_recv : Bool)
          → IsHostBuffer b
          → (do_recv ≡ true → hw.woken_can_recv ≡ true)
          → Yields
              (if do_recv
                then receive_branch hw (record l { ctxt = with_host l.ctxt b })
                else send_branch cfg
                    (adequate b)
                    was_empty
                    (record l { ctxt = with_host l.ctxt b }))
              Loops
      branch b true q can =
          receive_branch-IsLoop hw (record l { ctxt = with_host l.ctxt b })
            (record { thread = IsThread-host l.ctxt b q k.thread; sending = k.sending })
            (Deliverable-host l.ctxt b hw (p (can refl)))
      branch b false q can =
          send_branch-IsLoop cfg (adequate b) was_empty (record l { ctxt = with_host l.ctxt b })
            (with_host-Allows cfg l b d)
            (record { thread = IsThread-host l.ctxt b q k.thread; sending = k.sending })

      act :
          (b : HostBuffer)
          → IsHostBuffer b
          → Yields
              (if (if cfg.enable_send_over_recv
                  then not (hw.woken_can_send && want)
                  else hw.woken_can_recv && adequate b)
                then receive_branch hw (record l { ctxt = with_host l.ctxt b })
                else send_branch cfg
                    (adequate b)
                    was_empty
                    (record l { ctxt = with_host l.ctxt b }))
              Loops
      act b q =
          branch b
            (if cfg.enable_send_over_recv
              then not (hw.woken_can_send && want)
              else hw.woken_can_recv && adequate b)
            q
            (received cfg.enable_send_over_recv hw.woken_can_recv (adequate b)
              (not (hw.woken_can_send && want)) wake)
        where
          received :
              (f r a s : Bool)
              → (f ≡ true → s ≡ true → r ≡ true)
              → (if f then s else r && a) ≡ true
              → r ≡ true
          received true r a s e t = e refl t
          received false r a s e t = ground arith

  wait-IsLoop :
      (cfg : Config) (hw : Hardware A) (want was_empty : Bool) (l : Locals A)
      → Allows cfg l
      → Wakes cfg hw want
      → (want ≡ false → l.ctxt.rts_head ≡ none)
      → IsLoop l
      → (hw.woken_can_recv ≡ true → Deliverable l.ctxt hw.incoming)
      → Yields (wait cfg hw want was_empty l) Loops
  unfolding wait
  wait-IsLoop cfg hw want was_empty l d wake empty k p =
      elim (Bool-cases (cfg.enable_hardware_idle && (not want && hw.idle))) [
        | inl all_idle ↦ rw all_idle (
            Yields_bind (softswitch_on_hardware_idle l.ctxt) _ Loops
              (softswitch_on_hardware_idle-IsThread l.ctxt k.thread
                (empty (unwanted cfg.enable_hardware_idle want hw.idle all_idle)))
              λ c t. record { thread = t; sending = k.sending })
        | inr awake ↦ rw awake (after_wait-IsLoop cfg hw want was_empty l d wake k p)
      ]
    where
      unwanted : (f w i : Bool) → (f && (not w && i)) ≡ true → w ≡ false
      unwanted f w i e = ground arith

  -- A thread that does not want to send has no device on the list.
  nothing_listed : (l : Locals A) → want_to_send l ≡ false → l.ctxt.rts_head ≡ none
  unfolding want_to_send
  nothing_listed l e = softswitch_is_rts_ready-false l.ctxt (
      quiet (ltb 0 l.curr_send_todo) (softswitch_is_rts_ready l.ctxt) (not (host_empty l.ctxt.host))
        e)
    where
      quiet : (t r h : Bool) → (t || (r || h)) ≡ false → r ≡ false
      quiet t r h e = ground arith

  -- In a build without sends inside the thread, or with them on a thread that allows it, with
  -- hardware idle or without, from a thread in order, and with a waiting packet, if any, that names
  -- a device and a pin that are there, a round of the main loop is defined, whatever the mailbox
  -- answers; where sending is preferred, a wait that ends without room to send must have a packet.
  -- The round leaves the thread in order: the list holds exactly the ready devices, the sweep has
  -- missed none that wants to compute, the host buffer's indices are within it, the pins and
  -- compute handlers that devices ask for are there, and a message in progress has an address for
  -- each of its sends to come. A thread allows sends inside it whose loop has the wires of a base
  -- context: there every target that names the thread names a device and an input pin that are
  -- there, with an edge where the pin needs one, and no output pin sends to the host; and the
  -- message in progress goes along these wires.
  pub main_round-IsLoop :
      (cfg : Config) (hw : Hardware A) (l : Locals A)
      → Allows cfg l
      → Wakes cfg hw (want_to_send l)
      → IsLoop l
      → (hw.woken_can_recv ≡ true → Deliverable l.ctxt hw.incoming)
      → Yields (main_round cfg hw l) Loops
  unfolding main_round
  main_round-IsLoop cfg hw l d wake k p =
      choose (not hw.can_recv && (not (want_to_send l) || not hw.can_send))
    where
      waits : Yields (wait cfg hw (want_to_send l) (host_empty l.ctxt.host) l) Loops
      waits =
          wait-IsLoop cfg hw (want_to_send l) (host_empty l.ctxt.host) l d wake (nothing_listed l) k
            p

      go_on :
          (c : PThreadContext A) (more : Bool)
          → Idled l.ctxt k.thread.listed (c, more)
          → Yields
              (if more
                then some (record l { ctxt = c }, [])
                else wait cfg hw (want_to_send l) (host_empty l.ctxt.host) (record l { ctxt = c }))
              Loops
      go_on c true i = record {
        thread = Outcome-IsThread l.ctxt c true k.thread i;
        sending = k.sending;
      }
      go_on c false (s, t, Outcome.finished e quiet) =
          subst
            (λ x.
              Yields (wait cfg hw (want_to_send l) (host_empty l.ctxt.host) (record l { ctxt = x }))
                Loops)
            (sym e) waits

      choose :
          (b : Bool)
          → Yields
              (if b
                then (softswitch_on_idle l.ctxt >>= λ x.
                    if x.1
                    then some (record l { ctxt = x.0 }, [])
                    else wait cfg hw
                        (want_to_send l)
                        (host_empty l.ctxt.host)
                        (record l { ctxt = x.0 }))
                else wait cfg hw (want_to_send l) (host_empty l.ctxt.host) l)
              Loops
      choose true =
          Yields_bind (softswitch_on_idle l.ctxt) _ Loops
            (softswitch_on_idle-Idled l.ctxt k.thread.listed k.thread.tracks k.thread.swept
              (AllSound-CanCompute l.ctxt k.thread.sound))
            λ (c, more) i. go_on c more i
      choose false = waits
