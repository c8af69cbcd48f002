-- ===== src/Main/Message.antt =====
-- The two branches of a round keep the context and the message in progress in order.
use toy_softswitch.Prelude.{
  ap, sym, ◌∙◌, ◌-◌, ◌&&◌, get_elem?, Yields_mono, ◌<◌, ◌≤◌, ◌≡◌, refl, Bool, true, false, Option,
  some, List, [], ◌∷◌, arith, ltb, ◌==◌, if◌then◌else◌, inl, inr, Bool-cases, length, Yields,
  Yields_bind,
}
use toy_softswitch.Context.{App, Address}
use toy_softswitch.Send.{softswitch_on_send}
use toy_softswitch.Receive.{softswitch_on_receive}
use toy_softswitch.Host.Queue.{pop_send-IsHostBuffer}
use toy_softswitch.Main.{
  Config, Hardware, Locals, Output, forward_message, prepare_message, send_to, send_app,
  send_branch, receive_branch, packet_to,
}
use toy_softswitch.Wiring.{IsWire, listed, Yields-Always}
use toy_softswitch.Main.Wires.{Along, prepare_message-Along}
use toy_softswitch.Main.Inside.{Allows, SendsInside, Keeps-Deliverable}
use toy_softswitch.Main.Forward.{send_to_lem}
use toy_softswitch.Main.Thread.{
  IsThread, Deliverable, Sending, softswitch_on_receive-IsThread, softswitch_on_send-IsThread,
  IsThread-noted, IsThread-host,
}

-- Context and message in progress are in order.
pub record IsLoop {A : App} (l : Locals A) : Type 0 where
  pub thread : IsThread l.ctxt
  pub sending : Sending l.curr_send_todo l.is_app l.curr_send_address_list

module _ {A : App} where
  abbrev pub Loops : Locals A × List (Output A) → Type 0
  Loops (l, out) = IsLoop l

  -- A packet for a device of the thread itself is received at once, where there is room for what
  -- the handler may write to the host.
  send_inside-IsLoop :
      (cfg : Config) (room : Bool) (l : Locals A) (a : Address) (ts : List Address)
      → (s : SendsInside cfg l) → IsThread l.ctxt
      → l.is_app ≡ 0
      → l.curr_send_todo ≤ length (a ∷ ts)
      → IsWire s.base l.send_buffer.packet.source a
      → Yields (send_to cfg room l (some (a ∷ ts))) Loops
  unfolding send_to
  send_inside-IsLoop cfg room l a ts s t n h w =
      elim (Bool-cases
        (cfg.enable_intra_thread_send && ((a.thread == cfg.this_thread_id) && room))) [
          | inl inside ↦ rw inside (
              Yields_bind (softswitch_on_receive l.ctxt (packet_to l a)) _ Loops
                (softswitch_on_receive-IsThread l.ctxt (packet_to l a) t (
                  Keeps-Deliverable s.base l.ctxt (packet_to l a) s.along.0
                    (s.own.connected (packet_to l a) (ground arith) w)))
                λ c t'. record { thread = t'; sending = rest })
          | inr outside ↦ rw outside (record { thread = t; sending = rest })
        ]
    where
      rest : Sending (l.curr_send_todo - 1) l.is_app (some ts)
      rest = inr (inl (n, (ts, refl, omega arith)))

  send_to-IsLoop :
      (cfg : Config) (room : Bool) (l : Locals A) (list : Option (List Address)) (ts : List Address)
      → Allows cfg l
      → IsThread l.ctxt
      → l.is_app ≡ 0
      → 0 < l.curr_send_todo
      → list ≡ some ts
      → list ≡ l.curr_send_address_list
      → l.curr_send_todo ≤ length ts
      → Yields (send_to cfg room l list) Loops
  send_to-IsLoop cfg room l list [] d t n more e its h = absurd (omega arith)
  send_to-IsLoop cfg room l list (a ∷ ts) (inl d) t n more e its h =
      rw (e, send_to_lem cfg room l a ts d)
        (record { thread = t; sending = inr (inl (n, (ts, refl, omega arith))) })
  send_to-IsLoop cfg room l list (a ∷ ts) (inr s) t n more e its h = rw e (
      send_inside-IsLoop cfg room l a ts s t n h
        (s.along.1 0 a more n (ap (λ x. get_elem? (listed x) 0) (sym its ∙ e))))

  forward_message-IsLoop :
      (cfg : Config) (room : Bool) (l : Locals A)
      → Allows cfg l
      → IsLoop l
      → Yields (forward_message cfg room l) Loops
  unfolding forward_message send_app
  forward_message-IsLoop cfg room l d k = elim (Bool-cases (ltb 0 l.curr_send_todo)) [
    | inr done ↦ rw done k
    | inl more ↦ elim (Bool-cases (l.is_app == 0)) [
      | inl normal ↦ elim k.sending [
        | inl none_left ↦ absurd (ground arith)
        | inr (inl (n, (ts, e, h))) ↦
            rw (more, normal)
              (send_to-IsLoop cfg room l l.curr_send_address_list ts d k.thread n (ground arith) e
                refl h)
        | inr (inr app) ↦ absurd (ground arith)
      ]
      | inr app ↦ elim d [
        | inl off ↦ rw (more, app, off) (record { thread = k.thread; sending = inl refl })
        | inr s ↦ let z = s.along.2 s.own.no_apps in absurd (ground arith)
      ]
    ]
  ]

  prepare_message-IsLoop : (l : Locals A) → IsLoop l → Yields (prepare_message l) IsLoop
  unfolding prepare_message
  prepare_message-IsLoop l k =
      Yields_bind (softswitch_on_send l.ctxt l.send_buffer l.is_app) _ IsLoop
        (softswitch_on_send-IsThread l.ctxt l.send_buffer l.is_app k.thread.listed k.thread.tracks
          k.thread)
        λ p (t, s). record { thread = IsThread-noted p.context p.size t; sending = s }

  -- A new message goes along the same wires.
  prepare_message-Allows :
      (cfg : Config) (l : Locals A)
      → Allows cfg l
      → IsLoop l
      → Yields (prepare_message l) (λ l'. IsLoop l' × Allows cfg l')
  prepare_message-Allows cfg l (inl d) k =
      Yields_mono (prepare_message l) (prepare_message-IsLoop l k) λ l' k'. (k', inl d)
  prepare_message-Allows cfg l (inr s) k =
      Yields_mono (prepare_message l)
        (Yields-Always IsLoop (Along s.base) (prepare_message l) (prepare_message-IsLoop l k)
          (prepare_message-Along s.base l s.along))
        λ l' (k', a). (k', inr (record { base = s.base; own = s.own; along = a }))

  pub send_branch-IsLoop :
      (cfg : Config) (room was_empty : Bool) (l : Locals A)
      → Allows cfg l
      → IsLoop l
      → Yields (send_branch cfg room was_empty l) Loops
  unfolding send_branch
  send_branch-IsLoop cfg room false l d k = record {
    thread = IsThread-host l.ctxt _ (pop_send-IsHostBuffer l.ctxt.host k.thread.host) k.thread;
    sending = k.sending;
  }
  send_branch-IsLoop cfg room true l d k =
      Yields_bind (if l.curr_send_todo == 0 then prepare_message l else some l) _ Loops
        (chosen (l.curr_send_todo == 0)) λ l' (k', d'). forward_message-IsLoop cfg room l' d' k'
    where
      chosen :
          (b : Bool)
          → Yields (if b then prepare_message l else some l) (λ l'. IsLoop l' × Allows cfg l')
      chosen true = prepare_message-Allows cfg l d k
      chosen false = (k, d)

  pub receive_branch-IsLoop :
      (hw : Hardware A) (l : Locals A)
      → IsLoop l
      → Deliverable l.ctxt hw.incoming
      → Yields (receive_branch hw l) Loops
  unfolding receive_branch
  receive_branch-IsLoop hw l k h =
      Yields_bind (softswitch_on_receive l.ctxt hw.incoming) _ Loops
        (softswitch_on_receive-IsThread l.ctxt hw.incoming k.thread h)
        λ c t. record { thread = t; sending = k.sending }
