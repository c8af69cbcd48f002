-- ===== src/Main/Forward.antt =====
-- A prepared message goes to every one of its targets, once, in the order of the list.
use toy_softswitch.Prelude.{
  ℕ, zero, suc, ◌-◌, ◌<◌, ◌≡◌, refl, ap, ◌∙◌, Bool, true, false, Option, some, List, [], ◌∷◌, ◌++◌,
  map, arith, ltb, ◌==◌, if◌then◌else◌, ◌>>=◌, length,
}
use toy_softswitch.Context.{App, Address, PThreadContext}
use toy_softswitch.Receive.{softswitch_on_receive}
use toy_softswitch.Main.{
  Config, Hardware, Locals, Output, packet_to, with_dest, forward_message, send_branch,
  receive_branch, send_to, send_app, prepare_message,
}

module _ {A : App} where
  -- The packets that the message in progress is still to be sent in.
  abbrev pub owed : Locals A → List Address → List (Output A)
  owed l ts = map (λ a. Output.to_thread a.thread (packet_to l a) l.curr_size) ts

  -- A message for other devices is in progress, and `ts` are the addresses that it is still owed.
  pub record IsForwarding (l : Locals A) (ts : List Address) : Type 0 where
    pub todo : l.curr_send_todo ≡ length ts
    pub normal : l.is_app ≡ 0
    pub rest : List Address
    pub targets : l.curr_send_address_list ≡ some (ts ++ rest)

  -- The locals after a packet went to `a`.
  abbrev forwarded : Locals A → Address → Option (List Address) → Locals A
  forwarded l a rest = record l {
    send_buffer = with_dest l a;
    curr_send_address_list = rest;
    curr_send_todo = l.curr_send_todo - 1;
  }

  pub send_to_lem :
      (cfg : Config) (room : Bool) (l : Locals A) (a : Address) (ts : List Address)
      → cfg.enable_intra_thread_send ≡ false
      → send_to cfg room l (some (a ∷ ts))
        ≡ some (forwarded l a (some ts), Output.to_thread a.thread (packet_to l a) l.curr_size ∷ [])
  unfolding send_to
  send_to_lem cfg room l a ts no_intra = rw no_intra refl

  send_branch_lem :
      (cfg : Config) (room : Bool) (l : Locals A)
      → l.is_app ≡ 0
      → 0 < l.curr_send_todo
      → send_branch cfg room true l ≡ send_to cfg room l l.curr_send_address_list
  unfolding send_branch forward_message
  send_branch_lem cfg room l normal more =
      let busy : l.curr_send_todo == 0 ≡ false = ground arith in
      let some_todo : ltb 0 l.curr_send_todo ≡ true = ground arith in
      let to_device : l.is_app == 0 ≡ true = ground arith in
      ap (λ b. (if b then prepare_message l else some l) >>= λ k. forward_message cfg room k) busy
      ∙ ap
          (λ b.
            if b
            then if l.is_app == 0
              then send_to cfg room l l.curr_send_address_list
              else send_app cfg l
            else some (l, []))
          some_todo
      ∙ ap (λ b. if b then send_to cfg room l l.curr_send_address_list else send_app cfg l)
          to_device

  -- One send: the first address gets its packet, and no other is forgotten.
  pub send_branch-owed :
      (cfg : Config) (room : Bool) (l : Locals A) (a : Address) (ts : List Address)
      → cfg.enable_intra_thread_send ≡ false
      → IsForwarding l (a ∷ ts)
      → (l' : Locals A) × (send_branch cfg room true l
          ≡ some (l', Output.to_thread a.thread (packet_to l a) l.curr_size ∷ []))
        × IsForwarding l' ts
        × (owed l' ts ≡ owed l ts)
        × (l'.ctxt ≡ l.ctxt)
  send_branch-owed cfg room l a ts no_intra f =
      let todo = f.todo in
      (
        forwarded l a (some (ts ++ f.rest)),
        send_branch_lem cfg room l f.normal (omega (arith, todo))
            ∙ ap (send_to cfg room l) f.targets
            ∙ send_to_lem cfg room l a (ts ++ f.rest) no_intra,
        record { todo = omega (arith, todo); normal = f.normal; rest = f.rest; targets = refl },
        refl,
        refl,
      )

  -- `n` rounds of the send branch, with nothing for the host.
  abbrev pub send_rounds : ℕ → Config → Locals A → Option (Locals A × List (Output A))
  send_rounds zero cfg l = some (l, [])
  send_rounds (suc n) cfg l = do
    (l, out) ← send_branch cfg true true l
    (l, more) ← send_rounds n cfg l
    some (l, out ++ more)

  -- In a build without sends inside the thread, a packet in progress with targets ts is done after
  -- as many sends as it has targets: each target gets one packet, in the order of the list, with
  -- its address as the destination, and the thread's context is left alone.
  pub send_rounds-owed :
      (cfg : Config) (ts : List Address) (l : Locals A)
      → cfg.enable_intra_thread_send ≡ false
      → IsForwarding l ts
      → (l' : Locals A) × (send_rounds (length ts) cfg l ≡ some (l', owed l ts))
        × (l'.curr_send_todo ≡ 0)
        × (l'.ctxt ≡ l.ctxt)
  send_rounds-owed cfg [] l no_intra f = (l, refl, f.todo, refl)
  send_rounds-owed cfg (a ∷ ts) l no_intra f =
      let (l', e, f', kept, same) = send_branch-owed cfg true l a ts no_intra f in
      let (l'', e', done, same') = send_rounds-owed cfg ts l' no_intra f' in
      (
        l'',
        ap (λ r. r >>= λ x. send_rounds (length ts) cfg x.0 >>= λ y. some (y.0, x.1 ++ y.1)) e
            ∙ ap
                (λ r. r >>= λ y.
                  some (y.0, Output.to_thread a.thread (packet_to l a) l.curr_size ∷ y.1))
                e'
            ∙ ap (λ o. some (l'', Output.to_thread a.thread (packet_to l a) l.curr_size ∷ o)) kept,
        done,
        same' ∙ same,
      )

  -- A packet that is received while another is in progress changes nothing of what that one is
  -- owed, and sends nothing.
  receive_branch-owed :
      (hw : Hardware A) (l : Locals A) (c : PThreadContext A) (ts : List Address)
      → IsForwarding l ts
      → softswitch_on_receive l.ctxt hw.incoming ≡ some c
      → (l' : Locals A) × (receive_branch hw l ≡ some (l', []))
        × IsForwarding l' ts
        × (owed l' ts ≡ owed l ts)
        × (l'.ctxt ≡ c)
  unfolding receive_branch
  receive_branch-owed hw l c ts f e = (
    record l { ctxt = c },
    ap (λ r. r >>= λ k. some (record l { ctxt = k }, [])) e,
    record { todo = f.todo; normal = f.normal; rest = f.rest; targets = f.targets },
    refl,
    refl,
  )
