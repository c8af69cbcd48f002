-- ===== src/Main/Thread.antt =====
-- What every operation of the main loop keeps of a thread's context.
use toy_softswitch.Prelude.{
  ℕ, ◌%◌, ◌<◌, ◌≤◌, ◌≡◌, ◌≢◌, ◌⊎◌, refl, ap, sym, subst, ◌∙◌, Bool, true, Option, some, List, [],
  ◌∷◌, arith, ◌==◌, inl, inr, Bool-cases, length, get_elem?, has, Yields, Yields_mono, ==_self,
}
use toy_softswitch.Context.{
  App, Address, DeviceContext, InputPinVTable, InputPinBinding, OutputPinVTable, OutputPinTargets,
  PThreadContext,
}
use toy_softswitch.Context.Host.{HostBuffer}
use toy_softswitch.Rts.Update.{Tracks}
use toy_softswitch.Rts.Handler.{AfterHandler, Tracks-same}
use toy_softswitch.Send.{Packet, Buffer, Prepared, softswitch_on_send}
use toy_softswitch.Send.Message.{handled, repolled, IsMessage, AfterSend}
use toy_softswitch.Send.Rotation.{softswitch_on_send-IsMessage, softswitch_on_send_empty}
use toy_softswitch.Receive.{find_edge, softswitch_on_receive}
use toy_softswitch.Receive.Delivery.{
  softswitch_on_receive-AfterHandler, softswitch_on_receive_external,
}
use toy_softswitch.Idle.Sweep.{IsSweptBut, IsSwept}
use toy_softswitch.Idle.Progress.{polled-IsSwept, AfterHandler-IsSwept, Idled, Outcome}
use toy_softswitch.Idle.Sweep.{moved}
use toy_softswitch.Host.Queue.{IsHostBuffer}
use toy_softswitch.Main.Sound.{
  Answers, AllSound, IsSound-unlinked, changed-AllSound, AfterHandler-AllSound,
}

-- The list holds the ready devices, the sweep has missed none that wants to compute, the host
-- buffer's indices are within it, and every device can be served.
pub record IsThread {A : App} (c : PThreadContext A) : Type 0 where
  pub listed : List ℕ
  pub tracks : Tracks c listed
  pub swept : IsSwept c
  pub host : IsHostBuffer c.host
  pub sound : AllSound c

-- What is left of a message: nothing, targets enough for its count, or one message to the host.
abbrev pub Sending : ℕ → ℕ → Option (List Address) → Type 0
Sending todo app list =
    (todo ≡ 0)
    ⊎ ((app ≡ 0) × ((ts : List Address) × (list ≡ some ts) × (todo ≤ length ts)))
    ⊎ (app ≢ 0)

module _ {A : App} where
  -- Device and pin of a packet are there, and so is the edge that its pin may need.
  pub data Deliverable (c : PThreadContext A) (m : Packet A) : Type 0 where
    external :
        m.dest.device < c.num_devices
        → (c.devices m.dest.device).is_external % 256 ≢ 0
        → Deliverable c m
    own :
        (pin : InputPinVTable A) (edge : Option (ℕ × InputPinBinding A))
        → m.dest.device < c.num_devices
        → (c.devices m.dest.device).is_external % 256 ≡ 0
        → get_elem? (c.devices m.dest.device).vtable.input_pins m.dest.pin ≡ some pin
        → find_edge (c.devices m.dest.device) m.dest.pin pin m.source ≡ some edge
        → Deliverable c m

  but_of : (c : PThreadContext A) (i : ℕ) → IsSwept c → IsSweptBut c i
  but_of c i s = record {
    offset = s.offset;
    few = s.few;
    waiting = λ j h ne w. s.waiting j h (ground arith) w;
  }

  pub AfterHandler-IsThread :
      (c c' : PThreadContext A) (i : ℕ) (d : DeviceContext A) (xs : List ℕ)
      → IsSwept c
      → IsHostBuffer c.host
      → AllSound c
      → Answers d
      → AfterHandler c i d xs c'
      → IsThread c'
  AfterHandler-IsThread c c' i d xs s q v al a = record {
    listed = _;
    tracks = a.tracks;
    swept = AfterHandler-IsSwept c c' i d xs (but_of c i s) a;
    host = subst IsHostBuffer (sym a.host) q;
    sound = AfterHandler-AllSound c c' i d xs v al a;
  }

  pub softswitch_on_receive-IsThread :
      (c : PThreadContext A) (m : Packet A)
      → IsThread c
      → Deliverable c m
      → Yields (softswitch_on_receive c m) IsThread
  softswitch_on_receive-IsThread c m t (Deliverable.external h e) =
      rw (softswitch_on_receive_external c m h e) t
  softswitch_on_receive-IsThread c m t (Deliverable.own pin edge h e its found) =
      Yields_mono (softswitch_on_receive c m)
        (softswitch_on_receive-AfterHandler c m pin edge t.listed t.tracks h e its found)
        λ c' a.
          AfterHandler-IsThread c c' m.dest.device _ t.listed t.swept t.host t.sound
            (t.sound m.dest.device h).always a

  pub Outcome-IsThread :
      (c c' : PThreadContext A) (more : Bool)
      → (t : IsThread c) → Idled c t.listed (c', more)
      → IsThread c'
  Outcome-IsThread c c' more t (s, (ys, q), o) = record {
    listed = ys;
    tracks = q;
    swept = s;
    host = subst IsHostBuffer (sym (kept more o)) t.host;
    sound = served more o;
  }
    where
      kept : (more : Bool) → Outcome c t.listed c' more → c'.host ≡ c.host
      kept _ (Outcome.finished e quiet) = ap (λ k. k.host) e
      kept _ (Outcome.searching e) = ap (λ k. k.host) e
      kept _ (Outcome.ran o k i h w e its a) = a.host

      served : (more : Bool) → Outcome c t.listed c' more → AllSound c'
      served _ (Outcome.finished e quiet) = subst AllSound (sym e) t.sound
      served _ (Outcome.searching e) = subst AllSound (sym e) (λ i h. t.sound i h)
      served _ (Outcome.ran o k i h w e its a) =
          AfterHandler-AllSound (moved c o k) c' i _ t.listed (λ j q. t.sound j q)
            (t.sound i w).always a

  AfterSend-IsThread :
      (c c' : PThreadContext A) (y : ℕ) (ys : List ℕ) (pin : OutputPinVTable A) (m : Buffer A)
      → IsSwept c
      → IsHostBuffer c.host
      → AllSound c
      → y < c.num_devices
      → AfterSend c y ys (c.devices y) pin m c'
      → IsThread c'
  AfterSend-IsThread c c' y ys pin m s q v h a = record {
    listed = _;
    tracks = a.tracks;
    swept =
        polled-IsSwept c c' y _ (but_of c y s) a.size a.offset a.checked
          (ap (λ d. d.rts_flags) a.device) (λ j ne. ap (λ d. d.rts_flags) (a.others j ne));
    host = subst IsHostBuffer (sym a.host) q;
    sound =
        changed-AllSound c c' y a.size v
          (IsSound-unlinked
            (record (c.devices y) {
              state = (repolled c.graph_props (c.devices y) pin m).0;
              rts_flags = (repolled c.graph_props (c.devices y) pin m).1;
            })
            (c'.devices y) a.device
            (record {
              now =
                  (v y h).always c.graph_props (c.devices y).properties
                    (handled c.graph_props (c.devices y) pin m).0;
              always = (v y h).always;
            }))
          a.others;
  }

  IsMessage-Sending :
      (g : A.GraphProps) (tid : ℕ) (d : DeviceContext A) (k : ℕ) (pin : OutputPinVTable A)
      (t : OutputPinTargets) (m : Buffer A) (r : Prepared A)
      → t.num_targets ≤ length t.targets
      → IsMessage g tid d k pin t m r
      → Sending r.num_targets r.is_app r.targets
  IsMessage-Sending g tid d k pin t m r h i = elim (Bool-cases (handled g d pin m).2) [
    | inl send ↦ elim (Bool-cases (pin.is_app == 0)) [
      | inl normal ↦
          let w = i.multicast send (ground arith) in
          inr (inl (w.2, (t.targets, w.1, subst (λ n. n ≤ length t.targets) (sym w.0) h)))
      | inr host ↦
          let w = i.to_host send (λ e. ground arith) in
          let one = w.2 in inr (inr (λ e. omega arith))
    ]
    | inr decline ↦ inl (i.declined decline)
  ]

  pub softswitch_on_send-IsThread :
      (c : PThreadContext A) (m : Buffer A) (app : ℕ) (xs : List ℕ)
      → Tracks c xs
      → IsThread c
      → Yields
          (softswitch_on_send c m app)
          (λ r. IsThread r.context × Sending r.num_targets r.is_app r.targets)
  softswitch_on_send-IsThread c m app [] q t = rw (softswitch_on_send_empty c m app q) (t, inl refl)
  softswitch_on_send-IsThread c m app (y ∷ ys) q t =
      let on : has y (y ∷ ys) ≡ true = ground (arith, ==_self y) in
      let h = q.list.bounded.0 in
      let v = (t.sound y h).now.sends (sym (q.ready y h) ∙ on) in
      Yields_mono (softswitch_on_send c m app)
        (softswitch_on_send-IsMessage c y v.pin_index ys v.pin v.targets m app q v.lowest v.its
          v.goes)
        λ r (i, a). (
          AfterSend-IsThread c r.context y ys v.pin m t.swept t.host t.sound h a,
          IsMessage-Sending c.graph_props c.thread_id (c.devices y) v.pin_index v.pin v.targets m r
              v.listed i,
        )

  -- The notes for logging and the host buffer stand apart from the rest.
  pub IsThread-noted :
      (c : PThreadContext A) (n : ℕ) → IsThread c → IsThread (record c { current_size = n })
  IsThread-noted c n t = record {
    listed = t.listed;
    tracks = Tracks-same c _ t.listed t.tracks (λ j. (refl, refl, refl)) refl refl refl;
    swept = record { offset = t.swept.offset; few = t.swept.few; waiting = t.swept.waiting };
    host = t.host;
    sound = λ i h. t.sound i h;
  }

  pub IsThread-host :
      (c : PThreadContext A) (b : HostBuffer)
      → IsHostBuffer b
      → IsThread c
      → IsThread (record c { host = b })
  IsThread-host c b q t = record {
    listed = t.listed;
    tracks = Tracks-same c _ t.listed t.tracks (λ j. (refl, refl, refl)) refl refl refl;
    swept = record { offset = t.swept.offset; few = t.swept.few; waiting = t.swept.waiting };
    host = q;
    sound = λ i h. t.sound i h;
  }
