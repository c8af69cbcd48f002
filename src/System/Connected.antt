-- ===== src/System/Connected.antt =====
-- No thread of a system comes to a halt over a packet of another.
use toy_softswitch.Prelude.{
  ◌⊎◌, ℕ, ◌<◌, ◌≡◌, sym, subst, ◌∙◌, false, List, [], ◌∷◌, arith, ◌==◌, inl, inr, Bool-cases, All,
  append-All, Yields, update,
}
use toy_softswitch.Context.{App, PThreadContext}
use toy_softswitch.Send.{Packet, Buffer}
use toy_softswitch.Wiring.{NoApps, Always_at, IsWire}
use toy_softswitch.Main.{Config, Hardware, Locals, Output, main_round}
use toy_softswitch.Main.Thread.{Deliverable}
use toy_softswitch.Main.Message.{Loops}
use toy_softswitch.Main.Wires.{Sends, Goes, main_round-Goes}
use toy_softswitch.Main.Run.{Suits, Run-Along, Run, CanStart, IsFair, Run-defined}
use toy_softswitch.Main.Inside.{Keeps-Deliverable}
use toy_softswitch.System.{packets, WasSent, System, Possible, Reachable}

module _ {A : App} where
  -- Every wire from a thread to one of the threads ends at a device and a pin that are there.
  abbrev pub IsConnected : ℕ → (ℕ → PThreadContext A) → Type 0
  IsConnected n contexts =
      (t : ℕ) (m : Packet A)
      → t < n
      → m.dest.thread < n
      → IsWire (contexts t) m.source m.dest
      → Deliverable (contexts m.dest.thread) m

module _ {A : App} (cfg : ℕ → Config) (n : ℕ) (contexts : ℕ → PThreadContext A) where
  -- The packet went along a wire of some thread, to the thread that its address names.
  record Carried (p : ℕ × Packet A) : Type 0 where
    sender : ℕ
    within : sender < n
    named : p.1.dest.thread ≡ p.0
    wire : IsWire (contexts sender) p.1.source p.1.dest

  packets-Carried :
      (t : ℕ) (out : List (Output A))
      → t < n
      → All (Sends (contexts t)) out
      → All Carried (packets out)
  packets-Carried t [] h s = tt
  packets-Carried t (Output.to_thread to p size ∷ out) h ((named, wire), s) =
      (record { sender = t; within = h; named = named; wire = wire }, packets-Carried t out h s)
  packets-Carried t (Output.app_to_host m size ∷ out) h (_, s) = packets-Carried t out h s
  packets-Carried t (Output.buffered_to_host m ∷ out) h (_, s) = packets-Carried t out h s
  packets-Carried t (Output.over_uart bs ∷ out) h (_, s) = packets-Carried t out h s

  WasSent-Carried :
      (p : ℕ × Packet A) (qs : List (ℕ × Packet A)) → WasSent p qs → All Carried qs → Carried p
  WasSent-Carried p [] h c = absurd h
  WasSent-Carried p (q ∷ qs) (inl same) (c, cs) = subst Carried (sym same) c
  WasSent-Carried p (q ∷ qs) (inr later) (c, cs) = WasSent-Carried p qs later cs

  -- The build of thread `u` sends nothing inside the thread; or it has the thread's number, and no
  -- output pin of the thread sends to the host.
  abbrev Build : ℕ → Type 0
  Build u =
      ((cfg u).enable_intra_thread_send ≡ false)
      ⊎ (((cfg u).this_thread_id ≡ u) × NoApps (contexts u))

  Build-Suits : (u : ℕ) → u < n → IsConnected n contexts → Build u → Suits (cfg u) (contexts u)
  Build-Suits u h w (inl d) = inl d
  Build-Suits u h w (inr (id, plain)) = inr (record {
    connected = λ m to wire.
        let here = to ∙ id in
        subst (λ k. Deliverable (contexts k) m) here
          (w u m h (subst (λ k. k < n) (sym here) h) wire);
    no_apps = plain;
  })

  module _ (slots : ℕ → Buffer A) where
    record InOrder (s : System A) : Type 0 where
      runs : (t : ℕ) → t < n → Run (cfg t) (contexts t) (slots t) (s.threads t)
      carried : All Carried s.sent

    Possible-IsFair :
        (s : System A) (t : ℕ) (hw : Hardware A)
        → IsConnected n contexts
        → InOrder s
        → Possible cfg n s t hw
        → IsFair (cfg t) (s.threads t) hw
    Possible-IsFair s t hw w o p = record {
      wakes = p.wakes;
      packet = λ can.
          let c = WasSent-Carried (t, hw.incoming) s.sent (p.packet can) o.carried in
          let here = subst (λ k. k < n) (sym c.named) p.thread in
          let there =
            subst (λ k. Deliverable (contexts k) hw.incoming) c.named
              (w c.sender hw.incoming c.within here c.wire) in
          Keeps-Deliverable (contexts t) (s.threads t).ctxt hw.incoming
            (Run-Along (cfg t) (contexts t) (slots t) (s.threads t) (o.runs t p.thread)).0 there;
    }

    Reachable-InOrder :
        (s : System A) → IsConnected n contexts → Reachable cfg n contexts slots s → InOrder s
    Reachable-InOrder _ w (Reachable.started threads e) = record {
      runs = λ t h. Run.started (threads t) (e t h);
      carried = tt;
    }
    Reachable-InOrder _ w (Reachable.round s t hw l out r p e) =
        let o = Reachable-InOrder s w r in
        let goes =
          Always_at (Goes (contexts t)) (main_round (cfg t) hw (s.threads t)) (l, out)
            (main_round-Goes (contexts t) (cfg t) hw (s.threads t)
              (Run-Along (cfg t) (contexts t) (slots t) (s.threads t) (o.runs t p.thread)))
            e in
        record {
          runs = λ u h.
              updated (λ k x. Run (cfg k) (contexts k) (slots k) x) s.threads t u l
                (Run.round (s.threads t) l hw out (o.runs t p.thread) (Possible-IsFair s t hw w o p)
                  e)
                (o.runs u h);
          carried =
              append-All Carried s.sent (packets out) o.carried
                (packets-Carried t out p.thread goes.1);
        }
      where
        updated :
            (P : ℕ → Locals A → Type 0) (f : ℕ → Locals A) (t u : ℕ) (l : Locals A)
            → P t l
            → P u (f u)
            → P u (update f t l u)
        updated P f t u l new old = elim (Bool-cases (t == u)) [
          | inl here ↦ rw here (let same : t ≡ u = ground arith in subst (λ k. P k l) same new)
          | inr there ↦ rw there old
        ]

    -- Threads run softswitch_main, each in a build without sends inside the thread, or in one with
    -- them that has the number of the thread and a thread without an output pin to the host, with
    -- hardware idle or without, each started on a context whose ready-to-send handlers only ever
    -- ask for pins and compute handlers that their device types have, and whose sweep stands on a
    -- device and has checked none of fewer than 2^32 by a chunk. Every target of an output pin that
    -- names one of the threads names a device and an input pin there, and if that pin has
    -- properties or state, a search of its sources for the packet's source finds an edge. Packets
    -- that were sent arrive in any order, once, many times or never; where sending is preferred, a
    -- wait that ends without room to send ends with a packet. After any rounds of any threads in
    -- any order, the next round of every thread is defined, and leaves the thread in order.
    pub Reachable-defined :
        (s : System A) (t : ℕ) (hw : Hardware A)
        → ((u : ℕ) → u < n → Build u)
        → ((u : ℕ) → u < n → CanStart (contexts u))
        → IsConnected n contexts
        → Reachable cfg n contexts slots s
        → Possible cfg n s t hw
        → Yields (main_round (cfg t) hw (s.threads t)) Loops
    Reachable-defined s t hw d start w r p =
        let o = Reachable-InOrder s w r in
        Run-defined (cfg t) (contexts t) (slots t) (s.threads t) hw
          (Build-Suits t p.thread w (d t p.thread)) (start t p.thread) (o.runs t p.thread)
          (Possible-IsFair s t hw w o p)
