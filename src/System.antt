-- ===== src/System.antt =====
-- Several threads that run src/softswitch/softswitch_main.cpp, and the packets between them.
--
-- The network is not trusted with order or number: a packet that was sent may arrive at the thread
-- that its address names at any time, once, many times or not at all.
pub mod Connected
pub mod Tests
use toy_softswitch.Prelude.{ℕ, ◌<◌, ◌≡◌, true, some, List, [], ◌∷◌, ◌++◌, ◌⊎◌, update}
use toy_softswitch.Context.{App, PThreadContext}
use toy_softswitch.Send.{Packet, Buffer}
use toy_softswitch.Main.{
  Config, Hardware, Locals, Output, softswitch_main_start, want_to_send, main_round,
}
use toy_softswitch.Main.Invariant.{Wakes}

module _ {A : App} where
  -- The packets of a round, each with the thread that it is sent to.
  abbrev pub packets : List (Output A) → List (ℕ × Packet A)
  packets [] = []
  packets (Output.to_thread t p size ∷ out) = (t, p) ∷ packets out
  packets (Output.app_to_host m size ∷ out) = packets out
  packets (Output.buffered_to_host m ∷ out) = packets out
  packets (Output.over_uart bs ∷ out) = packets out

  abbrev pub WasSent : ℕ × Packet A → List (ℕ × Packet A) → Type 0
  WasSent p [] = ⊥
  WasSent p (q ∷ qs) = (p ≡ q) ⊎ WasSent p qs

-- The locals of each thread's main loop, and every packet that was sent so far.
pub record System (A : App) : Type 0 where
  pub threads : ℕ → Locals A
  pub sent : List (ℕ × Packet A)

module _ {A : App} (cfg : ℕ → Config) (n : ℕ) where
  -- What the hardware may answer thread `t`: a packet that it hands over was sent to that thread.
  pub record Possible (s : System A) (t : ℕ) (hw : Hardware A) : Type 0 where
    pub thread : t < n
    pub wakes : Wakes (cfg t) hw (want_to_send (s.threads t))
    pub packet : hw.woken_can_recv ≡ true → WasSent (t, hw.incoming) s.sent

  -- The threads have started on `contexts`, and do rounds in any order.
  pub data Reachable (contexts : ℕ → PThreadContext A) (slots : ℕ → Buffer A)
      : System A → Type 0 where
    started :
        (threads : ℕ → Locals A)
        → ((t : ℕ) → t < n → softswitch_main_start (contexts t) (slots t) ≡ some (threads t))
        → Reachable contexts slots (record { threads = threads; sent = [] })
    round :
        (s : System A) (t : ℕ) (hw : Hardware A) (l : Locals A) (out : List (Output A))
        → Reachable contexts slots s
        → Possible s t hw
        → main_round (cfg t) hw (s.threads t) ≡ some (l, out)
        → Reachable contexts slots
            (record { threads = update s.threads t l; sent = s.sent ++ packets out })
