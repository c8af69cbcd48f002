-- ===== src/Applications/Ring/Token.antt =====
-- A ring at run time: its devices, numbered through over all threads, and the tokens on their way.

use toy_softswitch.Prelude.{
  ℕ, suc, ◌+◌, ◌*◌, ◌%◌, ◌^◌, ◌<◌, ◌≡◌, List, [], ◌∷◌, ◌++◌, ◌==◌, if◌then◌else◌, update, false,
  none, ◌⊎◌,
}
use toy_softswitch.Applications.Ring.{
  GraphProps, TokenMsg, DevState, dev_ready_to_send_handler, dev_in_receive_handler,
  dev_out_send_handler,
}

pub record System : Type 0 where
  pub devs : ℕ → DevState
  pub flight : List (ℕ × TokenMsg)

abbrev blank : TokenMsg
blank = record { count = 0 }

-- The ring of `n` devices: device `i` sends to device `i + 1`, and the last to the first.
module _ (g : GraphProps) (n : ℕ) where
  -- Device 0 holds the token.
  abbrev pub start : System
  start = record { devs = λ i. record { count = if 0 == i then 1 else 0 }; flight = [] }

  abbrev pub send_token : System → ℕ → System
  send_token s i =
      let (d, msg, sends) = dev_out_send_handler g tt (s.devs i) blank in
      record { devs = update s.devs i d; flight = ((i + 1) % n, msg) ∷ s.flight }

  abbrev pub receive_token : System → ℕ → TokenMsg → List (ℕ × TokenMsg) → System
  receive_token s j msg rest = record {
    devs = update s.devs j (dev_in_receive_handler g tt (s.devs j) none none msg).0;
    flight = rest;
  }

  -- A device that is ready sends, or a token on its way is received.
  pub data Step (s : System) : System → Type 0 where
    dev_out :
        (i : ℕ)
        → i < n
        → (dev_ready_to_send_handler g tt (s.devs i)).1 ≡ 1
        → Step s (send_token s i)
    dev_in :
        (xs ys : List (ℕ × TokenMsg)) (j : ℕ) (msg : TokenMsg)
        → s.flight ≡ xs ++ (j, msg) ∷ ys
        → Step s (receive_token s j msg (xs ++ ys))

  -- A run of `k` steps from the start.
  pub data Run : ℕ → System → Type 0 where
    here : Run 0 start
    next : {k : ℕ} {s u : System} → Run k s → Step s u → Run (suc k) u

  -- The count of the token after `h` hops, in 32 bits.
  abbrev pub value : ℕ → ℕ
  value h = (1 + h * g.increment) % 2 ^ 32

  -- Device `i` alone holds a token of count `c`.
  abbrev pub Holds : System → ℕ → ℕ → Type 0
  Holds s i c =
      ((s.devs i).count ≡ c) × ((j : ℕ) → (i == j) ≡ false → (s.devs j).count ≡ 0) × (s.flight ≡ [])

  -- A token of count `c` is on its way to device `i`, and there is no other.
  abbrev pub Flies : System → ℕ → ℕ → Type 0
  Flies s i c = ((j : ℕ) → (s.devs j).count ≡ 0) × (s.flight ≡ (i, record { count = c }) ∷ [])

  -- Where the token is after `k` steps: half of them were hops.
  abbrev pub OneToken : ℕ → System → Type 0
  OneToken k s =
      (h : ℕ) × (((k ≡ h + h) × Holds s (h % n) (value h))
        ⊎ ((k + 1 ≡ h + h) × Flies s (h % n) (value h)))
