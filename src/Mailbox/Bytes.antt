-- ===== src/Mailbox/Bytes.antt =====
-- Messages that hold the same bytes.
use toy_softswitch.Prelude.{ℕ, ◌≡◌, ap, ◌∙◌, Bool, arith, update}
use toy_softswitch.Mailbox.{MsgStatus, TinselMbox, Attempt, Message, copy}
use toy_softswitch.Mailbox.Network.{Pushed}

-- A copy of a copy holds the bytes.
pub copy-copy : (dst mid src : ℕ → ℕ) (n : ℕ) → copy dst (copy mid src n) n ≡ copy dst src n
copy-copy dst mid src n = λ i k. same k i
  where
    same : (k : ℕ) → copy dst (copy mid src n) n k ≡ copy dst src n k
    same k = ground arith

-- A message of the same length that agrees with another over its bytes is pushed alike.
pub Pushed-bytes :
    (msgs words : ℕ) (b : TinselMbox) (msg msg' : Message)
    → ((dst : ℕ → ℕ) → copy dst msg'.data_at msg'.length ≡ copy dst msg.data_at msg.length)
    → (r : Attempt (TinselMbox × Bool)) → Pushed msgs words b msg' r
    → Pushed msgs words b msg r
Pushed-bytes msgs words b msg msg' same Attempt.waits y = y
Pushed-bytes msgs words b msg msg' same (Attempt.returns (b', ok))
      (i, q, took, within, there, slots, less, more) =
    (
      i,
      q,
      took,
      within,
      there,
      slots
          ∙ ap (λ t. update b.slots i (record { status = MsgStatus.hardware_full; buffer = t }))
              (same (b.slots i).buffer),
      less,
      more,
    )
