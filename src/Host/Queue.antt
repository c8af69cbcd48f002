-- ===== src/Host/Queue.antt =====
-- The host buffer is a first-in first-out queue of at most 39 messages.
use toy_softswitch.Prelude.{
  ℕ, suc, ◌+◌, ◌-◌, ◌%◌, ◌<◌, ◌≤◌, ◌≡◌, ◌≢◌, refl, ap, sym, ◌∙◌, List, [], ◌∷◌, ◌++◌, arith, update,
  length, ==_self,
}
use toy_softswitch.Context.Host.{HostMsg, HostBuffer}
use toy_softswitch.Host.{
  hostbuffer_size, host_msg_buffer_size, host_msg_buffer_space, host_msg_buffer_push,
  host_message_buffer_pop_send,
}
use toy_softswitch.Host.Ring.{place, window, length-window, window-snoc, window-update}

-- Both indices are places of the buffer.
pub record IsHostBuffer (b : HostBuffer) : Type 0 where
  pub head : b.hbuf_head < hostbuffer_size
  pub tail : b.hbuf_tail < hostbuffer_size

-- The messages that wait, the oldest first.
abbrev pub contents : HostBuffer → List HostMsg
contents b = window b.host_buffer b.hbuf_head (host_msg_buffer_size b)

pub host_msg_buffer_size-contents :
    (b : HostBuffer)
    → IsHostBuffer b
    → (host_msg_buffer_size b ≡ length (contents b))
      × (host_msg_buffer_size b < hostbuffer_size)
      × (host_msg_buffer_space b + length (contents b) ≡ hostbuffer_size)
      × (host_msg_buffer_space b ≢ 0)
unfolding host_msg_buffer_size host_msg_buffer_space
host_msg_buffer_size-contents b q =
    let n = length-window b.host_buffer b.hbuf_head (host_msg_buffer_size b) in
    (sym n, ground arith, ground arith, ground arith)

-- Places of the buffer as remainders: `k` places on from index `h`.
abbrev pub index_after : ℕ → ℕ → ℕ
index_after h k = (h + k) % 40

-- With both indices in the buffer of 40 places, the size is the least number of steps round the
-- buffer that lead from the head to the tail, and below 40; the space is 40 less the size, and so
-- never zero.
pub host_msg_buffer_size-steps :
    (b : HostBuffer)
    → IsHostBuffer b
    → (index_after b.hbuf_head (host_msg_buffer_size b) ≡ b.hbuf_tail)
      × ((k : ℕ) → index_after b.hbuf_head k ≡ b.hbuf_tail → host_msg_buffer_size b ≤ k)
      × (host_msg_buffer_size b < 40)
      × (host_msg_buffer_space b ≡ 40 - host_msg_buffer_size b)
      × (host_msg_buffer_space b ≢ 0)
unfolding host_msg_buffer_size host_msg_buffer_space
host_msg_buffer_size-steps b q =
    (ground arith, λ k e. ground arith, ground arith, ground arith, ground arith)

size_push :
    (b : HostBuffer) (m : HostMsg)
    → IsHostBuffer b
    → host_msg_buffer_size b < 39
    → host_msg_buffer_size (host_msg_buffer_push b m) ≡ suc (host_msg_buffer_size b)
unfolding host_msg_buffer_size host_msg_buffer_push
size_push b m q h = ground arith

place_tail :
    (b : HostBuffer) → IsHostBuffer b → place b.hbuf_head (host_msg_buffer_size b) ≡ b.hbuf_tail
unfolding host_msg_buffer_size
place_tail b q = ground arith

place_ne_tail :
    (b : HostBuffer) (k : ℕ)
    → IsHostBuffer b
    → k < host_msg_buffer_size b
    → place b.hbuf_head k ≢ b.hbuf_tail
unfolding host_msg_buffer_size
place_ne_tail b k q h = ground arith

size_pop :
    (b : HostBuffer)
    → IsHostBuffer b
    → 0 < host_msg_buffer_size b
    → host_msg_buffer_size b ≡ suc (host_msg_buffer_size (host_message_buffer_pop_send b).0)
unfolding host_msg_buffer_size host_message_buffer_pop_send
size_pop b q h = ground arith

-- While fewer than 39 messages wait, a push keeps both indices within the buffer and adds the
-- message at the end of the queue.
pub host_msg_buffer_push-contents :
    (b : HostBuffer) (m : HostMsg)
    → IsHostBuffer b
    → host_msg_buffer_size b < 39
    → IsHostBuffer (host_msg_buffer_push b m)
      × (contents (host_msg_buffer_push b m) ≡ contents b ++ m ∷ [])
unfolding host_msg_buffer_push
host_msg_buffer_push-contents b m q h = (
  record { head = q.head; tail = ground arith },
  ap (window (update b.host_buffer b.hbuf_tail m) b.hbuf_head) (size_push b m q h)
      ∙ window-snoc (update b.host_buffer b.hbuf_tail m) b.hbuf_head (host_msg_buffer_size b) q.head
          (omega arith)
      ∙ λ i.
          window-update b.host_buffer b.hbuf_tail m b.hbuf_head (host_msg_buffer_size b) q.head
            (omega arith) (λ k hk. place_ne_tail b k q hk) i
          ++ written i ∷ [],
)
  where
    written : update b.host_buffer b.hbuf_tail m (place b.hbuf_head (host_msg_buffer_size b)) ≡ m
    written =
        ap (update b.host_buffer b.hbuf_tail m) (place_tail b q) ∙ rw (==_self b.hbuf_tail) refl

-- With 39 messages waiting, a push leaves a queue that reads as empty.
pub host_msg_buffer_push-overflow :
    (b : HostBuffer) (m : HostMsg)
    → IsHostBuffer b
    → host_msg_buffer_size b ≡ 39
    → contents (host_msg_buffer_push b m) ≡ []
unfolding host_msg_buffer_size host_msg_buffer_push
host_msg_buffer_push-overflow b m q h =
    ap (window (host_msg_buffer_push b m).host_buffer (host_msg_buffer_push b m).hbuf_head)
      (none_left b m q h)
  where
    none_left :
        (b : HostBuffer) (m : HostMsg)
        → IsHostBuffer b
        → host_msg_buffer_size b ≡ 39
        → host_msg_buffer_size (host_msg_buffer_push b m) ≡ 0
    none_left b m q h = ground arith

-- When a message waits, a pop keeps both indices within the buffer, sends the oldest message and
-- takes it off the front of the queue.
pub host_message_buffer_pop_send-contents :
    (b : HostBuffer)
    → IsHostBuffer b
    → 0 < host_msg_buffer_size b
    → IsHostBuffer (host_message_buffer_pop_send b).0
      × (contents b
          ≡ (host_message_buffer_pop_send b).1 ∷ contents (host_message_buffer_pop_send b).0)
unfolding host_message_buffer_pop_send
host_message_buffer_pop_send-contents b q h = (
  record { head = ground arith; tail = q.tail },
  ap (window b.host_buffer b.hbuf_head) (size_pop b q h),
)

pub pop_send-IsHostBuffer :
    (b : HostBuffer) → IsHostBuffer b → IsHostBuffer (host_message_buffer_pop_send b).0
unfolding host_message_buffer_pop_send
pop_send-IsHostBuffer b q = record { head = ground arith; tail = q.tail }
