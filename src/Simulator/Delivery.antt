-- ===== src/Simulator/Delivery.antt =====
-- A message on its way from the mailbox of one thread to that of another.
use toy_softswitch.Prelude.{
  ℕ, ◌+◌, ◌*◌, ◌<◌, ◌≤◌, ◌≡◌, refl, ap, sym, ◌∙◌, subst, Bool, true, false, Option, none, some,
  List, arith, ltb, leb, take, ◌==◌, length, Yields, Yields_bind, Yields_mono, lt→ltb,
}
use toy_softswitch.Mailbox.{
  MsgStatus, TinselMbox, Attempt, Message, copy, net_pull_message, net_push_message,
}
use toy_softswitch.Mailbox.Invariant.{IsMbox}
use toy_softswitch.Mailbox.Transfer.{Moves}
use toy_softswitch.Mailbox.Network.{
  Pulled, Pushed, net_pull_message-Pulled, net_push_message-Pushed,
}
use toy_softswitch.Simulator.{
  Datagram, Posting, msgs_per_thread, words_per_msg, socket_path, send_to_socket, send_to_rank,
  unix_outgoing, mpi_outgoing, unix_incoming, mpi_incoming,
}
use toy_softswitch.Simulator.Paths.{
  is_plain, path_in, length-path_in, full_path_lem, socket_path_lem, take_all,
}
use toy_softswitch.Mailbox.Bytes.{copy-copy, Pushed-bytes}

-- The message in the slot that is being sent.
abbrev pub outgoing_message : TinselMbox → Message
outgoing_message m = record {
  thread = m.send_address;
  length = m.send_length;
  data_at = (m.slots m.send_slot).buffer;
}

-- After a round of the outgoing thread: the mailbox can send again, the datagram goes to `place`,
-- and when the other side takes it, it has the bytes of the message.
abbrev pub Carried :
    {Place : Type 0}
    → TinselMbox
    → TinselMbox
    → Place
    → (Datagram Place → Option (Attempt (TinselMbox × Bool)))
    → TinselMbox
    → Datagram Place
    → Type 0
Carried a b place incoming a' d =
    IsMbox msgs_per_thread a'
    × Moves a a' a.send_slot MsgStatus.software_owned
    × (a'.send_active ≡ false)
    × (d.to ≡ place)
    × Yields (incoming d) (Pushed msgs_per_thread words_per_msg b (outgoing_message a))

abbrev pub OnUnix :
    TinselMbox
    → TinselMbox
    → List ℕ
    → (Datagram (List ℕ) → Option (Attempt (TinselMbox × Bool)))
    → Attempt (TinselMbox × Posting (Datagram (List ℕ)))
    → Type 0
OnUnix a b place incoming Attempt.waits = ⊥
OnUnix a b place incoming (Attempt.returns (a', Posting.exits code)) = ⊥
OnUnix a b place incoming (Attempt.returns (a', Posting.carries d)) =
    Carried a b place incoming a' d

abbrev pub OnMpi :
    TinselMbox
    → TinselMbox
    → (Datagram ℕ → Option (Attempt (TinselMbox × Bool)))
    → Attempt (TinselMbox × Datagram ℕ)
    → Type 0
OnMpi a b incoming Attempt.waits = ⊥
OnMpi a b incoming (Attempt.returns (a', d)) = Carried a b b.my_thread_id incoming a' d

-- `header_size` is that of the header, which says in a message's first bytes where it goes and where
-- it is from; `out_buffer` and `in_buffer` are what earlier messages left in the buffers.
module _ (dest_thread source_thread : (ℕ → ℕ) → ℕ) (header_size : ℕ)
    (dest_bytes : (f g : ℕ → ℕ)
      → ((k : ℕ) → k < header_size → f k ≡ g k)
      → dest_thread f ≡ dest_thread g)
    (a b : TinselMbox) (out_buffer in_buffer : ℕ → ℕ) (random : ℕ) (qa : IsMbox msgs_per_thread a)
    (qb : IsMbox msgs_per_thread b) (busy : a.send_active ≡ true)
    (short : a.send_length ≤ 4 * words_per_msg) (whole : header_size ≤ a.send_length)
    (room : 0 < b.num_slots_empty) (to_b : a.send_address ≡ b.my_thread_id)
    (header : dest_thread (a.slots a.send_slot).buffer ≡ a.send_address) where
  -- The bytes as they stand in the outgoing buffer, and then in the incoming one.
  abbrev pulled_bytes : ℕ → ℕ
  pulled_bytes = copy out_buffer (a.slots a.send_slot).buffer a.send_length

  abbrev received_bytes : ℕ → ℕ
  received_bytes = copy in_buffer pulled_bytes a.send_length

  abbrev received_message : Message
  received_message = record {
    thread = dest_thread received_bytes;
    length = a.send_length;
    data_at = received_bytes;
  }

  -- The first bytes in the buffer are those of the message.
  received_byte : (k : ℕ) → k < header_size → received_bytes k ≡ (a.slots a.send_slot).buffer k
  received_byte k h =
      let inside : ltb k a.send_length ≡ true = lt→ltb _ _ (omega arith) in rw inside refl

  -- What the incoming thread pushes is the message.
  pushed :
      Yields
        (net_push_message msgs_per_thread words_per_msg b random received_message true)
        (Pushed msgs_per_thread words_per_msg b (outgoing_message a))
  pushed =
      Yields_mono (net_push_message msgs_per_thread words_per_msg b random received_message true)
        (net_push_message-Pushed msgs_per_thread words_per_msg b random received_message true qb
          room (dest_bytes _ _ received_byte ∙ header ∙ to_b) short)
        (Pushed-bytes msgs_per_thread words_per_msg b (outgoing_message a) received_message λ dst.
          copy-copy dst in_buffer pulled_bytes a.send_length
          ∙ copy-copy dst out_buffer (a.slots a.send_slot).buffer a.send_length)

  -- The datagram with the message, to any place.
  abbrev datagram : {Place : Type 0} → Place → Datagram Place
  datagram place = record { to = place; length = a.send_length; data_at = pulled_bytes }

  unix_arrives :
      {Place : Type 0} (place : Place)
      → Yields
          (unix_incoming dest_thread source_thread b in_buffer random (datagram place))
          (Pushed msgs_per_thread words_per_msg b (outgoing_message a))
  unfolding unix_incoming
  unix_arrives place =
      let uncut : ltb (4 * words_per_msg) a.send_length ≡ false = ground arith in rw uncut pushed

  mpi_arrives :
      (place mpi_source : ℕ)
      → source_thread received_bytes ≡ mpi_source
      → Yields
          (mpi_incoming dest_thread source_thread b in_buffer random mpi_source (datagram place))
          (Pushed msgs_per_thread words_per_msg b (outgoing_message a))
  unfolding mpi_incoming
  mpi_arrives place mpi_source from =
      let sized : leb a.send_length (4 * words_per_msg) ≡ true = ground arith in
      let known : (source_thread received_bytes == mpi_source) ≡ true = ground arith in
      rw (sized, known) pushed

  abbrev pulled_message : Message
  pulled_message = record {
    thread = a.send_address;
    length = a.send_length;
    data_at = pulled_bytes;
  }

  -- Over sockets, from a mailbox with a send in progress to one with an empty slot, whose thread is
  -- the address of the send and the destination in the message's header: the outgoing thread takes
  -- the message and sends it to that thread's socket, the sending mailbox is free to send again,
  -- and the incoming thread of the other side puts the message, byte for byte, into a slot that was
  -- empty, whatever earlier messages left in the two threads' buffers. The message is at least as
  -- long as its header, on whose bytes alone the destination depends, and fits a slot; the socket
  -- directory's name has no `%` and is shorter than 98, and the other side's socket has the name
  -- that is sent to, the directory with the thread in hexadecimal.
  pub unix_outgoing-OnUnix :
      (socket_dir : List ℕ)
      → is_plain socket_dir ≡ true
      → length socket_dir + 9 < 107
      → (socket_path socket_dir b.my_thread_id ≡ some (path_in socket_dir b.my_thread_id))
        × Yields (unix_outgoing socket_dir a out_buffer) (
            OnUnix a b
              (path_in socket_dir b.my_thread_id)
              (unix_incoming dest_thread source_thread b in_buffer random))
  unfolding unix_outgoing
  unix_outgoing-OnUnix socket_dir plain fits = (
    socket_path_lem socket_dir b.my_thread_id plain fits,
    Yields_bind (net_pull_message msgs_per_thread words_per_msg a out_buffer true)
        (send_to_socket socket_dir) _
        (net_pull_message-Pulled msgs_per_thread words_per_msg a out_buffer true qa busy short)
        carry,
  )
    where
      Done : Attempt (TinselMbox × Posting (Datagram (List ℕ))) → Type 0
      Done =
          OnUnix a b (path_in socket_dir b.my_thread_id)
            (unix_incoming dest_thread source_thread b in_buffer random)

      there : take 106 (path_in socket_dir a.send_address) ≡ path_in socket_dir b.my_thread_id
      there =
          take_all 106 (path_in socket_dir a.send_address)
            (omega (arith, length-path_in socket_dir a.send_address))
          ∙ ap (path_in socket_dir) to_b

      sent :
          (a' : TinselMbox)
          → Pulled msgs_per_thread words_per_msg a out_buffer
              (Attempt.returns (a', some (pulled_message)))
          → Yields (send_to_socket socket_dir (Attempt.returns (a', some (pulled_message)))) Done
      sent a' (q, msg, moves, idle) =
          let sized : leb a.send_length (4 * words_per_msg) ≡ true = ground arith in
          let named : leb 107 (length (path_in socket_dir a.send_address)) ≡ false =
            ground (arith, length-path_in socket_dir a.send_address) in
          rw (sized, full_path_lem socket_dir a.send_address plain fits, named)
            (q, moves, idle, there, unix_arrives _)

      carry :
          (r : Attempt (TinselMbox × Option Message))
          → Pulled msgs_per_thread words_per_msg a out_buffer r
          → Yields (send_to_socket socket_dir r) Done
      carry Attempt.waits h = absurd h
      carry (Attempt.returns (a', none)) (q, msg, moves, idle) = absurd cc
      carry (Attempt.returns (a', some m)) (q, msg, moves, idle) =
          let same : m ≡ pulled_message = cc in
          subst (λ x. Yields (send_to_socket socket_dir (Attempt.returns (a', some x))) Done)
            (sym same) (sent a' (q, refl, moves, idle))

  -- Over MPI the same holds, with the process whose rank is the thread, when the source in the
  -- message's header is the rank that it came from.
  mpi_outgoing-OnMpi :
      (mpi_source : ℕ)
      → source_thread received_bytes ≡ mpi_source
      → Yields
          (mpi_outgoing a out_buffer)
          (OnMpi a b (mpi_incoming dest_thread source_thread b in_buffer random mpi_source))
  unfolding mpi_outgoing
  mpi_outgoing-OnMpi mpi_source from =
      Yields_bind (net_pull_message msgs_per_thread words_per_msg a out_buffer true) send_to_rank _
        (net_pull_message-Pulled msgs_per_thread words_per_msg a out_buffer true qa busy short)
        carry
    where
      Done : Attempt (TinselMbox × Datagram ℕ) → Type 0
      Done = OnMpi a b (mpi_incoming dest_thread source_thread b in_buffer random mpi_source)

      sent :
          (a' : TinselMbox)
          → Pulled msgs_per_thread words_per_msg a out_buffer
              (Attempt.returns (a', some (pulled_message)))
          → Yields (send_to_rank (Attempt.returns (a', some (pulled_message)))) Done
      sent a' (q, msg, moves, idle) =
          let sized : leb a.send_length (4 * words_per_msg) ≡ true = ground arith in
          rw sized (q, moves, idle, to_b, mpi_arrives _ mpi_source from)

      carry :
          (r : Attempt (TinselMbox × Option Message))
          → Pulled msgs_per_thread words_per_msg a out_buffer r
          → Yields (send_to_rank r) Done
      carry Attempt.waits h = absurd h
      carry (Attempt.returns (a', none)) (q, msg, moves, idle) = absurd cc
      carry (Attempt.returns (a', some m)) (q, msg, moves, idle) =
          let same : m ≡ pulled_message = cc in
          subst (λ x. Yields (send_to_rank (Attempt.returns (a', some x))) Done) (sym same)
            (sent a' (q, refl, moves, idle))
