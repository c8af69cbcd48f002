-- ===== src/Simulator.antt =====
-- src/tinsel/tinsel_on_unix.cpp and src/tinsel/tinsel_on_mpi.cpp: each hardware thread is a thread or a
-- process with a mailbox, and two more threads carry its messages to and from the network.
--
-- A round of a carrying thread is a function of the mailbox and of what the network hands it. Where
-- the thread and the sender of a packet stand in its bytes is a parameter, as packet_t comes from a
-- file that is not in the repository. A text is the list of its characters' codes.
pub mod Paths
pub mod Delivery
pub mod Directory
pub mod Tests
use mathlib.Core.List.{reverse}
use toy_softswitch.Prelude.{
  ℕ, zero, suc, ◌+◌, ◌-◌, ◌*◌, ◌/◌, ◌%◌, Bool, true, false, Option, none, some, List, [], ◌∷◌, ◌++◌,
  ltb, leb, ◌&&◌, ◌==◌, if◌then◌else◌, ◌>>=◌, ◌>>◌, assert, length, take,
}
use toy_softswitch.Mailbox.{TinselMbox, Attempt, Message, copy, net_pull_message, net_push_message}

-- mbox_t: MsgsPerThread and WordsPerMsg.
abbrev pub msgs_per_thread : ℕ
msgs_per_thread = 16

abbrev pub words_per_msg : ℕ
words_per_msg = 64

abbrev pub tinsel_mbox_slot_count : ℕ
tinsel_mbox_slot_count = msgs_per_thread

-- What a thread hands to the network: where to, and the bytes.
pub record Datagram (Place : Type 0) : Type 0 where
  pub to : Place
  pub length : ℕ
  pub data_at : ℕ → ℕ

pub data Posting (B : Type 0) : Type 0 where
  carries : B → Posting B
  exits : ℕ → Posting B

abbrev pub hex_digit : ℕ → ℕ
hex_digit d = if ltb d 10 then 48 + d else 87 + d

-- `n` digits of a number, the highest first.
abbrev pub hex_digits : ℕ → ℕ → List ℕ
hex_digits zero x = []
hex_digits (suc n) x = hex_digits n (x / 16) ++ hex_digit (x % 16) ∷ []

-- `snprintf(addrTemplate, sizeof(addrTemplate), "%s/%%08x", socketDir)`: at most 127 characters.
pub addr_template : List ℕ → List ℕ
addr_template socket_dir = take 127 (socket_dir ++ 47 ∷ 37 ∷ 48 ∷ 56 ∷ 120 ∷ [])

abbrev is_08x : List ℕ → Bool
is_08x (a ∷ b ∷ c ∷ []) = (a == 48) && (b == 56) && (c == 120)
is_08x _ = false

-- What `snprintf` makes of the template as its format, for a 32-bit thread id. The directory is part
-- of the format: a `%` that is not the last conversion, `%08x`, is `none`.
pub formatted : List ℕ → ℕ → Option (List ℕ)
formatted [] thread = some []
formatted (c ∷ cs) thread =
    let rest = formatted cs thread in
    if c == 37
    then (if is_08x cs then some (hex_digits 8 thread) else none)
    else do text ← rest; some (c ∷ text)

pub full_path : List ℕ → ℕ → Option (List ℕ)
unfolding addr_template formatted
full_path socket_dir thread = formatted (addr_template socket_dir) thread

-- `snprintf(addr.sun_path, 107, addrTemplate, threadId)`.
pub socket_path : List ℕ → ℕ → Option (List ℕ)
unfolding full_path
socket_path socket_dir thread = do path ← full_path socket_dir thread; some (take 106 path)

-- A message pulled from the mailbox is sent to the socket of its thread.
abbrev pub send_to_socket :
    List ℕ
    → Attempt (TinselMbox × Option Message)
    → Option (Attempt (TinselMbox × Posting (Datagram (List ℕ))))
send_to_socket socket_dir Attempt.waits = some Attempt.waits
send_to_socket socket_dir (Attempt.returns (m, none)) = none
send_to_socket socket_dir (Attempt.returns (m, some msg)) = do
  assert (leb msg.length (4 * words_per_msg))
  path ← full_path socket_dir msg.thread
  some (
      Attempt.returns (
        m,
        (if leb 107 (length path)
            then Posting.exits 1
            else Posting.carries
                (record { to = take 106 path; length = msg.length; data_at = msg.data_at })),
      ))

-- A round of the outgoing thread over sockets; `buffer` is what the rounds before left in its buffer.
pub unix_outgoing :
    List ℕ → TinselMbox → (ℕ → ℕ) → Option (Attempt (TinselMbox × Posting (Datagram (List ℕ))))
unix_outgoing socket_dir m buffer = do
  pulled ← net_pull_message msgs_per_thread words_per_msg m buffer true
  send_to_socket socket_dir pulled

abbrev pub send_to_rank :
    Attempt (TinselMbox × Option Message) → Option (Attempt (TinselMbox × Datagram ℕ))
send_to_rank Attempt.waits = some Attempt.waits
send_to_rank (Attempt.returns (m, none)) = none
send_to_rank (Attempt.returns (m, some msg)) = do
  assert (leb msg.length (4 * words_per_msg))
  some (Attempt.returns (m, record { to = msg.thread; length = msg.length; data_at = msg.data_at }))

-- A round of the outgoing thread over MPI: the rank of a process is its thread id.
pub mpi_outgoing : TinselMbox → (ℕ → ℕ) → Option (Attempt (TinselMbox × Datagram ℕ))
mpi_outgoing m buffer = do
  pulled ← net_pull_message msgs_per_thread words_per_msg m buffer true
  send_to_rank pulled

module _ (dest_thread source_thread : (ℕ → ℕ) → ℕ) where
  -- A round of the incoming thread over sockets; `recvfrom` cuts a datagram to the buffer, which
  -- keeps its bytes from the datagram's length on.
  pub unix_incoming :
      {Place : Type 0}
      → TinselMbox
      → (ℕ → ℕ)
      → ℕ
      → Datagram Place
      → Option (Attempt (TinselMbox × Bool))
  unix_incoming m buffer random d =
      let len = (if ltb (4 * words_per_msg) d.length then 4 * words_per_msg else d.length) in
      let buffer = copy buffer d.data_at len in
      net_push_message msgs_per_thread words_per_msg m random
        (record { thread = dest_thread buffer; length = len; data_at = buffer }) true

  -- A round of the incoming thread over MPI; `MPI_Recv` refuses a message that is too long.
  pub mpi_incoming :
      TinselMbox → (ℕ → ℕ) → ℕ → ℕ → Datagram ℕ → Option (Attempt (TinselMbox × Bool))
  mpi_incoming m buffer random mpi_source d = do
    assert (leb d.length (4 * words_per_msg))
    let buffer = copy buffer d.data_at d.length
    assert (source_thread buffer == mpi_source)
    net_push_message msgs_per_thread words_per_msg m random
        (record { thread = dest_thread buffer; length = d.length; data_at = buffer }) true

-- Whether main goes on, with the processes that MPI started.
pub mpi_world_suffices : ℕ → ℕ → Bool
mpi_world_suffices mpi_size pthread_count = if ltb mpi_size pthread_count then false else true

-- The loop from the end of the text: how many times `X` stands there.
abbrev pub leading_xs : List ℕ → ℕ
leading_xs [] = 0
leading_xs (c ∷ cs) = if c == 88 then suc (leading_xs cs) else 0

abbrev pub num_xs : List ℕ → ℕ
num_xs socket_dir = leading_xs (reverse socket_dir)

-- `while(numXs<8){ socketDir+="X"; numXs++; }` for `n` rounds.
abbrev pub push_xs : ℕ → List ℕ → List ℕ
push_xs zero socket_dir = socket_dir
push_xs (suc n) socket_dir = push_xs n (socket_dir ++ 88 ∷ [])

-- The template that mkdtemp gets.
pub mkdtemp_template : List ℕ → List ℕ
mkdtemp_template socket_dir =
    push_xs (8 - num_xs socket_dir)
      (if num_xs socket_dir == 0 then socket_dir ++ 46 ∷ [] else socket_dir)
