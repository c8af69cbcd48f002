-- ===== src/Main/Room.antt =====
-- The loop that drains the host buffer over the UART before handlers run.
use toy_softswitch.Prelude.{
  ◌<◌, ◌≤◌, ◌≡◌, refl, ap, true, false, some, List, [], ◌∷◌, ◌++◌, map, arith, inl, inr, Bool-cases,
  length,
}
use toy_softswitch.Context.{App}
use toy_softswitch.Context.Host.{HostMsg, HostBuffer}
use toy_softswitch.Host.{
  max_host_per_handler, host_msg_buffer_size, host_msg_buffer_space, host_message_buffer_pop_send,
  direct_host_message_slow_send,
}
use toy_softswitch.Host.Queue.{
  IsHostBuffer, contents, host_msg_buffer_size-contents, host_message_buffer_pop_send-contents,
}
use toy_softswitch.Host.Channel.{slow_pop_lem}
use toy_softswitch.Main.{Config, Output, adequate, make_room_loop, make_room}

-- A buffer without room for two holds 39 messages.
full_room :
    (b : HostBuffer)
    → IsHostBuffer b
    → adequate b ≡ false
    → (0 < host_msg_buffer_size b) × (adequate (host_message_buffer_pop_send b).0 ≡ true)
full_room b q full =
    let (n, bound, space, room) = host_msg_buffer_size-contents b q in
    let some_left : 0 < host_msg_buffer_size b = ground arith in
    let (q', e) = host_message_buffer_pop_send-contents b q some_left in
    let (n', bound', space', room') =
      host_msg_buffer_size-contents (host_message_buffer_pop_send b).0 q' in
    let fewer = ap length e in (some_left, ground arith)

module _ {A : App} (cfg : Config) where
  -- A message of the buffer that was sent over the UART.
  abbrev pub slowly : HostMsg → Output A
  slowly m = Output.over_uart (direct_host_message_slow_send cfg.bytes cfg.sizeof_host_msg m)

  -- With both indices in the buffer, the loop that drains the host buffer ends with room for two
  -- messages; what it takes off it sends over the UART, the oldest first, and the rest keeps its
  -- order.
  pub make_room-adequate :
      (b : HostBuffer)
      → IsHostBuffer b
      → (b' : HostBuffer) × (ms : List HostMsg) × (make_room cfg b ≡ some (b', map slowly ms))
        × IsHostBuffer b'
        × (max_host_per_handler ≤ host_msg_buffer_space b')
        × (contents b ≡ ms ++ contents b')
  unfolding make_room make_room_loop
  make_room-adequate b q = elim (Bool-cases (adequate b)) [
    | inl room ↦ (b, [], rw room refl, q, ground arith, refl)
    | inr full ↦
        let (some_left, room) = full_room b q full in
        let (q', e) = host_message_buffer_pop_send-contents b q some_left in
        (
          (host_message_buffer_pop_send b).0,
          (host_message_buffer_pop_send b).1 ∷ [],
          rw (full, slow_pop_lem cfg.bytes cfg.sizeof_host_msg b, room) refl,
          q',
          ground arith,
          e,
        )
  ]

  -- With room to begin with the loop does nothing.
  pub make_room_none : (b : HostBuffer) → adequate b ≡ true → make_room {A = A} cfg b ≡ some (b, [])
  unfolding make_room make_room_loop
  make_room_none b room = rw room refl
