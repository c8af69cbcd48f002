-- ===== src/Rts.antt =====
-- src/softswitch/softswitch_rts.cpp: the ready-to-send list, with assertions compiled out (NDEBUG).
--
-- `rts_sanity` and `rts_is_on_list` are what the debug build asserts; they are functions of their
-- own here, and their loops run on fuel, one round more than there are devices.
pub mod Links
pub mod Splice
pub mod Queue
pub mod Perf
pub mod Remove
pub mod Update
pub mod Unordered
pub mod Sanity
pub mod Wires
pub mod Tests
pub mod Handler
use toy_softswitch.Prelude.{
  ℕ, zero, suc, ◌+◌, ◌/◌, ◌%◌, ◌^◌, Bool, true, false, not, ◌&&◌, ◌||◌, Option, none, some, ◌==◌,
  if◌then◌else◌, ◌>>=◌,
}
use toy_softswitch.Context.{App, Ptr, DeviceContext, PThreadContext, ptr_eq, load, store, modify}

-- `(flags & 0x7FFFFFFF) != 0`: some output pin is ready.
abbrev pub any_ready : ℕ → Bool
any_ready flags = not (flags % 2 ^ 31 == 0)

-- `(flags & 0x80000000) != 0`: the device wants to compute.
abbrev pub wants_compute : ℕ → Bool
wants_compute flags = not (flags / 2 ^ 31 % 2 == 0)

abbrev pub bool_eq : Bool → Bool → Bool
bool_eq true b = b
bool_eq false b = not b

module _ {A : App} where
  abbrev deref : PThreadContext A → Ptr → Option (DeviceContext A)
  deref c none = none
  deref c (some i) = load c i

  is_on_list_loop : ℕ → PThreadContext A → ℕ → Ptr → Option Bool
  is_on_list_loop zero c i curr = none
  is_on_list_loop (suc fuel) c i none = some false
  is_on_list_loop (suc fuel) c i (some j) =
      if i == j then some true else do d ← load c j; is_on_list_loop fuel c i d.next

  pub rts_is_on_list : PThreadContext A → ℕ → Option Bool
  unfolding is_on_list_loop
  rts_is_on_list c i = is_on_list_loop (c.num_devices + 1) c i c.rts_head

  -- The two link assertions on one node; a null neighbour that is followed is undefined.
  prev_linked : PThreadContext A → ℕ → Ptr → Option Bool
  prev_linked c i p =
      if ptr_eq p none && ptr_eq c.rts_head (some i)
      then some true
      else do d ← deref c p; some (ptr_eq d.next (some i))

  next_linked : PThreadContext A → ℕ → Ptr → Option Bool
  next_linked c i p =
      if ptr_eq p none && ptr_eq c.rts_tail (some i)
      then some true
      else do d ← deref c p; some (ptr_eq d.prev (some i))

  sanity_loop : ℕ → PThreadContext A → Ptr → Option Bool
  sanity_loop zero c curr = none
  sanity_loop (suc fuel) c none = some true
  sanity_loop (suc fuel) c (some i) = do
    d ← load c i
    if any_ready d.rts_flags
        then (do
          p ← prev_linked c i d.prev
          n ← next_linked c i d.next
          rest ← sanity_loop fuel c d.next
          some (p && (n && rest)))
        else some false

  -- Whether every assertion of the check holds.
  pub rts_sanity : PThreadContext A → Option Bool
  unfolding sanity_loop prev_linked next_linked
  rts_sanity c =
      if ptr_eq c.rts_head none
      then some true
      else if ptr_eq c.rts_tail none
      then some false
      else sanity_loop (c.num_devices + 1) c c.rts_head

  pub rts_append : PThreadContext A → ℕ → Option (PThreadContext A)
  rts_append c i = do
    c ← modify c (some i) (λ d. record d { prev = c.rts_tail; next = none })
    c ←
        (if ptr_eq c.rts_tail none
          then some (record c { rts_head = some i })
          else modify c c.rts_tail (λ d. record d { next = some i }))
    some (record c { rts_tail = some i })

  pub rts_remove : PThreadContext A → ℕ → Option (PThreadContext A)
  rts_remove c i = do
    dev ← load c i
    c ←
        (if ptr_eq c.rts_head (some i)
          then some (record c { rts_head = dev.next })
          else modify c dev.prev (λ d. record d { next = dev.next }))
    dev ← load c i
    if ptr_eq c.rts_tail (some i)
        then some (record c { rts_tail = dev.prev })
        else modify c dev.next (λ d. record d { prev = dev.prev })

  pop_head : PThreadContext A → Ptr → Option (PThreadContext A × Ptr)
  pop_head c none = some (c, none)
  pop_head c (some i) = do
    dev ← load c i
    c ←
        (if ptr_eq dev.next none
          then some (record c { rts_tail = none })
          else modify c dev.next (λ d. record d { prev = none }))
    some (record c { rts_head = dev.next }, some i)

  pub rts_pop : PThreadContext A → Option (PThreadContext A × Ptr)
  unfolding pop_head
  rts_pop c = pop_head c c.rts_head

  -- The ready-to-send handler of device `i` runs; its flags are stored, and a wish to compute
  -- forces another complete loop over the devices.
  unfoldable pub poll_flags : PThreadContext A → ℕ → DeviceContext A → PThreadContext A × ℕ
  poll_flags c i dev =
      let (state, flags) =
        dev.vtable.ready_to_send_handler c.graph_props dev.properties dev.state in
      let c' = record c { rtc_checked = if wants_compute flags then 0 else c.rtc_checked } in
      (store c' i (record dev { state = state; rts_flags = flags }), flags)

  pub softswitch_update_rts : PThreadContext A → ℕ → Option (PThreadContext A)
  unfolding rts_append rts_remove poll_flags
  softswitch_update_rts c i = do
    dev ← load c i
    let any_ready_prev = any_ready dev.rts_flags
    let (c, flags) = poll_flags c i dev
    let any_ready_now = any_ready flags
    if bool_eq any_ready_prev any_ready_now
        then some c
        else if any_ready_now
        then rts_append c i
        else rts_remove c i

  pub softswitch_pop_rts : PThreadContext A → Option (PThreadContext A × Ptr)
  unfolding rts_pop
  softswitch_pop_rts c = rts_pop c

  pub softswitch_is_rts_ready : PThreadContext A → Bool
  softswitch_is_rts_ready c = not (ptr_eq c.rts_head none)
