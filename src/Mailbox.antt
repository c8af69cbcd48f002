-- ===== src/Mailbox.antt =====
-- src/tinsel/tinsel_mbox.hpp: the mailbox of a thread on the simulated hardware, class TinselMbox.
--
-- Every member runs under the lock, so it is one step. A failed assertion, like a read past the slots,
-- is `none`; a wait on the condition variable is `waits`, and the thread takes no step. A pointer to
-- the buffer of a slot is the slot's number, and a message is its bytes. `rand()` is the argument
-- `random`.
pub mod Count
pub mod Invariant
pub mod Transfer
pub mod Network
pub mod Calls
pub mod Protocol
pub mod Bytes
pub mod Tests
use toy_softswitch.Prelude.{
  ℕ, zero, suc, ◌+◌, ◌*◌, ◌%◌, ◌^◌, Bool, true, false, not, ◌&&◌, ◌||◌, Option, none, some, ltb,
  leb, ◌==◌, if◌then◌else◌, ◌>>=◌, ◌>>◌, assert, update, add32, sub32,
}

pub data MsgStatus : Type 0 where
  software_owned : MsgStatus
  hardware_send : MsgStatus
  hardware_empty : MsgStatus
  hardware_full : MsgStatus

abbrev pub is_send : MsgStatus → Bool
is_send MsgStatus.hardware_send = true
is_send _ = false

abbrev pub is_empty : MsgStatus → Bool
is_empty MsgStatus.hardware_empty = true
is_empty _ = false

abbrev pub is_full : MsgStatus → Bool
is_full MsgStatus.hardware_full = true
is_full _ = false

abbrev pub is_software : MsgStatus → Bool
is_software MsgStatus.software_owned = true
is_software _ = false

pub record Slot : Type 0 where
  pub status : MsgStatus
  pub buffer : ℕ → ℕ

pub record TinselMbox : Type 0 where
  pub my_thread_id : ℕ
  pub slots : ℕ → Slot
  pub num_slots_empty : ℕ
  pub num_slots_full : ℕ
  pub send_active : Bool
  pub send_address : ℕ
  pub send_slot : ℕ
  pub send_length : ℕ

-- What a member that may wait comes to.
pub data Attempt {ℓ} (B : Type ℓ) : Type ℓ where
  returns : B → Attempt B
  waits : Attempt B

-- A message on its way: the thread that it goes to, and its bytes.
pub record Message : Type 0 where
  pub thread : ℕ
  pub length : ℕ
  pub data_at : ℕ → ℕ

abbrev pub with_status : TinselMbox → ℕ → MsgStatus → TinselMbox
with_status m i s = record m { slots = update m.slots i (record (m.slots i) { status = s }) }

-- How many of the first `n` slots pass a test: a counter of `check_slots` after `n` rounds.
abbrev pub count : (MsgStatus → Bool) → (ℕ → Slot) → ℕ → ℕ
count test slots zero = 0
count test slots (suc n) = count test slots n + (if test (slots n).status then 1 else 0)

-- `memcpy` of `n` bytes.
abbrev pub copy : (ℕ → ℕ) → (ℕ → ℕ) → ℕ → ℕ → ℕ
copy dst src n i = if ltb i n then src i else dst i

-- The loop for the first full slot, which ends at `msgs` if there is none.
pub first_full : ℕ → ℕ → (ℕ → Slot) → ℕ
first_full zero i slots = i
first_full (suc n) i slots =
    let rest = first_full n (i + 1) slots in if is_full (slots i).status then i else rest

pub mbox_can_recv : TinselMbox → Bool
mbox_can_recv m = ltb 0 m.num_slots_full

pub mbox_set_len : TinselMbox → ℕ → Option TinselMbox
mbox_set_len m byte_length = do
  assert (not m.send_active)
  some (record m { send_length = byte_length })

-- The condition on which `mboxWaitUntil` stops to wait.
pub mbox_wait_until : Bool → Bool → TinselMbox → Bool
mbox_wait_until can_send can_recv m =
    (can_send && not m.send_active) || (can_recv && ltb 0 m.num_slots_full)

-- `msgs` is MsgsPerThread.
module _ (msgs : ℕ) where
  -- Whether the assertions of `check_slots` hold.
  pub check_slots : TinselMbox → Bool
  check_slots m =
      (count is_empty m.slots msgs == m.num_slots_empty)
      && (count is_full m.slots msgs == m.num_slots_full)

  pub find_slot : ℕ → Option ℕ
  find_slot p = if ltb p msgs then some p else none

  -- `init` of an object whose other fields have any value.
  pub init : ℕ → TinselMbox → Option TinselMbox
  init thread_id m = do
    let m' = record m {
      my_thread_id = thread_id;
      num_slots_empty = 0;
      num_slots_full = 0;
      send_active = false;
      slots = λ i.
          if ltb i msgs
          then record (m.slots i) { status = MsgStatus.software_owned }
          else m.slots i;
    }
    assert (check_slots m')
    some m'

  pub mbox_recv : TinselMbox → Option (TinselMbox × ℕ)
  unfolding first_full
  mbox_recv m = do
    assert (check_slots m)
    assert (ltb 0 m.num_slots_full)
    let i = first_full msgs 0 m.slots
    assert (ltb i msgs)
    assert (is_full (m.slots i).status)
    let m' = record (with_status m i MsgStatus.software_owned) {
      num_slots_full = sub32 m.num_slots_full 1;
    }
    assert (check_slots m')
    some (m', i)

  pub mbox_alloc : TinselMbox → ℕ → Option TinselMbox
  mbox_alloc m p = do
    assert (check_slots m)
    index ← find_slot p
    assert (is_software (m.slots index).status)
    let m' = record (with_status m index MsgStatus.hardware_empty) {
      num_slots_empty = add32 m.num_slots_empty 1;
    }
    assert (check_slots m')
    some m'

  pub mbox_can_send : TinselMbox → Option Bool
  mbox_can_send m = do
    assert (check_slots m)
    assert (not m.send_active || is_send (m.slots m.send_slot).status)
    some (not m.send_active)

  pub mbox_send : TinselMbox → ℕ → ℕ → Option TinselMbox
  mbox_send m address p = do
    assert (not m.send_active)
    assert (check_slots m)
    index ← find_slot p
    assert (is_software (m.slots index).status)
    let m' = record (with_status m index MsgStatus.hardware_send) {
      send_active = true;
      send_address = address;
      send_slot = index;
    }
    assert (check_slots m')
    some m'

  -- The loop from slot `start` on, round the slots, for an empty one.
  pub select : ℕ → ℕ → ℕ → ℕ → (ℕ → Slot) → ℕ
  select zero i start sel slots = sel
  select (suc n) i start sel slots =
      let here = add32 i start % msgs in
      let rest = select n (i + 1) start here slots in
      if is_empty (slots here).status then here else rest

-- `words` is WordsPerMsg.
module _ (msgs words : ℕ) where
  -- `none` in the result is the return value false; `buffer` is the caller's, before the call.
  pub net_pull_message :
      TinselMbox → (ℕ → ℕ) → Bool → Option (Attempt (TinselMbox × Option Message))
  net_pull_message m buffer block =
      if not m.send_active
      then some (if block then Attempt.waits else Attempt.returns (m, none))
      else do
        assert (check_slots msgs m)
        assert (leb m.send_length (4 * words))
        assert (is_send (m.slots m.send_slot).status)
        let m' = record (with_status m m.send_slot MsgStatus.software_owned) { send_active = false }
        assert (check_slots msgs m')
        some (
            Attempt.returns (
              m',
              some (record {
                thread = m.send_address;
                length = m.send_length;
                data_at = copy buffer (m.slots m.send_slot).buffer m.send_length;
              }),
            ))

  pub net_push_message : TinselMbox → ℕ → Message → Bool → Option (Attempt (TinselMbox × Bool))
  unfolding select
  net_push_message m random msg block = do
    assert (msg.thread == m.my_thread_id)
    assert (leb msg.length (4 * words))
    assert (check_slots msgs m)
    if m.num_slots_empty == 0
        then some (if block then Attempt.waits else Attempt.returns (m, false))
        else do
          assert (check_slots msgs m)
          let sel = select msgs msgs 0 (random % msgs) 0 m.slots
          assert (is_empty (m.slots sel).status)
          let m' = record m {
            num_slots_empty = sub32 m.num_slots_empty 1;
            num_slots_full = add32 m.num_slots_full 1;
            slots = update m.slots sel (record {
              status = MsgStatus.hardware_full;
              buffer = copy (m.slots sel).buffer msg.data_at msg.length;
            });
          }
          assert (check_slots msgs m')
          some (Attempt.returns (m', true))
