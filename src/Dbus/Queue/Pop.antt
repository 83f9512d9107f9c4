-- ===== src/Dbus/Queue/Pop.antt =====
-- iqueue_pop_data() of src/dbus/queue.c.
use dbus_broker.Common.{
  ◌==◌, ℕ, ◌+◌, ◌-◌, Bytes, Bool, true, false, ◌&&◌, Option, none, some, List, ◌++◌, ltb,
  if◌then◌else◌, length, take, drop, min,
}
use dbus_broker.Util.User
use dbus_broker.Util.User.{Charge, user_charge_deinit, user_charge_init}
use dbus_broker.Dbus.Queue.{IQueue, Target, is_some}

abbrev is_success : User.Code → Bool
is_success User.success = true
is_success User.quota = false
is_success User.error = false
is_success User.assertion = false

-- The message that was received, with its descriptors if the caller wants them.
pub data Popped : Type 0 where
  complete : Bytes → Option (List ℕ) → Popped
  pending : Popped
  violation : Popped
  assertion : Popped

-- The copy from the input buffer into the pending one.
unfoldable pub copy : IQueue → Target → IQueue × Target
copy iq t =
    let n = min (length iq.buffer - iq.data_start) (t.n_data - length t.copied) in
    (
      record iq { data_start = iq.data_start + n; data_cursor = iq.data_cursor + n },
      record t { copied = t.copied ++ take n (drop iq.data_start iq.buffer) },
    )

-- The descriptors of the input buffer go with its last byte; a second list is refused.
unfoldable pub move_fds : IQueue → Option IQueue
move_fds iq =
    if (length iq.buffer == iq.data_start) && is_some iq.fds
    then (if is_some iq.pending_fds
        then none
        else some (record iq {
          pending_fds = iq.fds;
          pending_charge_fds = iq.charge_fds;
          fds = none;
          charge_fds = user_charge_init;
        }))
    else some iq

-- The release of a pending buffer that is complete.
unfoldable pub hand_over : Bool → IQueue → IQueue
hand_over wanted iq =
    let user = if wanted then (user_charge_deinit iq.user iq.pending_charge_fds).0 else iq.user in
    record iq {
      user = (user_charge_deinit user iq.pending_charge_data).0;
      pending = none;
      pending_fds = if wanted then none else iq.pending_fds;
      pending_charge_data = user_charge_init;
      pending_charge_fds = if wanted then user_charge_init else iq.pending_charge_fds;
    }

-- The assertions of its releases
unfoldable pub hand_over_holds : Bool → IQueue → Bool
unfolding user_charge_deinit
hand_over_holds wanted iq =
    let (user, charge, code) = user_charge_deinit iq.user iq.pending_charge_fds in
    if wanted
    then is_success code && is_success (user_charge_deinit user iq.pending_charge_data).2
    else is_success (user_charge_deinit iq.user iq.pending_charge_data).2

unfoldable pub finish : Bool → Target → IQueue → IQueue × Popped
finish wanted t iq =
    if ltb (length t.copied) t.n_data
    then (iq, pending)
    else if hand_over_holds wanted iq
    then (hand_over wanted iq, complete t.copied (if wanted then iq.pending_fds else none))
    else (iq, assertion)

unfoldable pub pop_into : Bool → IQueue → Target → IQueue × Popped
unfolding copy
pop_into wanted iq t =
    let (moved, t') = copy iq t in
    let held = record moved { pending = some t' } in
    elim (move_fds held) [ none ↦ (held, violation) | some iq' ↦ finish wanted t' iq' ]

-- iqueue_pop_data(): `wanted` says whether the caller takes the descriptors.
unfoldable pub iqueue_pop_data : Bool → IQueue → IQueue × Popped
iqueue_pop_data wanted iq = elim iq.pending [
  | none ↦ (iq, assertion)
  | some t ↦ if ltb t.n_data (length t.copied) then (iq, assertion) else pop_into wanted iq t
]
