-- ===== src/Dbus/Queue.antt =====
-- src/dbus/queue.c: the input queue of a connection. The input buffer is the list of the bytes that it
-- holds, so `data_end` is its length; `heap` says that it is the larger, allocated one. A pending
-- buffer is its size with the bytes that were copied to it, and descriptors are a list of numbers.
pub mod Tests
pub mod Lines
pub mod Pop
pub mod Messages
use dbus_broker.Common.{
  ℕ, zero, suc, ◌+◌, ◌-◌, ◌*◌, ◌%◌, Bytes, Bool, true, false, ◌&&◌, ◌||◌, not, Option, none, some,
  List, [], ◌∷◌, ◌++◌, leb, ltb, ◌==◌, if◌then◌else◌, length, take, drop, is_nil, min,
}
use dbus_broker.Util.Decimal.{u32_limit}
use dbus_broker.Util.User
use dbus_broker.Util.User.{User, Charge, user_charge, user_charge_deinit, user_charge_init}

-- IQUEUE_LINE_MAX and IQUEUE_RECV_MAX
abbrev pub iqueue_line_max : ℕ
iqueue_line_max = 16 * 1024

abbrev pub iqueue_recv_max : ℕ
iqueue_recv_max = 2 * 1024

pub record Target : Type 0 where
  pub n_data : ℕ
  pub copied : Bytes

pub record IQueue : Type 0 where
  pub user : User
  pub charge_data : Charge
  pub charge_fds : Charge
  pub buffer : Bytes
  pub heap : Bool
  pub data_size : ℕ
  pub data_start : ℕ
  pub data_cursor : ℕ
  pub fds : Option (List ℕ)
  pub pending : Option Target
  pub pending_fds : Option (List ℕ)
  pub pending_charge_data : Charge
  pub pending_charge_fds : Charge

-- 0, IQUEUE_E_PENDING, IQUEUE_E_QUOTA, IQUEUE_E_VIOLATION, a negative error code and a failed
-- assertion.
pub data Code : Type 0 where
  success pending quota violation error assertion : Code

-- iqueue_init()
unfoldable pub iqueue_init : User → IQueue
iqueue_init user = record {
  user = record user { n_refs = user.n_refs + 1 };
  charge_data = user_charge_init;
  charge_fds = user_charge_init;
  buffer = [];
  heap = false;
  data_size = iqueue_recv_max;
  data_start = 0;
  data_cursor = 0;
  fds = none;
  pending = none;
  pending_fds = none;
  pending_charge_data = user_charge_init;
  pending_charge_fds = user_charge_init;
}

-- user_charge_deinit() of several charges in turn: the user after them.
unfoldable pub deinit_all : User → List Charge → User
deinit_all user [] = user
deinit_all user (c ∷ cs) = deinit_all (user_charge_deinit user c).0 cs

-- iqueue_flush()
unfoldable pub iqueue_flush : IQueue → IQueue
iqueue_flush iq = record iq {
  user = deinit_all iq.user (iq.charge_fds ∷ iq.pending_charge_fds ∷ iq.pending_charge_data ∷ []);
  charge_fds = user_charge_init;
  buffer = [];
  data_start = 0;
  data_cursor = 0;
  fds = none;
  pending = none;
  pending_fds = none;
  pending_charge_data = user_charge_init;
  pending_charge_fds = user_charge_init;
}

-- iqueue_deinit(): what is left of the user; user_unref() drops the queue's reference.
unfoldable pub iqueue_deinit : IQueue → User
unfolding deinit_all iqueue_flush
iqueue_deinit iq =
    let flushed = iqueue_flush iq in
    let user = deinit_all flushed.user (
      flushed.pending_charge_fds ∷ flushed.pending_charge_data ∷ flushed.charge_fds
      ∷ flushed.charge_data ∷ []) in
    record user { n_refs = user.n_refs - 1 }

-- The code of the queue for a code of user_charge().
unfoldable pub fold : User.Code → Code
fold User.success = success
fold User.quota = quota
fold User.error = error
fold User.assertion = assertion

unfoldable pub set_charged : IQueue → ℕ → User × Charge × User.Code → IQueue × Code
unfolding fold
set_charged iq n_data (user, charge, User.success) = (
  record iq {
    user = user;
    pending_charge_data = charge;
    pending = some (record { n_data = n_data; copied = [] });
  },
  success,
)
set_charged iq n_data (user, charge, code) =
    (record iq { user = user; pending_charge_data = charge }, fold code)

-- iqueue_set_target(); a null actor of user_charge() is the user itself.
unfoldable pub iqueue_set_target : Bool → Option Bool → IQueue → ℕ → IQueue × Code
iqueue_set_target usage_memory log iq n_data = elim iq.pending [
  | some t ↦ (iq, assertion)
  | none ↦ set_charged iq n_data (
      user_charge usage_memory log iq.user iq.pending_charge_data iq.user.uid 0
        (n_data % u32_limit))
]

-- The shift of the input buffer to its front.
unfoldable pub shift : IQueue → IQueue
shift iq = record iq {
  buffer = drop iq.data_start iq.buffer;
  data_cursor = iq.data_cursor - iq.data_start;
  data_start = 0;
}

unfoldable pub grow_charged : IQueue → User × Charge × User.Code → IQueue × Code
unfolding fold
grow_charged iq (user, charge, User.success) =
    if iq.heap then (record iq { user = user; charge_data = charge }, assertion) else (
      record iq { user = user; charge_data = charge; heap = true; data_size = iqueue_line_max },
      success,
    )
grow_charged iq (user, charge, code) = (record iq { user = user; charge_data = charge }, fold code)

abbrev pub is_some : {A : Type 0} → Option A → Bool
is_some none = false
is_some (some x) = true

-- A full buffer is replaced once by the larger one, and the larger one is given up for a pending
-- buffer.
unfoldable pub resize : Bool → Bool → Option Bool → IQueue → IQueue × Code
resize memory usage_memory log iq =
    if leb iq.data_size (length iq.buffer)
    then (if leb iqueue_line_max iq.data_size
        then (iq, violation)
        else if memory
        then grow_charged iq
            (user_charge usage_memory log iq.user iq.charge_data iq.user.uid 0 iqueue_line_max)
        else (iq, error))
    else if iq.heap && is_some iq.pending
    then (if leb (length iq.buffer) iqueue_recv_max
        then (
          record iq {
            user = (user_charge_deinit iq.user iq.charge_data).0;
            charge_data = user_charge_init;
            heap = false;
            data_size = iqueue_recv_max;
          },
          success,
        )
        else (iq, assertion))
    else (iq, success)

-- Where to read the next bytes: behind the first `from` bytes of the input buffer or of the pending
-- buffer, up to `top`.
pub data Cursor : Type 0 where
  in_buffer : (from top : ℕ) → Cursor
  in_target : (from top : ℕ) → Cursor
  failed : Code → Cursor

unfoldable pub missing : Option Target → ℕ
missing none = 0
missing (some t) = t.n_data - length t.copied

unfoldable pub select : IQueue → Cursor
unfolding missing
select iq =
    let n_free = iq.data_size - length iq.buffer in
    let buffered =
      in_buffer (length iq.buffer)
        (if ltb iqueue_recv_max n_free then length iq.buffer + iqueue_recv_max else iq.data_size) in
    if leb n_free (missing iq.pending)
    then elim iq.pending [ some t ↦ in_target (length t.copied) t.n_data | none ↦ in_target 0 0 ]
    else buffered

unfoldable pub select_resized : IQueue × Code → IQueue × Cursor
unfolding select
select_resized (iq, success) = (iq, select iq)
select_resized (iq, code) = (iq, failed code)

-- iqueue_get_cursor(): `memory` says whether the larger buffer can be allocated.
unfoldable pub iqueue_get_cursor : Bool → Bool → Option Bool → IQueue → IQueue × Cursor
unfolding select_resized
iqueue_get_cursor memory usage_memory log iq =
    let shifted = shift iq in
    if ltb shifted.data_cursor (length shifted.buffer)
    then (shifted, failed pending)
    else select_resized (resize memory usage_memory log shifted)
