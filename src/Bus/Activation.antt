-- ===== src/Bus/Activation.antt =====
-- src/bus/activation.c: the messages and requests that wait for the activation of a name, with their
-- charges on the user of the activation. The sizes of the C structures are parameters, and so is
-- whether the controller can be told, and whether memory suffices. A message has its sender's ID and
-- no contents; the copies of the sender's policy and names are passed over, but for their failure.
pub mod Accounting
pub mod Tests
use dbus_broker.Common.{
  ℕ, ◌+◌, Bool, true, false, Option, none, some, List, [], ◌∷◌, ◌++◌, ◌==◌, if◌then◌else◌,
}
use dbus_broker.Util.User
use dbus_broker.Util.User.{User, Charge, user_charge, user_charge_deinit, user_charge_init, add32}
use dbus_broker.Util.User.Pairs.{release_two, charge_two}

pub record ActivationRequest : Type 0 where
  pub sender_id : ℕ
  pub serial : ℕ
  pub charge : Charge

pub record ActivationMessage : Type 0 where
  pub sender_id : ℕ
  pub bytes : Charge
  pub fds : Charge

-- `pending` is 0 when no activation was asked for, and `activation_ids` is the counter of the bus.
pub record Activation : Type 0 where
  pub pending : ℕ
  pub activation_ids : ℕ
  pub messages : List ActivationMessage
  pub requests : List ActivationRequest

-- ACTIVATION_NULL, with the counter of the bus
abbrev pub activation_null : ℕ → Activation
activation_null ids = record { pending = 0; activation_ids = ids; messages = []; requests = [] }

-- activation_init(): nothing for ACTIVATION_E_ALREADY_ACTIVATABLE. Whether the name has an activation is
-- given.
unfoldable pub activation_init : Bool → ℕ → Option Activation
activation_init activatable ids = if activatable then none else some (activation_null ids)

-- 0, ACTIVATION_E_QUOTA, other errors, and a failed assertion
pub data Code : Type 0 where
  success : Code
  quota : Code
  error : Code
  assertion : Code

-- USER_SLOT_BYTES and USER_SLOT_FDS
abbrev pub slot_bytes : ℕ
slot_bytes = 0

abbrev pub slot_fds : ℕ
slot_fds = 1

-- activation_request(); `told` is whether controller_name_activate() succeeds. The second component is
-- whether the function does.
unfoldable pub activation_request : Bool → Activation → Activation × Bool
activation_request told a =
    let id = a.activation_ids + 1 in
    if a.pending == 0
    then (if told
        then (record a { activation_ids = id; pending = id }, true)
        else (record a { activation_ids = id }, false))
    else (a, true)

-- The rest of activation_queue_message(), once the message is charged: an error frees it.
unfoldable pub queue_charged :
    Bool → ℕ → Activation → User × Charge × Charge × User.Code → Activation × User × Code
unfolding release_two
queue_charged copied sender_id a (user, bytes, fds, User.success) =
    if copied
    then (
      record a {
        messages = a.messages ++ record { sender_id = sender_id; bytes = bytes; fds = fds } ∷ [];
      },
      user,
      success,
    )
    else (a, release_two user bytes fds, error)
queue_charged copied sender_id a (user, bytes, fds, User.quota) =
    (a, release_two user bytes fds, quota)
queue_charged copied sender_id a (user, bytes, fds, User.error) =
    (a, release_two user bytes fds, error)
queue_charged copied sender_id a (user, bytes, fds, User.assertion) = (a, user, assertion)

-- The rest of activation_queue_request(), once the request is charged.
unfoldable pub queue_request_charged :
    ℕ → ℕ → Activation → User × Charge × User.Code → Activation × User × Code
unfolding user_charge_deinit
queue_request_charged sender_id serial a (user, charge, User.success) = (
  record a {
    requests =
        a.requests ++ record { sender_id = sender_id; serial = serial; charge = charge } ∷ [];
  },
  user,
  success,
)
queue_request_charged sender_id serial a (user, charge, User.quota) =
    (a, (user_charge_deinit user charge).0, quota)
queue_request_charged sender_id serial a (user, charge, User.error) =
    (a, (user_charge_deinit user charge).0, error)
queue_request_charged sender_id serial a (user, charge, User.assertion) = (a, user, assertion)

-- `memory` is for the object itself, `usage_memory` for a usage, and `log` is the user's log.
module _ (told memory usage_memory : Bool) (log : Option Bool) where
  -- `n_bytes` is the size of the structures and of the message.
  unfoldable pub activation_queue_message :
      Bool → ℕ → ℕ → Activation → User → ℕ → ℕ → Activation × User × Code
  unfolding activation_request queue_charged charge_two
  activation_queue_message copied n_bytes n_fds a user actor sender_id =
      let (a', ok) = activation_request told a in
      if ok
      then (if memory
          then queue_charged copied sender_id a'
              (charge_two usage_memory log user actor (slot_bytes, n_bytes) (slot_fds, n_fds))
          else (a', user, error))
      else (a', user, error)

  -- `size` is that of an ActivationRequest.
  unfoldable pub activation_queue_request :
      ℕ → Activation → User → ℕ → ℕ → ℕ → Activation × User × Code
  unfolding activation_request queue_request_charged user_charge
  activation_queue_request size a user actor sender_id serial =
      let (a', ok) = activation_request told a in
      if ok
      then (if serial == 0
          then (a', user, success)
          else if memory
          then queue_request_charged sender_id serial a'
              (user_charge usage_memory log user user_charge_init actor slot_bytes size)
          else (a', user, error))
      else (a', user, error)

-- activation_deinit(): all messages are freed, then all requests.
unfoldable pub free_messages : List ActivationMessage → User → User
unfolding release_two
free_messages [] user = user
free_messages (m ∷ ms) user = free_messages ms (release_two user m.bytes m.fds)

unfoldable pub free_requests : List ActivationRequest → User → User
unfolding user_charge_deinit
free_requests [] user = user
free_requests (r ∷ rs) user = free_requests rs (user_charge_deinit user r.charge).0

unfoldable pub activation_deinit : Activation → User → Activation × User
unfolding free_messages free_requests
activation_deinit a user = (
  record a { messages = []; requests = [] },
  free_requests a.requests (free_messages a.messages user),
)

-- activation_get_stats_for(): the bytes and descriptors that an owner's messages and requests were
-- charged.
unfoldable pub stats_of_messages : ℕ → List ActivationMessage → ℕ × ℕ
unfolding add32
stats_of_messages owner [] = (0, 0)
stats_of_messages owner (m ∷ ms) =
    let (bytes, fds) = stats_of_messages owner ms in
    if m.sender_id == owner
    then (add32 bytes m.bytes.charge, add32 fds m.fds.charge)
    else (bytes, fds)

unfoldable pub stats_of_requests : ℕ → List ActivationRequest → ℕ
unfolding add32
stats_of_requests owner [] = 0
stats_of_requests owner (r ∷ rs) =
    let bytes = stats_of_requests owner rs in
    if r.sender_id == owner then add32 bytes r.charge.charge else bytes

unfoldable pub activation_get_stats_for : Activation → ℕ → ℕ × ℕ
unfolding stats_of_messages stats_of_requests add32
activation_get_stats_for a owner =
    let (bytes, fds) = stats_of_messages owner a.messages in
    (add32 bytes (stats_of_requests owner a.requests), fds)
