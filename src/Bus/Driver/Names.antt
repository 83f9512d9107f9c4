-- ===== src/Bus/Driver/Names.antt =====
-- RequestName() and ReleaseName() of src/bus/driver.c, up to their replies. The arguments have been
-- read, and what is sent is given by the reply and the change of the owner.
pub mod Entitled
pub mod Replies
pub mod Tests
use dbus_broker.Common.{Bytes, Bool, Option, none, some, ℕ, true, false, if◌then◌else◌, List}
use dbus_broker.Dbus.Protocol.{dbus_validate_name}
use dbus_broker.Bus.Name.{NameRegistry, NameChange, Flags}
use dbus_broker.Bus.Policy.{Batch}
use dbus_broker.Bus.Policy.Snapshot.{Access}
use dbus_broker.Bus.Peer
use dbus_broker.Bus.Peer.Names.{peer_request_name, peer_release_name}

-- DBUS_REQUEST_NAME_REPLY_* and DBUS_RELEASE_NAME_REPLY_*
abbrev pub request_name_primary_owner : ℕ
request_name_primary_owner = 1

abbrev pub request_name_in_queue : ℕ
request_name_in_queue = 2

abbrev pub request_name_exists : ℕ
request_name_exists = 3

abbrev pub request_name_already_owner : ℕ
request_name_already_owner = 4

abbrev pub release_name_released : ℕ
release_name_released = 1

abbrev pub release_name_non_existent : ℕ
release_name_non_existent = 2

abbrev pub release_name_not_owner : ℕ
release_name_not_owner = 3

-- A reply, one of the DRIVER_E_* codes, or another error.
pub data Answer : Type 0 where
  reply : ℕ → Answer
  name_invalid : Answer
  name_reserved : Answer
  name_unique : Answer
  name_refused : Answer
  quota : Answer
  error : Answer

unfoldable pub request_answer : Peer.Code → Answer
request_answer Peer.success = reply request_name_primary_owner
request_answer Peer.name_already_owner = reply request_name_already_owner
request_answer Peer.name_in_queue = reply request_name_in_queue
request_answer Peer.name_exists = reply request_name_exists
request_answer Peer.quota = quota
request_answer Peer.name_reserved = name_reserved
request_answer Peer.name_unique = name_unique
request_answer Peer.name_refused = name_refused
request_answer code = error

unfoldable pub release_answer : Peer.Code → Answer
release_answer Peer.success = reply release_name_released
release_answer Peer.name_not_found = reply release_name_non_existent
release_answer Peer.name_not_owner = reply release_name_not_owner
release_answer Peer.name_reserved = name_reserved
release_answer Peer.name_unique = name_unique
release_answer code = error

abbrev pub with_answer :
    (Peer.Code → Answer)
    → NameRegistry × Option NameChange × Peer.Code
    → NameRegistry × Option NameChange × Answer
with_answer f (r, change, code) = (r, change, f code)

unfoldable pub driver_method_request_name :
    Access
    → Access
    → List Batch
    → Bool
    → NameRegistry
    → ℕ
    → Bytes
    → Flags
    → NameRegistry × Option NameChange × Answer
unfolding request_answer peer_request_name
driver_method_request_name apparmor selinux policy charged r peer name flags =
    if dbus_validate_name name
    then with_answer request_answer
        (peer_request_name apparmor selinux policy charged r peer name flags)
    else (r, none, name_invalid)

unfoldable pub driver_method_release_name :
    NameRegistry → ℕ → Bytes → NameRegistry × Option NameChange × Answer
unfolding release_answer peer_release_name
driver_method_release_name r peer name =
    if dbus_validate_name name
    then with_answer release_answer (peer_release_name r peer name)
    else (r, none, name_invalid)
