-- ===== src/Bus/Peer/Names.antt =====
-- The names of a peer: peer_request_name() and peer_release_name() of src/bus/peer.c. What follows the
-- checks is the registry of src/bus/name.c.
use dbus_broker.Common.{
  Bytes, codes, bytes_eq, Bool, Option, none, [], ◌∷◌, ℕ, false, ◌==◌, if◌then◌else◌,
}
use dbus_broker.Bus.Name
use dbus_broker.Bus.Name.{
  NameRegistry, NameChange, Flags, name_registry_request_name, name_registry_release_name,
}
use dbus_broker.Bus.Policy.{Batch}
use dbus_broker.Bus.Policy.Snapshot
use dbus_broker.Bus.Policy.Snapshot.{Access, policy_snapshot_check_own}
use dbus_broker.Bus.Peer.{
  Code, success, quota, name_reserved, name_unique, name_refused, name_already_owner, name_in_queue,
  name_exists, name_not_found, name_not_owner, error, List,
}

abbrev pub driver_name : Bytes
driver_name = codes "org.freedesktop.DBus"

-- name[0] == ':'
unfoldable pub is_unique : Bytes → Bool
is_unique [] = false
is_unique (c ∷ s) = c == b':'

-- The codes of the registry as those of a peer.
unfoldable pub requested : Name.Code → Code
requested Name.success = success
requested Name.quota = quota
requested Name.already_owner = name_already_owner
requested Name.in_queue = name_in_queue
requested Name.exists = name_exists
requested Name.not_found = error
requested Name.not_owner = error

unfoldable pub released : Name.Code → Code
released Name.success = success
released Name.not_found = name_not_found
released Name.not_owner = name_not_owner
released Name.quota = error
released Name.already_owner = error
released Name.in_queue = error
released Name.exists = error

abbrev pub with_code :
    (Name.Code → Code)
    → NameRegistry × Option NameChange × Name.Code
    → NameRegistry × Option NameChange × Code
with_code f (r, change, code) = (r, change, f code)

-- What is done by the policy's answer: `request` is the registry's.
unfoldable pub if_allowed :
    Snapshot.Code
    → NameRegistry
    → NameRegistry × Option NameChange × Code
    → NameRegistry × Option NameChange × Code
if_allowed Snapshot.success r request = request
if_allowed Snapshot.access_denied r request = (r, none, name_refused)
if_allowed Snapshot.selinux_access_denied r request = (r, none, name_refused)
if_allowed Snapshot.apparmor_access_denied r request = (r, none, name_refused)
if_allowed Snapshot.failed r request = (r, none, error)

-- The answers of the security modules, the batches of the peer's policy, and whether its user may be
-- charged for one more object.
unfoldable pub peer_request_name :
    Access
    → Access
    → List Batch
    → Bool
    → NameRegistry
    → ℕ
    → Bytes
    → Flags
    → NameRegistry × Option NameChange × Code
unfolding is_unique if_allowed requested
peer_request_name apparmor selinux policy charged r peer name flags =
    if bytes_eq name driver_name
    then (r, none, name_reserved)
    else if is_unique name
    then (r, none, name_unique)
    else if_allowed (policy_snapshot_check_own apparmor selinux policy name) r
        (with_code requested (name_registry_request_name r peer charged name flags))

unfoldable pub peer_release_name :
    NameRegistry → ℕ → Bytes → NameRegistry × Option NameChange × Code
unfolding is_unique released
peer_release_name r peer name =
    if bytes_eq name driver_name
    then (r, none, name_reserved)
    else if is_unique name
    then (r, none, name_unique)
    else with_code released (name_registry_release_name r peer name)
