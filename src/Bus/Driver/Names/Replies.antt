-- ===== src/Bus/Driver/Names/Replies.antt =====
-- What the replies of RequestName() and ReleaseName() of src/bus/driver.c tell of the queue of the name.
use dbus_broker.Common.{
  ℕ, Bytes, bytes_eq, Bool, true, false, inl, inr, Option, some, List, ◌==◌, if◌then◌else◌, ◌≡◌,
  ◌≢◌, refl, Bool-cases,
}
use dbus_broker.Dbus.Protocol.{dbus_validate_name}
use dbus_broker.Bus.Name
use dbus_broker.Bus.Name.{
  Flags, NameRegistry, NameChange, is_linked, primary, queue_of, name_registry_request_name,
}
use dbus_broker.Bus.Name.Registry.{IsValid}
use dbus_broker.Bus.Name.Requests.{Outcome, request-Outcome}
use dbus_broker.Bus.Policy.{Batch}
use dbus_broker.Bus.Policy.Snapshot
use dbus_broker.Bus.Policy.Snapshot.{Access, policy_snapshot_check_own}
use dbus_broker.Bus.Peer.Names.{
  driver_name, is_unique, if_allowed, with_code, requested, peer_request_name,
}
use dbus_broker.Bus.Driver.Names.{
  request_name_primary_owner, request_name_in_queue, request_name_exists,
  request_name_already_owner, Answer, reply, name_invalid, name_reserved, name_unique, name_refused,
  quota, error, with_answer, request_answer, driver_method_request_name, request_name_primary_owner,
  request_name_in_queue, request_name_exists, request_name_already_owner,
}

-- What an answer to RequestName() says of the queue of the name: with a reply, that the peer has become
-- its primary owner, that it waits behind another one that stays, that it is not in the queue, or that it
-- was and is its primary owner; without, that nothing has changed.
abbrev pub Told : Answer → ℕ → NameRegistry → NameRegistry → Bytes → Type 0
Told (reply n) peer r r' name =
    let before = primary (queue_of name r.names) in
    let after = primary (queue_of name r'.names) in
    if n == request_name_primary_owner
    then (before ≢ some peer) × (after ≡ some peer)
    else if n == request_name_in_queue
    then (after ≡ before) × (before ≢ some peer) × (is_linked peer (queue_of name r'.names) ≡ true)
    else if n == request_name_exists
    then (after ≡ before) × (is_linked peer (queue_of name r'.names) ≡ false)
    else if n == request_name_already_owner
    then (before ≡ some peer) × (after ≡ some peer)
    else ⊥
Told name_invalid peer r r' name = r' ≡ r
Told name_reserved peer r r' name = r' ≡ r
Told name_unique peer r r' name = r' ≡ r
Told name_refused peer r r' name = r' ≡ r
Told quota peer r r' name = r' ≡ r
Told error peer r r' name = r' ≡ r

Outcome-Told :
    (code : Name.Code) (peer : ℕ) (r r' : NameRegistry) (name : Bytes)
    → Outcome code peer r r' name
    → Told (request_answer (requested code)) peer r r' name
unfolding request_answer requested
Outcome-Told Name.success peer r r' name o = o
Outcome-Told Name.quota peer r r' name o = o.0
Outcome-Told Name.already_owner peer r r' name o = o
Outcome-Told Name.in_queue peer r r' name o = o
Outcome-Told Name.exists peer r r' name o = o
Outcome-Told Name.not_found peer r r' name o = absurd o
Outcome-Told Name.not_owner peer r r' name o = absurd o

-- The answer and the registry of a request.
abbrev TrueAnswer : NameRegistry → ℕ → Bytes → NameRegistry × Option NameChange × Answer → Type 0
TrueAnswer r peer name (r', change, answer) = Told answer peer r r' name

module _ (apparmor selinux : Access) (policy : List Batch) (charged : Bool) (r : NameRegistry)
    (peer : ℕ) (name : Bytes) (flags : Flags) where
  allowed_told :
      (code : Snapshot.Code)
      → IsValid r
      → TrueAnswer r peer name (
          with_answer request_answer (
            if_allowed code r
              (with_code requested (name_registry_request_name r peer charged name flags))))
  unfolding if_allowed request_answer
  allowed_told Snapshot.success v =
      let (r', change, code) = name_registry_request_name r peer charged name flags in
      Outcome-Told code peer r r' name (request-Outcome r peer charged name flags v)
  allowed_told Snapshot.access_denied v = refl
  allowed_told Snapshot.selinux_access_denied v = refl
  allowed_told Snapshot.apparmor_access_denied v = refl
  allowed_told Snapshot.failed v = refl

  -- In a valid registry, the reply to RequestName() is true: it tells whether the peer has become the
  -- primary owner, was and is it, waits behind another one, or is not in the queue; and an error
  -- of any kind means that the registry is as it was.
  pub driver_method_request_name_lem :
      IsValid r
      → let (r', change, answer) =
          driver_method_request_name apparmor selinux policy charged r peer name flags in
        Told answer peer r r' name
  unfolding driver_method_request_name peer_request_name request_answer
  driver_method_request_name_lem v = elim (Bool-cases (dbus_validate_name name)) [
    | inr e ↦ rw e refl
    | inl e ↦ elim (Bool-cases (bytes_eq name driver_name)) [
      | inl f ↦ rw (e, f) refl
      | inr f ↦ elim (Bool-cases (is_unique name)) [
        | inl g ↦ rw (e, f, g) refl
        | inr g ↦
            rw (e, f, g) (allowed_told (policy_snapshot_check_own apparmor selinux policy name) v)
      ]
    ]
  ]
