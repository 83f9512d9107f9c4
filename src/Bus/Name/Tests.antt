-- ===== src/Bus/Name/Tests.antt =====
-- Runs of the name registry of src/bus/name.c.
use dbus_broker.Common.{
  ◌≡◌, refl, true, false, [], ◌∷◌, List, Bytes, codes, bytes_eq, is_nil, if◌then◌else◌,
}
use dbus_broker.Bus.Name.{
  Flags, NameOwnership, name_registry_init, name_registry_request_name, name_registry_release_name,
  queue_of, primary, unlink, is_linked, success, not_found, not_owner,
}
use dbus_broker.Bus.Name.Queue.{change_between}
use dbus_broker.Bus.Name.Registry.{IsValid}
use dbus_broker.Bus.Name.Requests.{
  Call, request, release, run, run_init-IsValid, request-change, release_lem, request-Outcome,
  Outcome,
}

abbrev service : Bytes
service = codes "org.x"

abbrev replaceable : Flags
replaceable = record { allow_replacement = true; replace_existing = false; do_not_queue = true }

abbrev replacing : Flags
replacing = record { allow_replacement = false; replace_existing = true; do_not_queue = false }

-- The first owner is replaced by the second, behind whom the first one then queues.
abbrev calls : List Call
calls =
    request 1 true service replaceable
    ∷ request 2 true service replacing
    ∷ request 1 true service replacing
    ∷ release 2 service
    ∷ []

run_init-IsValid_example : IsValid (run name_registry_init calls)
run_init-IsValid_example = run_init-IsValid calls

request-change_example :
    let (r', change, code) =
      name_registry_request_name name_registry_init 1 true service replaceable in
    change
    ≡ change_between
        (primary (queue_of service name_registry_init.names))
        (primary (queue_of service r'.names))
request-change_example = request-change name_registry_init 1 true service replaceable

release_example :
    let r = run name_registry_init calls in
    let (r', change, code) = name_registry_release_name r 1 service in
    let q = queue_of service r.names in
    (queue_of service r'.names ≡ unlink 1 q)
    × (change ≡ change_between (primary q) (primary (queue_of service r'.names)))
    × (code ≡ (if is_linked 1 q then success else if is_nil q then not_found else not_owner))
release_example = release_lem (run name_registry_init calls) 1 service (run_init-IsValid calls)

request-Outcome_example :
    let r = run name_registry_init calls in
    let (r', change, code) = name_registry_request_name r 3 true service replacing in
    Outcome code 3 r r' service
request-Outcome_example =
    request-Outcome (run name_registry_init calls) 3 true service replacing (run_init-IsValid calls)

abbrev elsewhere : Bytes
elsewhere = codes "org.y"

other_name : bytes_eq service elsewhere ≡ false
unfolding bytes_eq
other_name = refl

abbrev waiting : List NameOwnership
waiting = record { owner = 1; flags = replaceable } ∷ record { owner = 2; flags = replacing } ∷ []

abbrev newcomer : NameOwnership
newcomer = record { owner = 3; flags = replacing }
