-- ===== src/Bus/Driver/Names/Tests.antt =====
-- Runs of RequestName() and ReleaseName() of src/bus/driver.c.
use dbus_broker.Common.{ℕ, Bytes, codes, ◌≡◌, refl, true, false, List, [], ◌∷◌}
use dbus_broker.Bus.Name.{
  Flags, NameRegistry, name_registry_init, is_linked, queue_of, set_queue,
  name_registry_request_name, name_ownership_update,
}
use dbus_broker.Dbus.Protocol.{dbus_validate_name}
use dbus_broker.Bus.Name.Requests
use dbus_broker.Bus.Name.Requests.{run, run_init-IsValid}
use dbus_broker.Bus.Policy.{Batch, policy_verdict_init, policy_batch_find_name}
use dbus_broker.Bus.Policy.Snapshot.{
  Access, granted, policy_snapshot_check_own, behind_modules, own_verdict, check_prefixes, prefixes,
  ends, check_prefix, improve,
}
use dbus_broker.Bus.Driver.Names.{driver_method_request_name}
use dbus_broker.Bus.Driver.Names.Entitled.{Call, request, run_calls, Entitled, owners-Entitled}
use dbus_broker.Bus.Driver.Names.Replies.{Told, driver_method_request_name_lem}

abbrev service : Bytes
service = codes "org.x"

abbrev plain : Flags
plain = record { allow_replacement = false; replace_existing = false; do_not_queue = false }

-- A policy that lets own the service.
abbrev own_policy : List Batch
own_policy =
    record {
      connect_verdict = policy_verdict_init;
      names =
          record {
            name = service;
            own_verdict = record { verdict = true; priority = 1 };
            own_prefix_verdict = policy_verdict_init;
            send_unindexed = [];
            recv_unindexed = [];
          }
          ∷ [];
    }
    ∷ []

abbrev yes_to_all : ℕ → Bytes → Access
yes_to_all peer name = granted

-- A second peer waits for the name, and a reserved one is refused.
abbrev calls : List Call
calls =
    request 1 service plain true
    ∷ request 2 service plain true
    ∷ request 2 (codes "org.freedesktop.DBus") plain true
    ∷ []

waits :
    is_linked 2 (
      queue_of service
        (run_calls yes_to_all yes_to_all (λ peer. own_policy) calls name_registry_init).names)
    ≡ true
unfolding run_calls driver_method_request_name queue_of is_linked dbus_validate_name
    policy_snapshot_check_own behind_modules own_verdict check_prefixes prefixes ends check_prefix
    policy_batch_find_name improve name_registry_request_name set_queue name_ownership_update
waits = refl

owners-Entitled_example : Entitled yes_to_all yes_to_all (λ peer. own_policy) service 2
owners-Entitled_example =
    owners-Entitled yes_to_all yes_to_all (λ peer. own_policy) calls service 2 waits

abbrev owned : NameRegistry
owned = run name_registry_init (Requests.request 1 true service plain ∷ [])

request_name_example :
    let (r', change, answer) =
      driver_method_request_name granted granted own_policy true owned 2 service plain in
    Told answer 2 owned r' service
request_name_example =
    driver_method_request_name_lem granted granted own_policy true owned 2 service plain
      (run_init-IsValid (Requests.request 1 true service plain ∷ []))
