-- ===== src/Bus/Driver/Dispatch/Tests.antt =====
-- Runs of driver_dispatch() of src/bus/driver.c.
use dbus_broker.Common.{ℕ, ◌+◌, Bytes, codes, bytes_eq, ◌≡◌, refl, true, false, ◌⊎◌, none, some, []}
use dbus_broker.Bus.Peer.Names.{driver_name}
use dbus_broker.Bus.Driver.Codes.{success}
use dbus_broker.Bus.Driver.Dispatch.{Message, Actions, returned, sent_error, driver_dispatch}
use dbus_broker.Bus.Driver.Dispatch.Registration.{unregistered_only_hello}

-- A state that counts what is done to it.
abbrev counting : Actions ℕ
counting = record {
  driver_monitor = λ m s. (s, success);
  method_fn = λ name m s. (s + 1, success);
  driver_forward_unicast = λ d m s. (s + 10, success);
  driver_forward_broadcast = λ m s. (s + 100, success);
  peer_queue_reply = λ d m s. (s + 1000, success);
}

abbrev call : Bytes → Bytes → Message
call member signature = record {
  type = 1;
  serial = 7;
  destination = some driver_name;
  interface = none;
  member = member;
  path = codes "/org/freedesktop/DBus";
  signature = signature;
}

hello_goes :
    driver_dispatch counting false false (call (codes "Hello") []) 0 ≡ (1, returned success)
unfolding driver_dispatch
hello_goes = refl

request_name_waits :
    driver_dispatch counting false false (call (codes "RequestName") (codes "su")) 0 ≡ (
      0,
      sent_error 7
          (codes "org.freedesktop.DBus.Error.AccessDenied")
          (some (codes "Hello() was not yet called")),
    )
unfolding driver_dispatch
request_name_waits = refl

request_name_goes :
    driver_dispatch counting false true (call (codes "RequestName") (codes "su")) 0
    ≡ (1, returned success)
unfolding driver_dispatch
request_name_goes = refl

unregistered_only_hello_example :
    let message = call (codes "RequestName") (codes "su") in
    let after = (driver_dispatch counting false false message 0).0 in
    (after ≡ 0) ⊎ ((bytes_eq (codes "Hello") message.member ≡ true) × (after ≡ 1))
unregistered_only_hello_example =
    unregistered_only_hello counting (call (codes "RequestName") (codes "su")) 0
