-- ===== src/Bus/Driver/Dispatch.antt =====
-- How src/bus/driver.c finds what a message is for: driver_dispatch() and what it calls, down to the
-- method of the driver, the forwarding, or the error. What a method or a forwarding does to the state
-- of the bus is a parameter. The check of the policy in driver_dispatch_interface() is compiled out.
pub mod Registration
pub mod Tests
use dbus_broker.Common.{
  ℕ, ◌+◌, Bytes, codes, bytes_eq, Bool, true, false, ◌&&◌, ◌||◌, not, Option, none, some, List, [],
  ◌∷◌, ◌++◌, ◌==◌, if◌then◌else◌, length, is_nil,
}
use dbus_broker.Bus.Peer.Names.{driver_name}
use dbus_broker.Bus.Driver.Codes.{
  Code, success, peer_not_yet_registered, peer_not_registered, monitor_read_only,
  unexpected_message_type, unexpected_path, unexpected_interface, unexpected_method,
  unexpected_signature, fatal, error_name, driver_error_to_string,
}

-- DriverMethod; the type of the arguments is given by its elements.
pub record DriverMethod : Type 0 where
  pub name : Bytes
  pub needs_registration : Bool
  pub path : Option Bytes
  pub in_type : Bytes

-- What is looked at of a message. A method call has a member and a path; a missing signature is empty.
pub record Message : Type 0 where
  pub type : ℕ
  pub serial : ℕ
  pub destination : Option Bytes
  pub interface : Option Bytes
  pub member : Bytes
  pub path : Bytes
  pub signature : Bytes

-- driver_dvar_verify_signature_in()
unfoldable pub driver_dvar_verify_signature_in : Bytes → Bytes → Bool
unfolding bytes_eq
driver_dvar_verify_signature_in in_type signature = bytes_eq in_type (b'(' ∷ signature ++ b')' ∷ [])

abbrev pub object_path : Option Bytes
object_path = some (codes "/org/freedesktop/DBus")

abbrev pub in_unit : Bytes
in_unit = codes "()"

abbrev pub in_s : Bytes
in_s = codes "(s)"

abbrev pub in_su : Bytes
in_su = codes "(su)"

abbrev pub method : Bytes → Bool → Option Bytes → Bytes → DriverMethod
method name needs_registration path in_type = record {
  name = name;
  needs_registration = needs_registration;
  path = path;
  in_type = in_type;
}

abbrev pub driver_methods : List DriverMethod
driver_methods =
    method (codes "Hello") false none in_unit
    ∷ method (codes "AddMatch") true none in_s
    ∷ method (codes "RemoveMatch") true none in_s
    ∷ method (codes "RequestName") true none in_su
    ∷ method (codes "ReleaseName") true none in_s
    ∷ method (codes "GetConnectionCredentials") true none in_s
    ∷ method (codes "GetConnectionUnixUser") true none in_s
    ∷ method (codes "GetConnectionUnixProcessID") true none in_s
    ∷ method (codes "GetAdtAuditSessionData") true none in_s
    ∷ method (codes "GetConnectionSELinuxSecurityContext") true none in_s
    ∷ method (codes "StartServiceByName") true none in_su
    ∷ method (codes "ListQueuedOwners") true none in_s
    ∷ method (codes "ListNames") true none in_unit
    ∷ method (codes "ListActivatableNames") true none in_unit
    ∷ method (codes "NameHasOwner") true none in_s
    ∷ method (codes "UpdateActivationEnvironment") true object_path (codes "(a{ss})")
    ∷ method (codes "GetNameOwner") true none in_s
    ∷ method (codes "ReloadConfig") true none in_unit
    ∷ method (codes "GetId") true none in_unit
    ∷ []

abbrev pub monitoring_methods : List DriverMethod
monitoring_methods = method (codes "BecomeMonitor") true object_path (codes "(asu)") ∷ []

abbrev pub introspectable_methods : List DriverMethod
introspectable_methods = method (codes "Introspect") true none in_unit ∷ []

abbrev pub peer_methods : List DriverMethod
peer_methods =
    method (codes "Ping") true none in_unit ∷ method (codes "GetMachineId") true none in_unit ∷ []

abbrev pub properties_methods : List DriverMethod
properties_methods =
    method (codes "Get") true object_path (codes "(ss)")
    ∷ method (codes "Set") true object_path (codes "(ssv)")
    ∷ method (codes "GetAll") true object_path in_s
    ∷ []

abbrev pub debug_stats_methods : List DriverMethod
debug_stats_methods =
    method (codes "GetStats") true object_path in_unit
    ∷ method (codes "GetConnectionStats") true object_path in_s
    ∷ method (codes "GetAllMatchRules") true object_path in_unit
    ∷ []

abbrev pub peer_interface : Bytes
peer_interface = codes "org.freedesktop.DBus.Peer"

abbrev pub interfaces : List (Bytes × List DriverMethod)
interfaces =
    (driver_name, driver_methods)
    ∷ (codes "org.freedesktop.DBus.Monitoring", monitoring_methods)
    ∷ (codes "org.freedesktop.DBus.Introspectable", introspectable_methods)
    ∷ (peer_interface, peer_methods)
    ∷ (codes "org.freedesktop.DBus.Properties", properties_methods)
    ∷ (codes "org.freedesktop.DBus.Debug.Stats", debug_stats_methods)
    ∷ []

-- What the driver does to a state: to the monitors, by a method, and by forwarding.
pub record Actions (S : Type 0) : Type 0 where
  pub driver_monitor : Message → S → S × Code
  pub method_fn : Bytes → Message → S → S × Code
  pub driver_forward_unicast : Bytes → Message → S → S × Code
  pub driver_forward_broadcast : Message → S → S × Code
  pub peer_queue_reply : Bytes → Message → S → S × Code

abbrev pub path_fits : Option Bytes → Bytes → Bool
path_fits none path = true
path_fits (some p) path = bytes_eq path p

abbrev pub is_success : Code → Bool
is_success success = true
is_success code = false

abbrev pub is_unexpected_method : Code → Bool
is_unexpected_method unexpected_method = true
is_unexpected_method code = false

abbrev pub is_unexpected_interface : Code → Bool
is_unexpected_interface unexpected_interface = true
is_unexpected_interface code = false

abbrev pub unless_unexpected : {S : Type 0} → S × Code → S × Code → S × Code
unless_unexpected r rest = if is_unexpected_method r.1 then rest else r

abbrev pub not_yet : {S : Type 0} → Bool → S × Code → S × Code
not_yet registered r =
    if not registered && (is_unexpected_interface r.1 || is_unexpected_method r.1)
    then (r.0, peer_not_yet_registered)
    else r

abbrev pub if_success : {S : Type 0} → S × Code → (S → S × Code) → S × Code
if_success r more = let next = more r.0 in if is_success r.1 then next else r

module _ {S : Type 0} (act : Actions S) where
  unfoldable pub driver_handle_method : DriverMethod → Message → S → S × Code
  unfolding driver_dvar_verify_signature_in
  driver_handle_method m message s =
      if not (path_fits m.path message.path)
      then (s, unexpected_path)
      else if not (driver_dvar_verify_signature_in m.in_type message.signature)
      then (s, unexpected_signature)
      else act.method_fn m.name message s

  unfoldable pub driver_dispatch_method : Bool → List DriverMethod → Message → S → S × Code
  unfolding driver_handle_method bytes_eq
  driver_dispatch_method registered [] message s = (s, unexpected_method)
  driver_dispatch_method registered (m ∷ methods) message s =
      let rest = driver_dispatch_method registered methods message s in
      if bytes_eq m.name message.member && (registered || not m.needs_registration)
      then driver_handle_method m message s
      else rest

  -- The loop over the interfaces for one of them.
  unfoldable pub dispatch_named :
      Bool → List (Bytes × List DriverMethod) → Bytes → Message → S → S × Code
  unfolding driver_dispatch_method bytes_eq
  dispatch_named registered [] interface message s = (s, unexpected_interface)
  dispatch_named registered ((name, methods) ∷ is) interface message s =
      let rest = dispatch_named registered is interface message s in
      if bytes_eq name interface then driver_dispatch_method registered methods message s else rest

  -- The loop over all of them goes on while the method is not found; then the state is as it was.
  unfoldable pub dispatch_any : Bool → List (Bytes × List DriverMethod) → Message → S → S × Code
  unfolding driver_dispatch_method
  dispatch_any registered [] message s = (s, unexpected_method)
  dispatch_any registered ((name, methods) ∷ is) message s =
      let r = driver_dispatch_method registered methods message s in
      unless_unexpected r (dispatch_any registered is message r.0)

  unfoldable pub driver_dispatch_interface : Bool → Option Bytes → Message → S → S × Code
  unfolding dispatch_named dispatch_any
  driver_dispatch_interface registered none message s =
      if message.type == 1 then dispatch_any registered interfaces message s else (s, success)
  driver_dispatch_interface registered (some interface) message s =
      if message.type == 1
      then dispatch_named registered interfaces interface message s
      else (s, success)

  -- A method call without a destination is for the interface of peers.
  unfoldable pub dispatch_to_none : Bool → Option Bytes → Message → S → S × Code
  unfolding driver_dispatch_method bytes_eq
  dispatch_to_none registered none message s =
      driver_dispatch_method registered peer_methods message s
  dispatch_to_none registered (some interface) message s =
      if bytes_eq interface peer_interface
      then driver_dispatch_method registered peer_methods message s
      else (s, unexpected_method)

  -- By the destination, behind the monitors.
  unfoldable pub dispatch_by_destination : Bool → Option Bytes → Message → S → S × Code
  unfolding dispatch_to_none driver_dispatch_interface bytes_eq
  dispatch_by_destination registered none message s =
      if message.type == 1
      then dispatch_to_none registered message.interface message s
      else if not registered
      then (s, peer_not_registered)
      else if message.type == 4
      then act.driver_forward_broadcast message s
      else (s, unexpected_message_type)
  dispatch_by_destination registered (some destination) message s =
      if bytes_eq destination driver_name
      then not_yet registered (driver_dispatch_interface registered message.interface message s)
      else if not registered
      then (s, peer_not_registered)
      else if (message.type == 4) || (message.type == 1)
      then act.driver_forward_unicast destination message s
      else if (message.type == 2) || (message.type == 3)
      then act.peer_queue_reply destination message s
      else (s, unexpected_message_type)

  unfoldable pub driver_dispatch_internal : Bool → Message → S → S × Code
  unfolding dispatch_by_destination
  driver_dispatch_internal registered message s =
      if_success (act.driver_monitor message s)
        (dispatch_by_destination registered message.destination message)

-- What driver_dispatch() leaves to do: to return a code, or to send an error with a serial and a text,
-- if a reply is expected, and return what comes of that.
pub data Outcome : Type 0 where
  returned : Code → Outcome
  nothing_sent : Outcome
  sent_error : ℕ → Bytes → Option Bytes → Outcome

unfoldable pub driver_send_error : ℕ → Bytes → Option Bytes → Outcome
driver_send_error serial error text =
    if serial == 0 then nothing_sent else sent_error serial error text

unfoldable pub answer : ℕ → Code → Option Bytes → Outcome
unfolding driver_error_to_string driver_send_error
answer serial code none = returned code
answer serial code (some error) = driver_send_error serial error (driver_error_to_string code)

module _ {S : Type 0} (act : Actions S) where
  unfoldable pub driver_dispatch : Bool → Bool → Message → S → S × Outcome
  unfolding driver_dispatch_internal answer error_name
  driver_dispatch monitor registered message s =
      let (s', code) = driver_dispatch_internal act registered message s in
      if monitor
      then (s, returned monitor_read_only)
      else (s', answer message.serial code (error_name code))
