-- ===== src/Bus/Driver/Codes.antt =====
-- The errors of src/bus/driver.c, and how driver_dispatch() replies to each.
use dbus_broker.Common.{Bytes, codes, Option, none, some}

-- 0, the DRIVER_E_* codes, and any other error
pub data Code : Type 0 where
  success : Code
  unimplemented : Code
  peer_already_registered : Code
  peer_not_yet_registered : Code
  peer_not_registered : Code
  peer_not_privileged : Code
  monitor_read_only : Code
  unexpected_fds : Code
  unexpected_message_type : Code
  unexpected_path : Code
  unexpected_interface : Code
  unexpected_method : Code
  unexpected_property : Code
  readonly_property : Code
  unexpected_signature : Code
  unexpected_reply : Code
  forward_failed : Code
  quota : Code
  unexpected_flags : Code
  unexpected_environment_update : Code
  send_denied : Code
  receive_denied : Code
  expected_reply_exists : Code
  name_reserved : Code
  name_unique : Code
  name_invalid : Code
  name_refused : Code
  name_not_found : Code
  name_not_activatable : Code
  name_owner_not_found : Code
  peer_not_found : Code
  destination_not_found : Code
  match_invalid : Code
  match_not_found : Code
  adt_not_supported : Code
  selinux_not_supported : Code
  fatal : Code

-- driver_error_to_string(), where `none` is a failed assertion
unfoldable pub driver_error_to_string : Code → Option Bytes
driver_error_to_string success = none
driver_error_to_string unimplemented = some (codes "Unimplemented functionality")
driver_error_to_string peer_already_registered = some (codes "Hello() already called")
driver_error_to_string peer_not_yet_registered = some (codes "Hello() was not yet called")
driver_error_to_string peer_not_registered =
    some (codes "Message forwarding attempted without calling Hello()")
driver_error_to_string peer_not_privileged =
    some (codes "The caller does not have the necessary privileged to call this method")
driver_error_to_string monitor_read_only = some (codes "Monitor attempted to send message")
driver_error_to_string unexpected_fds =
    some (codes "Peer does not support file descriptor passing.")
driver_error_to_string unexpected_message_type = some (codes "Unexpected message type")
driver_error_to_string unexpected_path = some (codes "Invalid object path")
driver_error_to_string unexpected_interface = some (codes "Invalid interface")
driver_error_to_string unexpected_method = some (codes "Invalid method call")
driver_error_to_string unexpected_property = some (codes "Invalid property")
driver_error_to_string readonly_property = some (codes "Cannot set read-only property")
driver_error_to_string unexpected_signature = some (codes "Invalid signature for method")
driver_error_to_string unexpected_reply = some (codes "No pending reply with that serial")
driver_error_to_string forward_failed =
    some (codes "Request could not be forwarded to the parent process")
driver_error_to_string quota = some (codes "Sending user's quota exceeded")
driver_error_to_string unexpected_flags = some (codes "Invalid flags")
driver_error_to_string unexpected_environment_update =
    some (codes "User is not authorized to update environment variables")
driver_error_to_string send_denied = some (codes "Sender is not authorized to send message")
driver_error_to_string receive_denied = some (codes "Receiver is not authorized to receive message")
driver_error_to_string expected_reply_exists =
    some (codes "Pending reply with that serial already exists")
driver_error_to_string name_reserved = some (codes "org.freedesktop.DBus is a reserved name")
driver_error_to_string name_unique = some (codes "The name is a unique name")
driver_error_to_string name_invalid = some (codes "The name is not a valid well-known name")
driver_error_to_string name_refused = some (codes "Request to own name refused by policy")
driver_error_to_string name_not_found = some (codes "The name does not exist")
driver_error_to_string name_not_activatable = some (codes "The name is not activatable")
driver_error_to_string name_owner_not_found = some (codes "The name does not have an owner")
driver_error_to_string peer_not_found = some (codes "The connection does not exist")
driver_error_to_string destination_not_found = some (codes "Destination does not exist")
driver_error_to_string match_invalid = some (codes "Invalid match rule")
driver_error_to_string match_not_found = some (codes "The match does not exist")
driver_error_to_string adt_not_supported = some (codes "Solaris ADT is not supported")
driver_error_to_string selinux_not_supported = some (codes "SELinux is not supported")
driver_error_to_string fatal = none

-- The switch of driver_dispatch(): the name of the error that is sent, if one is.
unfoldable pub error_name : Code → Option Bytes
error_name success = none
error_name unimplemented = some (codes "org.freedesktop.DBus.Error.Failed")
error_name peer_already_registered = some (codes "org.freedesktop.DBus.Error.Failed")
error_name peer_not_yet_registered = some (codes "org.freedesktop.DBus.Error.AccessDenied")
error_name peer_not_registered = none
error_name peer_not_privileged = some (codes "org.freedesktop.DBus.Error.AccessDenied")
error_name monitor_read_only = none
error_name unexpected_fds = some (codes "org.freedesktop.DBus.Error.Failed")
error_name unexpected_message_type = some (codes "org.freedesktop.DBus.Error.AccessDenied")
error_name unexpected_path = some (codes "org.freedesktop.DBus.Error.AccessDenied")
error_name unexpected_interface = some (codes "org.freedesktop.DBus.Error.UnknownInterface")
error_name unexpected_method = some (codes "org.freedesktop.DBus.Error.UnknownMethod")
error_name unexpected_property = some (codes "org.freedesktop.DBus.Error.UnknownProperty")
error_name readonly_property = some (codes "org.freedesktop.DBus.Error.PropertyReadOnly")
error_name unexpected_signature = some (codes "org.freedesktop.DBus.Error.InvalidArgs")
error_name unexpected_reply = some (codes "org.freedesktop.DBus.Error.AccessDenied")
error_name forward_failed = some (codes "org.freedesktop.DBus.Error.LimitsExceeded")
error_name quota = some (codes "org.freedesktop.DBus.Error.LimitsExceeded")
error_name unexpected_flags = some (codes "org.freedesktop.DBus.Error.InvalidArgs")
error_name unexpected_environment_update = some (codes "org.freedesktop.DBus.Error.AccessDenied")
error_name send_denied = some (codes "org.freedesktop.DBus.Error.AccessDenied")
error_name receive_denied = some (codes "org.freedesktop.DBus.Error.AccessDenied")
error_name expected_reply_exists = some (codes "org.freedesktop.DBus.Error.AccessDenied")
error_name name_reserved = some (codes "org.freedesktop.DBus.Error.InvalidArgs")
error_name name_unique = some (codes "org.freedesktop.DBus.Error.InvalidArgs")
error_name name_invalid = some (codes "org.freedesktop.DBus.Error.InvalidArgs")
error_name name_refused = some (codes "org.freedesktop.DBus.Error.AccessDenied")
error_name name_not_found = some (codes "org.freedesktop.DBus.Error.NameHasNoOwner")
error_name name_not_activatable = some (codes "org.freedesktop.DBus.Error.ServiceUnknown")
error_name name_owner_not_found = some (codes "org.freedesktop.DBus.Error.NameHasNoOwner")
error_name peer_not_found = some (codes "org.freedesktop.DBus.Error.NameHasNoOwner")
error_name destination_not_found = some (codes "org.freedesktop.DBus.Error.NameHasNoOwner")
error_name match_invalid = some (codes "org.freedesktop.DBus.Error.MatchRuleInvalid")
error_name match_not_found = some (codes "org.freedesktop.DBus.Error.MatchRuleNotFound")
error_name adt_not_supported = some (codes "org.freedesktop.DBus.Error.AdtAuditDataUnknown")
error_name selinux_not_supported =
    some (codes "org.freedesktop.DBus.Error.SELinuxSecurityContextUnknown")
error_name fatal = none
