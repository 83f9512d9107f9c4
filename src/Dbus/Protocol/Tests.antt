-- ===== src/Dbus/Protocol/Tests.antt =====
-- Runs of the validators of src/dbus/protocol.c.
use dbus_broker.Common.{◌≡◌, refl, true, false, codes, ◌&&◌, leb, length}
use dbus_broker.Dbus.Protocol.{
  dbus_validate_name, dbus_validate_interface, dbus_validate_name_common,
}
use dbus_broker.Dbus.Protocol.Grammar.{dbus_validate_name_common_lem, well_formed_name}

names :
    (dbus_validate_name (codes "org.freedesktop.DBus") ≡ true)
    × (dbus_validate_name (codes ":1.42") ≡ true)
    × (dbus_validate_name (codes "org.42") ≡ false)
    × (dbus_validate_name (codes "org..x") ≡ false)
    × (dbus_validate_name (codes "org") ≡ false)
unfolding dbus_validate_name
names = (refl, refl, refl, refl, refl)

dbus_validate_name_common_example :
    dbus_validate_name_common (codes ":1.42") false
    ≡ (leb (length (codes ":1.42")) 255 && well_formed_name false (codes ":1.42"))
dbus_validate_name_common_example = dbus_validate_name_common_lem (codes ":1.42") false

is_name : dbus_validate_name (codes "org.freedesktop.DBus") ≡ true
unfolding dbus_validate_name
is_name = refl

is_interface : dbus_validate_interface (codes "org.freedesktop.DBus") ≡ true
unfolding dbus_validate_interface
is_interface = refl
