-- ===== src/Dbus/Address/Tests.antt =====
-- Runs of the parser and the printer of src/dbus/address.c.
use dbus_broker.Common.{◌≡◌, ◌≢◌, codes, some}
use mathlib.Core.Option
use dbus_broker.Dbus.Address.{other, address_from_string, address_to_string, strtoul, id_of}
use dbus_broker.Util.Decimal.{strtoul}
use dbus_broker.Dbus.Address.RoundTrip.{reparse}

is_address : address_from_string (codes ":1.042") ≢ other
unfolding address_from_string strtoul id_of
is_address = cc

reparse_example :
    Option.map address_from_string (address_to_string (address_from_string (codes ":1.042")))
    ≡ some (address_from_string (codes ":1.042"))
reparse_example = reparse (codes ":1.042") is_address
