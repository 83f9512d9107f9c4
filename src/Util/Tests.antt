-- ===== src/Util/Tests.antt =====
-- Runs of the parsers, printers and the hex codec of src/util.
use dbus_broker.Common.{◌≡◌, refl, codes, some, [], ◌∷◌, arith}
use dbus_broker.Util.Decimal.{strtoul, u64_limit}
use dbus_broker.Util.Numbers.{util_strtou32, util_strtou64, success}
use dbus_broker.Util.Hex.{string_from_hex, string_to_hex, string_from_hex-string_to_hex}

reads_007 : util_strtou32 u64_limit (codes " 007") ≡ success 7
unfolding util_strtou32 strtoul
reads_007 = refl

reads_12 : util_strtou64 (codes "+12") ≡ success 12
unfolding util_strtou64 strtoul
reads_12 = refl

string_from_hex-string_to_hex_example :
    string_from_hex 2 (string_to_hex (171 ∷ 9 ∷ [])) ≡ some (171 ∷ 9 ∷ [])
string_from_hex-string_to_hex_example =
    string_from_hex-string_to_hex (171 ∷ 9 ∷ []) (omega arith, (omega arith, tt))
