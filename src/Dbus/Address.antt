-- ===== src/Dbus/Address.antt =====
-- src/dbus/address.c: addresses of peers, parsed from and written as strings.
pub mod Tests
pub mod RoundTrip
use dbus_broker.Common.{
  ℕ, ◌+◌, ◌-◌, ◌<◌, Bytes, codes, strip_prefix, Bool, true, false, ◌||◌, not, Option, none, some,
  [], ◌∷◌, ◌++◌, ltb, ◌==◌, if◌then◌else◌, length, is_nil,
}
use dbus_broker.Util.Decimal.{Strtoul, strtoul, decimal, u64_limit}

pub data Address : Type 0 where
  other : Address
  id : ℕ → Address
  name : Bytes → Address

-- ADDRESS_ID_INVALID, which is ULLONG_MAX
abbrev pub address_id_invalid : ℕ
address_id_invalid = u64_limit - 1

-- ADDRESS_ID_STRING_MAX: C_DECIMAL_MAX(uint64_t) is 21, with room for a sign.
abbrev pub address_id_string_max : ℕ
address_id_string_max = 3 + 21

-- The checks on what strtoull() read behind ":1.".
unfoldable pub id_of : Strtoul → Address
id_of r =
    if not r.converted || not (is_nil r.rest) || r.out_of_range || (r.value == address_id_invalid)
    then other
    else id r.value

unfoldable pub id_behind : Option Bytes → Address
unfolding id_of
id_behind none = other
id_behind (some t) = id_of (strtoul u64_limit t)

unfoldable pub address_from_string : Bytes → Address
unfolding id_behind strip_prefix
address_from_string [] = other
address_from_string (c ∷ s) =
    if c == b':' then id_behind (strip_prefix (codes ":1.") (c ∷ s)) else name (c ∷ s)

-- snprintf() into a buffer of n bytes, followed by c_assert(r < n): `none` is the failed assertion.
unfoldable pub print_bounded : ℕ → Bytes → Option Bytes
print_bounded n s = if ltb (length s) n then some s else none

unfoldable pub address_to_string : Address → Option Bytes
unfolding print_bounded
address_to_string (id n) = print_bounded (address_id_string_max + 1) (codes ":1." ++ decimal n)
address_to_string (name s) = some s
address_to_string other = none

unfoldable pub address_write : Address → ℕ → Option Bytes
unfolding print_bounded
address_write (id n) n_buffer = print_bounded n_buffer (codes ":1." ++ decimal n)
address_write (name s) n_buffer = print_bounded n_buffer s
address_write other n_buffer = none
