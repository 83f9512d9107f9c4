-- ===== src/Bus/Match/Keys.antt =====
-- match_keys_assign() of src/bus/match.c: one key and its value, added to the keys of a match rule.
-- c_dvar_is_path(), of a library, is the parameter `is_path`.
pub mod Validity
pub mod Sender
pub mod Tests
use dbus_broker.Common.{
  &&_split, ℕ, zero, suc, ◌+◌, ◌-◌, ◌*◌, ◌<◌, ◌≤◌, Bytes, codes, bytes_eq, strip_prefix, Bool, true,
  false, ◌&&◌, ◌||◌, not, Option, none, some, List, [], ◌∷◌, leb, ltb, ◌==◌, if◌then◌else◌, ◌≡◌,
  refl, arith, max,
}
use dbus_broker.Dbus.Protocol.{
  dbus_validate_name, dbus_validate_namespace, dbus_validate_interface, dbus_validate_member,
}
use dbus_broker.Dbus.Address.{Address, other, id, name, address_from_string, address_id_invalid}

-- The filter and the other keys; a null pointer is `none`.
pub record MatchKeys : Type 0 where
  pub type : ℕ
  pub sender_id : ℕ
  pub interface : Option Bytes
  pub member : Option Bytes
  pub path : Option Bytes
  pub args : ℕ → Option Bytes
  pub n_args : ℕ
  pub argpaths : ℕ → Option Bytes
  pub n_argpaths : ℕ
  pub destination : Option Bytes
  pub sender : Option Bytes
  pub path_namespace : Option Bytes
  pub arg0namespace : Option Bytes

-- MATCH_KEYS_NULL; the type is DBUS_MESSAGE_TYPE_INVALID.
abbrev pub match_keys_null : MatchKeys
match_keys_null = record {
  type = 0;
  sender_id = address_id_invalid;
  interface = none;
  member = none;
  path = none;
  args = λ i. none;
  n_args = 0;
  argpaths = λ i. none;
  n_argpaths = 0;
  destination = none;
  sender = none;
  path_namespace = none;
  arg0namespace = none;
}

abbrev pub is_set : Option Bytes → Bool
is_set none = false
is_set (some v) = true

-- Each assignment returns MATCH_E_INVALID, here `none`, unless its test holds.
unfoldable pub guard : Bool → MatchKeys → Option MatchKeys
guard test keys = if test then some keys else none

-- DBUS_MESSAGE_TYPE_* of a name, 0 for none of them
unfoldable pub type_of : Bytes → ℕ
type_of value =
    if bytes_eq value (codes "signal")
    then 4
    else if bytes_eq value (codes "method_call")
    then 1
    else if bytes_eq value (codes "method_return")
    then 2
    else if bytes_eq value (codes "error")
    then 3
    else 0

unfoldable pub sender_id_of : ℕ → Address → ℕ
sender_id_of old (id n) = n
sender_id_of old (name s) = old
sender_id_of old other = old

-- At most two digits, and what follows them.
unfoldable pub scan_index : ℕ → ℕ → Bytes → ℕ × Bytes
scan_index zero i s = (i, s)
scan_index (suc n) i [] = (i, [])
scan_index (suc n) i (c ∷ s) =
    let more = scan_index n (i * 10 + c - b'0') s in
    if ltb c b'0' || ltb b'9' c then (i, c ∷ s) else more

unfoldable pub set_arg : ℕ → Bytes → (ℕ → Option Bytes) → ℕ → Option Bytes
set_arg i value args j = if j == i then some value else args j

-- A key behind "arg" and its index.
unfoldable pub assign_arg : MatchKeys → Bytes → ℕ × Bytes → Option MatchKeys
unfolding guard set_arg
assign_arg keys value (i, suffix) =
    let free =
      not ((i == 0) && is_set keys.arg0namespace)
      && leb i 63
      && not (is_set (keys.args i) || is_set (keys.argpaths i)) in
    if bytes_eq suffix []
    then guard free
        (record keys { args = set_arg i value keys.args; n_args = max (i + 1) keys.n_args })
    else if bytes_eq suffix (codes "path")
    then guard free (record keys {
      argpaths = set_arg i value keys.argpaths;
      n_argpaths = max (i + 1) keys.n_argpaths;
    })
    else none

unfoldable pub assign_other : MatchKeys → Bytes → Option Bytes → Option MatchKeys
unfolding assign_arg scan_index
assign_other keys value none = none
assign_other keys value (some index) = assign_arg keys value (scan_index 2 0 index)

-- match_keys_assign()
unfoldable pub match_keys_assign :
    (Bytes → Bool) → MatchKeys → Bytes → Bytes → Bool → Option MatchKeys
unfolding guard assign_other sender_id_of type_of
match_keys_assign is_path keys key value allow_eavesdrop =
    if bytes_eq key (codes "type")
    then guard ((keys.type == 0) && not (type_of value == 0)) (record keys { type = type_of value })
    else if bytes_eq key (codes "sender")
    then guard (not (is_set keys.sender) && dbus_validate_name value) (record keys {
      sender = some value;
      sender_id = sender_id_of keys.sender_id (address_from_string value);
    })
    else if bytes_eq key (codes "destination")
    then guard (not (is_set keys.destination) && dbus_validate_name value)
        (record keys { destination = some value })
    else if bytes_eq key (codes "interface")
    then guard (not (is_set keys.interface) && dbus_validate_interface value)
        (record keys { interface = some value })
    else if bytes_eq key (codes "member")
    then guard (not (is_set keys.member) && dbus_validate_member value)
        (record keys { member = some value })
    else if bytes_eq key (codes "path")
    then guard (not (is_set keys.path || is_set keys.path_namespace) && is_path value)
        (record keys { path = some value })
    else if bytes_eq key (codes "path_namespace")
    then guard (not (is_set keys.path_namespace || is_set keys.path) && is_path value)
        (record keys { path_namespace = some value })
    else if bytes_eq key (codes "eavesdrop")
    then guard
        (allow_eavesdrop && (bytes_eq value (codes "true") || bytes_eq value (codes "false"))) keys
    else if bytes_eq key (codes "arg0namespace")
    then guard
        (not (is_set keys.arg0namespace || (is_set (keys.args 0) || is_set (keys.argpaths 0)))
          && dbus_validate_namespace value)
        (record keys { arg0namespace = some value })
    else assign_other keys value (strip_prefix (codes "arg") key)
