-- ===== src/Dbus/Protocol.antt =====
-- src/dbus/protocol.c: the validators of bus names, namespaces, interfaces, members and error names.
-- A string of length n is the list of its n bytes. An early `return false` is `none`.
pub mod Grammar
pub mod Relations
pub mod Tests
use dbus_broker.Common.{
  ℕ, Bytes, Bool, true, false, ◌&&◌, ◌||◌, not, Option, none, some, [], ◌∷◌, leb, ltb, ◌==◌,
  if◌then◌else◌, length,
}

-- name[i] >= lo && name[i] <= hi
in_range : ℕ → ℕ → ℕ → Bool
in_range lo hi c = leb lo c && leb c hi

is_alpha : ℕ → Bool
unfolding in_range
is_alpha c = in_range b'a' b'z' c || in_range b'A' b'Z' c

is_digit : ℕ → Bool
unfolding in_range
is_digit c = in_range b'0' b'9' c

-- The class test of `dbus_validate_name_common`; `dot` says that an element starts here.
unfoldable pub name_char : Bool → Bool → ℕ → Bool
unfolding is_alpha is_digit
name_char unique dot c =
    is_alpha c || (is_digit c && (not dot || unique)) || (c == b'_') || (c == b'-')

-- The class test of `dbus_validate_interface`.
unfoldable pub interface_char : Bool → ℕ → Bool
unfolding is_alpha is_digit
interface_char dot c = is_alpha c || (is_digit c && not dot) || (c == b'_')

-- The class test of `dbus_validate_member`; `first` says that no character came before.
unfoldable pub member_char : Bool → ℕ → Bool
unfolding is_alpha is_digit
member_char first c = is_alpha c || (is_digit c && not first) || (c == b'_')

-- The loop over dot-separated elements, with its locals `has_dot` and `dot`: their final values.
unfoldable pub scan_elements : (Bool → ℕ → Bool) → Bool → Bool → Bytes → Option (Bool × Bool)
scan_elements accepts has_dot dot [] = some (has_dot, dot)
scan_elements accepts has_dot dot (c ∷ s) =
    let after_dot = scan_elements accepts true true s in
    let after_char = scan_elements accepts has_dot false s in
    if c == b'.'
    then (if dot then none else after_dot)
    else if accepts dot c
    then after_char
    else none

-- return (has_dot || namespace) && !dot;
unfoldable pub accept : Bool → Option (Bool × Bool) → Bool
accept namespace none = false
accept namespace (some (has_dot, dot)) = (has_dot || namespace) && not dot

unfoldable pub validate_rest : Bool → Bool → Bytes → Bool
unfolding accept scan_elements name_char
validate_rest namespace unique s = accept namespace (scan_elements (name_char unique) false true s)

-- A leading colon marks a unique name and is skipped.
unfoldable pub skip_colon : Bool → Bytes → Bool
unfolding validate_rest
skip_colon namespace [] = validate_rest namespace false []
skip_colon namespace (c ∷ s) =
    if c == b':' then validate_rest namespace true s else validate_rest namespace false (c ∷ s)

unfoldable pub dbus_validate_name_common : Bytes → Bool → Bool
unfolding skip_colon
dbus_validate_name_common name namespace =
    if ltb 255 (length name) then false else skip_colon namespace name

unfoldable pub dbus_validate_name : Bytes → Bool
unfolding dbus_validate_name_common
dbus_validate_name name = dbus_validate_name_common name false

unfoldable pub dbus_validate_namespace : Bytes → Bool
unfolding dbus_validate_name_common
dbus_validate_namespace namespace = dbus_validate_name_common namespace true

unfoldable pub dbus_validate_interface : Bytes → Bool
unfolding scan_elements accept interface_char
dbus_validate_interface interface =
    if ltb 255 (length interface)
    then false
    else accept false (scan_elements interface_char false true interface)

unfoldable pub scan_member : Bool → Bytes → Bool
unfolding member_char
scan_member first [] = not first
scan_member first (c ∷ s) = if member_char first c then scan_member false s else false

unfoldable pub dbus_validate_member : Bytes → Bool
unfolding scan_member
dbus_validate_member member = if ltb 255 (length member) then false else scan_member true member

unfoldable pub dbus_validate_error_name : Bytes → Bool
unfolding dbus_validate_interface
dbus_validate_error_name name = dbus_validate_interface name
