-- ===== src/Bus/Match/Matching.antt =====
-- Whether a message fits the keys of a rule: match_string_prefix() and match_keys_match_metadata() of
-- src/bus/match.c, and the equality that match_keys_compare() decides.
pub mod Equal
pub mod Meaning
pub mod Fits
pub mod Tests
use dbus_broker.Common.{
  ℕ, zero, suc, ◌+◌, ◌-◌, Bytes, bytes_eq, strip_prefix, Bool, true, false, ◌&&◌, ◌||◌, not, Option,
  none, some, List, [], ◌∷◌, ◌++◌, leb, ltb, ◌==◌, if◌then◌else◌, max, is_nil,
}
use dbus_broker.Dbus.Address.{address_id_invalid}
use dbus_broker.Bus.Match.Keys.{MatchKeys, is_set}

-- The metadata of a message, as far as rules look at it. An argument has the code of its type and,
-- if it is a string of some kind, its value.
pub record Argument : Type 0 where
  pub element : ℕ
  pub value : Option Bytes

pub record Metadata : Type 0 where
  pub type : ℕ
  pub sender_id : ℕ
  pub path : Option Bytes
  pub interface : Option Bytes
  pub member : Option Bytes
  pub args : ℕ → Argument
  pub n_args : ℕ

-- string_equal() of src/util/string.h
unfoldable pub string_equal : Option Bytes → Option Bytes → Bool
unfolding bytes_eq
string_equal none none = true
string_equal none (some b) = false
string_equal (some a) none = false
string_equal (some a) (some b) = bytes_eq a b

-- *(tail - 1), the last byte of a prefix that is not empty
unfoldable pub last_is : ℕ → Bytes → Bool
last_is delimiter [] = false
last_is delimiter (c ∷ []) = c == delimiter
last_is delimiter (c ∷ d ∷ s) = last_is delimiter (d ∷ s)

abbrev pub begins_with : ℕ → Bytes → Bool
begins_with delimiter [] = false
begins_with delimiter (c ∷ s) = c == delimiter

-- The tests on what follows the prefix.
unfoldable pub fits_tail : Bytes → ℕ → Bool → Option Bytes → Bool
unfolding last_is
fits_tail prefix delimiter included none = false
fits_tail prefix delimiter included (some tail) =
    if included
    then not (is_nil prefix || (not (is_nil tail) && not (last_is delimiter prefix)))
    else is_nil tail || begins_with delimiter tail

-- match_string_prefix(); the same pointer is given twice only if both are null.
unfoldable pub match_string_prefix : Option Bytes → Option Bytes → ℕ → Bool → Bool
match_string_prefix none none delimiter included = true
match_string_prefix none (some prefix) delimiter included = false
match_string_prefix (some string) none delimiter included = false
match_string_prefix (some string) (some prefix) delimiter included =
    fits_tail prefix delimiter included (strip_prefix prefix string)

-- The body of the loop over the arguments, for one index.
unfoldable pub match_arg : MatchKeys → Metadata → ℕ → Bool
match_arg keys m i =
    (not (is_set (keys.args i))
      || ((m.args i).element == b's') && string_equal (keys.args i) (m.args i).value)
    && (not (is_set (keys.argpaths i))
        || (match_string_prefix (m.args i).value (keys.argpaths i) b'/' true
            || match_string_prefix (keys.argpaths i) (m.args i).value b'/' true))

-- A test at 0, …, n - 1
unfoldable pub all_args : (ℕ → Bool) → ℕ → Bool
all_args test zero = true
all_args test (suc n) = all_args test n && test n

abbrev pub equal_if_set : Option Bytes → Option Bytes → Bool
equal_if_set key value = not (is_set key) || string_equal key value

unfoldable pub match_keys_match_metadata : MatchKeys → Metadata → Bool
match_keys_match_metadata keys m =
    not (ltb m.n_args keys.n_args)
    && not (ltb m.n_args keys.n_argpaths)
    && (not (is_set keys.path_namespace)
        || match_string_prefix m.path keys.path_namespace b'/' false)
    && (not (is_set keys.arg0namespace)
        || ((m.args 0).element == b's')
          && match_string_prefix (m.args 0).value keys.arg0namespace b'.' false)
    && all_args (match_arg keys m) (max keys.n_args keys.n_argpaths)
    && ((keys.type == 0) || (keys.type == m.type))
    && ((keys.sender_id == address_id_invalid) || (keys.sender_id == m.sender_id))
    && equal_if_set keys.interface m.interface
    && equal_if_set keys.member m.member
    && equal_if_set keys.path m.path

-- Whether match_keys_compare() is 0.
unfoldable pub same_arg : MatchKeys → MatchKeys → ℕ → Bool
same_arg a b i = string_equal (a.args i) (b.args i) && string_equal (a.argpaths i) (b.argpaths i)

unfoldable pub match_keys_equal : MatchKeys → MatchKeys → Bool
match_keys_equal a b =
    string_equal a.sender b.sender
    && string_equal a.destination b.destination
    && string_equal a.interface b.interface
    && string_equal a.member b.member
    && string_equal a.path b.path
    && string_equal a.path_namespace b.path_namespace
    && string_equal a.arg0namespace b.arg0namespace
    && (a.type == b.type)
    && (a.n_args == b.n_args)
    && (a.n_argpaths == b.n_argpaths)
    && all_args (same_arg a b) (max a.n_args a.n_argpaths)
