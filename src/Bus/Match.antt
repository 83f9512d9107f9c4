-- ===== src/Bus/Match.antt =====
-- src/bus/match.c: match_parse_key() and match_copy_value(), which cut the keys and the values out of
-- a match rule. A rule is the list of its bytes without the terminating zero.
pub mod Quoting
pub mod Keys
pub mod Matching
pub mod Parse
pub mod Rules
pub mod Tree
pub mod Index
use dbus_broker.Common.{
  ℕ, Bytes, Bool, true, false, ◌&&◌, ◌||◌, not, Option, none, some, [], ◌∷◌, ◌==◌, if◌then◌else◌,
}

-- The sets of strspn() and strcspn().
unfoldable pub is_blank : ℕ → Bool
is_blank c = (c == b' ') || (c == 9) || (c == 10) || (c == 13)

unfoldable pub is_blank_or_equals : ℕ → Bool
unfolding is_blank
is_blank_or_equals c = is_blank c || (c == b'=')

unfoldable pub skip : (ℕ → Bool) → Bytes → Bytes
skip among [] = []
skip among (c ∷ s) = let more = skip among s in if among c then more else c ∷ s

-- The bytes in front of the first one of a set, and the rest from there.
unfoldable pub span_until : (ℕ → Bool) → Bytes → Bytes × Bytes
span_until among [] = ([], [])
span_until among (c ∷ s) =
    let (front, rest) = span_until among s in if among c then ([], c ∷ s) else (c ∷ front, rest)

-- The key with what follows the equals sign, MATCH_E_EOF or MATCH_E_INVALID.
pub data ParsedKey : Type 0 where
  key : Bytes → Bytes → ParsedKey
  eof : ParsedKey
  invalid : ParsedKey

-- Behind a key and its trailing blanks.
unfoldable pub at_equals : Bytes → Bytes → ParsedKey
at_equals k [] = invalid
at_equals k (c ∷ s) = if c == b'=' then key k s else invalid

unfoldable pub behind_key : Bytes × Bytes → ParsedKey
unfolding at_equals skip is_blank
behind_key (k, []) = invalid
behind_key (k, c ∷ s) = at_equals k (skip is_blank (c ∷ s))

unfoldable pub from_key : Bytes → ParsedKey
unfolding behind_key span_until is_blank_or_equals
from_key [] = eof
from_key (c ∷ s) = behind_key (span_until is_blank_or_equals (c ∷ s))

unfoldable pub match_parse_key : Bytes → ParsedKey
unfolding from_key skip is_blank_or_equals
match_parse_key s = from_key (skip is_blank_or_equals s)

abbrev pub apostrophe : ℕ
apostrophe = 39

abbrev pub backslash : ℕ
backslash = 92

unfoldable pub prepend : ℕ → Option (Bytes × Bytes) → Option (Bytes × Bytes)
prepend c none = none
prepend c (some (v, rest)) = some (c ∷ v, rest)

-- The value and the rest of the rule behind it, or nothing for MATCH_E_INVALID; `quoted` is the local
-- of that name.
unfoldable pub copy_value : Bool → Bytes → Option (Bytes × Bytes)
copy_value quoted [] = if quoted then none else some ([], [])
copy_value quoted (c ∷ []) =
    if c == apostrophe
    then (if quoted then some ([], []) else none)
    else if quoted
    then none
    else if c == b','
    then some ([], [])
    else some (c ∷ [], [])
copy_value quoted (c ∷ d ∷ s) =
    let toggled = copy_value (not quoted) (d ∷ s) in
    let next = copy_value quoted (d ∷ s) in
    let after_next = copy_value quoted s in
    if c == apostrophe
    then toggled
    else if (c == b',') && not quoted
    then some ([], d ∷ s)
    else if (c == backslash) && (not quoted && (d == apostrophe))
    then prepend apostrophe after_next
    else prepend c next

unfoldable pub match_copy_value : Bytes → Option (Bytes × Bytes)
unfolding copy_value
match_copy_value s = copy_value false s
