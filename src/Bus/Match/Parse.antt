-- ===== src/Bus/Match/Parse.antt =====
-- match_keys_parse() of src/bus/match.c: the keys of a whole rule, and how much of the buffer for the
-- values is written, also when the rule is rejected.
pub mod Bounds
pub mod Loop
pub mod Tests
use dbus_broker.Common.{
  ℕ, zero, suc, ◌+◌, Bytes, Bool, true, false, ◌&&◌, not, Option, none, some, [], ◌∷◌, ◌==◌,
  if◌then◌else◌, length,
}
use dbus_broker.Bus.Match.{
  apostrophe, backslash, ParsedKey, key, eof, invalid, match_parse_key, match_copy_value,
}
use dbus_broker.Bus.Match.Keys.{MatchKeys, match_keys_null, match_keys_assign}

-- How many bytes match_copy_value() writes, the terminating zero included.
unfoldable pub written : Bool → Bytes → ℕ
written quoted [] = 1
written quoted (c ∷ []) = if c == apostrophe then 1 else if (c == b',') && not quoted then 1 else 2
written quoted (c ∷ d ∷ s) =
    let toggled = written (not quoted) (d ∷ s) in
    let next = written quoted (d ∷ s) in
    let after_next = written quoted s in
    if c == apostrophe
    then toggled
    else if (c == b',') && not quoted
    then 1
    else if (c == backslash) && (not quoted && (d == apostrophe))
    then suc after_next
    else suc next

-- The keys, nothing for MATCH_E_INVALID, and the bytes written to the buffer.
abbrev pub Parsed : Type 0
Parsed = Option MatchKeys × ℕ

-- One turn of the loop, by what it finds; what follows it is given.
module _ (is_path : Bytes → Bool) (allow_eavesdrop : Bool) where
  unfoldable pub next_pair :
      (MatchKeys → ℕ → Bytes → Option Parsed) → ℕ → Bytes → Option MatchKeys → Option Parsed
  next_pair more used rest none = some (none, used)
  next_pair more used rest (some keys) = more keys used rest

  unfoldable pub with_value :
      (MatchKeys → ℕ → Bytes → Option Parsed)
      → MatchKeys
      → ℕ
      → Bytes
      → Option (Bytes × Bytes)
      → Option Parsed
  unfolding next_pair
  with_value more keys used k none = some (none, used)
  with_value more keys used k (some (value, rest)) =
      next_pair more used rest (match_keys_assign is_path keys k value allow_eavesdrop)

  unfoldable pub with_key :
      (MatchKeys → ℕ → Bytes → Option Parsed) → MatchKeys → ℕ → ParsedKey → Option Parsed
  unfolding with_value written
  with_key more keys used eof = some (some keys, used)
  with_key more keys used invalid = some (none, used)
  with_key more keys used (key k s) =
      with_value more keys (used + written false s) k (match_copy_value s)

  -- The loop, on fuel: without an answer if that runs out.
  unfoldable pub parse_pairs : ℕ → MatchKeys → ℕ → Bytes → Option Parsed
  unfolding with_key
  parse_pairs zero keys used s = none
  parse_pairs (suc n) keys used s = with_key (parse_pairs n) keys used (match_parse_key s)

  unfoldable pub match_keys_parse : Bytes → Option Parsed
  unfolding parse_pairs
  match_keys_parse s = parse_pairs (suc (length s)) match_keys_null 0 s
