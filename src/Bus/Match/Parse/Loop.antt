-- ===== src/Bus/Match/Parse/Loop.antt =====
-- The loop of match_keys_parse() in src/bus/match.c ends, stays in the buffer and gives valid keys.
use dbus_broker.Common.{
  ℕ, zero, suc, ◌+◌, ◌≤◌, ◌<◌, Bytes, Bool, not, false, Option, none, some, [], ◌∷◌, length, ◌≡◌,
  refl, arith,
}
use dbus_broker.Bus.Match.{ParsedKey, key, eof, invalid, match_parse_key, match_copy_value}
use dbus_broker.Bus.Match.Keys.{MatchKeys, match_keys_null, match_keys_assign}
use dbus_broker.Bus.Match.Keys.Validity.{KeysValid, AllKeys, match_keys_assign-KeysValid}
use dbus_broker.Bus.Match.Keys.Sender.{SenderDerived, match_keys_assign-SenderDerived}
use dbus_broker.Bus.Match.Parse.{
  written, Parsed, next_pair, with_value, with_key, parse_pairs, match_keys_parse,
}
use dbus_broker.Bus.Match.Parse.Bounds.{
  left, Shorter, match_copy_value_bounds, match_parse_key-Shorter,
}

abbrev pub Sound : (Bytes → Bool) → MatchKeys → Type 0
Sound is_path k = KeysValid is_path k × SenderDerived k

-- There is an answer; it has sound keys, if any, and no more than some bytes are written.
abbrev pub Ends : (Bytes → Bool) → ℕ → Option Parsed → Type 0
Ends is_path n answer = (r : Parsed) × (answer ≡ some r) × (r.1 ≤ n) × AllKeys (Sound is_path) r.0

both :
    (P Q : MatchKeys → Type 0) (k : Option MatchKeys)
    → AllKeys P k
    → AllKeys Q k
    → AllKeys (λ x. P x × Q x) k
both P Q none p q = tt
both P Q (some k) p q = (p, q)

module _ (is_path : Bytes → Bool) (allow_eavesdrop : Bool) where
  -- What the rest of the loop promises for rules of fewer than n bytes.
  abbrev Promise : ℕ → (MatchKeys → ℕ → Bytes → Option Parsed) → Type 0
  Promise n more =
      (keys : MatchKeys) (used : ℕ) (s : Bytes)
      → length s < n
      → Sound is_path keys
      → Ends is_path (used + length s) (more keys used s)

  next_pair-Ends :
      (n bound : ℕ) (more : MatchKeys → ℕ → Bytes → Option Parsed) (used : ℕ) (rest : Bytes)
      (k : Option MatchKeys)
      → Promise n more
      → length rest < n
      → used + length rest ≤ bound
      → AllKeys (Sound is_path) k
      → Ends is_path bound (next_pair is_path allow_eavesdrop more used rest k)
  unfolding next_pair
  next_pair-Ends n bound more used rest none promise short fits sound =
      ((none, used), refl, ground arith, tt)
  next_pair-Ends n bound more used rest (some k) promise short fits sound =
      let (r, e, within, good) = promise k used rest short sound in (r, e, ground arith, good)

  with_value-Ends :
      (n bound : ℕ) (more : MatchKeys → ℕ → Bytes → Option Parsed) (keys : MatchKeys) (used : ℕ)
      (k : Bytes) (v : Option (Bytes × Bytes))
      → Promise n more
      → left v < n
      → used + left v ≤ bound
      → Sound is_path keys
      → Ends is_path bound (with_value is_path allow_eavesdrop more keys used k v)
  unfolding with_value
  with_value-Ends n bound more keys used k none promise short fits sound =
      ((none, used), refl, ground arith, tt)
  with_value-Ends n bound more keys used k (some (value, rest)) promise short fits
        (valid, derived) =
      next_pair-Ends n bound more used rest (match_keys_assign is_path keys k value allow_eavesdrop)
        promise short fits
        (both (KeysValid is_path) SenderDerived
          (match_keys_assign is_path keys k value allow_eavesdrop)
          (match_keys_assign-KeysValid is_path keys k value allow_eavesdrop valid)
          (match_keys_assign-SenderDerived is_path keys k value allow_eavesdrop derived))

  written_some : (quoted : Bool) (s : Bytes) → 1 ≤ written quoted s
  unfolding written
  written_some quoted [] = ground arith
  written_some quoted (c ∷ []) = ground arith
  written_some quoted (c ∷ d ∷ s) = ground (arith, written_some (not quoted) (d ∷ s))

  with_key-Ends :
      (n m : ℕ) (more : MatchKeys → ℕ → Bytes → Option Parsed) (keys : MatchKeys) (used : ℕ)
      (k : ParsedKey)
      → Promise n more
      → m ≤ n
      → Shorter m k
      → Sound is_path keys
      → Ends is_path (used + m) (with_key is_path allow_eavesdrop more keys used k)
  unfolding with_key
  with_key-Ends n m more keys used eof promise room short sound =
      ((some keys, used), refl, ground arith, sound)
  with_key-Ends n m more keys used invalid promise room short sound =
      ((none, used), refl, ground arith, tt)
  with_key-Ends n m more keys used (key k s) promise room short sound =
      with_value-Ends n (used + m) more keys (used + written false s) k (match_copy_value s) promise
        (ground (arith, match_copy_value_bounds s, written_some false s))
        (ground (arith, match_copy_value_bounds s)) sound

  parse_pairs-Ends : (n : ℕ) → Promise n (parse_pairs is_path allow_eavesdrop n)
  unfolding parse_pairs
  parse_pairs-Ends zero keys used s short sound = absurd (ground arith)
  parse_pairs-Ends (suc n) keys used s short sound =
      with_key-Ends n (length s) (parse_pairs is_path allow_eavesdrop n) keys used
        (match_parse_key s) (parse_pairs-Ends n) (ground arith) (match_parse_key-Shorter s) sound

  null-Sound : Sound is_path match_keys_null
  null-Sound = (
    (
      (refl, refl, refl, refl, refl),
      (refl, refl, refl),
      (
        ground arith,
        ground arith,
        (λ j h. absurd (ground arith)),
        (λ j h. absurd (ground arith)),
        (λ j. refl),
        refl,
      ),
    ),
    refl,
  )

  -- For every rule, the loop over its keys ends with an answer, writes no more bytes of values and
  -- zeros to the buffer than the rule has, which is less than the buffer's size, and if it accepts
  -- the rule, then the keys are valid and the ID to look for is that of the sender.
  pub match_keys_parse_lem :
      (s : Bytes)
      → (r : Parsed) × (match_keys_parse is_path allow_eavesdrop s ≡ some r)
        × (r.1 ≤ length s)
        × AllKeys (Sound is_path) r.0
  unfolding match_keys_parse
  match_keys_parse_lem s =
      let (r, e, within, good) =
        parse_pairs-Ends (suc (length s)) match_keys_null 0 s (ground arith) null-Sound in
      (r, e, ground arith, good)
