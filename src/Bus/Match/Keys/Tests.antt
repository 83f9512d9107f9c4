-- ===== src/Bus/Match/Keys/Tests.antt =====
-- Runs of match_keys_assign().
use dbus_broker.Common.{
  bytes_eq, ◌≡◌, refl, some, none, codes, true, Bytes, Bool, is_nil, not, arith,
}
use dbus_broker.Bus.Match.Keys.{MatchKeys, match_keys_null, match_keys_assign}
use dbus_broker.Bus.Match.Keys.Validity.{KeysValid}

abbrev any_path : Bytes → Bool
any_path s = not (is_nil s)

abbrev with_path : MatchKeys
with_path = record match_keys_null { path = some (codes "/org") }

with_path-KeysValid : KeysValid any_path with_path
with_path-KeysValid = (
  (refl, refl, refl, refl, refl),
  (refl, refl, refl),
  (omega arith, omega arith, (λ j s. ground arith), (λ j s. ground arith), (λ j. refl), refl),
)

two_paths : match_keys_assign any_path with_path (codes "path_namespace") (codes "/") true ≡ none
unfolding match_keys_assign bytes_eq
two_paths = refl
