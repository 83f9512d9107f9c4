-- ===== src/Bus/Match/Parse/Tests.antt =====
-- Rules parsed by src/bus/match.c.
use dbus_broker.Common.{bytes_eq, Bytes, codes, Bool, true, false, some, length, ◌≡◌, refl, ◌≤◌}
use dbus_broker.Bus.Match.{match_parse_key, match_copy_value, prepend}
use dbus_broker.Bus.Match.Keys.{match_keys_assign, match_keys_null}
use dbus_broker.Bus.Match.Keys.Validity.{AllKeys}
use dbus_broker.Bus.Match.Parse.{Parsed, match_keys_parse}
use dbus_broker.Bus.Match.Parse.Loop.{Sound, match_keys_parse_lem}

abbrev any_path : Bytes → Bool
any_path v = true

abbrev rule : Bytes
rule = codes "type='signal',path=/a"

match_keys_parse_example :
    (r : Parsed) × (match_keys_parse any_path false rule ≡ some r)
    × (r.1 ≤ length rule)
    × AllKeys (Sound any_path) r.0
match_keys_parse_example = match_keys_parse_lem any_path false rule

parsed :
    match_keys_parse any_path false rule
    ≡ some (some (record match_keys_null { type = 4; path = some (codes "/a") }), 10)
unfolding match_keys_parse match_parse_key match_copy_value prepend match_keys_assign bytes_eq
parsed = refl
