-- ===== src/Bus/Match/Matching/Tests.antt =====
-- Messages against rules of src/bus/match.c.
use dbus_broker.Common.{strip_prefix, codes, false, true, ◌↔◌, some, none, ◌≡◌, refl}
use dbus_broker.Bus.Match.Keys.{MatchKeys, match_keys_null}
use dbus_broker.Bus.Match.Matching.{
  Metadata, match_keys_match_metadata, match_string_prefix, fits_tail, strip_prefix,
}
use dbus_broker.Bus.Match.Matching.Fits.{FitsRule, match_keys_match_metadata_lem}

abbrev below_a : MatchKeys
below_a = record match_keys_null {
  path_namespace = some (codes "/a");
  member = some (codes "Ping");
}

abbrev below_root : MatchKeys
below_root = record match_keys_null { path_namespace = some (codes "/") }

abbrev ping : Metadata
ping = record {
  type = 1;
  sender_id = 4;
  path = some (codes "/a/b");
  interface = none;
  member = some (codes "Ping");
  args = λ i. record { element = 0; value = none };
  n_args = 0;
}

match_keys_match_metadata_example :
    (match_keys_match_metadata below_a ping ≡ true) ↔ FitsRule below_a ping
match_keys_match_metadata_example = match_keys_match_metadata_lem below_a ping

-- The namespace of the root has no path but the root.
root_namespace : match_keys_match_metadata below_root ping ≡ false
unfolding match_keys_match_metadata match_string_prefix fits_tail strip_prefix
root_namespace = refl
