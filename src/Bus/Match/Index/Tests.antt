-- ===== src/Bus/Match/Index/Tests.antt =====
-- Runs of the registry of src/bus/match.c.
use dbus_broker.Common.{ℕ, zero, suc, codes, ◌↔◌, true, false, none, some, List, [], ◌∷◌, ◌≡◌, refl}
use dbus_broker.Bus.Match.Keys.{MatchKeys, match_keys_null}
use dbus_broker.Bus.Match.Tree.{tree_get}
use dbus_broker.Bus.Match.Matching.{match_keys_match_metadata, all_args, string_equal, Metadata}
use dbus_broker.Bus.Match.Keys.Sender.{SenderDerived}
use dbus_broker.Bus.Match.Index.{
  match_registry_get_destinations, match_registry_by_path_get_destinations,
  match_registry_by_interface_get_destinations, match_registry_by_member_get_destinations,
  add_owners, member_of, match_registry_init, match_registry_get_subscribers,
}
use dbus_broker.Bus.Match.Index.Destinations.{Wants}
use dbus_broker.Bus.Match.Index.Flush.{match_registry_flush, match_registry_flush_lem}
use dbus_broker.Bus.Match.Index.Runs.{
  Step, link, unlink, run_steps, linked_for, match_registry_get_subscribers_lem,
}

abbrev owner : ℕ → ℕ
owner zero = 10
owner (suc zero) = 11
owner (suc (suc r)) = 12

-- Rule 0 has no keys, rule 1 is for a member, and all others are for a path.
abbrev keys : ℕ → MatchKeys
keys zero = match_keys_null
keys (suc zero) = record match_keys_null { member = some (codes "Ping") }
keys (suc (suc r)) = record match_keys_null { path = some (codes "/a") }

abbrev steps : List Step
steps =
    link 0 true false ∷ link 1 true false ∷ link 2 true false ∷ link 3 false true ∷ unlink 0 ∷ []

abbrev ping : Metadata
ping = record {
  type = 1;
  sender_id = 4;
  path = some (codes "/b");
  interface = none;
  member = some (codes "Ping");
  args = λ i. record { element = 0; value = none };
  n_args = 0;
}

derived : (r : ℕ) → SenderDerived (keys r)
derived zero = refl
derived (suc zero) = refl
derived (suc (suc r)) = refl

subscribers_of_ping :
    match_registry_get_subscribers owner keys (run_steps owner keys steps match_registry_init) ping
    ≡ (11 ∷ [])
unfolding match_registry_get_subscribers run_steps match_registry_get_destinations
    match_registry_by_path_get_destinations match_registry_by_interface_get_destinations
    match_registry_by_member_get_destinations tree_get match_keys_match_metadata all_args
    string_equal add_owners
subscribers_of_ping = refl

match_registry_get_subscribers_example :
    (member_of 11 (
        match_registry_get_subscribers owner keys
          (run_steps owner keys steps match_registry_init)
          ping)
      ≡ true)
    ↔ Wants owner keys (linked_for false (run_steps owner keys steps match_registry_init)) ping 11
match_registry_get_subscribers_example =
    match_registry_get_subscribers_lem owner keys derived steps ping 11

match_registry_flush_example :
    (match_registry_flush owner keys (run_steps owner keys steps match_registry_init)).links 3
    ≡ none
match_registry_flush_example = match_registry_flush_lem owner keys derived steps 3
