-- ===== src/Bus/Peer/Matches/Tests.antt =====
-- Runs of the match registries of src/bus/peer.c.
use dbus_broker.Util.Decimal.{strtoul}
use dbus_broker.Common.{
  bytes_eq, Bool-cases, inl, inr, ℕ, Bytes, codes, ◌≡◌, refl, true, false, ◌↔◌, Bool, [], ◌∷◌, none,
  some, arith, ◌==◌, if◌then◌else◌,
}
use mathlib.Core.Option
use dbus_broker.Dbus.Address.{address_id_invalid, id, address_from_string}
use dbus_broker.Bus.Name.{name_registry_init}
use dbus_broker.Bus.Name.Requests.{run}
use dbus_broker.Bus.Match.Keys.{MatchKeys, match_keys_null, set_arg, sender_id_of}
use dbus_broker.Bus.Match.Keys.Sender.{SenderDerived}
use dbus_broker.Bus.Match.Matching.{
  Metadata, match_keys_match_metadata, all_args, match_arg, string_equal,
}
use dbus_broker.Bus.Match.Index.{member_of}
use dbus_broker.Bus.Peer.{
  Peer, PeerRegistry, peer_registry_init, find_entry, peer_registry_find_peer, is_none,
  dispatch_hello,
}
use dbus_broker.Bus.Peer.Registry.{Gives}
use dbus_broker.Bus.Peer.Names.{driver_name}
use dbus_broker.Bus.Peer.Matches.{
  wildcard, from_peer, Matches, matches_init, link_into, peer_link_match,
  bus_get_broadcast_destinations, bus_get_monitor_destinations, owner_of_name,
  is_subscription_to_name,
}
use dbus_broker.Bus.Peer.Matches.Steps.{link, run_matches}
use dbus_broker.Bus.Peer.Matches.Broadcast.{Subscribed, bus_get_broadcast_destinations_lem}
use dbus_broker.Bus.Peer.Matches.Repeats.{added_again_fails, not_registered_missed}
use dbus_broker.Bus.Peer.Matches.Monitors.{monitor_misses_name_changes}

-- Rule 0 takes all, rule 1 what :1.0 sends, and rule 2 the changes of the owner of one name. Each has
-- an owner of its own.
abbrev service : Bytes
service = codes "org.x"

abbrev first_peer : Bytes
first_peer = codes ":1.0"

abbrev keys : ℕ → MatchKeys
keys r =
    if r == 0
    then match_keys_null
    else if r == 1
    then record match_keys_null { sender = some first_peer; sender_id = 0 }
    else record match_keys_null {
      sender = some driver_name;
      member = some (codes "NameOwnerChanged");
      args = set_arg 0 service match_keys_null.args;
      n_args = 1;
    }

abbrev owner : ℕ → ℕ
owner r = r

abbrev peer : Bool → Peer
peer registered = record { id = 0; uid = 1000; registered = registered; monitor = false }

abbrev with_peer : Bool → PeerRegistry
with_peer registered = record {
  peer_tree = peer registered ∷ [];
  ids = 1;
  n_peers = 1;
  n_registered = if registered then 1 else 0;
  n_monitors = 0;
}

abbrev signal : Metadata
signal = record {
  type = 4;
  sender_id = 0;
  path = some (codes "/x");
  interface = some (codes "org.x");
  member = some (codes "X");
  args = λ i. record { element = 0; value = none };
  n_args = 0;
}

derived : (r : ℕ) → SenderDerived (keys r)
unfolding address_from_string strtoul sender_id_of
derived r = elim (Bool-cases (r == 0)) [
  | inl e ↦ rw e refl
  | inr e ↦ elim (Bool-cases (r == 1)) [ inl f ↦ rw (e, f) refl | inr f ↦ rw (e, f) refl ]
]

abbrev linked : Matches
linked = link_into owner keys 0 false wildcard matches_init

ran : run_matches owner keys (link peer_registry_init 0 false ∷ []) matches_init ≡ some linked
unfolding run_matches peer_link_match
ran = refl

broadcast_example :
    (member_of 0 (
        bus_get_broadcast_destinations owner linked
          (run name_registry_init []).names
          (some (from_peer 0))
          (some 0)
          signal)
      ≡ true)
    ↔ Subscribed owner keys linked signal (run name_registry_init []).names 0 0
broadcast_example =
    bus_get_broadcast_destinations_lem owner keys derived (link peer_registry_init 0 false ∷ [])
      linked [] 0 0 signal ran refl

first_id : address_from_string first_peer ≡ id 0
unfolding address_from_string strtoul
first_id = refl

added_again_example :
    Option.bind
      (peer_link_match owner keys peer_registry_init 1 false matches_init)
      (peer_link_match owner keys (with_peer true) 1 false)
    ≡ none
unfolding peer_registry_find_peer find_entry bytes_eq
added_again_example =
    added_again_fails owner keys 1 first_peer 0 refl refl first_id peer_registry_init
      (with_peer true) matches_init (peer true) refl refl (omega arith) refl

not_registered_example :
    (peer_link_match owner keys (with_peer false) 1 false matches_init ≡ some matches_init)
    × Gives
        (λ after. is_none (peer_registry_find_peer after 0) ≡ false)
        (dispatch_hello 0 (with_peer false))
unfolding find_entry bytes_eq
not_registered_example =
    not_registered_missed owner keys 1 first_peer 0 refl refl first_id (with_peer false)
      matches_init false (peer false) refl refl refl (omega arith)

abbrev monitored : Matches
monitored = link_into owner keys 2 true (owner_of_name service) matches_init

-- The change that rule 2 asks for.
abbrev name_change : Metadata
name_change = record {
  type = 4;
  sender_id = address_id_invalid;
  path = some (codes "/org/freedesktop/DBus");
  interface = some driver_name;
  member = some (codes "NameOwnerChanged");
  args = λ i. record { element = b's'; value = if i == 0 then some service else some first_peer };
  n_args = 3;
}

change_fits : match_keys_match_metadata (keys 2) name_change ≡ true
unfolding match_keys_match_metadata set_arg all_args match_arg string_equal
change_fits = refl

monitor_example :
    member_of 2 (bus_get_monitor_destinations owner 1 monitored [] none name_change) ≡ false
unfolding run_matches peer_link_match is_subscription_to_name address_from_string set_arg
monitor_example =
    monitor_misses_name_changes owner keys derived [] matches_init monitored peer_registry_init 2 2
      service [] 1 name_change refl refl (λ r e. e) refl refl refl refl refl
