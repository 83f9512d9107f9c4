-- ===== src/Bus/Peer/Matches.antt =====
-- The match registries of the bus, of its peers and of its names, and which of them a rule is linked in:
-- peer_link_match() of src/bus/peer.c, and bus_get_broadcast_destinations() and
-- bus_get_monitor_destinations() of src/bus/bus.c. Rules are numbers, with their owners and keys given
-- by functions. A name exists while it is referenced, so its registries are there when they are needed;
-- the references are not modelled. Allocations succeed.
pub mod Homes
pub mod Links
pub mod Steps
pub mod Found
pub mod Broadcast
pub mod Monitors
pub mod Repeats
pub mod Tests
use dbus_broker.Common.{
  ℕ, Bytes, codes, bytes_eq, Bool, true, false, ◌&&◌, not, Option, none, some, List, [], ◌∷◌, leb,
  ◌==◌, if◌then◌else◌,
}
use dbus_broker.Dbus.Address.{Address, id, name, other, address_from_string}
use dbus_broker.Bus.Name.{NameOwnership, primary}
use dbus_broker.Bus.Match.Keys.{MatchKeys, is_set}
use dbus_broker.Bus.Match.Matching.{Metadata, string_equal}
use dbus_broker.Bus.Match.Index.{
  Registry, ByPath, match_registry_init, match_rule_link, match_rule_unlink,
  match_registry_get_destinations,
}
use dbus_broker.Bus.Match.Index.Flush.{match_registry_flush}
use dbus_broker.Bus.Peer.{Peer, PeerRegistry, peer_registry_find_peer}
use dbus_broker.Bus.Peer.Names.{driver_name}

-- The wildcard_matches and the sender_matches of the bus, the sender_matches of a peer and of a name,
-- and the name_owner_changed_matches of a peer and of a name.
pub data Place : Type 0 where
  wildcard : Place
  from_driver : Place
  from_peer : ℕ → Place
  from_name : Bytes → Place
  owner_of_peer : ℕ → Place
  owner_of_name : Bytes → Place

-- registry == rule->registry: the registries are told apart by their kinds, the IDs of their peers and
-- the strings of their names.
abbrev pub place_kind : Place → ℕ
place_kind wildcard = 0
place_kind from_driver = 1
place_kind (from_peer n) = 2
place_kind (from_name s) = 3
place_kind (owner_of_peer n) = 4
place_kind (owner_of_name s) = 5

abbrev pub place_peer : Place → ℕ
place_peer (from_peer n) = n
place_peer (owner_of_peer n) = n
place_peer p = 0

abbrev pub place_name : Place → Bytes
place_name (from_name s) = s
place_name (owner_of_name s) = s
place_name p = []

unfoldable pub place_eq : Place → Place → Bool
unfolding bytes_eq
place_eq p q =
    (place_kind p == place_kind q)
    && (place_peer p == place_peer q)
    && bytes_eq (place_name p) (place_name q)

-- MatchCounters, with the counts of the owners
pub record MatchCounters : Type 0 where
  pub n_subscriptions : ℕ
  pub n_subscriptions_peak : ℕ
  pub n_owner_subscriptions_peak : ℕ
  pub n_owner_subscriptions : ℕ → ℕ

-- All registries, the counters they share, and of each rule where it is linked, and whether with
-- counters.
pub record Matches : Type 0 where
  pub registry : Place → Registry
  pub linked_at : ℕ → Option (Place × Bool)
  pub counters : MatchCounters

abbrev pub matches_init : Matches
matches_init = record {
  registry = λ p. match_registry_init;
  linked_at = λ r. none;
  counters = record {
    n_subscriptions = 0;
    n_subscriptions_peak = 0;
    n_owner_subscriptions_peak = 0;
    n_owner_subscriptions = λ o. 0;
  };
}

-- A registry with the counters it is used with, and the counters when it is done.
abbrev pub lend : MatchCounters → Registry → Registry
lend c g = record g {
  n_subscriptions = c.n_subscriptions;
  n_subscriptions_peak = c.n_subscriptions_peak;
  n_owner_subscriptions_peak = c.n_owner_subscriptions_peak;
  n_owner_subscriptions = c.n_owner_subscriptions;
}

abbrev pub counters_of : Registry → MatchCounters
counters_of g = record {
  n_subscriptions = g.n_subscriptions;
  n_subscriptions_peak = g.n_subscriptions_peak;
  n_owner_subscriptions_peak = g.n_owner_subscriptions_peak;
  n_owner_subscriptions = g.n_owner_subscriptions;
}

abbrev pub set_place : Place → Registry → (Place → Registry) → Place → Registry
set_place p g registry q = if place_eq p q then g else registry q

unfoldable pub write_place : Place → (Registry → Registry) → Matches → Matches
unfolding place_eq
write_place p write m =
    let g = write (lend m.counters (m.registry p)) in
    record m { registry = set_place p g m.registry; counters = counters_of g }

abbrev pub set_linked :
    ℕ → Option (Place × Bool) → (ℕ → Option (Place × Bool)) → ℕ → Option (Place × Bool)
set_linked rule l linked_at r = if r == rule then l else linked_at r

-- A rule on the driver's NameOwnerChanged signals for one name.
unfoldable pub is_subscription_to_name : MatchKeys → Bool
unfolding string_equal bytes_eq
is_subscription_to_name keys =
    string_equal (some (codes "NameOwnerChanged")) keys.member
    && is_set (keys.args 0)
    && not (string_equal (keys.args 0) (some driver_name))

-- By an address: the registry of the peer, if it is there; that for peers to come, if the ID has not
-- been given out yet; none, if it has; or that of the name.
unfoldable pub place_by_address :
    PeerRegistry → Place → (ℕ → Place) → Place → Address → Option Place
unfolding peer_registry_find_peer
place_by_address peers to_come of_peer of_name (id n) = elim (peer_registry_find_peer peers n) [
  | some p ↦ some (of_peer n)
  | none ↦ if leb peers.ids n then some to_come else none
]
place_by_address peers to_come of_peer of_name (name s) = some of_name
place_by_address peers to_come of_peer of_name other = some of_name

unfoldable pub place_of_changes : PeerRegistry → Option Bytes → Option Place
unfolding place_by_address
place_of_changes peers none = some from_driver
place_of_changes peers (some s) =
    place_by_address peers from_driver owner_of_peer (owner_of_name s) (address_from_string s)

-- The choices of peer_link_match(), by the rule's sender.
unfoldable pub place_of : PeerRegistry → MatchKeys → Option Bytes → Option Place
unfolding place_by_address place_of_changes is_subscription_to_name
place_of peers keys none = some wildcard
place_of peers keys (some s) =
    if bytes_eq s driver_name
    then (if is_subscription_to_name keys
        then place_of_changes peers (keys.args 0)
        else some from_driver)
    else place_by_address peers wildcard from_peer (from_name s) (address_from_string s)

abbrev pub leave_place : Place → Option (Place × Bool) → Option (Place × Bool)
leave_place p none = none
leave_place p (some (q, counted)) = if place_eq p q then none else some (q, counted)

module _ (owner : ℕ → ℕ) (keys : ℕ → MatchKeys) where
  -- The rest of match_rule_link() on a rule that is not linked.
  unfoldable pub link_into : ℕ → Bool → Place → Matches → Matches
  unfolding write_place match_rule_link
  link_into rule monitor p m =
      record (write_place p (match_rule_link owner keys rule (not monitor) monitor) m) {
        linked_at = set_linked rule (some (p, not monitor)) m.linked_at;
      }

  -- match_rule_link(), with its assertions on a rule that is linked already
  unfoldable pub link_at : Option (Place × Bool) → ℕ → Bool → Place → Matches → Option Matches
  unfolding link_into place_eq
  link_at none rule monitor p m = some (link_into rule monitor p m)
  link_at (some (q, counted)) rule monitor p m =
      if place_eq q p && (if monitor then not counted else counted) then some m else none

  unfoldable pub link_in_place : Option Place → ℕ → Bool → Matches → Option Matches
  unfolding link_at
  link_in_place none rule monitor m = some m
  link_in_place (some p) rule monitor m = link_at (m.linked_at rule) rule monitor p m

  unfoldable pub peer_link_match : PeerRegistry → ℕ → Bool → Matches → Option Matches
  unfolding link_in_place place_of
  peer_link_match peers rule monitor m =
      link_in_place (place_of peers (keys rule) (keys rule).sender) rule monitor m

  unfoldable pub unlink_from : Option (Place × Bool) → ℕ → Matches → Matches
  unfolding write_place match_rule_unlink
  unlink_from none rule m = m
  unlink_from (some l) rule m = record (write_place l.0 (match_rule_unlink owner keys rule) m) {
    linked_at = set_linked rule none m.linked_at;
  }

  -- match_rule_unlink(), of a rule that is dropped
  unfoldable pub drop_match : ℕ → Matches → Matches
  unfolding unlink_from
  drop_match rule m = unlink_from (m.linked_at rule) rule m

  -- match_registry_flush() of one of the registries
  unfoldable pub flush_place : Place → Matches → Matches
  unfolding write_place match_registry_flush place_eq
  flush_place p m = record (write_place p (match_registry_flush owner keys) m) {
    linked_at = λ r. leave_place p (m.linked_at r);
  }

-- The sender's names of which it is the primary owner.
abbrev pub is_primary_of : ℕ → Option ℕ → Bool
is_primary_of o none = false
is_primary_of o (some p) = p == o

unfoldable pub primary_names : ℕ → List (Bytes × List NameOwnership) → List Bytes
primary_names o [] = []
primary_names o ((n, q) ∷ names) =
    let rest = primary_names o names in if is_primary_of o (primary q) then n ∷ rest else rest

unfoldable pub name_places : List Bytes → List Place
name_places [] = []
name_places (n ∷ ns) = from_name n ∷ name_places ns

-- The registries that are looked at for a sender, or for the driver.
unfoldable pub broadcast_places :
    Option Place → Option ℕ → List (Bytes × List NameOwnership) → List Place
unfolding name_places primary_names
broadcast_places none none names = wildcard ∷ from_driver ∷ []
broadcast_places (some p) none names = wildcard ∷ p ∷ from_driver ∷ []
broadcast_places none (some s) names = wildcard ∷ name_places (primary_names s names)
broadcast_places (some p) (some s) names = wildcard ∷ p ∷ name_places (primary_names s names)

unfoldable pub append_place : Place → List Place → List Place
append_place p [] = p ∷ []
append_place p (q ∷ qs) = q ∷ append_place p qs

unfoldable pub monitor_places : Option ℕ → List (Bytes × List NameOwnership) → List Place
unfolding name_places primary_names append_place
monitor_places none names = wildcard ∷ from_driver ∷ []
monitor_places (some s) names =
    wildcard ∷ append_place (from_peer s) (name_places (primary_names s names))

-- The tree of a registry that is looked at, for subscribers or for monitors.
abbrev pub tree_of : Bool → Registry → List ByPath
tree_of monitor g = if monitor then g.monitor_tree else g.subscription_tree

module _ (owner : ℕ → ℕ) where
  unfoldable pub find_in : Bool → Matches → Metadata → List Place → List ℕ → List ℕ
  unfolding match_registry_get_destinations
  find_in monitor m metadata [] destinations = destinations
  find_in monitor m metadata (p ∷ ps) destinations =
      find_in monitor m metadata ps (
        match_registry_get_destinations owner metadata (tree_of monitor (m.registry p))
          destinations)

  unfoldable pub bus_get_broadcast_destinations :
      Matches → List (Bytes × List NameOwnership) → Option Place → Option ℕ → Metadata → List ℕ
  unfolding find_in broadcast_places
  bus_get_broadcast_destinations m names matches sender metadata =
      find_in false m metadata (broadcast_places matches sender names) []

  unfoldable pub bus_get_monitor_destinations :
      ℕ → Matches → List (Bytes × List NameOwnership) → Option ℕ → Metadata → List ℕ
  unfolding find_in monitor_places
  bus_get_monitor_destinations n_monitors m names sender metadata =
      let found = find_in true m metadata (monitor_places sender names) [] in
      if n_monitors == 0 then [] else found
