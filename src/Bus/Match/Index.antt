-- ===== src/Bus/Match/Index.antt =====
-- The registry of src/bus/match.c: rules by path, interface, member and keys. A rule is a number, and
-- its owner and keys are given by functions, since they do not change; what is linked changes. The
-- order in which destinations are found is that of the lists, not of the trees. Allocations succeed.
pub mod Nodes
pub mod Placement
pub mod Owners
pub mod Destinations
pub mod Runs
pub mod Flush
pub mod Tests
use dbus_broker.Common.{
  ℕ, ◌+◌, ◌-◌, Bytes, bytes_eq, Bool, true, false, ◌&&◌, not, Option, none, some, List, [], ◌∷◌,
  ◌++◌, ◌==◌, if◌then◌else◌, is_nil,
}
use dbus_broker.Bus.Name.{util_peak_update}
use dbus_broker.Bus.Match.Keys.{MatchKeys}
use dbus_broker.Bus.Match.Matching.{Metadata, match_keys_match_metadata, match_keys_equal}
use dbus_broker.Bus.Match.Tree.{Tree, tree_get, tree_write}

-- MatchRegistryByKeys, MatchRegistryByMember, MatchRegistryByInterface and MatchRegistryByPath
pub record ByKeys : Type 0 where
  pub keys : MatchKeys
  pub rule_list : List ℕ

abbrev pub ByMember : Type 0
ByMember = Bytes × List ByKeys

abbrev pub ByInterface : Type 0
ByInterface = Bytes × List ByMember

abbrev pub ByPath : Type 0
ByPath = Bytes × List ByInterface

-- An absent path, interface or member is the empty string in its tree.
abbrev pub or_empty : Option Bytes → Bytes
or_empty none = []
or_empty (some s) = s

unfoldable pub member_of : ℕ → List ℕ → Bool
member_of n [] = false
member_of n (x ∷ xs) = if x == n then true else member_of n xs

unfoldable pub remove : ℕ → List ℕ → List ℕ
remove n [] = []
remove n (x ∷ xs) = let rest = remove n xs in if x == n then rest else x ∷ rest

-- match_rule_link_by_member() and match_rule_link_by_keys()
unfoldable pub match_rule_link_by_member : ℕ → MatchKeys → List ByKeys → List ByKeys
match_rule_link_by_member rule keys [] = record { keys = keys; rule_list = rule ∷ [] } ∷ []
match_rule_link_by_member rule keys (b ∷ bs) =
    let rest = match_rule_link_by_member rule keys bs in
    if match_keys_equal keys b.keys
    then record b { rule_list = b.rule_list ++ rule ∷ [] } ∷ bs
    else b ∷ rest

-- The lists are left by the rule's own link, and a node goes with its last rule.
abbrev pub keep_keys : MatchKeys → List ℕ → List ByKeys → List ByKeys
keep_keys keys [] bs = bs
keep_keys keys (r ∷ rs) bs = record { keys = keys; rule_list = r ∷ rs } ∷ bs

unfoldable pub unlink_by_keys : ℕ → List ByKeys → List ByKeys
unfolding remove
unlink_by_keys rule [] = []
unlink_by_keys rule (b ∷ bs) = keep_keys b.keys (remove rule b.rule_list) (unlink_by_keys rule bs)

-- A write to what the nodes of a rule's path, interface and member hold.
unfoldable pub match_rule_link_by_interface :
    MatchKeys → (List ByKeys → List ByKeys) → List ByMember → List ByMember
unfolding tree_write
match_rule_link_by_interface keys write t = tree_write (or_empty keys.member) write t

unfoldable pub match_rule_link_by_path :
    MatchKeys → (List ByKeys → List ByKeys) → List ByInterface → List ByInterface
unfolding match_rule_link_by_interface tree_write
match_rule_link_by_path keys write t =
    tree_write (or_empty keys.interface) (match_rule_link_by_interface keys write) t

unfoldable pub write_rule : MatchKeys → (List ByKeys → List ByKeys) → List ByPath → List ByPath
unfolding match_rule_link_by_path tree_write
write_rule keys write t = tree_write (or_empty keys.path) (match_rule_link_by_path keys write) t

-- Destinations, each linked once.
unfoldable pub add_owners : (ℕ → ℕ) → List ℕ → List ℕ → List ℕ
unfolding member_of
add_owners owner [] destinations = destinations
add_owners owner (r ∷ rs) destinations =
    add_owners owner rs
      (if member_of (owner r) destinations then destinations else destinations ++ owner r ∷ [])

unfoldable pub match_registry_by_member_get_destinations :
    (ℕ → ℕ) → Metadata → List ByKeys → List ℕ → List ℕ
match_registry_by_member_get_destinations owner m [] destinations = destinations
match_registry_by_member_get_destinations owner m (b ∷ bs) destinations =
    match_registry_by_member_get_destinations owner m bs (
      if match_keys_match_metadata b.keys m
      then add_owners owner b.rule_list destinations
      else destinations)

-- The node of the empty string is visited, and that of the message's string, if it has one.
abbrev pub both_nodes :
    {A : Type 0} → Option Bytes → (List A → List ℕ → List ℕ) → Tree A → List ℕ → List ℕ
both_nodes none visit t destinations = visit (tree_get [] t) destinations
both_nodes (some s) visit t destinations = visit (tree_get s t) (visit (tree_get [] t) destinations)

unfoldable pub match_registry_by_interface_get_destinations :
    (ℕ → ℕ) → Metadata → List ByMember → List ℕ → List ℕ
match_registry_by_interface_get_destinations owner m t destinations =
    both_nodes m.member (match_registry_by_member_get_destinations owner m) t destinations

unfoldable pub match_registry_by_path_get_destinations :
    (ℕ → ℕ) → Metadata → List ByInterface → List ℕ → List ℕ
match_registry_by_path_get_destinations owner m t destinations =
    both_nodes m.interface (match_registry_by_interface_get_destinations owner m) t destinations

unfoldable pub match_registry_get_destinations : (ℕ → ℕ) → Metadata → List ByPath → List ℕ → List ℕ
match_registry_get_destinations owner m t destinations =
    both_nodes m.path (match_registry_by_path_get_destinations owner m) t destinations

-- MatchRegistry with the MatchCounters, the counts of the owners, and how each rule is linked: whether
-- for monitoring, and whether it is counted.
pub record Link : Type 0 where
  pub monitor : Bool
  pub counted : Bool

pub record Registry : Type 0 where
  pub subscription_tree : List ByPath
  pub monitor_tree : List ByPath
  pub links : ℕ → Option Link
  pub n_subscriptions : ℕ
  pub n_subscriptions_peak : ℕ
  pub n_owner_subscriptions_peak : ℕ
  pub n_owner_subscriptions : ℕ → ℕ

abbrev pub match_registry_init : Registry
match_registry_init = record {
  subscription_tree = [];
  monitor_tree = [];
  links = λ r. none;
  n_subscriptions = 0;
  n_subscriptions_peak = 0;
  n_owner_subscriptions_peak = 0;
  n_owner_subscriptions = λ o. 0;
}

abbrev pub set_link : ℕ → Option Link → (ℕ → Option Link) → ℕ → Option Link
set_link rule l links r = if r == rule then l else links r

abbrev pub set_count : ℕ → ℕ → (ℕ → ℕ) → ℕ → ℕ
set_count owner n counts o = if o == owner then n else counts o

unfoldable pub count_link : ℕ → Registry → Registry
unfolding util_peak_update
count_link owner g =
    let n = g.n_subscriptions + 1 in
    let own = g.n_owner_subscriptions owner + 1 in
    record g {
      n_subscriptions = n;
      n_subscriptions_peak = util_peak_update g.n_subscriptions_peak n;
      n_owner_subscriptions = set_count owner own g.n_owner_subscriptions;
      n_owner_subscriptions_peak = util_peak_update g.n_owner_subscriptions_peak own;
    }

unfoldable pub uncount_link : ℕ → Registry → Registry
uncount_link owner g = record g {
  n_subscriptions = g.n_subscriptions - 1;
  n_owner_subscriptions =
      set_count owner (g.n_owner_subscriptions owner - 1) g.n_owner_subscriptions;
}

module _ (owner : ℕ → ℕ) (keys : ℕ → MatchKeys) where
  -- The rule is put into its tree.
  unfoldable pub link_in : Bool → ℕ → Registry → Registry
  unfolding write_rule match_rule_link_by_member
  link_in true rule g = record g {
    monitor_tree =
        write_rule (keys rule) (match_rule_link_by_member rule (keys rule)) g.monitor_tree;
  }
  link_in false rule g = record g {
    subscription_tree =
        write_rule (keys rule) (match_rule_link_by_member rule (keys rule)) g.subscription_tree;
  }

  unfoldable pub unlink_in : Bool → ℕ → Registry → Registry
  unfolding write_rule unlink_by_keys
  unlink_in true rule g = record g {
    monitor_tree = write_rule (keys rule) (unlink_by_keys rule) g.monitor_tree;
  }
  unlink_in false rule g = record g {
    subscription_tree = write_rule (keys rule) (unlink_by_keys rule) g.subscription_tree;
  }

  -- The rest of both functions, by how the rule is linked; `counted` says whether counters are given.
  unfoldable pub link_if_free : Option Link → ℕ → Bool → Bool → Registry → Registry
  unfolding link_in count_link
  link_if_free (some l) rule counted monitor g = g
  link_if_free none rule counted monitor g =
      let linked = record (link_in monitor rule g) {
        links = set_link rule (some (record { monitor = monitor; counted = counted })) g.links;
      } in
      if counted then count_link (owner rule) linked else linked

  unfoldable pub unlink_if_linked : Option Link → ℕ → Registry → Registry
  unfolding unlink_in uncount_link
  unlink_if_linked none rule g = g
  unlink_if_linked (some l) rule g =
      let counts = if l.counted then uncount_link (owner rule) g else g in
      record (unlink_in l.monitor rule counts) { links = set_link rule none g.links }

  -- A rule that is linked stays as it is. With this one registry, it is linked there; the assertions
  -- on that, for several registries, are in link_at of Peer/Matches.
  unfoldable pub match_rule_link : ℕ → Bool → Bool → Registry → Registry
  unfolding link_if_free
  match_rule_link rule counted monitor g = link_if_free (g.links rule) rule counted monitor g

  unfoldable pub match_rule_unlink : ℕ → Registry → Registry
  unfolding unlink_if_linked
  match_rule_unlink rule g = unlink_if_linked (g.links rule) rule g

  unfoldable pub match_registry_get_subscribers : Registry → Metadata → List ℕ
  match_registry_get_subscribers g m =
      match_registry_get_destinations owner m g.subscription_tree []

  unfoldable pub match_registry_get_monitors : Registry → Metadata → List ℕ
  match_registry_get_monitors g m = match_registry_get_destinations owner m g.monitor_tree []
