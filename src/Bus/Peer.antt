-- ===== src/Bus/Peer.antt =====
-- src/bus/peer.c: the registry of peers, and a peer from its connection to its end. The tree of peers is
-- a list, and a peer is named by its ID. What belongs to other components (the socket, the charges of
-- the user, names, rules and replies) is left to them; what they answer is an argument. Of the
-- branches for Zephyr, none is taken.
pub mod Counting
pub mod Matches
pub mod Names
pub mod Registry
pub mod Runs
pub mod Tests
use dbus_broker.Common.{
  ℕ, ◌+◌, ◌-◌, ◌%◌, Bool, true, false, ◌||◌, not, Option, none, some, List, [], ◌∷◌, ◌==◌,
  if◌then◌else◌,
}
use dbus_broker.Util.Decimal.{u64_limit}
use dbus_broker.Util.User
use dbus_broker.Bus.Policy.{Batch}
use dbus_broker.Bus.Policy.Snapshot
use dbus_broker.Bus.Policy.Snapshot.{policy_snapshot_check_connect}

pub record Peer : Type 0 where
  pub id : ℕ
  pub uid : ℕ
  pub registered : Bool
  pub monitor : Bool

-- PeerRegistry, with the count of monitors, which the bus keeps
pub record PeerRegistry : Type 0 where
  pub peer_tree : List Peer
  pub ids : ℕ
  pub n_peers : ℕ
  pub n_registered : ℕ
  pub n_monitors : ℕ

abbrev pub peer_registry_init : PeerRegistry
peer_registry_init = record {
  peer_tree = [];
  ids = 0;
  n_peers = 0;
  n_registered = 0;
  n_monitors = 0;
}

-- 0 and the PEER_E_* codes, other errors, and a failed assertion
pub data Code : Type 0 where
  success : Code
  quota : Code
  connection_refused : Code
  name_reserved : Code
  name_unique : Code
  name_refused : Code
  name_already_owner : Code
  name_in_queue : Code
  name_exists : Code
  name_not_found : Code
  name_not_owner : Code
  match_invalid : Code
  match_not_found : Code
  error : Code
  assertion : Code

-- The peer of an ID in the tree, registered or not.
unfoldable pub find_entry : ℕ → List Peer → Option Peer
find_entry id [] = none
find_entry id (p ∷ ps) = if p.id == id then some p else find_entry id ps

abbrev pub if_registered : Option Peer → Option Peer
if_registered none = none
if_registered (some p) = if p.registered then some p else none

unfoldable pub peer_registry_find_peer : PeerRegistry → ℕ → Option Peer
unfolding find_entry
peer_registry_find_peer registry id = if_registered (find_entry id registry.peer_tree)

unfoldable pub remove_entry : ℕ → List Peer → List Peer
remove_entry id [] = []
remove_entry id (p ∷ ps) = let rest = remove_entry id ps in if p.id == id then ps else p ∷ rest

-- A write to the peer of an ID.
unfoldable pub write_entry : ℕ → (Peer → Peer) → List Peer → List Peer
write_entry id write [] = []
write_entry id write (p ∷ ps) =
    let rest = write_entry id write ps in if p.id == id then write p ∷ ps else p ∷ rest

abbrev pub is_none : {A : Type 0} → Option A → Bool
is_none none = true
is_none (some a) = false

-- The end of peer_new_with_fd(): the peer gets the next ID, whose slot must be free.
unfoldable pub add_peer : ℕ → PeerRegistry → PeerRegistry × Code
unfolding find_entry
add_peer uid registry =
    let peer : Peer = record {
      id = registry.ids;
      uid = uid;
      registered = false;
      monitor = false;
    } in
    let ids = (registry.ids + 1) % u64_limit in
    if is_none (find_entry registry.ids registry.peer_tree)
    then (record registry { ids = ids; peer_tree = peer ∷ registry.peer_tree }, success)
    else (record registry { ids = ids }, assertion)

-- The peer is freed again when a step fails.
abbrev pub uncount_peer : PeerRegistry → PeerRegistry
uncount_peer registry = record registry { n_peers = registry.n_peers - 1 }

unfoldable pub admit : Snapshot.Code → Bool → ℕ → PeerRegistry → PeerRegistry × Code
unfolding add_peer
admit Snapshot.success true uid registry = add_peer uid registry
admit Snapshot.success false uid registry = (uncount_peer registry, error)
admit Snapshot.access_denied connected uid registry = (uncount_peer registry, connection_refused)
admit Snapshot.selinux_access_denied connected uid registry = (uncount_peer registry, error)
admit Snapshot.apparmor_access_denied connected uid registry = (uncount_peer registry, error)
admit Snapshot.failed connected uid registry = (uncount_peer registry, error)

unfoldable pub with_charge : User.Code → List Batch → Bool → ℕ → PeerRegistry → PeerRegistry × Code
unfolding admit
with_charge User.success policy connected uid registry =
    admit (policy_snapshot_check_connect policy) connected uid registry
with_charge User.quota policy connected uid registry = (uncount_peer registry, quota)
with_charge User.error policy connected uid registry = (uncount_peer registry, error)
with_charge User.assertion policy connected uid registry = (registry, assertion)

-- peer_new_with_fd(), from where the peer is counted: by what charging the user gave, the batches of
-- the new peer's policy, and whether its connection could be set up.
unfoldable pub peer_new_with_fd :
    User.Code → List Batch → Bool → ℕ → PeerRegistry → PeerRegistry × Code
unfolding with_charge
peer_new_with_fd charge policy connected uid registry =
    with_charge charge policy connected uid (record registry { n_peers = registry.n_peers + 1 })

-- peer_is_privileged(); the other user ID is that of the bus.
unfoldable pub peer_is_privileged : Peer → ℕ → Bool
peer_is_privileged peer bus_uid = (peer.uid == 0) || (peer.uid == bus_uid)

abbrev pub set_registered : Bool → Peer → Peer
set_registered b p = record p { registered = b }

abbrev pub set_monitor : Bool → Peer → Peer
set_monitor b p = record p { monitor = b }

-- The functions on a peer that is in the tree; `none` is a failed assertion, and also that there is no
-- such peer.
unfoldable pub peer_register : ℕ → PeerRegistry → Option PeerRegistry
unfolding write_entry
peer_register id registry = elim (find_entry id registry.peer_tree) [
  | none ↦ none
  | some p ↦
      if p.registered || p.monitor
      then none
      else some (record registry {
        peer_tree = write_entry id (set_registered true) registry.peer_tree;
        n_registered = registry.n_registered + 1;
      })
]

unfoldable pub peer_unregister : ℕ → PeerRegistry → Option PeerRegistry
unfolding write_entry
peer_unregister id registry = elim (find_entry id registry.peer_tree) [
  | none ↦ none
  | some p ↦
      if not p.registered || p.monitor
      then none
      else some (record registry {
        peer_tree = write_entry id (set_registered false) registry.peer_tree;
        n_registered = registry.n_registered - 1;
      })
]

-- peer_become_monitor() and peer_stop_monitor(), without the rules
unfoldable pub peer_become_monitor : ℕ → PeerRegistry → Option PeerRegistry
unfolding write_entry
peer_become_monitor id registry = elim (find_entry id registry.peer_tree) [
  | none ↦ none
  | some p ↦
      if p.registered || p.monitor
      then none
      else some (record registry {
        peer_tree = write_entry id (set_monitor true) registry.peer_tree;
        n_monitors = registry.n_monitors + 1;
      })
]

unfoldable pub peer_stop_monitor : ℕ → PeerRegistry → Option PeerRegistry
unfolding write_entry
peer_stop_monitor id registry = elim (find_entry id registry.peer_tree) [
  | none ↦ none
  | some p ↦
      if p.registered || not p.monitor
      then none
      else some (record registry {
        peer_tree = write_entry id (set_monitor false) registry.peer_tree;
        n_monitors = registry.n_monitors - 1;
      })
]

unfoldable pub peer_free : ℕ → PeerRegistry → Option PeerRegistry
unfolding remove_entry
peer_free id registry = elim (find_entry id registry.peer_tree) [
  | none ↦ none
  | some p ↦
      if p.registered
      then none
      else some (record registry {
        peer_tree = remove_entry id registry.peer_tree;
        n_peers = registry.n_peers - 1;
      })
]

-- The end of driver_goodbye(), of src/bus/driver.c, on a peer in the tree
unfoldable pub driver_goodbye : ℕ → PeerRegistry → Option PeerRegistry
unfolding peer_unregister peer_stop_monitor
driver_goodbye id registry = elim (find_entry id registry.peer_tree) [
  | none ↦ none
  | some p ↦
      if p.registered
      then peer_unregister id registry
      else if p.monitor
      then peer_stop_monitor id registry
      else some registry
]

-- The end of peer_dispatch() and of a round of peer_registry_flush(): the peer is freed unless its
-- connection still runs.
unfoldable pub peer_hang_up : Bool → ℕ → PeerRegistry → Option PeerRegistry
unfolding driver_goodbye peer_free
peer_hang_up running id registry = elim (driver_goodbye id registry) [
  | none ↦ none
  | some r ↦ if running then some r else peer_free id r
]

-- driver_method_hello() and the end of driver_method_become_monitor(), behind driver_dispatch() and
-- driver_dispatch_method(): a monitor is refused, and so is a second Hello(), and BecomeMonitor() by a
-- peer that is not registered.
unfoldable pub dispatch_hello : ℕ → PeerRegistry → Option PeerRegistry
unfolding peer_register
dispatch_hello id registry = elim (find_entry id registry.peer_tree) [
  | none ↦ none
  | some p ↦ if p.monitor || p.registered then some registry else peer_register id registry
]

unfoldable pub dispatch_become_monitor : ℕ → PeerRegistry → Option PeerRegistry
unfolding driver_goodbye peer_become_monitor
dispatch_become_monitor id registry = elim (find_entry id registry.peer_tree) [
  | none ↦ none
  | some p ↦
      if p.monitor || not p.registered
      then some registry
      else elim (driver_goodbye id registry) [ none ↦ none | some r ↦ peer_become_monitor id r ]
]
