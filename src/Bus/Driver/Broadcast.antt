-- ===== src/Bus/Driver/Broadcast.antt =====
-- driver_forward_broadcast() of src/bus/driver.c: a signal to all that want it and may have it. What the
-- security modules, the connections of the receivers and the log answer is given by functions.
pub mod Delivery
pub mod Tests
use dbus_broker.Common.{
  ℕ, Bytes, Bool, true, false, ◌&&◌, Option, none, some, List, [], ◌∷◌, ◌==◌, if◌then◌else◌,
}
use dbus_broker.Bus.Name.{NameOwnership, is_linked}
use dbus_broker.Bus.Match.Matching.{Metadata}
use dbus_broker.Bus.Policy.{Batch}
use dbus_broker.Bus.Policy.Snapshot
use dbus_broker.Bus.Policy.Snapshot.{
  Access, Traffic, NameSet, policy_snapshot_check_send, policy_snapshot_check_receive,
}
use dbus_broker.Bus.Peer.Matches.{Matches, from_peer, bus_get_broadcast_destinations}

-- What connection_queue() gives: 0, CONNECTION_E_QUOTA, CONNECTION_E_UNEXPECTED_FDS, another error.
-- It is 0 also for a connection that was shut down, which drops the message.
pub data Queued : Type 0 where
  accepted over_quota unexpected_fds failed : Queued

-- The signal is queued at a receiver, or a receiver is shut down.
pub data Event : Type 0 where
  delivered : ℕ → Event
  shut_down : ℕ → Event

-- All names that a peer owns or waits for.
unfoldable pub names_owned : ℕ → List (Bytes × List NameOwnership) → List Bytes
unfolding is_linked
names_owned o [] = []
names_owned o ((n, q) ∷ names) =
    let rest = names_owned o names in if is_linked o q then n ∷ rest else rest

abbrev pub traffic_of : Metadata → ℕ → Traffic
traffic_of m n_fds = record {
  interface = m.interface;
  member = m.member;
  path = m.path;
  type = m.type;
  broadcast = true;
  n_fds = n_fds;
}

-- Denied, the receiver is passed over; an error ends the loop. `true` says that all went well.
unfoldable pub if_permitted :
    Snapshot.Code → List Event × Bool → List Event × Bool → List Event × Bool
if_permitted Snapshot.success next rest = next
if_permitted Snapshot.access_denied next rest = rest
if_permitted Snapshot.selinux_access_denied next rest = rest
if_permitted Snapshot.apparmor_access_denied next rest = rest
if_permitted Snapshot.failed next rest = ([], false)

abbrev pub first : Event → List Event × Bool → List Event × Bool
first e (es, ok) = (e ∷ es, ok)

unfoldable pub when_queued : Queued → Bool → ℕ → List Event × Bool → List Event × Bool
when_queued accepted logged o rest = first (delivered o) rest
when_queued over_quota logged o rest =
    if logged then first (shut_down o) rest else (shut_down o ∷ [], false)
when_queued unexpected_fds logged o rest =
    if logged then first (shut_down o) rest else (shut_down o ∷ [], false)
when_queued failed logged o rest = ([], false)

-- The answers of the modules on sending to a receiver, of its connection and of the log; the
-- policies of the peers, and the names.
pub record World : Type 0 where
  pub apparmor : ℕ → Access
  pub selinux : ℕ → Access
  pub queue : ℕ → Queued
  pub logged : ℕ → Bool
  pub policy : ℕ → List Batch
  pub names : List (Bytes × List NameOwnership)

abbrev pub may_send : World → ℕ → Metadata → ℕ → ℕ → Snapshot.Code
may_send w s m n_fds o =
    policy_snapshot_check_send (w.apparmor o) (w.selinux o) (w.policy s)
      (NameSet.names (names_owned o w.names)) (traffic_of m n_fds)

abbrev pub may_receive : World → ℕ → Metadata → ℕ → ℕ → Snapshot.Code
may_receive w s m n_fds o =
    policy_snapshot_check_receive (w.policy o) (NameSet.names (names_owned s w.names))
      (traffic_of m n_fds)

unfoldable pub send_to_all : World → ℕ → Metadata → ℕ → List ℕ → List Event × Bool
unfolding if_permitted when_queued names_owned policy_snapshot_check_send
    policy_snapshot_check_receive
send_to_all w s m n_fds [] = ([], true)
send_to_all w s m n_fds (o ∷ os) =
    let rest = send_to_all w s m n_fds os in
    if_permitted (may_send w s m n_fds o)
      (if_permitted (may_receive w s m n_fds o) (when_queued (w.queue o) (w.logged o) o rest) rest)
      rest

-- The peers are the owners of the rules.
unfoldable pub driver_forward_broadcast :
    (ℕ → ℕ) → Matches → World → ℕ → Metadata → ℕ → List Event × Bool
unfolding send_to_all bus_get_broadcast_destinations
driver_forward_broadcast owner matches w s m n_fds =
    send_to_all w s m n_fds
      (bus_get_broadcast_destinations owner matches w.names (some (from_peer s)) (some s) m)
