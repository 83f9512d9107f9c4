-- ===== src/Bus/Driver/Broadcast/Tests.antt =====
-- Runs of driver_forward_broadcast() of src/bus/driver.c.
use dbus_broker.Common.{ℕ, codes, ◌≡◌, refl, true, false, ◌↔◌, List, [], ◌∷◌, none, some}
use dbus_broker.Bus.Name.Requests.{run}
use dbus_broker.Bus.Match.Keys.{MatchKeys, match_keys_null}
use dbus_broker.Bus.Match.Matching.{Metadata}
use dbus_broker.Bus.Match.Keys.Sender.{SenderDerived}
use dbus_broker.Bus.Policy.{Batch, Xmit, policy_verdict_init, policy_batch_find_name}
use dbus_broker.Bus.Policy.Snapshot.{
  granted, policy_snapshot_check_send, policy_snapshot_check_receive, behind_modules, xmit_verdict,
  policy_snapshot_check_xmit, check_xmit_names, policy_snapshot_check_xmit_name, check_xmits,
}
use dbus_broker.Bus.Peer.{peer_registry_init}
use dbus_broker.Bus.Peer.Matches.{wildcard, Matches, matches_init, link_into, peer_link_match}
use dbus_broker.Bus.Peer.Matches.Steps.{link, run_matches}
use dbus_broker.Bus.Peer.Matches.Broadcast.{Subscribed}
use dbus_broker.Bus.Driver.Broadcast.{World, accepted, names_owned, driver_forward_broadcast}
use dbus_broker.Bus.Driver.Broadcast.Delivery.{gets, NoFault, Accepts, driver_forward_broadcast_lem}

-- Every rule takes all, and is owned by the peer of its number.
abbrev keys : ℕ → MatchKeys
keys r = match_keys_null

abbrev owner : ℕ → ℕ
owner r = r

derived : (r : ℕ) → SenderDerived (keys r)
derived r = refl

abbrev signal : Metadata
signal = record {
  type = 4;
  sender_id = 0;
  path = some (codes "/x");
  interface = some (codes "org.x");
  member = some (codes "X");
  args = λ i. record { element = 0; value = none };
  n_args = 0;
}

abbrev anything : Xmit
anything = record {
  verdict = record { verdict = true; priority = 1 };
  type = 0;
  broadcast = 0;
  path = none;
  interface = none;
  member = none;
  min_fds = 0;
  max_fds = 100;
}

-- All may be sent and received.
abbrev open_policy : List Batch
open_policy =
    record {
      connect_verdict = policy_verdict_init;
      names =
          record {
            name = [];
            own_verdict = policy_verdict_init;
            own_prefix_verdict = policy_verdict_init;
            send_unindexed = anything ∷ [];
            recv_unindexed = anything ∷ [];
          }
          ∷ [];
    }
    ∷ []

abbrev world : World
world = record {
  apparmor = λ o. granted;
  selinux = λ o. granted;
  queue = λ o. accepted;
  logged = λ o. true;
  policy = λ o. open_policy;
  names = [];
}

abbrev linked : Matches
linked = link_into owner keys 3 false wildcard matches_init

ran : run_matches owner keys (link peer_registry_init 3 false ∷ []) matches_init ≡ some linked
unfolding run_matches peer_link_match
ran = refl

fine : NoFault world 0 signal 0
unfolding policy_snapshot_check_send policy_snapshot_check_receive behind_modules xmit_verdict
    policy_snapshot_check_xmit check_xmit_names policy_snapshot_check_xmit_name
    policy_batch_find_name check_xmits names_owned
fine o = (λ e. cc, λ e. cc, λ e. cc, refl)

forward_broadcast_example :
    ((driver_forward_broadcast owner linked world 0 signal 0).1 ≡ true)
    × ((gets 3 (driver_forward_broadcast owner linked world 0 signal 0).0 ≡ true)
        ↔ (Subscribed owner keys linked signal [] 0 3 × Accepts world 0 signal 0 3))
unfolding run
forward_broadcast_example =
    driver_forward_broadcast_lem owner keys derived (link peer_registry_init 3 false ∷ []) linked []
      world 0 3 signal 0 ran refl refl fine
