-- ===== src/Bus/Peer/Tests.antt =====
-- Runs of the peers of src/bus/peer.c.
use dbus_broker.Common.{true, false, List, [], ◌∷◌, arith}
use dbus_broker.Bus.Policy.{Batch}
use dbus_broker.Bus.Peer.{peer_registry_init}
use dbus_broker.Bus.Peer.Registry.{IsValid, Gives, charged, over_quota}
use dbus_broker.Bus.Peer.Runs.{
  Step, connect, hello, become_monitor, hang_up, run_peers, run_peers_lem,
}

-- A policy that lets connect.
abbrev open_policy : List Batch
open_policy = record { connect_verdict = record { verdict = true; priority = 1 }; names = [] } ∷ []

-- The first of two peers becomes a monitor; a third one is not admitted, and the second one goes.
abbrev steps : List Step
steps =
    connect charged open_policy true 1000
    ∷ connect charged open_policy true 1001
    ∷ hello 0
    ∷ hello 1
    ∷ become_monitor 0
    ∷ hello 0
    ∷ connect charged [] true 1002
    ∷ connect over_quota open_policy true 1003
    ∷ hang_up false 1
    ∷ []

run_peers_example : Gives IsValid (run_peers steps peer_registry_init)
run_peers_example = run_peers_lem steps (omega arith)
