-- ===== src/Bus/Peer/Runs.antt =====
-- The peers of src/bus/peer.c over any sequence of what the event loop does with them.
use dbus_broker.Common.{
  ℕ, ◌+◌, ◌<◌, Bool, true, false, ◌||◌, not, Option, none, some, List, [], ◌∷◌, if◌then◌else◌, ◌≡◌,
  refl, arith, length, Bool-cases, inl, inr,
}
use mathlib.Core.Path.{subst}
use dbus_broker.Util.Decimal.{u64_limit}
use dbus_broker.Bus.Policy.{Batch}
use dbus_broker.Bus.Peer.{
  PeerRegistry, find_entry, is_none, peer_new_with_fd, peer_hang_up, dispatch_hello,
  dispatch_become_monitor, Peer, peer_registry_init, driver_goodbye, peer_become_monitor, peer_free,
}
use dbus_broker.Bus.Peer.Registry.{
  IsValid, Gives, Kept, Grown, connect-Grown, Charged, unless_assertion, register-Kept,
  goodbye-Parted, Parted, code_of, free-Kept, become_monitor-Kept,
}

-- A connection is accepted, or a peer calls Hello() or BecomeMonitor(), or its connection ends.
pub data Step : Type 0 where
  connect : Charged → List Batch → Bool → ℕ → Step
  hello : ℕ → Step
  become_monitor : ℕ → Step
  hang_up : Bool → ℕ → Step

-- Only peers that are there are dispatched.
abbrev if_there :
    Option Peer → (PeerRegistry → Option PeerRegistry) → PeerRegistry → Option PeerRegistry
if_there none act r = some r
if_there (some p) act r = act r

unfoldable pub perform : Step → PeerRegistry → Option PeerRegistry
perform (connect charge policy connected uid) r =
    unless_assertion (peer_new_with_fd (code_of charge) policy connected uid r)
perform (hello id) r = if_there (find_entry id r.peer_tree) (dispatch_hello id) r
perform (become_monitor id) r = if_there (find_entry id r.peer_tree) (dispatch_become_monitor id) r
perform (hang_up running id) r = if_there (find_entry id r.peer_tree) (peer_hang_up running id) r

abbrev and_then : Option PeerRegistry → (PeerRegistry → Option PeerRegistry) → Option PeerRegistry
and_then none more = none
and_then (some r) more = more r

unfoldable pub run_peers : List Step → PeerRegistry → Option PeerRegistry
unfolding perform
run_peers [] r = some r
run_peers (s ∷ steps) r = and_then (perform s r) (run_peers steps)

Kept-Grown : (n : ℕ) (o : Option PeerRegistry) → Gives (Kept n) o → Gives (Grown n) o
Kept-Grown n none k = k
Kept-Grown n (some r) (v, e) = (v, omega (arith, e))

if_there-Kept :
    (r : PeerRegistry) (v : IsValid r) (id : ℕ) (act : PeerRegistry → Option PeerRegistry)
    (o : Option Peer)
    → ((p : Peer) → o ≡ some p → Gives (Kept r.ids) (act r))
    → Gives (Kept r.ids) (if_there o act r)
if_there-Kept r v id act none each = (v, refl)
if_there-Kept r v id act (some p) each = each p refl

module _ (r : PeerRegistry) (v : IsValid r) (id : ℕ) (p : Peer)
    (found : find_entry id r.peer_tree ≡ some p) where
  hello-Kept : Gives (Kept r.ids) (dispatch_hello id r)
  unfolding dispatch_hello
  hello-Kept = elim (Bool-cases (p.monitor || p.registered)) [
    | inl e ↦ rw (dispatch_hello, found, e) (v, refl)
    | inr e ↦
        rw (dispatch_hello, found, e) (register-Kept r v id p found (ground arith) (ground arith))
  ]

  -- What follows driver_goodbye().
  behind_goodbye :
      (o : Option PeerRegistry) (act : PeerRegistry → Option PeerRegistry)
      → Gives (Parted r.ids id) o
      → ((r' : PeerRegistry) → Parted r.ids id r' → Gives (Kept r.ids) (act r'))
      → Gives (Kept r.ids) (elim o [ none ↦ none | some r' ↦ act r' ])
  behind_goodbye none act w each = w
  behind_goodbye (some r') act w each = each r' w

  dispatch_become_monitor-Kept : Gives (Kept r.ids) (dispatch_become_monitor id r)
  unfolding dispatch_become_monitor
  dispatch_become_monitor-Kept = elim (Bool-cases (p.monitor || not p.registered)) [
    | inl e ↦ rw (dispatch_become_monitor, found, e) (v, refl)
    | inr e ↦
        rw (dispatch_become_monitor, found, e)
          (behind_goodbye (driver_goodbye id r) (peer_become_monitor id)
            (goodbye-Parted r v id p found)
            (λ r' w.
              let ((v', same), q, found', e', m') = w in
              subst (λ n. Gives (Kept n) (peer_become_monitor id r')) same
                (become_monitor-Kept r' v' id q found' e' m')))
  ]

  freed :
      (running : Bool) (r' : PeerRegistry)
      → Parted r.ids id r'
      → Gives (Kept r.ids) (if running then some r' else peer_free id r')
  freed true r' ((v', same), q, found', e', m') = (v', same)
  freed false r' ((v', same), q, found', e', m') =
      subst (λ n. Gives (Kept n) (peer_free id r')) same (free-Kept r' v' id q found' e' m')

  hang_up-Kept : (running : Bool) → Gives (Kept r.ids) (peer_hang_up running id r)
  unfolding peer_hang_up
  hang_up-Kept running =
      behind_goodbye (driver_goodbye id r) (λ r'. if running then some r' else peer_free id r')
        (goodbye-Parted r v id p found) (freed running)

perform-Grown :
    (s : Step) (r : PeerRegistry)
    → IsValid r
    → r.ids + 1 < u64_limit
    → Gives (Grown r.ids) (perform s r)
unfolding perform
perform-Grown (connect charge policy connected uid) r v room =
    connect-Grown r v room charge policy connected uid
perform-Grown (hello id) r v room =
    Kept-Grown r.ids (perform (hello id) r)
      (if_there-Kept r v id (dispatch_hello id) (find_entry id r.peer_tree) (hello-Kept r v id))
perform-Grown (become_monitor id) r v room = Kept-Grown r.ids (perform (become_monitor id) r) (
    if_there-Kept r v id (dispatch_become_monitor id) (find_entry id r.peer_tree)
      (dispatch_become_monitor-Kept r v id))
perform-Grown (hang_up running id) r v room = Kept-Grown r.ids (perform (hang_up running id) r) (
    if_there-Kept r v id (peer_hang_up running id) (find_entry id r.peer_tree)
      (λ p found. hang_up-Kept r v id p found running))

and_then-Gives :
    (n : ℕ) (o : Option PeerRegistry) (more : PeerRegistry → Option PeerRegistry)
    → Gives (Grown n) o
    → ((r : PeerRegistry) → Grown n r → Gives IsValid (more r))
    → Gives IsValid (and_then o more)
and_then-Gives n none more g each = g
and_then-Gives n (some r) more g each = each r g

run_peers-IsValid :
    (steps : List Step) (r : PeerRegistry)
    → IsValid r
    → r.ids + length steps < u64_limit
    → Gives IsValid (run_peers steps r)
unfolding run_peers
run_peers-IsValid [] r v room = v
run_peers-IsValid (s ∷ steps) r v room =
    and_then-Gives r.ids (perform s r) (run_peers steps) (perform-Grown s r v (omega (arith, room)))
      (λ r' g. run_peers-IsValid steps r' g.0 (omega (arith, g.1, room)))

-- In any sequence of fewer than 2^64 accepted connections, calls of Hello() and BecomeMonitor() and
-- ends of connections, no assertion of the registry or of a peer fails, though a call may come from a
-- monitor, or from a peer that has called Hello() or has not; in the end no two peers have
-- the same ID, no monitor is registered, and the registry counts its peers, the registered ones and the monitors.
pub run_peers_lem :
    (steps : List Step)
    → length steps < u64_limit
    → Gives IsValid (run_peers steps peer_registry_init)
unfolding dbus_broker.Bus.Peer.Counting.count
run_peers_lem steps few =
    run_peers-IsValid steps peer_registry_init
      (record { each = tt; all = refl; registered = refl; monitors = refl }) (omega (arith, few))
