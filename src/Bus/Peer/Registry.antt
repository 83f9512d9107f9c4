-- ===== src/Bus/Peer/Registry.antt =====
-- The registry of peers of src/bus/peer.c: its invariant, and that no operation that its callers admit
-- fails an assertion.
use dbus_broker.Common.{
  ℕ, ◌+◌, ◌-◌, ◌%◌, ◌<◌, ◌≤◌, Bool, true, false, ◌&&◌, Option, none, some, List, [], ◌∷◌, ◌≡◌, refl,
  arith, length, Bool-cases, inl, inr, sym, ◌∙◌,
}
use dbus_broker.Util.Decimal.{u64_limit}
use dbus_broker.Util.User
use dbus_broker.Bus.Policy.{Batch}
use dbus_broker.Bus.Policy.Snapshot
use dbus_broker.Bus.Policy.Snapshot.{policy_snapshot_check_connect}
use dbus_broker.Bus.Peer.{
  Peer, PeerRegistry, Code, find_entry, remove_entry, write_entry, add_peer, uncount_peer, admit,
  driver_goodbye, with_charge, peer_new_with_fd, set_registered, set_monitor, peer_register,
  peer_unregister, peer_become_monitor, peer_stop_monitor, peer_free, assertion,
}
use dbus_broker.Bus.Peer.Counting.{
  count, AllPeers, remove_entry-AllPeers, found_apart, find_written, one_if, write_entry-AllPeers,
  length-remove_entry, count-remove_entry, is_registered, length-write_entry, is_monitor,
  count-write_entry,
}

pub record IsValid (r : PeerRegistry) : Type 0 where
  pub each : AllPeers r.ids r.peer_tree
  pub all : r.n_peers ≡ length r.peer_tree
  pub registered : r.n_registered ≡ count is_registered r.peer_tree
  pub monitors : r.n_monitors ≡ count is_monitor r.peer_tree

-- The operations on a valid registry, of a peer with an ID.
module _ (r : PeerRegistry) (v : IsValid r) (id : ℕ) (p : Peer)
    (found : find_entry id r.peer_tree ≡ some p) where
  registered_counts : one_if p.registered ≤ r.n_registered
  registered_counts =
      omega (arith, v.registered, count-remove_entry is_registered id p r.peer_tree found)

  monitor_counts : one_if p.monitor ≤ r.n_monitors
  monitor_counts = omega (arith, v.monitors, count-remove_entry is_monitor id p r.peer_tree found)

  written-IsValid :
      (f : Peer → Peer) (n_registered n_monitors : ℕ)
      → ((q : Peer) → (f q).id ≡ q.id)
      → ((f p).registered && (f p).monitor) ≡ false
      → n_registered + one_if p.registered ≡ r.n_registered + one_if (f p).registered
      → n_monitors + one_if p.monitor ≡ r.n_monitors + one_if (f p).monitor
      → IsValid (record r {
        peer_tree = write_entry id f r.peer_tree;
        n_registered = n_registered;
        n_monitors = n_monitors;
      })
  written-IsValid f n_registered n_monitors same ok one two = record {
    each = write_entry-AllPeers r.ids id f p r.peer_tree same found ok v.each;
    all = v.all ∙ sym (length-write_entry id f r.peer_tree);
    registered =
        omega (arith, one, v.registered, count-write_entry is_registered id f p r.peer_tree found);
    monitors =
        omega (arith, two, v.monitors, count-write_entry is_monitor id f p r.peer_tree found);
  }

  removed-IsValid :
      p.registered ≡ false
      → p.monitor ≡ false
      → IsValid (record r { peer_tree = remove_entry id r.peer_tree; n_peers = r.n_peers - 1 })
  removed-IsValid h k = record {
    each = remove_entry-AllPeers r.ids id r.peer_tree v.each;
    all = omega (arith, v.all, length-remove_entry id p r.peer_tree found);
    registered =
        ground (arith, v.registered, count-remove_entry is_registered id p r.peer_tree found);
    monitors = ground (arith, v.monitors, count-remove_entry is_monitor id p r.peer_tree found);
  }

-- A valid registry of which the next ID is known.
abbrev pub Kept : ℕ → PeerRegistry → Type 0
Kept n r = IsValid r × (r.ids ≡ n)

-- At most one more ID has been given.
abbrev pub Grown : ℕ → PeerRegistry → Type 0
Grown n r = IsValid r × (r.ids ≤ n + 1)

-- What charging a user gives; no assertion fails there.
pub data Charged : Type 0 where
  charged over_quota failed : Charged

abbrev pub code_of : Charged → User.Code
code_of charged = User.success
code_of over_quota = User.quota
code_of failed = User.error

abbrev pub unless_assertion : PeerRegistry × Code → Option PeerRegistry
unless_assertion (r, assertion) = none
unless_assertion (r, code) = some r

-- It has a peer that is neither registered nor a monitor.
abbrev pub Parted : ℕ → ℕ → PeerRegistry → Type 0
Parted n id r =
    Kept n r
    × (p : Peer) × (find_entry id r.peer_tree ≡ some p)
    × (p.registered ≡ false)
    × (p.monitor ≡ false)

-- An operation gives a registry with a property: no assertion fails.
abbrev pub Gives : (PeerRegistry → Type 0) → Option PeerRegistry → Type 0
Gives P none = ⊥
Gives P (some r) = P r

module _ (r : PeerRegistry) (v : IsValid r) (id : ℕ) (p : Peer)
    (found : find_entry id r.peer_tree ≡ some p) where
  not_both : (p.registered && p.monitor) ≡ false
  not_both = found_apart r.ids id p r.peer_tree found v.each

  pub register-Kept :
      p.registered ≡ false → p.monitor ≡ false → Gives (Kept r.ids) (peer_register id r)
  unfolding peer_register
  register-Kept e m =
      rw (peer_register, found, e, m)
        (
          written-IsValid r v id p found (set_registered true) (r.n_registered + 1) r.n_monitors
              (λ q. refl) m (ground (arith, e)) refl,
          refl,
        )

  pub become_monitor-Kept :
      p.registered ≡ false → p.monitor ≡ false → Gives (Kept r.ids) (peer_become_monitor id r)
  unfolding peer_become_monitor
  become_monitor-Kept e m =
      rw (peer_become_monitor, found, e, m)
        (
          written-IsValid r v id p found (set_monitor true) r.n_registered (r.n_monitors + 1)
              (λ q. refl) (ground (arith, e)) refl (ground (arith, m)),
          refl,
        )

  pub free-Kept : p.registered ≡ false → p.monitor ≡ false → Gives (Kept r.ids) (peer_free id r)
  unfolding peer_free
  free-Kept e m = rw (peer_free, found, e) (removed-IsValid r v id p found e m, refl)

  unregister-Parted :
      p.registered ≡ true → p.monitor ≡ false → Gives (Parted r.ids id) (peer_unregister id r)
  unfolding peer_unregister
  unregister-Parted e m =
      let counts : 1 ≤ r.n_registered = ground (arith, registered_counts r v id p found) in
      rw (peer_unregister, found, e, m)
        (
          (
            written-IsValid r v id p found (set_registered false) (r.n_registered - 1) r.n_monitors
                (λ q. refl) refl (ground (arith, e, counts)) refl,
            refl,
          ),
          set_registered false p,
          find_written id (set_registered false) p r.peer_tree (λ q. refl) found,
          refl,
          m,
        )

  stop_monitor-Parted :
      p.registered ≡ false → p.monitor ≡ true → Gives (Parted r.ids id) (peer_stop_monitor id r)
  unfolding peer_stop_monitor
  stop_monitor-Parted e m =
      let counts : 1 ≤ r.n_monitors = ground (arith, monitor_counts r v id p found) in
      rw (peer_stop_monitor, found, e, m)
        (
          (
            written-IsValid r v id p found (set_monitor false) r.n_registered (r.n_monitors - 1)
                (λ q. refl) (ground (arith, e)) refl (ground (arith, m, counts)),
            refl,
          ),
          set_monitor false p,
          find_written id (set_monitor false) p r.peer_tree (λ q. refl) found,
          e,
          refl,
        )

  pub goodbye-Parted : Gives (Parted r.ids id) (driver_goodbye id r)
  unfolding driver_goodbye
  goodbye-Parted = elim (Bool-cases p.registered) [
    | inl e ↦ rw (driver_goodbye, found, e) (unregister-Parted e (ground (arith, not_both)))
    | inr e ↦ elim (Bool-cases p.monitor) [
      | inl m ↦ rw (driver_goodbye, found, e, m) (stop_monitor-Parted e m)
      | inr m ↦ rw (driver_goodbye, found, e, m) ((v, refl), p, found, e, m)
    ]
  ]

-- A new peer takes the next ID; if it is not admitted, nothing has changed.
all_below : (n id : ℕ) (ps : List Peer) → AllPeers n ps → n ≤ id → find_entry id ps ≡ none
unfolding find_entry
all_below n id [] w h = refl
all_below n id (p ∷ ps) (unique, below, apart, w) h = ground (arith, below, all_below n id ps w h)

more_ids : (n : ℕ) (ps : List Peer) → AllPeers n ps → AllPeers (n + 1) ps
more_ids n [] w = tt
more_ids n (p ∷ ps) (unique, below, apart, w) =
    (unique, omega (arith, below), apart, more_ids n ps w)

module _ (r : PeerRegistry) (v : IsValid r) (room : r.ids + 1 < u64_limit) where
  counted : PeerRegistry
  counted = record r { n_peers = r.n_peers + 1 }

  uncounted-Kept : Grown r.ids (uncount_peer counted)
  unfolding counted
  uncounted-Kept = (
    record {
      each = v.each;
      all = omega (arith, v.all);
      registered = v.registered;
      monitors = v.monitors;
    },
    omega arith,
  )

  add_peer-Grown : (uid : ℕ) → Gives (Grown r.ids) (unless_assertion (add_peer uid counted))
  unfolding counted add_peer count
  add_peer-Grown uid =
      let free = all_below r.ids r.ids r.peer_tree v.each (omega arith) in
      let next : (r.ids + 1) % u64_limit ≡ r.ids + 1 = omega (arith, room) in
      rw (add_peer, free, next)
        (
          record {
            each = (free, omega arith, refl, more_ids r.ids r.peer_tree v.each);
            all = omega (arith, v.all);
            registered = v.registered;
            monitors = v.monitors;
          },
          omega arith,
        )

  admitted :
      (code : Snapshot.Code) (connected : Bool) (uid : ℕ)
      → Gives (Grown r.ids) (unless_assertion (admit code connected uid counted))
  unfolding admit counted
  admitted Snapshot.success true uid = add_peer-Grown uid
  admitted Snapshot.success false uid = uncounted-Kept
  admitted Snapshot.access_denied connected uid = uncounted-Kept
  admitted Snapshot.selinux_access_denied connected uid = uncounted-Kept
  admitted Snapshot.apparmor_access_denied connected uid = uncounted-Kept
  admitted Snapshot.failed connected uid = uncounted-Kept

  pub connect-Grown :
      (charge : Charged) (policy : List Batch) (connected : Bool) (uid : ℕ)
      → Gives
          (Grown r.ids)
          (unless_assertion (peer_new_with_fd (code_of charge) policy connected uid r))
  unfolding peer_new_with_fd with_charge counted
  connect-Grown over_quota policy connected uid = uncounted-Kept
  connect-Grown failed policy connected uid = uncounted-Kept
  connect-Grown charged policy connected uid =
      admitted (policy_snapshot_check_connect policy) connected uid
