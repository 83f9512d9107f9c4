-- ===== src/Bus/Name/Registry.antt =====
-- The name registry of src/bus/name.c: its queues by name, and its invariant.
use dbus_broker.Common.{
  ℕ, ◌-◌, ◌≤◌, Bytes, bytes_eq, Bool, List, [], ◌∷◌, if◌then◌else◌, ◌≡◌, refl, arith, bytes_eq_iff,
}
use dbus_broker.Bus.Name.{
  Flags, NameOwnership, Counters, NameRegistry, name_ownership_release, name_ownership_update,
  queue_of, set_queue, name_registry_request_name, name_registry_release_name,
}
use dbus_broker.Bus.Name.Queue.{AllDistinct, update-AllDistinct, release-AllDistinct}
use dbus_broker.Bus.Name.Counting.{
  Counted, owned, owned_by, primaries, primaries_of, primaries-set_queue, primaries_of-set_queue,
  owned-le-primaries, owned_by-le-primaries_of, update-Counted, release-Counted,
}

abbrev Names : Type 0
Names = List (Bytes × List NameOwnership)

-- No queue holds an owner twice.
abbrev pub AllQueues : List (Bytes × List NameOwnership) → Type 0
AllQueues [] = Unit {0}
AllQueues ((k, q) ∷ names) = AllDistinct q × AllQueues names

pub record IsValid (r : NameRegistry) : Type 0 where
  pub distinct : AllQueues r.names
  pub all : r.counters.n_primaries ≡ primaries r.names
  pub each : (o : ℕ) → r.counters.n_owner_primaries o ≡ primaries_of o r.names
  pub peak : r.counters.n_primaries ≤ r.counters.n_primaries_peak
  pub owner_peak : (o : ℕ) → r.counters.n_owner_primaries o ≤ r.counters.n_owner_primaries_peak

pub queue_of-set_queue :
    (name j : Bytes) (new : List NameOwnership) (names : List (Bytes × List NameOwnership))
    → queue_of j (set_queue name new names) ≡ (if bytes_eq name j then new else queue_of j names)
unfolding queue_of set_queue
queue_of-set_queue name j new [] = refl
queue_of-set_queue name j new ((k, q) ∷ names) = ground (
  arith,
  bytes_eq_iff k name,
  bytes_eq_iff k j,
  bytes_eq_iff name j,
  queue_of-set_queue name j new names,
)

pub queue_of-AllDistinct :
    (name : Bytes) (names : List (Bytes × List NameOwnership))
    → AllQueues names
    → AllDistinct (queue_of name names)
unfolding queue_of
queue_of-AllDistinct name [] a = tt
queue_of-AllDistinct name ((k, q) ∷ names) a = ground (arith, queue_of-AllDistinct name names a.1)

set_queue-AllQueues :
    (name : Bytes) (new : List NameOwnership) (names : List (Bytes × List NameOwnership))
    → AllDistinct new
    → AllQueues names
    → AllQueues (set_queue name new names)
unfolding set_queue
set_queue-AllQueues name new [] d a = (d, tt)
set_queue-AllQueues name new ((k, q) ∷ names) d a =
    ground (arith, set_queue-AllQueues name new names d a.1)

-- What the other names' queues count.
module _ (r : NameRegistry) (v : IsValid r) (name : Bytes) where
  others : ℕ
  others = primaries r.names - owned (queue_of name r.names)

  others_of : ℕ → ℕ
  others_of o = primaries_of o r.names - owned_by o (queue_of name r.names)

  counted : Counted r.counters others others_of (queue_of name r.names)
  unfolding others others_of
  counted = record {
    all = omega (arith, v.all, owned-le-primaries name r.names);
    each = λ o. omega (arith, v.each o, owned_by-le-primaries_of o name r.names);
    peak = v.peak;
    owner_peak = v.owner_peak;
  }

  -- A new queue with counters that count it.
  written-IsValid :
      (c : Counters) (new : List NameOwnership)
      → Counted c others others_of new
      → AllDistinct new
      → IsValid (record { names = set_queue name new r.names; counters = c })
  unfolding others others_of
  written-IsValid c new k d = record {
    distinct = set_queue-AllQueues name new r.names d v.distinct;
    all =
        omega (arith, k.all, primaries-set_queue name new r.names, owned-le-primaries name r.names);
    each = λ o. omega (
      arith,
      k.each o,
      primaries_of-set_queue o name new r.names,
      owned_by-le-primaries_of o name r.names,
    );
    peak = k.peak;
    owner_peak = k.owner_peak;
  }

  -- Every request keeps the invariant.
  pub request-IsValid :
      (owner : ℕ) (charged : Bool) (flags : Flags)
      → IsValid (name_registry_request_name r owner charged name flags).0
  unfolding name_registry_request_name
  request-IsValid owner charged flags =
      let q = queue_of name r.names in
      let own : NameOwnership = record { owner = owner; flags = flags } in
      ground (
        arith,
        written-IsValid (name_ownership_update r.counters q own).0
            (name_ownership_update r.counters q own).1
            (update-Counted r.counters others others_of q own counted)
            (update-AllDistinct r.counters q own (queue_of-AllDistinct name r.names v.distinct)),
      )

  -- Every release keeps the invariant.
  pub release-IsValid : (owner : ℕ) → IsValid (name_registry_release_name r owner name).0
  unfolding name_registry_release_name
  release-IsValid owner =
      let q = queue_of name r.names in
      ground (
        arith,
        written-IsValid (name_ownership_release r.counters q owner).0
            (name_ownership_release r.counters q owner).1
            (release-Counted r.counters others others_of q owner counted)
            (release-AllDistinct r.counters q owner (queue_of-AllDistinct name r.names v.distinct)),
      )
