-- ===== src/Bus/Name.antt =====
-- src/bus/name.c: ownership of well-known names. A name has a queue of ownerships, the first of which
-- is the primary one. An owner's tree of ownerships holds exactly those that are linked in queues,
-- so an ownership is found in the queue of its name by its owner. Owners are numbers; the counters
-- do not wrap around, since they count objects in memory.
pub mod Tests
pub mod Queue
pub mod Counting
pub mod Registry
pub mod Requests
pub mod Keys
use dbus_broker.Common.{
  ℕ, ◌+◌, ◌-◌, Bytes, bytes_eq, Bool, true, false, ◌&&◌, ◌||◌, not, Option, none, some, List, [],
  ◌∷◌, ◌++◌, ltb, ◌==◌, if◌then◌else◌, is_nil,
}

-- DBUS_NAME_FLAG_ALLOW_REPLACEMENT, DBUS_NAME_FLAG_REPLACE_EXISTING, DBUS_NAME_FLAG_DO_NOT_QUEUE
pub record Flags : Type 0 where
  pub allow_replacement : Bool
  pub replace_existing : Bool
  pub do_not_queue : Bool

pub record NameOwnership : Type 0 where
  pub owner : ℕ
  pub flags : Flags

pub record NameChange : Type 0 where
  pub old_owner : Option ℕ
  pub new_owner : Option ℕ

-- 0 and the NAME_E_* codes
pub data Code : Type 0 where
  success not_found not_owner quota already_owner in_queue exists : Code

-- The counters of the registry, and the `n_owner_primaries` of each owner.
pub record Counters : Type 0 where
  pub n_primaries : ℕ
  pub n_primaries_peak : ℕ
  pub n_owner_primaries_peak : ℕ
  pub n_owner_primaries : ℕ → ℕ

pub record NameRegistry : Type 0 where
  pub names : List (Bytes × List NameOwnership)
  pub counters : Counters

abbrev pub name_registry_init : NameRegistry
name_registry_init = record {
  names = [];
  counters = record {
    n_primaries = 0;
    n_primaries_peak = 0;
    n_owner_primaries_peak = 0;
    n_owner_primaries = λ o. 0;
  };
}

-- util_peak_update(), of src/util/misc.c
unfoldable pub util_peak_update : ℕ → ℕ → ℕ
util_peak_update peak update = if ltb peak update then update else peak

unfoldable pub increment : ℕ → (ℕ → ℕ) → ℕ → ℕ
increment owner f o = if o == owner then f o + 1 else f o

unfoldable pub decrement : ℕ → (ℕ → ℕ) → ℕ → ℕ
decrement owner f o = if o == owner then f o - 1 else f o

-- An owner gets its first or one more primary ownership; the peak of all primaries stays.
unfoldable pub gain_primary : ℕ → Counters → Counters
unfolding util_peak_update increment
gain_primary owner c =
    let counts = increment owner c.n_owner_primaries in
    record c {
      n_owner_primaries = counts;
      n_owner_primaries_peak = util_peak_update c.n_owner_primaries_peak (counts owner);
    }

abbrev pub primary : List NameOwnership → Option ℕ
primary [] = none
primary (p ∷ q) = some p.owner

unfoldable pub is_linked : ℕ → List NameOwnership → Bool
is_linked owner [] = false
is_linked owner (o ∷ q) = (o.owner == owner) || is_linked owner q

-- c_list_unlink() of an owner's ownership
unfoldable pub unlink : ℕ → List NameOwnership → List NameOwnership
unlink owner [] = []
unlink owner (o ∷ q) = let rest = unlink owner q in if o.owner == owner then q else o ∷ rest

-- A write of the flags of a linked ownership.
unfoldable pub rewrite : NameOwnership → List NameOwnership → List NameOwnership
rewrite own [] = []
rewrite own (o ∷ q) = let rest = rewrite own q in if o.owner == own.owner then own ∷ q else o ∷ rest

-- name_ownership_release() of the ownership of an owner, on a queue that links it
unfoldable pub name_ownership_release :
    Counters → List NameOwnership → ℕ → Counters × List NameOwnership × Option NameChange
unfolding unlink gain_primary decrement
name_ownership_release c [] owner = (c, [], none)
name_ownership_release c (p ∷ q) owner =
    if p.owner == owner
    then (let less = record c {
      n_primaries = c.n_primaries - 1;
      n_owner_primaries = decrement owner c.n_owner_primaries;
    } in
        let change = some (record { old_owner = some owner; new_owner = primary q }) in
        elim q [
          | [] ↦ (less, [], change)
          | next ∷ rest ↦ (
            gain_primary next.owner (record less { n_primaries = less.n_primaries + 1 }),
            next ∷ rest,
            change,
          )
        ])
    else (c, p ∷ unlink owner q, none)

-- name_ownership_update(): the new ownership, or the linked one with its new flags, is `own`.
unfoldable pub name_ownership_update :
    Counters
    → List NameOwnership
    → NameOwnership
    → Counters × List NameOwnership × Option NameChange × Code
unfolding unlink rewrite is_linked gain_primary decrement util_peak_update
name_ownership_update c [] own =
    let gained = gain_primary own.owner c in
    (
      record gained {
        n_primaries = c.n_primaries + 1;
        n_primaries_peak = util_peak_update c.n_primaries_peak (c.n_primaries + 1);
      },
      own ∷ [],
      some (record { old_owner = none; new_owner = some own.owner }),
      success,
    )
name_ownership_update c (p ∷ q) own =
    if p.owner == own.owner
    then (c, own ∷ q, none, already_owner)
    else if own.flags.replace_existing && p.flags.allow_replacement
    then (
      gain_primary own.owner
          (record c { n_owner_primaries = decrement p.owner c.n_owner_primaries }),
      own ∷ (if p.flags.do_not_queue then unlink own.owner q else p ∷ unlink own.owner q),
      some (record { old_owner = some p.owner; new_owner = some own.owner }),
      success,
    )
    else if not own.flags.do_not_queue
    then (c, p ∷ (if is_linked own.owner q then rewrite own q else q ++ own ∷ []), none, in_queue)
    else (c, p ∷ unlink own.owner q, none, exists)

-- The queue of a name; a name that is not in the registry has none.
unfoldable pub queue_of : Bytes → List (Bytes × List NameOwnership) → List NameOwnership
unfolding bytes_eq
queue_of name [] = []
queue_of name ((k, q) ∷ names) = if bytes_eq k name then q else queue_of name names

unfoldable pub set_queue :
    Bytes
    → List NameOwnership
    → List (Bytes × List NameOwnership)
    → List (Bytes × List NameOwnership)
unfolding bytes_eq
set_queue name new [] = (name, new) ∷ []
set_queue name new ((k, q) ∷ names) =
    let rest = set_queue name new names in
    if bytes_eq k name then (k, new) ∷ names else (k, q) ∷ rest

-- name_registry_request_name(): `charged` says whether the user's quota admits one more object, which
-- is asked only for an ownership that is not there yet.
unfoldable pub name_registry_request_name :
    NameRegistry → ℕ → Bool → Bytes → Flags → NameRegistry × Option NameChange × Code
name_registry_request_name registry owner charged name flags =
    let queue = queue_of name registry.names in
    let own : NameOwnership = record { owner = owner; flags = flags } in
    let (counters, queue', change, code) = name_ownership_update registry.counters queue own in
    if is_linked owner queue || charged
    then (
      record { names = set_queue name queue' registry.names; counters = counters },
      change,
      code,
    )
    else (registry, none, quota)

-- name_registry_release_name()
unfoldable pub name_registry_release_name :
    NameRegistry → ℕ → Bytes → NameRegistry × Option NameChange × Code
name_registry_release_name registry owner name =
    let queue = queue_of name registry.names in
    let (counters, queue', change) = name_ownership_release registry.counters queue owner in
    if is_nil queue
    then (registry, none, not_found)
    else if is_linked owner queue
    then (
      record { names = set_queue name queue' registry.names; counters = counters },
      change,
      success,
    )
    else (registry, none, not_owner)
