-- ===== src/Bus/Name/Requests.antt =====
-- RequestName() and ReleaseName() on the registry of src/bus/name.c.
use dbus_broker.Common.{
  ℕ, Bytes, bytes_eq, Bool, true, false, ◌||◌, Option, none, some, List, [], is_nil, ◌∷◌,
  if◌then◌else◌, ◌≡◌, refl, arith, Bool-cases, inl, inr, ◌∙◌, bytes_eq_refl, sym,
}
use dbus_broker.Bus.Name.{
  Flags, NameOwnership, Code, success, not_found, not_owner, quota, already_owner, in_queue, exists,
  NameRegistry, name_registry_init, primary, is_linked, unlink, name_ownership_release,
  name_ownership_update, queue_of, set_queue, name_registry_request_name,
  name_registry_release_name,
}
use mathlib.Core.Path.{subst}
use dbus_broker.Bus.Name.Queue.{
  unlink_away, change_between, update-change, release-change, update-Placed, Placed,
}
use dbus_broker.Bus.Name.Registry.{
  IsValid, queue_of-set_queue, queue_of-AllDistinct, request-IsValid, release-IsValid,
}

-- The calls of the registry's clients.
pub data Call : Type 0 where
  request : ℕ → Bool → Bytes → Flags → Call
  release : ℕ → Bytes → Call

abbrev pub name_of : Call → Bytes
name_of (request owner charged name flags) = name
name_of (release owner name) = name

unfoldable pub run : NameRegistry → List Call → NameRegistry
run r [] = r
run r (request owner charged name flags ∷ calls) =
    run (name_registry_request_name r owner charged name flags).0 calls
run r (release owner name ∷ calls) = run (name_registry_release_name r owner name).0 calls

run-IsValid : (r : NameRegistry) (calls : List Call) → IsValid r → IsValid (run r calls)
unfolding run
run-IsValid r [] v = v
run-IsValid r (request owner charged name flags ∷ calls) v =
    run-IsValid (name_registry_request_name r owner charged name flags).0 calls
      (request-IsValid r v name owner charged flags)
run-IsValid r (release owner name ∷ calls) v =
    run-IsValid (name_registry_release_name r owner name).0 calls (release-IsValid r v name owner)

-- After any requests and releases on a new registry, no owner stands twice in the queue of a name,
-- the registry counts the names that have a primary owner, every owner's counter counts the names
-- whose primary owner it is, and both peaks are at least the counts.
pub run_init-IsValid : (calls : List Call) → IsValid (run name_registry_init calls)
run_init-IsValid calls = run-IsValid name_registry_init calls (record {
  distinct = tt;
  all = refl;
  each = λ o. refl;
  peak = omega arith;
  owner_peak = λ o. omega arith;
})

queue_of_self :
    (name : Bytes) (new : List NameOwnership) (names : List (Bytes × List NameOwnership))
    → queue_of name (set_queue name new names) ≡ new
queue_of_self name new names =
    queue_of-set_queue name name new names ∙ ground (arith, bytes_eq_refl name)

same_owner : (o : Option ℕ) → change_between o o ≡ none
same_owner none = refl
same_owner (some a) = ground arith

-- In every case, the quota included, a request reports a change of the name's primary owner exactly
-- if it changed, with its old and its new owner.
pub request-change :
    (r : NameRegistry) (owner : ℕ) (charged : Bool) (name : Bytes) (flags : Flags)
    → let (r', change, code) = name_registry_request_name r owner charged name flags in
      change ≡ change_between (primary (queue_of name r.names)) (primary (queue_of name r'.names))
unfolding name_registry_request_name
request-change r owner charged name flags =
    let q = queue_of name r.names in
    let own : NameOwnership = record { owner = owner; flags = flags } in
    let q' = (name_ownership_update r.counters q own).1 in
    ground
      (arith, queue_of_self name q' r.names, update-change r.counters q own, same_owner (primary q))

linked_nonempty : (owner : ℕ) (q : List NameOwnership) → is_linked owner q ≡ true → is_nil q ≡ false
unfolding is_linked
linked_nonempty owner [] h = absurd (cc)
linked_nonempty owner (o ∷ q) h = refl

-- A release reports a change of the name's primary owner exactly if it changed. It takes the owner
-- out of the queue and leaves the others as they were, so that the next in line takes over; the code
-- is success exactly if the owner was in the queue, and tells an unowned name from one that is owned
-- by others only.
pub release_lem :
    (r : NameRegistry) (owner : ℕ) (name : Bytes)
    → IsValid r
    → let (r', change, code) = name_registry_release_name r owner name in
      let q = queue_of name r.names in
      (queue_of name r'.names ≡ unlink owner q)
      × (change ≡ change_between (primary q) (primary (queue_of name r'.names)))
      × (code ≡ (if is_linked owner q then success else if is_nil q then not_found else not_owner))
unfolding name_registry_release_name
release_lem r owner name v =
    let q = queue_of name r.names in
    ground (
      arith,
      queue_of_self name (name_ownership_release r.counters q owner).1 r.names,
      release-change r.counters q owner (queue_of-AllDistinct name r.names v.distinct),
      same_owner (primary q),
      unlink_away owner q,
      linked_nonempty owner q,
    )

-- What the code of a request says of the owner and the name, before and after.
abbrev pub Outcome : Code → ℕ → NameRegistry → NameRegistry → Bytes → Type 0
Outcome quota owner r r' name = (r' ≡ r) × (is_linked owner (queue_of name r.names) ≡ false)
Outcome success owner r r' name =
    Placed success owner (queue_of name r.names) (queue_of name r'.names)
Outcome already_owner owner r r' name =
    Placed already_owner owner (queue_of name r.names) (queue_of name r'.names)
Outcome in_queue owner r r' name =
    Placed in_queue owner (queue_of name r.names) (queue_of name r'.names)
Outcome exists owner r r' name =
    Placed exists owner (queue_of name r.names) (queue_of name r'.names)
Outcome not_found owner r r' name = ⊥
Outcome not_owner owner r r' name = ⊥

Placed-Outcome :
    (code : Code) (owner : ℕ) (r r' : NameRegistry) (name : Bytes)
    → Placed code owner (queue_of name r.names) (queue_of name r'.names)
    → Outcome code owner r r' name
Placed-Outcome success owner r r' name p = p
Placed-Outcome already_owner owner r r' name p = p
Placed-Outcome in_queue owner r r' name p = p
Placed-Outcome exists owner r r' name p = p
Placed-Outcome quota owner r r' name p = absurd p
Placed-Outcome not_found owner r r' name p = absurd p
Placed-Outcome not_owner owner r r' name p = absurd p

-- In a valid registry, the code of a request tells where the owner stands in the name's queue: newly
-- at its front, there as before, waiting behind an unchanged primary owner, or not at all. On a quota
-- error nothing has changed, and the owner was not in the queue.
pub request-Outcome :
    (r : NameRegistry) (owner : ℕ) (charged : Bool) (name : Bytes) (flags : Flags)
    → IsValid r
    → let (r', change, code) = name_registry_request_name r owner charged name flags in
      Outcome code owner r r' name
unfolding name_registry_request_name
request-Outcome r owner charged name flags v =
    let q = queue_of name r.names in
    let own : NameOwnership = record { owner = owner; flags = flags } in
    let (c', q', change, code) = name_ownership_update r.counters q own in
    let r' : NameRegistry = record { names = set_queue name q' r.names; counters = c' } in
    let placed = update-Placed r.counters q own (queue_of-AllDistinct name r.names v.distinct) in
    elim (Bool-cases (is_linked owner q || charged)) [
      | inl goes ↦ rw goes (
          Placed-Outcome code owner r r' name
            (subst (Placed code owner q) (sym (queue_of_self name q' r.names)) placed))
      | inr over ↦ rw over (refl, ground arith)
    ]

-- A call about one name leaves the queues of all others alone.
pub run-other :
    (r : NameRegistry) (call : Call) (j : Bytes)
    → bytes_eq (name_of call) j ≡ false
    → queue_of j (run r (call ∷ [])).names ≡ queue_of j r.names
unfolding run name_registry_request_name name_registry_release_name
run-other r (request owner charged name flags) j h = ground (
  arith,
  queue_of-set_queue name j
      (name_ownership_update r.counters (queue_of name r.names)
        (record { owner = owner; flags = flags })).1
      r.names,
)
run-other r (release owner name) j h = ground (
  arith,
  queue_of-set_queue name j (name_ownership_release r.counters (queue_of name r.names) owner).1
      r.names,
)
