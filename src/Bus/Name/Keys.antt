-- ===== src/Bus/Name/Keys.antt =====
-- The names in the registry of src/bus/name.c: none has two queues, so its queue tells its primary owner.
use dbus_broker.Common.{
  ℕ, Bytes, bytes_eq, bytes_eq_iff, Bool, true, false, ◌||◌, some, List, [], ◌∷◌, ◌≡◌, refl, arith,
  Bool-cases, inl, inr, is_nil,
}
use dbus_broker.Bus.Name.{
  Flags, NameOwnership, NameRegistry, name_registry_init, primary, is_linked, name_ownership_update,
  name_ownership_release, queue_of, set_queue, name_registry_request_name,
  name_registry_release_name,
}
use dbus_broker.Bus.Name.Requests.{Call, request, release, run}

abbrev Names : Type 0
Names = List (Bytes × List NameOwnership)

unfoldable pub has_key : Bytes → List (Bytes × List NameOwnership) → Bool
unfolding bytes_eq
has_key name [] = false
has_key name ((k, q) ∷ names) = bytes_eq k name || has_key name names

abbrev pub KeysDistinct : List (Bytes × List NameOwnership) → Type 0
KeysDistinct [] = Unit {0}
KeysDistinct ((k, q) ∷ names) = (has_key k names ≡ false) × KeysDistinct names

has_key-set_queue :
    (j name : Bytes) (q : List NameOwnership) (names : Names)
    → has_key j (set_queue name q names) ≡ (has_key j names || bytes_eq name j)
unfolding has_key set_queue
has_key-set_queue j name q [] = ground arith
has_key-set_queue j name q ((k, p) ∷ names) = ground (
  arith,
  bytes_eq_iff k name,
  bytes_eq_iff k j,
  bytes_eq_iff name j,
  has_key-set_queue j name q names,
)

set_queue-KeysDistinct :
    (name : Bytes) (q : List NameOwnership) (names : Names)
    → KeysDistinct names
    → KeysDistinct (set_queue name q names)
unfolding set_queue has_key
set_queue-KeysDistinct name q [] w = (refl, tt)
set_queue-KeysDistinct name q ((k, p) ∷ names) (absent, w) = elim (Bool-cases (bytes_eq k name)) [
  | inl e ↦ rw e (absent, w)
  | inr e ↦ rw e (
    ground (arith, has_key-set_queue k name q names, bytes_eq_iff k name, bytes_eq_iff name k),
    set_queue-KeysDistinct name q names w,
  )
]

request-KeysDistinct :
    (r : NameRegistry) (owner : ℕ) (charged : Bool) (name : Bytes) (flags : Flags)
    → KeysDistinct r.names
    → KeysDistinct (name_registry_request_name r owner charged name flags).0.names
unfolding name_registry_request_name
request-KeysDistinct r owner charged name flags w =
    let own : NameOwnership = record { owner = owner; flags = flags } in
    let q = (name_ownership_update r.counters (queue_of name r.names) own).1 in
    elim (Bool-cases (is_linked owner (queue_of name r.names) || charged)) [
      | inl e ↦ rw e (set_queue-KeysDistinct name q r.names w)
      | inr e ↦ rw e w
    ]

release-KeysDistinct :
    (r : NameRegistry) (owner : ℕ) (name : Bytes)
    → KeysDistinct r.names
    → KeysDistinct (name_registry_release_name r owner name).0.names
unfolding name_registry_release_name
release-KeysDistinct r owner name w =
    let q = (name_ownership_release r.counters (queue_of name r.names) owner).1 in
    elim (Bool-cases (is_nil (queue_of name r.names))) [
      | inl e ↦ rw e w
      | inr e ↦ elim (Bool-cases (is_linked owner (queue_of name r.names))) [
        | inl f ↦ rw (e, f) (set_queue-KeysDistinct name q r.names w)
        | inr f ↦ rw (e, f) w
      ]
    ]

run-KeysDistinct :
    (calls : List Call) (r : NameRegistry) → KeysDistinct r.names → KeysDistinct (run r calls).names
unfolding run
run-KeysDistinct [] r w = w
run-KeysDistinct (request owner charged name flags ∷ calls) r w =
    run-KeysDistinct calls (name_registry_request_name r owner charged name flags).0
      (request-KeysDistinct r owner charged name flags w)
run-KeysDistinct (release owner name ∷ calls) r w =
    run-KeysDistinct calls (name_registry_release_name r owner name).0
      (release-KeysDistinct r owner name w)

pub run_init-KeysDistinct : (calls : List Call) → KeysDistinct (run name_registry_init calls).names
run_init-KeysDistinct calls = run-KeysDistinct calls name_registry_init tt

pub has_key-primary :
    (name : Bytes) (names : Names) (o : ℕ)
    → primary (queue_of name names) ≡ some o
    → has_key name names ≡ true
unfolding queue_of has_key
has_key-primary name [] o h = absurd (ground arith)
has_key-primary name ((k, q) ∷ names) o h = ground (arith, has_key-primary name names o)
