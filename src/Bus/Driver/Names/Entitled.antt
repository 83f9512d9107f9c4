-- ===== src/Bus/Driver/Names/Entitled.antt =====
-- Who can own a name, after any calls of RequestName() and ReleaseName() of src/bus/driver.c.
use dbus_broker.Common.{
  ℕ, Bytes, bytes_eq, bytes_eq_sound, Bool, true, false, ◌||◌, inl, inr, List, [], ◌∷◌, ◌==◌, ◌≡◌,
  refl, arith, Bool-cases, is_nil,
}
use mathlib.Core.Path.{subst}
use dbus_broker.Dbus.Protocol.{dbus_validate_name}
use dbus_broker.Bus.Name.{
  Flags, NameOwnership, Counters, NameRegistry, name_registry_init, is_linked, unlink,
  name_ownership_release, name_ownership_update, queue_of, set_queue, name_registry_request_name,
  name_registry_release_name,
}
use dbus_broker.Bus.Name.Queue.{is_linked-rewrite, is_linked-append}
use dbus_broker.Bus.Name.Registry.{queue_of-set_queue}
use dbus_broker.Bus.Policy.{Batch}
use dbus_broker.Bus.Policy.Snapshot
use dbus_broker.Bus.Policy.Snapshot.{Access, policy_snapshot_check_own}
use dbus_broker.Bus.Peer.Names.{
  driver_name, is_unique, if_allowed, with_code, requested, peer_request_name, peer_release_name,
}
use dbus_broker.Bus.Driver.Names.{driver_method_request_name, driver_method_release_name}

-- Unlinking adds no owner, and an update none but its own.
unlink_adds_none :
    (k o : ℕ) (q : List NameOwnership) → is_linked k (unlink o q) ≡ true → is_linked k q ≡ true
unfolding is_linked unlink
unlink_adds_none k o [] h = h
unlink_adds_none k o (p ∷ q) h = ground (arith, unlink_adds_none k o q)

update_adds_own :
    (c : Counters) (q : List NameOwnership) (own : NameOwnership) (k : ℕ)
    → is_linked k (name_ownership_update c q own).1 ≡ true
    → (is_linked k q || (own.owner == k)) ≡ true
unfolding name_ownership_update is_linked
update_adds_own c [] own k h = ground arith
update_adds_own c (p ∷ q) own k h =
    ground
      (arith, unlink_adds_none k own.owner q, is_linked-rewrite own k q, is_linked-append own k q)

release_adds_none :
    (c : Counters) (q : List NameOwnership) (o k : ℕ)
    → is_linked k (name_ownership_release c q o).1 ≡ true
    → is_linked k q ≡ true
unfolding name_ownership_release is_linked
release_adds_none c [] o k h = h
release_adds_none c (p ∷ []) o k h = ground (arith, unlink_adds_none k o [])
release_adds_none c (p ∷ r ∷ q) o k h = ground (arith, unlink_adds_none k o (r ∷ q))

-- Every owner in the queue of a name has a property with it.
abbrev AllOwners : (Bytes → ℕ → Type 0) → NameRegistry → Type 0
AllOwners P r = (n : Bytes) (o : ℕ) → is_linked o (queue_of n r.names) ≡ true → P n o

module _ (P : Bytes → ℕ → Type 0) (r : NameRegistry) (w : AllOwners P r) where
  written-AllOwners :
      (name : Bytes) (q : List NameOwnership) (c : Counters)
      → ((o : ℕ) → is_linked o q ≡ true → P name o)
      → AllOwners P (record { names = set_queue name q r.names; counters = c })
  written-AllOwners name q c each n o h = elim (Bool-cases (bytes_eq name n)) [
    | inl e ↦
        let here : is_linked o q ≡ true = ground (arith, queue_of-set_queue name n q r.names) in
        subst (λ m. P m o) (bytes_eq_sound name n e) (each o here)
    | inr e ↦ w n o (ground (arith, queue_of-set_queue name n q r.names))
  ]

  request-AllOwners :
      (owner : ℕ) (charged : Bool) (name : Bytes) (flags : Flags)
      → P name owner
      → AllOwners P (name_registry_request_name r owner charged name flags).0
  unfolding name_registry_request_name
  request-AllOwners owner charged name flags p =
      let q = queue_of name r.names in
      let own : NameOwnership = record { owner = owner; flags = flags } in
      let update = name_ownership_update r.counters q own in
      let written = written-AllOwners name update.1 update.0 (λ o h.
        elim (Bool-cases (owner == o)) [
          | inl e ↦ let this : owner ≡ o = ground arith in subst (P name) this p
          | inr e ↦ w name o (ground (arith, update_adds_own r.counters q own o h))
        ]) in
      elim (Bool-cases (is_linked owner q || charged)) [ inl e ↦ rw e written | inr e ↦ rw e w ]

  release-AllOwners :
      (owner : ℕ) (name : Bytes) → AllOwners P (name_registry_release_name r owner name).0
  unfolding name_registry_release_name
  release-AllOwners owner name =
      let q = queue_of name r.names in
      let release = name_ownership_release r.counters q owner in
      let written =
        written-AllOwners name release.1 release.0
          (λ o h. w name o (release_adds_none r.counters q owner o h)) in
      elim (Bool-cases (is_nil q)) [
        | inl e ↦ rw e w
        | inr e ↦ elim (Bool-cases (is_linked owner q)) [
          | inl f ↦ rw (e, f) written
          | inr f ↦ rw (e, f) w
        ]
      ]

-- Of a call, the peer that makes it, the name and the rest: whether one more object may be charged.
pub data Call : Type 0 where
  request : ℕ → Bytes → Flags → Bool → Call
  release : ℕ → Bytes → Call

-- The answers of the security modules on a peer's owning of a name, and the policies of the peers.
module _ (apparmor selinux : ℕ → Bytes → Access) (policy : ℕ → List Batch) where
  unfoldable pub run_calls : List Call → NameRegistry → NameRegistry
  run_calls [] r = r
  run_calls (request peer name flags charged ∷ calls) r =
      run_calls calls
        (driver_method_request_name (apparmor peer name) (selinux peer name) (policy peer) charged r
          peer name flags).0
  run_calls (release peer name ∷ calls) r =
      run_calls calls (driver_method_release_name r peer name).0

  abbrev pub Entitled : Bytes → ℕ → Type 0
  Entitled name peer =
      (dbus_validate_name name ≡ true)
      × (bytes_eq name driver_name ≡ false)
      × (is_unique name ≡ false)
      × (policy_snapshot_check_own (apparmor peer name) (selinux peer name) (policy peer) name
          ≡ Snapshot.success)

  -- The registry's request is made only with the policy's consent.
  allowed-AllOwners :
      (code : Snapshot.Code) (r : NameRegistry) (peer : ℕ) (charged : Bool) (name : Bytes)
      (flags : Flags)
      → AllOwners Entitled r
      → policy_snapshot_check_own (apparmor peer name) (selinux peer name) (policy peer) name ≡ code
      → (code ≡ Snapshot.success → Entitled name peer)
      → AllOwners Entitled
          (if_allowed code r
            (with_code requested (name_registry_request_name r peer charged name flags))).0
  unfolding if_allowed
  allowed-AllOwners Snapshot.success r peer charged name flags w e entitled =
      request-AllOwners Entitled r w peer charged name flags (entitled refl)
  allowed-AllOwners Snapshot.access_denied r peer charged name flags w e entitled = w
  allowed-AllOwners Snapshot.selinux_access_denied r peer charged name flags w e entitled = w
  allowed-AllOwners Snapshot.apparmor_access_denied r peer charged name flags w e entitled = w
  allowed-AllOwners Snapshot.failed r peer charged name flags w e entitled = w

  driver_request-AllOwners :
      (r : NameRegistry) (peer : ℕ) (charged : Bool) (name : Bytes) (flags : Flags)
      → AllOwners Entitled r
      → AllOwners Entitled
          (driver_method_request_name
            (apparmor peer name)
            (selinux peer name)
            (policy peer)
            charged
            r
            peer
            name
            flags).0
  unfolding driver_method_request_name peer_request_name
  driver_request-AllOwners r peer charged name flags w =
      let code =
        policy_snapshot_check_own (apparmor peer name) (selinux peer name) (policy peer) name in
      elim (Bool-cases (dbus_validate_name name)) [
        | inr e ↦ rw e w
        | inl e ↦ elim (Bool-cases (bytes_eq name driver_name)) [
          | inl f ↦ rw (e, f) w
          | inr f ↦ elim (Bool-cases (is_unique name)) [
            | inl g ↦ rw (e, f, g) w
            | inr g ↦
                rw (e, f, g)
                  (allowed-AllOwners code r peer charged name flags w refl (λ ok. (e, f, g, ok)))
          ]
        ]
      ]

  driver_release-AllOwners :
      (r : NameRegistry) (peer : ℕ) (name : Bytes)
      → AllOwners Entitled r
      → AllOwners Entitled (driver_method_release_name r peer name).0
  unfolding driver_method_release_name peer_release_name
  driver_release-AllOwners r peer name w = elim (Bool-cases (dbus_validate_name name)) [
    | inr e ↦ rw e w
    | inl e ↦ elim (Bool-cases (bytes_eq name driver_name)) [
      | inl f ↦ rw (e, f) w
      | inr f ↦ elim (Bool-cases (is_unique name)) [
        | inl g ↦ rw (e, f, g) w
        | inr g ↦ rw (e, f, g) (release-AllOwners Entitled r w peer name)
      ]
    ]
  ]

  run_calls-AllOwners :
      (calls : List Call) (r : NameRegistry)
      → AllOwners Entitled r
      → AllOwners Entitled (run_calls calls r)
  unfolding run_calls
  run_calls-AllOwners [] r w = w
  run_calls-AllOwners (request peer name flags charged ∷ calls) r w =
      run_calls-AllOwners calls
        (driver_method_request_name (apparmor peer name) (selinux peer name) (policy peer) charged r
          peer name flags).0
        (driver_request-AllOwners r peer charged name flags w)
  run_calls-AllOwners (release peer name ∷ calls) r w =
      run_calls-AllOwners calls (driver_method_release_name r peer name).0
        (driver_release-AllOwners r peer name w)

  -- After any calls of RequestName() and ReleaseName() by any peers, every peer that owns a name or
  -- waits for it is entitled to it: the name is valid, it is neither the driver's nor a unique
  -- name, and the peer's policy and both security modules let the peer own it.
  pub owners-Entitled :
      (calls : List Call) (name : Bytes) (peer : ℕ)
      → is_linked peer (queue_of name (run_calls calls name_registry_init).names) ≡ true
      → Entitled name peer
  unfolding queue_of is_linked
  owners-Entitled calls =
      run_calls-AllOwners calls name_registry_init (λ n o h. absurd (ground arith))
