-- ===== src/Bus/Peer/Matches/Homes.antt =====
-- Which rules belong in which of the match registries of src/bus/peer.c.
use dbus_broker.Common.{
  ℕ, Bytes, bytes_eq, bytes_eq_refl, bytes_eq_sound, true, false, Option, none, some, leb, ◌==◌,
  if◌then◌else◌, ◌≡◌, refl, ◌⊎◌, inl, inr, arith, ap, sym, ◌∙◌, Bool-cases, Option-cases,
}
use mathlib.Core.Path.{subst}
use dbus_broker.Dbus.Address.{Address, id, name, other, address_from_string}
use dbus_broker.Bus.Match.Keys.{MatchKeys}
use dbus_broker.Bus.Peer.{PeerRegistry, peer_registry_find_peer}
use dbus_broker.Bus.Peer.Names.{driver_name}
use dbus_broker.Bus.Peer.Matches.{
  place_kind, place_peer, place_name, Place, wildcard, from_driver, from_peer, from_name,
  owner_of_peer, owner_of_name, place_eq, place_by_address, place_of_changes, place_of,
  is_subscription_to_name,
}

pub place_eq_refl : (p : Place) → place_eq p p ≡ true
unfolding place_eq
place_eq_refl p = ground (arith, bytes_eq_refl (place_name p))

-- The place of a kind, an ID and a string.
abbrev place_from : ℕ → ℕ → Bytes → Place
place_from kind n s =
    if kind == 0
    then wildcard
    else if kind == 1
    then from_driver
    else if kind == 2
    then from_peer n
    else if kind == 3
    then from_name s
    else if kind == 4
    then owner_of_peer n
    else owner_of_name s

place_from-parts : (p : Place) → place_from (place_kind p) (place_peer p) (place_name p) ≡ p
place_from-parts wildcard = refl
place_from-parts from_driver = refl
place_from-parts (from_peer n) = refl
place_from-parts (from_name s) = refl
place_from-parts (owner_of_peer n) = refl
place_from-parts (owner_of_name s) = refl

pub place_eq_sound : (p q : Place) → place_eq p q ≡ true → p ≡ q
unfolding place_eq
place_eq_sound p q h =
    let kind : place_kind p ≡ place_kind q = ground arith in
    let peer : place_peer p ≡ place_peer q = ground arith in
    let name = bytes_eq_sound (place_name p) (place_name q) (ground arith) in
    sym (place_from-parts p)
    ∙ ap (λ k. place_from k (place_peer p) (place_name p)) kind
    ∙ ap (λ n. place_from (place_kind q) n (place_name p)) peer
    ∙ ap (λ s. place_from (place_kind q) (place_peer q) s) name
    ∙ place_from-parts q

-- The sender of a rule that is linked in a registry.
abbrev pub Home : Option Bytes → Place → Type 0
Home sender wildcard =
    (sender ≡ none) ⊎ ((s : Bytes) × (n : ℕ) × (sender ≡ some s) × (address_from_string s ≡ id n))
Home sender (from_peer n) = (s : Bytes) × (sender ≡ some s) × (address_from_string s ≡ id n)
Home sender (from_name s) =
    (sender ≡ some s)
    × (bytes_eq s driver_name ≡ false)
    × ((n : ℕ) → address_from_string s ≡ id n → ⊥)
Home sender from_driver = sender ≡ some driver_name
Home sender (owner_of_peer n) = sender ≡ some driver_name
Home sender (owner_of_name s) = sender ≡ some driver_name

abbrev pub HomeOf : Option Bytes → Option Place → Type 0
HomeOf sender none = Unit {0}
HomeOf sender (some p) = Home sender p

by_address-Home :
    (peers : PeerRegistry) (s : Bytes) (a : Address)
    → bytes_eq s driver_name ≡ false
    → address_from_string s ≡ a
    → HomeOf (some s) (place_by_address peers wildcard from_peer (from_name s) a)
unfolding place_by_address
by_address-Home peers s (name t) d e = (refl, d, λ n h. cc)
by_address-Home peers s other d e = (refl, d, λ n h. cc)
by_address-Home peers s (id n) d e = elim (Option-cases (peer_registry_find_peer peers n)) [
  | inr (p, found) ↦ rw (place_by_address, found) (s, refl, e)
  | inl found ↦ elim (Bool-cases (leb peers.ids n)) [
    | inl f ↦ rw (place_by_address, found, f) (inr (s, n, refl, e))
    | inr f ↦ rw (place_by_address, found, f) tt
  ]
]

-- A rule on the driver stays with the driver.
changes-Home :
    (peers : PeerRegistry) (t : Bytes) (a : Address)
    → HomeOf
        (some driver_name)
        (place_by_address peers from_driver owner_of_peer (owner_of_name t) a)
unfolding place_by_address
changes-Home peers t (name s) = refl
changes-Home peers t other = refl
changes-Home peers t (id n) = elim (Option-cases (peer_registry_find_peer peers n)) [
  | inr (p, found) ↦ rw (place_by_address, found) refl
  | inl found ↦ elim (Bool-cases (leb peers.ids n)) [
    | inl f ↦ rw (place_by_address, found, f) refl
    | inr f ↦ rw (place_by_address, found, f) tt
  ]
]

of_changes-Home :
    (peers : PeerRegistry) (arg : Option Bytes)
    → HomeOf (some driver_name) (place_of_changes peers arg)
unfolding place_of_changes
of_changes-Home peers none = refl
of_changes-Home peers (some s) = changes-Home peers s (address_from_string s)

pub place_of-Home :
    (peers : PeerRegistry) (keys : MatchKeys) (sender : Option Bytes)
    → HomeOf sender (place_of peers keys sender)
unfolding place_of
place_of-Home peers keys none = inl refl
place_of-Home peers keys (some s) = elim (Bool-cases (bytes_eq s driver_name)) [
  | inr e ↦ rw e (by_address-Home peers s (address_from_string s) e refl)
  | inl e ↦ elim (Bool-cases (is_subscription_to_name keys)) [
    | inl f ↦
        rw (e, f)
          (subst (λ t. HomeOf (some t) (place_of_changes peers (keys.args 0)))
            (sym (bytes_eq_sound s driver_name e)) (of_changes-Home peers (keys.args 0)))
    | inr f ↦ rw (e, f) (ap some (bytes_eq_sound s driver_name e))
  ]
]
