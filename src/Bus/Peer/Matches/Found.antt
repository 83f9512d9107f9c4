-- ===== src/Bus/Peer/Matches/Found.antt =====
-- What bus_get_broadcast_destinations() of src/bus/bus.c finds in a sequence of registries, and the
-- registries of the names of a sender.
use dbus_broker.Common.{
  ℕ, Bytes, bytes_eq, bytes_eq_refl, bytes_eq_sound, Bool, true, false, ◌⊎◌, inl, inr, Option, none,
  some, List, [], ◌∷◌, if◌then◌else◌, ◌≡◌, refl, arith, ap, sym, ◌∙◌, Bool-cases,
}
use mathlib.Core.Path.{subst}
use dbus_broker.Bus.Name.{NameOwnership, primary, queue_of}
use dbus_broker.Bus.Name.Keys.{has_key, KeysDistinct, has_key-primary}
use dbus_broker.Bus.Match.Keys.{MatchKeys}
use dbus_broker.Bus.Match.Keys.Sender.{SenderDerived}
use dbus_broker.Bus.Match.Matching.{Metadata}
use dbus_broker.Bus.Match.Index.Placement.{Places}
use dbus_broker.Bus.Match.Index.{Registry, member_of, match_registry_get_destinations}
use dbus_broker.Bus.Match.Index.Runs.{Placed, linked_for}
use dbus_broker.Bus.Match.Index.Destinations.{
  Wants, reached, reached_sound, reached_complete, member_of-match_registry_get_destinations,
}
use dbus_broker.Bus.Peer.Matches.{
  Place, from_name, Matches, tree_of, find_in, is_primary_of, primary_names, name_places,
}
use dbus_broker.Bus.Peer.Matches.Steps.{IsValid}

abbrev Names : Type 0
Names = List (Bytes × List NameOwnership)

abbrev pub Within : {A : Type 0} → A → List A → Type 0
Within x [] = ⊥
Within x (y ∷ ys) = (y ≡ x) ⊎ Within x ys

-- The names that a peer is the primary owner of.
primary_sound : (o : ℕ) (p : Option ℕ) → is_primary_of o p ≡ true → p ≡ some o
primary_sound o none h = absurd (ground arith)
primary_sound o (some p) h = ground arith

primary_complete : (o : ℕ) (p : Option ℕ) → p ≡ some o → is_primary_of o p ≡ true
primary_complete o p h = ap (is_primary_of o) h ∙ ground arith

one_or_rest :
    (b : Bool) (n k : Bytes) (ns : List Bytes)
    → Within n (if b then k ∷ ns else ns)
    → ((b ≡ true) × (k ≡ n)) ⊎ Within n ns
one_or_rest true n k ns (inl e) = inl (refl, e)
one_or_rest true n k ns (inr h) = inr h
one_or_rest false n k ns h = inr h

-- A later queue is found behind that of another name.
behind :
    (o : ℕ) (n k : Bytes) (q : List NameOwnership) (names : Names)
    → has_key k names ≡ false
    → primary (queue_of n names) ≡ some o
    → primary (queue_of n ((k, q) ∷ names)) ≡ some o
unfolding queue_of
behind o n k q names absent later = elim (Bool-cases (bytes_eq k n)) [
  | inr e ↦ rw e later
  | inl e ↦
      let same = ap (λ x. has_key x names) (bytes_eq_sound k n e) in
      absurd (ground (arith, same, has_key-primary n names o later))
]

pub primary_names_sound :
    (o : ℕ) (n : Bytes) (names : Names)
    → KeysDistinct names
    → Within n (primary_names o names)
    → primary (queue_of n names) ≡ some o
unfolding primary_names queue_of
primary_names_sound o n [] w h = absurd h
primary_names_sound o n ((k, q) ∷ names) (absent, w) h =
    elim (one_or_rest (is_primary_of o (primary q)) n k (primary_names o names) h) [
      | inl (own, e) ↦
          rw (ap (bytes_eq k) (sym e) ∙ bytes_eq_refl k) (primary_sound o (primary q) own)
      | inr later ↦ behind o n k q names absent (primary_names_sound o n names w later)
    ]

pub primary_names_complete :
    (o : ℕ) (n : Bytes) (names : Names)
    → primary (queue_of n names) ≡ some o
    → Within n (primary_names o names)
unfolding primary_names queue_of
primary_names_complete o n [] h = absurd (ground arith)
primary_names_complete o n ((k, q) ∷ names) h = elim (Bool-cases (bytes_eq k n)) [
  | inl e ↦
      let own : primary q ≡ some o = ground arith in
      rw (primary_complete o (primary q) own) (inl (bytes_eq_sound k n e))
  | inr e ↦
      let later = primary_names_complete o n names (ground arith) in
      elim (Bool-cases (is_primary_of o (primary q))) [
        | inl f ↦ rw f (inr later)
        | inr f ↦ rw f later
      ]
]

pub name_places-Within :
    (n : Bytes) (ns : List Bytes) → Within n ns → Within (from_name n) (name_places ns)
unfolding name_places
name_places-Within n [] h = h
name_places-Within n (m ∷ ns) (inl e) = inl (ap from_name e)
name_places-Within n (m ∷ ns) (inr h) = inr (name_places-Within n ns h)

pub name_places_from :
    (p : Place) (ns : List Bytes)
    → Within p (name_places ns)
    → (n : Bytes) × (p ≡ from_name n) × Within n ns
unfolding name_places
name_places_from p [] h = absurd h
name_places_from p (m ∷ ns) (inl e) = (m, sym e, inl refl)
name_places_from p (m ∷ ns) (inr h) = let (n, e, w) = name_places_from p ns h in (n, e, inr w)

Placed-tree_of :
    (keys : ℕ → MatchKeys) (mon : Bool) (g : Registry)
    → Placed keys g
    → Places keys (linked_for mon g) (tree_of mon g)
Placed-tree_of keys true g w = w.1
Placed-tree_of keys false g w = w.0

-- What is found in some registries.
module _ (owner : ℕ → ℕ) (keys : ℕ → MatchKeys) (derived : (r : ℕ) → SenderDerived (keys r))
    (mon : Bool) (m : Matches) (v : IsValid keys m) (metadata : Metadata) (o : ℕ) where
  pub found_sound :
      (ps : List Place) (ds : List ℕ)
      → member_of o (find_in owner mon m metadata ps ds) ≡ true
      → (member_of o ds ≡ true)
        ⊎ ((p : Place) × Within p ps × Wants owner keys (linked_for mon (m.registry p)) metadata o)
  unfolding find_in
  found_sound [] ds h = inl h
  found_sound (p ∷ ps) ds h =
      let t = tree_of mon (m.registry p) in
      elim (found_sound ps (match_registry_get_destinations owner metadata t ds) h) [
        | inr (q, within, wants) ↦ inr (q, inr within, wants)
        | inl e ↦ elim (Bool-cases (member_of o ds)) [
          | inl f ↦ inl f
          | inr f ↦
              let hit : reached owner metadata o t ≡ true =
                ground (arith, member_of-match_registry_get_destinations owner metadata o t ds) in
              inr (
                p,
                inl refl,
                reached_sound owner keys derived (linked_for mon (m.registry p)) metadata o t
                    (Placed-tree_of keys mon (m.registry p) (v.placed p)) hit,
              )
        ]
      ]

  found_before :
      (ps : List Place) (ds : List ℕ)
      → member_of o ds ≡ true
      → member_of o (find_in owner mon m metadata ps ds) ≡ true
  unfolding find_in
  found_before [] ds h = h
  found_before (p ∷ ps) ds h =
      let t = tree_of mon (m.registry p) in
      found_before ps (match_registry_get_destinations owner metadata t ds)
        (ground (arith, member_of-match_registry_get_destinations owner metadata o t ds))

  pub found_complete :
      (ps : List Place) (ds : List ℕ) (p : Place)
      → Within p ps
      → Wants owner keys (linked_for mon (m.registry p)) metadata o
      → member_of o (find_in owner mon m metadata ps ds) ≡ true
  unfolding find_in
  found_complete [] ds p h wants = absurd h
  found_complete (q ∷ ps) ds p (inr h) wants =
      found_complete ps
        (match_registry_get_destinations owner metadata (tree_of mon (m.registry q)) ds) p h wants
  found_complete (q ∷ ps) ds p (inl e) wants =
      let t = tree_of mon (m.registry q) in
      let here =
        subst (λ x. Wants owner keys (linked_for mon (m.registry x)) metadata o) (sym e) wants in
      let hit =
        reached_complete owner keys derived (linked_for mon (m.registry q)) metadata o t
          (Placed-tree_of keys mon (m.registry q) (v.placed q)) here in
      found_before ps (match_registry_get_destinations owner metadata t ds)
        (ground (arith, hit, member_of-match_registry_get_destinations owner metadata o t ds))
