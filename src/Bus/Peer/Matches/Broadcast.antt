-- ===== src/Bus/Peer/Matches/Broadcast.antt =====
-- Who gets the signal that a peer sends to all, by the match registries of src/bus/peer.c and
-- bus_get_broadcast_destinations() of src/bus/bus.c.
use dbus_broker.Common.{
  ℕ, ◌<◌, Bytes, bytes_eq, bytes_eq_refl, Bool, true, false, not, ◌⊎◌, ◌↔◌, inl, inr, Option, none,
  some, List, [], ◌≡◌, refl, arith, ap, sym, ◌∙◌,
}
use mathlib.Core.Path.{subst}
use dbus_broker.Dbus.Address.{id, address_from_string, address_id_invalid}
use dbus_broker.Dbus.Address.RoundTrip.{IsParsed, from_string-IsParsed}
use dbus_broker.Bus.Name.{NameOwnership, name_registry_init, primary, queue_of}
use dbus_broker.Bus.Name.Requests.{Call, run}
use dbus_broker.Bus.Name.Keys.{KeysDistinct, run_init-KeysDistinct}
use dbus_broker.Bus.Match.Keys.{MatchKeys, sender_id_of}
use dbus_broker.Bus.Match.Keys.Sender.{SenderDerived, derived_id}
use dbus_broker.Bus.Match.Matching.{Metadata, match_keys_match_metadata}
use dbus_broker.Bus.Match.Index.{member_of}
use dbus_broker.Bus.Peer.Names.{driver_name}
use dbus_broker.Bus.Peer.Matches.{
  Place, wildcard, from_driver, from_peer, from_name, owner_of_peer, owner_of_name, Matches,
  matches_init, primary_names, broadcast_places, bus_get_broadcast_destinations,
}
use dbus_broker.Bus.Peer.Matches.Homes.{Home, place_eq_sound, place_eq_refl}
use dbus_broker.Bus.Peer.Matches.Links.{at_place}
use dbus_broker.Bus.Peer.Matches.Found.{
  Within, found_sound, found_complete, primary_names_sound, primary_names_complete,
  name_places-Within, name_places_from,
}
use dbus_broker.Bus.Peer.Matches.Steps.{
  IsValid, ValidIfSome, Step, run_matches, run_matches-IsValid, init-IsValid,
}

abbrev Names : Type 0
Names = List (Bytes × List NameOwnership)

-- Whether what a rule says of the sender is true of a peer: nothing; its ID; or a name that it is the
-- primary owner of, other than the driver's.
abbrev pub SentBy : Option Bytes → ℕ → List (Bytes × List NameOwnership) → Type 0
SentBy none s names = Unit {0}
SentBy (some b) s names =
    (address_from_string b ≡ id s)
    ⊎ ((bytes_eq b driver_name ≡ false)
        × ((n : ℕ) → address_from_string b ≡ id n → ⊥)
        × (primary (queue_of b names) ≡ some s))

-- A subscription of an owner that fits a message of a peer.
abbrev pub Subscribed :
    (ℕ → ℕ)
    → (ℕ → MatchKeys)
    → Matches
    → Metadata
    → List (Bytes × List NameOwnership)
    → ℕ
    → ℕ
    → Type 0
Subscribed owner keys m metadata names s o =
    (r : ℕ) × ((p : Place) × (m.linked_at r ≡ some (p, true)))
    × (match_keys_match_metadata (keys r) metadata ≡ true)
    × (owner r ≡ o)
    × SentBy (keys r).sender s names

id_of_id : (a b : ℕ) → id a ≡ id b → a ≡ b
id_of_id a b h = cc

valid_id : (b : Bytes) (n : ℕ) → address_from_string b ≡ id n → n < address_id_invalid
valid_id b n e = subst IsParsed e (from_string-IsParsed b)

driver_no_id : (n : ℕ) → address_from_string driver_name ≡ id n → ⊥
unfolding address_from_string
driver_no_id n e = cc

-- A rule with an ID for its sender fits the messages of that peer only.
fits_id :
    (k : MatchKeys) (metadata : Metadata) (b : Bytes) (n : ℕ)
    → SenderDerived k
    → k.sender ≡ some b
    → address_from_string b ≡ id n
    → match_keys_match_metadata k metadata ≡ true
    → n ≡ metadata.sender_id
unfolding match_keys_match_metadata sender_id_of
fits_id k metadata b n d e a h =
    let this : k.sender_id ≡ n = d ∙ ap derived_id e ∙ ap (sender_id_of address_id_invalid) a in
    ground (arith, valid_id b n a)

pub at_place_sound :
    (mon : Bool) (p : Place) (l : Option (Place × Bool))
    → at_place mon p l ≡ true
    → l ≡ some (p, not mon)
at_place_sound mon p none h = absurd (ground arith)
at_place_sound mon p (some (q, counted)) h =
    let same = place_eq_sound q p (ground arith) in
    let with : counted ≡ not mon = ground arith in
    ap (λ x. some (x, counted)) same ∙ ap (λ c. some (p, c)) with

module _ (keys : ℕ → MatchKeys) (derived : (r : ℕ) → SenderDerived (keys r)) (names : Names)
    (distinct : KeysDistinct names) (s : ℕ) (metadata : Metadata)
    (sent : metadata.sender_id ≡ s) where
  Home-SentBy :
      (r : ℕ) (p : Place)
      → Within p (broadcast_places (some (from_peer s)) (some s) names)
      → match_keys_match_metadata (keys r) metadata ≡ true
      → Home (keys r).sender p
      → SentBy (keys r).sender s names
  unfolding broadcast_places
  Home-SentBy r p (inl e) fits home = elim (subst (Home (keys r).sender) (sym e) home) [
    | inl nobody ↦ subst (λ x. SentBy x s names) (sym nobody) tt
    | inr (b, n, is, a) ↦
        subst (λ x. SentBy x s names) (sym is)
          (inl (a ∙ ap id (fits_id (keys r) metadata b n (derived r) is a fits ∙ sent)))
  ]
  Home-SentBy r p (inr (inl e)) fits home =
      let (b, is, a) = subst (Home (keys r).sender) (sym e) home in
      subst (λ x. SentBy x s names) (sym is) (inl a)
  Home-SentBy r p (inr (inr h)) fits home =
      let (n, e, within) = name_places_from p (primary_names s names) h in
      let (is, other, no_id) = subst (Home (keys r).sender) e home in
      subst (λ x. SentBy x s names) (sym is)
        (inr (other, no_id, primary_names_sound s n names distinct within))

  from_driver_not : (sender : Option Bytes) → sender ≡ some driver_name → SentBy sender s names → ⊥
  from_driver_not sender is by = elim (subst (λ x. SentBy x s names) is by) [
    | inl a ↦ driver_no_id s a
    | inr (other, no_id, own) ↦ ground (arith, bytes_eq_refl driver_name)
  ]

  SentBy-Within :
      (sender : Option Bytes) (p : Place)
      → Home sender p
      → SentBy sender s names
      → Within p (broadcast_places (some (from_peer s)) (some s) names)
  unfolding broadcast_places
  SentBy-Within sender wildcard home by = inl refl
  SentBy-Within sender (from_peer n) (b, is, a) by = elim (subst (λ x. SentBy x s names) is by) [
    | inl a' ↦ inr (inl (ap from_peer (id_of_id s n (sym a' ∙ a))))
    | inr (other, no_id, own) ↦ absurd (no_id n a)
  ]
  SentBy-Within sender (from_name n) (is, other, no_id) by =
      elim (subst (λ x. SentBy x s names) is by) [
        | inl a' ↦ absurd (no_id s a')
        | inr (other', no_id', own) ↦ inr (
            inr
              (name_places-Within n (primary_names s names) (primary_names_complete s n names own)))
      ]
  SentBy-Within sender from_driver home by = absurd (from_driver_not sender home by)
  SentBy-Within sender (owner_of_peer n) home by = absurd (from_driver_not sender home by)
  SentBy-Within sender (owner_of_name n) home by = absurd (from_driver_not sender home by)

module _ (owner : ℕ → ℕ) (keys : ℕ → MatchKeys) (derived : (r : ℕ) → SenderDerived (keys r)) where
  delivered :
      (m : Matches) (names : Names) (s o : ℕ) (metadata : Metadata)
      → IsValid keys m
      → KeysDistinct names
      → metadata.sender_id ≡ s
      → (member_of o
            (bus_get_broadcast_destinations owner m names (some (from_peer s)) (some s) metadata)
          ≡ true)
        ↔ Subscribed owner keys m metadata names s o
  unfolding bus_get_broadcast_destinations member_of
  delivered m names s o metadata v distinct sent = (
    (λ h.
        elim (found_sound owner keys derived false m v metadata o
          (broadcast_places (some (from_peer s)) (some s) names) [] h) [
            | inl e ↦ absurd (ground arith)
            | inr (p, within, wants) ↦
                let (r, linked, fits, own) = wants in
                let at =
                  at_place_sound false p (m.linked_at r) (sym (v.linked p r false) ∙ linked) in
                (
                  r,
                  (p, at),
                  fits,
                  own,
                  Home-SentBy keys derived names distinct s metadata sent r p within fits
                      (v.home r p true at),
                )
          ]),
    (λ w.
        let (r, (p, at), fits, own, by) = w in
        found_complete owner keys derived false m v metadata o
          (broadcast_places (some (from_peer s)) (some s) names) [] p
          (SentBy-Within keys derived names distinct s metadata sent (keys r).sender p
            (v.home r p true at) by)
          (
            r,
            v.linked p r false ∙ ap (at_place false p) at ∙ ground (arith, place_eq_refl p),
            fits,
            own,
          )),
  )

  -- After any additions and removals of rules whose sender IDs are those of their senders, and any flushes of
  -- registries, with the peers in any state at each addition, and after any requests and releases of
  -- names: a peer gets a signal that another one sends to all exactly if it owns a rule that is
  -- linked in some registry for a subscription and fits the signal, and what the rule says of the
  -- sender is true: nothing, its ID, or a name that it is the primary owner of.
  pub bus_get_broadcast_destinations_lem :
      (steps : List Step) (m : Matches) (calls : List Call) (s o : ℕ) (metadata : Metadata)
      → run_matches owner keys steps matches_init ≡ some m
      → metadata.sender_id ≡ s
      → (member_of o (
            bus_get_broadcast_destinations owner m
              (run name_registry_init calls).names
              (some (from_peer s))
              (some s)
              metadata)
          ≡ true)
        ↔ Subscribed owner keys m metadata (run name_registry_init calls).names s o
  bus_get_broadcast_destinations_lem steps m calls s o metadata ran sent =
      let v = subst (ValidIfSome keys) ran (
        run_matches-IsValid owner keys derived steps matches_init
          (init-IsValid owner keys derived)) in
      delivered m (run name_registry_init calls).names s o metadata v (run_init-KeysDistinct calls)
        sent
