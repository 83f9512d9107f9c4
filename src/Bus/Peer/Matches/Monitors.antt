-- ===== src/Bus/Peer/Matches/Monitors.antt =====
-- Which monitors get what the driver sends, by the match registries of src/bus/peer.c and
-- bus_get_monitor_destinations() of src/bus/bus.c.
use dbus_broker.Common.{
  ℕ, Bytes, Bool, true, false, ◌⊎◌, inl, inr, Option, none, some, List, [], ◌∷◌, ◌==◌,
  if◌then◌else◌, ◌≡◌, refl, arith, ap, sym, ◌∙◌, Bool-cases,
}
use mathlib.Core.Path.{subst}
use dbus_broker.Bus.Name.{NameOwnership}
use dbus_broker.Bus.Match.Keys.{MatchKeys}
use dbus_broker.Bus.Match.Keys.Sender.{SenderDerived}
use dbus_broker.Bus.Match.Matching.{Metadata, match_keys_match_metadata}
use dbus_broker.Bus.Match.Index.{member_of}
use dbus_broker.Common.{ltb}
use dbus_broker.Dbus.Address.{name, address_from_string}
use dbus_broker.Bus.Peer.{PeerRegistry}
use dbus_broker.Bus.Peer.Names.{driver_name}
use dbus_broker.Bus.Peer.Matches.Repeats.{link_free, linked-link_into}
use dbus_broker.Bus.Peer.Matches.{
  place_kind, place_of, place_of_changes, place_by_address, owner_of_peer, is_subscription_to_name,
  peer_link_match, Place, wildcard, from_driver, owner_of_name, Matches, matches_init,
  monitor_places, bus_get_monitor_destinations,
}
use dbus_broker.Bus.Peer.Matches.Found.{Within, found_sound}
use dbus_broker.Bus.Peer.Matches.Broadcast.{at_place_sound}
use dbus_broker.Bus.Peer.Matches.Steps.{
  IsValid, ValidIfSome, Step, run_matches, run_matches-IsValid, peer_link_match-IsValid,
  init-IsValid,
}

if_any :
    (o : ℕ) (b : Bool) (ds : List ℕ)
    → member_of o (if b then [] else ds) ≡ true
    → member_of o ds ≡ true
unfolding member_of
if_any o true ds h = absurd (ground arith)
if_any o false ds h = h

either :
    (p : Place) (l : Option (Place × Bool))
    → Within p (wildcard ∷ from_driver ∷ [])
    → l ≡ some (p, false)
    → (l ≡ some (wildcard, false)) ⊎ (l ≡ some (from_driver, false))
either p l (inl e) h = inl (h ∙ ap (λ q. some (q, false)) (sym e))
either p l (inr (inl e)) h = inr (h ∙ ap (λ q. some (q, false)) (sym e))
either p l (inr (inr e)) h = absurd e

place_of_name :
    (peers : PeerRegistry) (k : MatchKeys) (s : Bytes)
    → is_subscription_to_name k ≡ true
    → k.args 0 ≡ some s
    → address_from_string s ≡ name s
    → place_of peers k (some driver_name) ≡ some (owner_of_name s)
unfolding place_of place_of_changes place_by_address
place_of_name peers k s h arg a =
    rw (place_of, h)
      (ap (place_of_changes peers) arg
        ∙ ap (place_by_address peers from_driver owner_of_peer (owner_of_name s)) a)

two_places :
    (s : Bytes) (p : Place)
    → ◌≡◌ {A = Option (Place × Bool)} (some (owner_of_name s, false)) (some (p, false))
    → ltb (place_kind p) 5 ≡ true
    → ⊥
two_places s p e h =
    let same : owner_of_name s ≡ p =
      ap (λ (o : Option (Place × Bool)). elim o [ none ↦ p | some l ↦ l.0 ]) e in
    let kind = ap place_kind same in ground arith

module _ (owner : ℕ → ℕ) (keys : ℕ → MatchKeys) (derived : (r : ℕ) → SenderDerived (keys r)) where
  -- A monitor that gets it has a rule in one of the two registries.
  monitored :
      (m : Matches) (names : List (Bytes × List NameOwnership)) (n_monitors o : ℕ)
      (metadata : Metadata)
      → IsValid keys m
      → member_of o (bus_get_monitor_destinations owner n_monitors m names none metadata) ≡ true
      → (r : ℕ) × ((m.linked_at r ≡ some (wildcard, false))
          ⊎ (m.linked_at r ≡ some (from_driver, false)))
        × (match_keys_match_metadata (keys r) metadata ≡ true)
        × (owner r ≡ o)
  unfolding bus_get_monitor_destinations monitor_places member_of
  monitored m names n_monitors o metadata v h =
      elim (found_sound owner keys derived true m v metadata o (wildcard ∷ from_driver ∷ []) []
        (if_any o (n_monitors == 0) _ h)) [
          | inl e ↦ absurd (ground arith)
          | inr (p, within, wants) ↦
              let (r, linked, fits, own) = wants in
              let at = at_place_sound true p (m.linked_at r) (sym (v.linked p r true) ∙ linked) in
              (r, either p (m.linked_at r) within at, fits, own)
        ]

  -- After any additions, removals and flushes of rules, a monitor is added whose only rule is on the
  -- driver's NameOwnerChanged signals for one name: none of the driver's signals gets to it.
  pub monitor_misses_name_changes :
      (steps : List Step) (m m' : Matches) (peers : PeerRegistry) (rule o : ℕ) (s : Bytes)
      (names : List (Bytes × List NameOwnership)) (n_monitors : ℕ) (metadata : Metadata)
      → run_matches owner keys steps matches_init ≡ some m
      → m.linked_at rule ≡ none
      → ((r : ℕ) → owner r ≡ o → r ≡ rule)
      → (keys rule).sender ≡ some driver_name
      → is_subscription_to_name (keys rule) ≡ true
      → (keys rule).args 0 ≡ some s
      → address_from_string s ≡ name s
      → peer_link_match owner keys peers rule true m ≡ some m'
      → member_of o (bus_get_monitor_destinations owner n_monitors m' names none metadata) ≡ false
  monitor_misses_name_changes steps m m' peers rule o s names n_monitors metadata ran free only is
        subscription arg a linked =
      let v = subst (ValidIfSome keys) ran (
        run_matches-IsValid owner keys derived steps matches_init
          (init-IsValid owner keys derived)) in
      let v' =
        subst (ValidIfSome keys) linked
          (peer_link_match-IsValid owner keys derived m v peers rule true) in
      let place =
        ap (place_of peers (keys rule)) is ∙ place_of_name peers (keys rule) s subscription arg a in
      let there : m'.linked_at rule ≡ some (owner_of_name s, false) =
        ap (λ (o : Option Matches). elim o [ none ↦ none | some x ↦ x.linked_at rule ])
          (sym linked ∙ link_free owner keys peers rule true m (owner_of_name s) place free)
        ∙ linked-link_into owner keys rule true (owner_of_name s) m in
      elim (Bool-cases
        (member_of o (bus_get_monitor_destinations owner n_monitors m' names none metadata))) [
          | inr e ↦ e
          | inl e ↦
              let (r, at, fits, own) = monitored m' names n_monitors o metadata v' e in
              elim at [
                | inl w ↦ absurd (
                    two_places s wildcard (sym there ∙ ap m'.linked_at (sym (only r own)) ∙ w) refl)
                | inr w ↦ absurd (
                    two_places s from_driver (sym there ∙ ap m'.linked_at (sym (only r own)) ∙ w)
                      refl)
              ]
        ]
