-- ===== src/Bus/Peer/Matches/Repeats.antt =====
-- A rule that is linked once more by peer_link_match() of src/bus/peer.c, or while the peer it names is
-- not registered.
use dbus_broker.Common.{
  ℕ, ◌≤◌, ◌<◌, Bytes, bytes_eq, Bool, true, false, not, Option, none, some, leb, ◌≡◌, refl, arith,
  ap, ◌∙◌,
}
use mathlib.Core.Option
use dbus_broker.Dbus.Address.{id, address_from_string}
use dbus_broker.Bus.Match.Keys.{MatchKeys}
use dbus_broker.Bus.Peer.{
  Peer, PeerRegistry, find_entry, if_registered, peer_registry_find_peer, peer_register,
  dispatch_hello, set_registered, is_none,
}
use dbus_broker.Bus.Peer.Counting.{find_written}
use dbus_broker.Bus.Peer.Registry.{Gives}
use dbus_broker.Bus.Peer.Names.{driver_name}
use dbus_broker.Bus.Peer.Matches.{
  Place, wildcard, from_peer, place_eq, Matches, link_into, link_at, link_in_place, peer_link_match,
  place_of, place_by_address,
}

module _ (owner : ℕ → ℕ) (keys : ℕ → MatchKeys) where
  pub link_free :
      (peers : PeerRegistry) (rule : ℕ) (monitor : Bool) (m : Matches) (p : Place)
      → place_of peers (keys rule) (keys rule).sender ≡ some p
      → m.linked_at rule ≡ none
      → peer_link_match owner keys peers rule monitor m
        ≡ some (link_into owner keys rule monitor p m)
  unfolding peer_link_match link_in_place link_at
  link_free peers rule monitor m p e f =
      ap (λ o. link_in_place owner keys o rule monitor m) e
      ∙ ap (λ l. link_at owner keys l rule monitor p m) f

  link_again :
      (peers : PeerRegistry) (rule : ℕ) (monitor : Bool) (m : Matches) (p q : Place)
      (counted : Bool)
      → place_of peers (keys rule) (keys rule).sender ≡ some p
      → m.linked_at rule ≡ some (q, counted)
      → place_eq q p ≡ false
      → peer_link_match owner keys peers rule monitor m ≡ none
  unfolding peer_link_match link_in_place link_at
  link_again peers rule monitor m p q counted e f away =
      ap (λ o. link_in_place owner keys o rule monitor m) e
      ∙ ap (λ l. link_at owner keys l rule monitor p m) f
      ∙ rw away refl

  pub linked-link_into :
      (rule : ℕ) (monitor : Bool) (p : Place) (m : Matches)
      → (link_into owner keys rule monitor p m).linked_at rule ≡ some (p, not monitor)
  unfolding link_into
  linked-link_into rule monitor p m = ground arith

-- By the ID of a peer that is not there, or is.
place_to_come :
    (peers : PeerRegistry) (k : MatchKeys) (b : Bytes) (n : ℕ)
    → bytes_eq b driver_name ≡ false
    → address_from_string b ≡ id n
    → peer_registry_find_peer peers n ≡ none
    → peers.ids ≤ n
    → place_of peers k (some b) ≡ some wildcard
unfolding place_of place_by_address
place_to_come peers k b n d a f h =
    let later : leb peers.ids n ≡ true = ground arith in
    rw (place_of, d, a) (rw (place_by_address, f, later) refl)

place_there :
    (peers : PeerRegistry) (k : MatchKeys) (b : Bytes) (n : ℕ) (p : Peer)
    → bytes_eq b driver_name ≡ false
    → address_from_string b ≡ id n
    → peer_registry_find_peer peers n ≡ some p
    → place_of peers k (some b) ≡ some (from_peer n)
unfolding place_of place_by_address
place_there peers k b n p d a f = rw (place_of, d, a) (rw (place_by_address, f) refl)

place_gone :
    (peers : PeerRegistry) (k : MatchKeys) (b : Bytes) (n : ℕ)
    → bytes_eq b driver_name ≡ false
    → address_from_string b ≡ id n
    → peer_registry_find_peer peers n ≡ none
    → n < peers.ids
    → place_of peers k (some b) ≡ none
unfolding place_of place_by_address
place_gone peers k b n d a f h =
    let given : leb peers.ids n ≡ false = ground arith in
    rw (place_of, d, a) (rw (place_by_address, f, given) refl)

module _ (owner : ℕ → ℕ) (keys : ℕ → MatchKeys) (rule : ℕ) (b : Bytes) (n : ℕ)
    (is : (keys rule).sender ≡ some b) (other : bytes_eq b driver_name ≡ false)
    (a : address_from_string b ≡ id n) where
  place_by :
      (peers : PeerRegistry) (o : Option Place)
      → place_of peers (keys rule) (some b) ≡ o
      → place_of peers (keys rule) (keys rule).sender ≡ o
  place_by peers o h = ap (place_of peers (keys rule)) is ∙ h

  -- A rule on the ID of a peer that is yet to come, linked when it is added, fails an assertion when it
  -- is added again once that peer is registered.
  pub added_again_fails :
      (before after : PeerRegistry) (m : Matches) (p : Peer)
      → m.linked_at rule ≡ none
      → peer_registry_find_peer before n ≡ none
      → before.ids ≤ n
      → peer_registry_find_peer after n ≡ some p
      → Option.bind
          (peer_link_match owner keys before rule false m)
          (peer_link_match owner keys after rule false)
        ≡ none
  unfolding Option.bind peer_link_match
  added_again_fails before after m p free absent to_come there =
      let once =
        link_free owner keys before rule false m wildcard
          (place_by before (some wildcard)
            (place_to_come before (keys rule) b n other a absent to_come))
          free in
      let m' = link_into owner keys rule false wildcard m in
      ap (λ o. Option.bind o (peer_link_match owner keys after rule false)) once
      ∙ link_again owner keys after rule false m' (from_peer n) wildcard true
          (place_by after (some (from_peer n)) (place_there after (keys rule) b n p other a there))
          (linked-link_into owner keys rule false wildcard m) (unfold place_eq in refl)

  -- A rule on the ID of a peer that is connected but has not called Hello() is linked nowhere, though the
  -- peer is there as soon as it does.
  pub not_registered_missed :
      (peers : PeerRegistry) (m : Matches) (monitor : Bool) (p : Peer)
      → find_entry n peers.peer_tree ≡ some p
      → p.registered ≡ false
      → p.monitor ≡ false
      → n < peers.ids
      → (peer_link_match owner keys peers rule monitor m ≡ some m)
        × Gives
            (λ after. is_none (peer_registry_find_peer after n) ≡ false)
            (dispatch_hello n peers)
  unfolding peer_link_match link_in_place dispatch_hello peer_register peer_registry_find_peer
  not_registered_missed peers m monitor p found unregistered plain given =
      let absent : peer_registry_find_peer peers n ≡ none =
        ap if_registered found ∙ rw unregistered refl in
      (
        ap (λ o. link_in_place owner keys o rule monitor m)
            (place_by peers none (place_gone peers (keys rule) b n other a absent given)),
        rw (dispatch_hello, found, plain, unregistered)
            (rw (peer_register, found, plain, unregistered)
              (ap (λ o. is_none (if_registered o))
                (find_written n (set_registered true) p peers.peer_tree (λ q. refl) found))),
      )
