-- ===== src/Bus/Peer/Matches/Steps.antt =====
-- The match registries of src/bus/peer.c over any sequence of links, unlinks and flushes.
use dbus_broker.Common.{
  ℕ, Bool, true, false, ◌&&◌, not, Option, none, some, List, [], ◌∷◌, ◌==◌, if◌then◌else◌, ◌≡◌,
  refl, arith, ap, sym, ◌∙◌, Bool-cases, inl, inr,
}
use mathlib.Core.Path.{subst}
use dbus_broker.Bus.Match.Keys.{MatchKeys}
use dbus_broker.Bus.Match.Keys.Sender.{SenderDerived}
use dbus_broker.Bus.Match.Index.{match_rule_link, match_rule_unlink}
use dbus_broker.Bus.Match.Index.Placement.{empty-Places}
use dbus_broker.Bus.Match.Index.Runs.{
  Placed, linked_for, is_for, link_if_free-Placed, unlink_if_linked-Placed,
}
use dbus_broker.Bus.Match.Index.Flush.{match_registry_flush-Placed, flushed, neither}
use dbus_broker.Bus.Peer.{PeerRegistry}
use dbus_broker.Bus.Peer.Matches.{
  Place, place_eq, Matches, lend, write_place, link_at, link_in_place, peer_link_match, unlink_from,
  drop_match, flush_place, leave_place, matches_init, place_of, set_linked, link_into,
}
use dbus_broker.Bus.Peer.Matches.Homes.{Home, HomeOf, place_eq_sound, place_eq_refl, place_of-Home}
use dbus_broker.Bus.Peer.Matches.Links.{at_place, links-match_rule_link, links-match_rule_unlink}

-- Rules are where the registries have them, and in none but one that suits their senders.
pub record IsValid (keys : ℕ → MatchKeys) (m : Matches) : Type 0 where
  pub placed : (p : Place) → Placed keys (m.registry p)
  pub linked :
      (p : Place) (r : ℕ) (monitor : Bool)
      → linked_for monitor (m.registry p) r ≡ at_place monitor p (m.linked_at r)
  pub home :
      (r : ℕ) (p : Place) (counted : Bool)
      → m.linked_at r ≡ some (p, counted)
      → Home (keys r).sender p

abbrev place_or : Place → Option (Place × Bool) → Place
place_or p none = p
place_or p (some l) = l.0

-- Of a step that succeeds.
abbrev pub ValidIfSome : (ℕ → MatchKeys) → Option Matches → Type 0
ValidIfSome keys none = Unit {0}
ValidIfSome keys (some m) = IsValid keys m

-- Rules that leave a registry, seen from that registry and from another one.
leave_here :
    (p q : Place) (mon : Bool) (l : Option (Place × Bool))
    → place_eq p q ≡ true
    → at_place mon q (leave_place p l) ≡ false
leave_here p q mon none f = refl
leave_here p q mon (some (x, counted)) f = elim (Bool-cases (place_eq p x)) [
  | inl e ↦ rw e refl
  | inr e ↦ elim (Bool-cases (place_eq x q)) [
    | inr g ↦ rw (e, g) refl
    | inl g ↦
        let same : p ≡ x = place_eq_sound p q f ∙ sym (place_eq_sound x q g) in
        let again : place_eq p x ≡ true = ap (place_eq p) (sym same) ∙ place_eq_refl p in
        absurd (ground arith)
  ]
]

leave_other :
    (p q : Place) (mon : Bool) (l : Option (Place × Bool))
    → place_eq p q ≡ false
    → at_place mon q (leave_place p l) ≡ at_place mon q l
leave_other p q mon none f = refl
leave_other p q mon (some (x, counted)) f = elim (Bool-cases (place_eq p x)) [
  | inr e ↦ rw e refl
  | inl e ↦
      let away : place_eq x q ≡ false = ap (λ y. place_eq y q) (sym (place_eq_sound p x e)) ∙ f in
      rw (e, away) refl
]

left_stays :
    (p : Place) (l : Option (Place × Bool)) (q : Place) (counted : Bool)
    → leave_place p l ≡ some (q, counted)
    → l ≡ some (q, counted)
left_stays p none q counted h = h
left_stays p (some (x, c)) q counted h = ground arith

module _ (owner : ℕ → ℕ) (keys : ℕ → MatchKeys) (derived : (r : ℕ) → SenderDerived (keys r)) where
  module _ (m : Matches) (v : IsValid keys m) where
    free : (rule : ℕ) (p : Place) → m.linked_at rule ≡ none → (m.registry p).links rule ≡ none
    free rule p e =
        neither owner keys derived (m.registry p) rule
          (v.linked p rule false ∙ ap (at_place false p) e)
          (v.linked p rule true ∙ ap (at_place true p) e)

    -- What is linked in a registry after its rule is linked, by which registry and rule are looked at.
    linked_here :
        (rule : ℕ) (monitor mon : Bool) (p q : Place) (r : ℕ)
        → m.linked_at rule ≡ none
        → place_eq p q ≡ true
        → linked_for mon
            (match_rule_link owner keys rule (not monitor) monitor (lend m.counters (m.registry p)))
            r
          ≡ at_place mon q (set_linked rule (some (p, not monitor)) m.linked_at r)
    linked_here rule monitor mon p q r e f =
        ap (is_for mon) (
          links-match_rule_link owner keys rule (not monitor) monitor
            (lend m.counters (m.registry p)) r (free rule p e))
        ∙ elim (Bool-cases (r == rule)) [
          | inl g ↦ rw (g, f) (ground arith)
          | inr g ↦
              rw g
                (v.linked p r mon ∙ ap (λ x. at_place mon x (m.linked_at r)) (place_eq_sound p q f))
        ]

    linked_elsewhere :
        (rule : ℕ) (l : Option (Place × Bool)) (mon : Bool) (q : Place) (r : ℕ)
        → at_place mon q l ≡ at_place mon q (m.linked_at rule)
        → linked_for mon (m.registry q) r ≡ at_place mon q (set_linked rule l m.linked_at r)
    linked_elsewhere rule l mon q r same = elim (Bool-cases (r == rule)) [
      | inl g ↦
          let this : r ≡ rule = ground arith in
          rw g (v.linked q r mon ∙ ap (λ x. at_place mon q (m.linked_at x)) this ∙ sym same)
      | inr g ↦ rw g (v.linked q r mon)
    ]

    link_into-IsValid :
        (rule : ℕ) (monitor : Bool) (p : Place)
        → m.linked_at rule ≡ none
        → Home (keys rule).sender p
        → IsValid keys (link_into owner keys rule monitor p m)
    unfolding link_into write_place match_rule_link
    link_into-IsValid rule monitor p e home = record {
      placed = λ q. elim (Bool-cases (place_eq p q)) [
        | inl f ↦ rw f (
            link_if_free-Placed owner keys derived ((m.registry p).links rule) rule (not monitor)
              monitor (lend m.counters (m.registry p)) refl (v.placed p))
        | inr f ↦ rw f (v.placed q)
      ];
      linked = λ q r mon. elim (Bool-cases (place_eq p q)) [
        | inl f ↦ rw f (linked_here rule monitor mon p q r e f)
        | inr f ↦ rw f (
            linked_elsewhere rule (some (p, not monitor)) mon q r
              (rw f (sym (ap (at_place mon q) e))))
      ];
      home = λ r q counted g. elim (Bool-cases (r == rule)) [
        | inl f ↦
            let this : r ≡ rule = ground arith in
            let written =
              ap (λ b. if b then some (p, not monitor) else m.linked_at r) (sym f) ∙ g in
            let there : p ≡ q = ap (place_or p) written in
            subst (λ x. Home (keys x).sender q) (sym this)
              (subst (Home (keys rule).sender) there home)
        | inr f ↦
            v.home r q counted
              (ap (λ b. if b then some (p, not monitor) else m.linked_at r) (sym f) ∙ g)
      ];
    }

    link_at-IsValid :
        (l : Option (Place × Bool)) (rule : ℕ) (monitor : Bool) (p : Place)
        → m.linked_at rule ≡ l
        → Home (keys rule).sender p
        → ValidIfSome keys (link_at owner keys l rule monitor p m)
    unfolding link_at
    link_at-IsValid none rule monitor p e home = link_into-IsValid rule monitor p e home
    link_at-IsValid (some (q, counted)) rule monitor p e home =
        elim (Bool-cases (place_eq q p && (if monitor then not counted else counted))) [
          | inl f ↦ rw f v
          | inr f ↦ rw f tt
        ]

    link_in_place-IsValid :
        (p : Option Place) (rule : ℕ) (monitor : Bool)
        → HomeOf (keys rule).sender p
        → ValidIfSome keys (link_in_place owner keys p rule monitor m)
    unfolding link_in_place
    link_in_place-IsValid none rule monitor home = v
    link_in_place-IsValid (some p) rule monitor home =
        link_at-IsValid (m.linked_at rule) rule monitor p refl home

    pub peer_link_match-IsValid :
        (peers : PeerRegistry) (rule : ℕ) (monitor : Bool)
        → ValidIfSome keys (peer_link_match owner keys peers rule monitor m)
    unfolding peer_link_match
    peer_link_match-IsValid peers rule monitor =
        link_in_place-IsValid (place_of peers (keys rule) (keys rule).sender) rule monitor
          (place_of-Home peers (keys rule) (keys rule).sender)

    unlinked_here :
        (rule : ℕ) (mon : Bool) (p q : Place) (r : ℕ)
        → place_eq p q ≡ true
        → linked_for mon (match_rule_unlink owner keys rule (lend m.counters (m.registry p))) r
          ≡ at_place mon q (set_linked rule none m.linked_at r)
    unlinked_here rule mon p q r f =
        ap (is_for mon) (links-match_rule_unlink owner keys rule (lend m.counters (m.registry p)) r)
        ∙ elim (Bool-cases (r == rule)) [
          | inl g ↦ rw g refl
          | inr g ↦
              rw g
                (v.linked p r mon ∙ ap (λ x. at_place mon x (m.linked_at r)) (place_eq_sound p q f))
        ]

    unlink_from-IsValid :
        (l : Option (Place × Bool)) (rule : ℕ)
        → m.linked_at rule ≡ l
        → IsValid keys (unlink_from owner keys l rule m)
    unfolding unlink_from write_place match_rule_unlink
    unlink_from-IsValid none rule e = v
    unlink_from-IsValid (some l) rule e = record {
      placed = λ q. elim (Bool-cases (place_eq l.0 q)) [
        | inl f ↦ rw f (
            unlink_if_linked-Placed owner keys derived ((m.registry l.0).links rule) rule
              (lend m.counters (m.registry l.0)) refl (v.placed l.0))
        | inr f ↦ rw f (v.placed q)
      ];
      linked = λ q r mon. elim (Bool-cases (place_eq l.0 q)) [
        | inl f ↦ rw f (unlinked_here rule mon l.0 q r f)
        | inr f ↦
            rw f (linked_elsewhere rule none mon q r (sym (ap (at_place mon q) e ∙ rw f refl)))
      ];
      home = λ r q counted g. elim (Bool-cases (r == rule)) [
        | inl f ↦
            let gone : none ≡ some (q, counted) =
              ap (λ b. if b then none else m.linked_at r) (sym f) ∙ g in
            absurd (ground arith)
        | inr f ↦ v.home r q counted (ap (λ b. if b then none else m.linked_at r) (sym f) ∙ g)
      ];
    }

    pub drop_match-IsValid : (rule : ℕ) → IsValid keys (drop_match owner keys rule m)
    unfolding drop_match
    drop_match-IsValid rule = unlink_from-IsValid (m.linked_at rule) rule refl

    pub flush_place-IsValid : (p : Place) → IsValid keys (flush_place owner keys p m)
    unfolding flush_place write_place
    flush_place-IsValid p = record {
      placed = λ q. elim (Bool-cases (place_eq p q)) [
        | inl f ↦ rw f (
            match_registry_flush-Placed owner keys derived (lend m.counters (m.registry p))
              (v.placed p))
        | inr f ↦ rw f (v.placed q)
      ];
      linked = λ q r mon. elim (Bool-cases (place_eq p q)) [
        | inl f ↦ rw f (
            ap (is_for mon)
              (flushed owner keys derived (lend m.counters (m.registry p)) r (v.placed p))
            ∙ sym (leave_here p q mon (m.linked_at r) f))
        | inr f ↦ rw f (v.linked q r mon ∙ sym (leave_other p q mon (m.linked_at r) f))
      ];
      home = λ r q counted g. v.home r q counted (left_stays p (m.linked_at r) q counted g);
    }

  pub init-IsValid : IsValid keys matches_init
  init-IsValid = record {
    placed = λ p. (empty-Places keys, empty-Places keys);
    linked = λ p r monitor. ground arith;
    home = λ r p counted h. absurd (ground arith);
  }

-- peer_link_match() by a peer's rule, with the peers as they are then, the end of a rule, and the end
-- of a registry with its peer or name.
pub data Step : Type 0 where
  link : PeerRegistry → ℕ → Bool → Step
  drop_rule : ℕ → Step
  flush : Place → Step

abbrev and_then : Option Matches → (Matches → Option Matches) → Option Matches
and_then none more = none
and_then (some m) more = more m

module _ (owner : ℕ → ℕ) (keys : ℕ → MatchKeys) where
  unfoldable pub run_matches : List Step → Matches → Option Matches
  unfolding peer_link_match drop_match flush_place
  run_matches [] m = some m
  run_matches (link peers rule monitor ∷ steps) m =
      and_then (peer_link_match owner keys peers rule monitor m) (run_matches steps)
  run_matches (drop_rule rule ∷ steps) m = run_matches steps (drop_match owner keys rule m)
  run_matches (flush p ∷ steps) m = run_matches steps (flush_place owner keys p m)

and_then-IsValid :
    (keys : ℕ → MatchKeys) (o : Option Matches) (more : Matches → Option Matches)
    → ValidIfSome keys o
    → ((m : Matches) → IsValid keys m → ValidIfSome keys (more m))
    → ValidIfSome keys (and_then o more)
and_then-IsValid keys none more v each = tt
and_then-IsValid keys (some m) more v each = each m v

module _ (owner : ℕ → ℕ) (keys : ℕ → MatchKeys) (derived : (r : ℕ) → SenderDerived (keys r)) where
  pub run_matches-IsValid :
      (steps : List Step) (m : Matches)
      → IsValid keys m
      → ValidIfSome keys (run_matches owner keys steps m)
  unfolding run_matches
  run_matches-IsValid [] m v = v
  run_matches-IsValid (link peers rule monitor ∷ steps) m v =
      and_then-IsValid keys (peer_link_match owner keys peers rule monitor m)
        (run_matches owner keys steps)
        (peer_link_match-IsValid owner keys derived m v peers rule monitor)
        (λ m' v'. run_matches-IsValid steps m' v')
  run_matches-IsValid (drop_rule rule ∷ steps) m v =
      run_matches-IsValid steps (drop_match owner keys rule m)
        (drop_match-IsValid owner keys derived m v rule)
  run_matches-IsValid (flush p ∷ steps) m v =
      run_matches-IsValid steps (flush_place owner keys p m)
        (flush_place-IsValid owner keys derived m v p)
