-- ===== src/Bus/Peer/Matches/Links.antt =====
-- What linking and unlinking a rule of src/bus/match.c does to where rules are linked.
use dbus_broker.Common.{
  ℕ, Bool, true, false, ◌&&◌, not, Option, none, some, ◌==◌, if◌then◌else◌, ◌≡◌, refl, arith, ap,
  ◌∙◌, Bool-cases, Option-cases, inl, inr,
}
use dbus_broker.Bus.Match.Keys.{MatchKeys}
use dbus_broker.Bus.Match.Index.{
  Registry, match_rule_link, match_rule_unlink, link_if_free, unlink_if_linked, link_in, unlink_in,
  count_link, uncount_link,
}
use dbus_broker.Bus.Peer.Matches.{Place, place_eq}

-- Whether a rule is linked in a registry, for a subscription or for monitoring.
abbrev pub at_place : Bool → Place → Option (Place × Bool) → Bool
at_place monitor p none = false
at_place monitor p (some (q, counted)) = place_eq q p && (if monitor then not counted else counted)

-- A rule that is not linked stays so.
unchanged :
    (rule : ℕ) (g : Registry) (r : ℕ)
    → g.links rule ≡ none
    → g.links r ≡ (if r == rule then none else g.links r)
unchanged rule g r e = elim (Bool-cases (r == rule)) [
  | inl f ↦ let this : r ≡ rule = ground arith in rw f (ap g.links this ∙ e)
  | inr f ↦ rw f refl
]

-- The links of a rule and of the others after a link.
module _ (owner : ℕ → ℕ) (keys : ℕ → MatchKeys) where
  pub links-match_rule_link :
      (rule : ℕ) (counted monitor : Bool) (g : Registry) (r : ℕ)
      → g.links rule ≡ none
      → (match_rule_link owner keys rule counted monitor g).links r
        ≡ (if r == rule then some (record { monitor = monitor; counted = counted }) else g.links r)
  unfolding match_rule_link link_if_free link_in count_link
  links-match_rule_link rule true true g r free = rw (match_rule_link, free) refl
  links-match_rule_link rule true false g r free = rw (match_rule_link, free) refl
  links-match_rule_link rule false true g r free = rw (match_rule_link, free) refl
  links-match_rule_link rule false false g r free = rw (match_rule_link, free) refl

  unlinked :
      (monitor counted : Bool) (rule : ℕ) (g : Registry) (r : ℕ)
      → (unlink_if_linked owner keys
            (some (record { monitor = monitor; counted = counted }))
            rule
            g).links
          r
        ≡ (if r == rule then none else g.links r)
  unfolding unlink_if_linked unlink_in uncount_link
  unlinked true true rule g r = refl
  unlinked true false rule g r = refl
  unlinked false true rule g r = refl
  unlinked false false rule g r = refl

  pub links-match_rule_unlink :
      (rule : ℕ) (g : Registry) (r : ℕ)
      → (match_rule_unlink owner keys rule g).links r ≡ (if r == rule then none else g.links r)
  unfolding match_rule_unlink
  links-match_rule_unlink rule g r = elim (Option-cases (g.links rule)) [
    | inl e ↦ rw (match_rule_unlink, e) (unchanged rule g r e)
    | inr (l, e) ↦ rw (match_rule_unlink, e) (unlinked l.monitor l.counted rule g r)
  ]
