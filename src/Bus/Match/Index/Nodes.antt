-- ===== src/Bus/Match/Index/Nodes.antt =====
-- The lists of keys in the nodes of the trees of src/bus/match.c: what linking and unlinking a rule
-- does to the rules in them.
use dbus_broker.Common.{
  ℕ, Bool, true, false, ◌||◌, ◌&&◌, not, List, [], ◌∷◌, ◌++◌, ◌==◌, ◌≡◌, refl, Bool-cases, inl, inr,
  arith,
}
use mathlib.Core.Path.{subst}
use dbus_broker.Bus.Match.Keys.{MatchKeys}
use dbus_broker.Bus.Match.Matching.{match_keys_equal}
use dbus_broker.Bus.Match.Keys.Sender.{SenderDerived}
use dbus_broker.Bus.Match.Matching.Equal.{match_keys_equal_refl}
use dbus_broker.Bus.Match.Index.{
  ByKeys, member_of, remove, match_rule_link_by_member, keep_keys, unlink_by_keys,
}

unfoldable pub in_node : ℕ → List ByKeys → Bool
in_node r [] = false
in_node r (b ∷ bs) = member_of r b.rule_list || in_node r bs

-- The rules of a node of keys have equal keys.
abbrev pub Fits : (ℕ → MatchKeys) → List ByKeys → Type 0
Fits keys [] = Unit {0}
Fits keys (b ∷ bs) =
    SenderDerived b.keys
    × ((r : ℕ) → member_of r b.rule_list ≡ true → match_keys_equal (keys r) b.keys ≡ true)
    × Fits keys bs

pub member_of_append :
    (r n : ℕ) (xs : List ℕ) → member_of r (xs ++ n ∷ []) ≡ (member_of r xs || (n == r))
unfolding member_of
member_of_append r n [] = ground arith
member_of_append r n (x ∷ xs) = ground (arith, member_of_append r n xs)

member_of-remove :
    (r n : ℕ) (xs : List ℕ) → member_of r (remove n xs) ≡ (not (n == r) && member_of r xs)
unfolding member_of remove
member_of-remove r n [] = ground arith
member_of-remove r n (x ∷ xs) = ground (arith, member_of-remove r n xs)

pub in_node-match_rule_link_by_member :
    (r n : ℕ) (k : MatchKeys) (bs : List ByKeys)
    → in_node r (match_rule_link_by_member n k bs) ≡ ((n == r) || in_node r bs)
unfolding in_node match_rule_link_by_member member_of
in_node-match_rule_link_by_member r n k [] = ground arith
in_node-match_rule_link_by_member r n k (b ∷ bs) =
    ground (arith, in_node-match_rule_link_by_member r n k bs, member_of_append r n b.rule_list)

in_node-keep_keys :
    (r : ℕ) (k : MatchKeys) (rs : List ℕ) (bs : List ByKeys)
    → in_node r (keep_keys k rs bs) ≡ (member_of r rs || in_node r bs)
unfolding in_node member_of
in_node-keep_keys r k [] bs = refl
in_node-keep_keys r k (n ∷ rs) bs = refl

pub in_node-unlink_by_keys :
    (r n : ℕ) (bs : List ByKeys) → in_node r (unlink_by_keys n bs) ≡ (not (n == r) && in_node r bs)
unfolding in_node unlink_by_keys
in_node-unlink_by_keys r n [] = ground arith
in_node-unlink_by_keys r n (b ∷ bs) = ground (
  arith,
  in_node-keep_keys r b.keys (remove n b.rule_list) (unlink_by_keys n bs),
  member_of-remove r n b.rule_list,
  in_node-unlink_by_keys r n bs,
)

module _ (keys : ℕ → MatchKeys) where
  -- One more rule with the keys of the node.
  joined :
      (n : ℕ) (b : ByKeys)
      → match_keys_equal (keys n) b.keys ≡ true
      → ((r : ℕ) → member_of r b.rule_list ≡ true → match_keys_equal (keys r) b.keys ≡ true)
      → (r : ℕ) → member_of r (b.rule_list ++ n ∷ []) ≡ true
      → match_keys_equal (keys r) b.keys ≡ true
  joined n b same old r h = elim (Bool-cases (member_of r b.rule_list)) [
    | inl e ↦ old r e
    | inr e ↦
        let here : (n == r) ≡ true = ground (arith, member_of_append r n b.rule_list) in
        let this : n ≡ r = ground arith in
        subst (λ q. match_keys_equal (keys q) b.keys ≡ true) this same
  ]

  pub match_rule_link_by_member-Fits :
      (n : ℕ) (bs : List ByKeys)
      → SenderDerived (keys n)
      → Fits keys bs
      → Fits keys (match_rule_link_by_member n (keys n) bs)
  unfolding match_rule_link_by_member member_of
  match_rule_link_by_member-Fits n [] derived fits = (
    derived,
    (λ r h.
        let this : n ≡ r = ground arith in
        subst (λ q. match_keys_equal (keys q) (keys n) ≡ true) this
          (match_keys_equal_refl (keys n))),
    fits,
  )
  match_rule_link_by_member-Fits n (b ∷ bs) derived (own, same, fits) =
      elim (Bool-cases (match_keys_equal (keys n) b.keys)) [
        | inl e ↦ rw e (own, joined n b e same, fits)
        | inr e ↦ rw e (own, same, match_rule_link_by_member-Fits n bs derived fits)
      ]

  keep_keys-Fits :
      (k : MatchKeys) (rs : List ℕ) (bs : List ByKeys)
      → SenderDerived k
      → ((r : ℕ) → member_of r rs ≡ true → match_keys_equal (keys r) k ≡ true)
      → Fits keys bs
      → Fits keys (keep_keys k rs bs)
  keep_keys-Fits k [] bs own same fits = fits
  keep_keys-Fits k (r ∷ rs) bs own same fits = (own, same, fits)

  pub unlink_by_keys-Fits :
      (n : ℕ) (bs : List ByKeys) → Fits keys bs → Fits keys (unlink_by_keys n bs)
  unfolding unlink_by_keys
  unlink_by_keys-Fits n [] fits = fits
  unlink_by_keys-Fits n (b ∷ bs) (own, same, fits) =
      keep_keys-Fits b.keys (remove n b.rule_list) (unlink_by_keys n bs) own
        (λ r h. same r (ground (arith, member_of-remove r n b.rule_list)))
        (unlink_by_keys-Fits n bs fits)
