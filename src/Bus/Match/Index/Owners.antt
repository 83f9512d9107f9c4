-- ===== src/Bus/Match/Index/Owners.antt =====
-- The walk of src/bus/match.c in one node of a tree: the owners of the rules whose keys fit.
use dbus_broker.Common.{
  ℕ, Bool, true, false, ◌||◌, ◌&&◌, inl, inr, List, [], ◌∷◌, ◌++◌, ◌==◌, ◌≡◌, ap, Bool-cases, arith,
}
use dbus_broker.Bus.Match.Keys.{MatchKeys}
use dbus_broker.Bus.Match.Matching.{Metadata, match_keys_match_metadata}
use dbus_broker.Bus.Match.Keys.Sender.{SenderDerived}
use dbus_broker.Bus.Match.Matching.Equal.{match_keys_equal-match}
use dbus_broker.Bus.Match.Index.{
  ByKeys, member_of, add_owners, match_registry_by_member_get_destinations,
}
use dbus_broker.Bus.Match.Index.Nodes.{in_node, Fits, member_of_append}

-- Whether one of some rules has a given owner.
unfoldable owned : (ℕ → ℕ) → ℕ → List ℕ → Bool
owned owner o [] = false
owned owner o (r ∷ rs) = (owner r == o) || owned owner o rs

unfoldable pub hit : (ℕ → ℕ) → Metadata → ℕ → List ByKeys → Bool
unfolding owned
hit owner m o [] = false
hit owner m o (b ∷ bs) =
    match_keys_match_metadata b.keys m && owned owner o b.rule_list || hit owner m o bs

member_of-add_owners :
    (owner : ℕ → ℕ) (o : ℕ) (rs ds : List ℕ)
    → member_of o (add_owners owner rs ds) ≡ (member_of o ds || owned owner o rs)
unfolding add_owners owned
member_of-add_owners owner o [] ds = ground arith
member_of-add_owners owner o (r ∷ rs) ds = elim (Bool-cases (member_of (owner r) ds)) [
  | inl e ↦ elim (Bool-cases (owner r == o)) [
    | inl f ↦
        let this : owner r ≡ o = ground arith in
        ground (arith, member_of-add_owners owner o rs ds, ap (λ q. member_of q ds) this)
    | inr f ↦ ground (arith, member_of-add_owners owner o rs ds)
  ]
  | inr e ↦
      ground (
        arith,
        member_of-add_owners owner o rs (ds ++ owner r ∷ []),
        member_of_append o (owner r) ds,
      )
]

pub member_of-by_member :
    (owner : ℕ → ℕ) (m : Metadata) (o : ℕ) (bs : List ByKeys) (ds : List ℕ)
    → member_of o (match_registry_by_member_get_destinations owner m bs ds)
      ≡ (member_of o ds || hit owner m o bs)
unfolding match_registry_by_member_get_destinations hit
member_of-by_member owner m o [] ds = ground arith
member_of-by_member owner m o (b ∷ bs) ds = ground (
  arith,
  member_of-by_member owner m o bs ds,
  member_of-by_member owner m o bs (add_owners owner b.rule_list ds),
  member_of-add_owners owner o b.rule_list ds,
)

owned_sound :
    (owner : ℕ → ℕ) (o : ℕ) (rs : List ℕ)
    → owned owner o rs ≡ true
    → (r : ℕ) × (member_of r rs ≡ true) × (owner r ≡ o)
unfolding owned member_of
owned_sound owner o [] h = absurd (ground arith)
owned_sound owner o (r ∷ rs) h = elim (Bool-cases (owner r == o)) [
  | inl e ↦ (r, ground arith, ground arith)
  | inr e ↦ let (q, inside, own) = owned_sound owner o rs (ground arith) in (q, ground arith, own)
]

owned_complete :
    (owner : ℕ → ℕ) (r : ℕ) (rs : List ℕ) → member_of r rs ≡ true → owned owner (owner r) rs ≡ true
unfolding owned member_of
owned_complete owner r [] h = absurd (ground arith)
owned_complete owner r (q ∷ rs) h = elim (Bool-cases (q == r)) [
  | inl e ↦ let this : q ≡ r = ground arith in ground (arith, ap owner this)
  | inr e ↦ ground (arith, owned_complete owner r rs (ground arith))
]

module _ (owner : ℕ → ℕ) (keys : ℕ → MatchKeys) (derived : (r : ℕ) → SenderDerived (keys r)) where
  pub hit_sound :
      (m : Metadata) (o : ℕ) (bs : List ByKeys)
      → Fits keys bs
      → hit owner m o bs ≡ true
      → (r : ℕ) × (in_node r bs ≡ true)
        × (match_keys_match_metadata (keys r) m ≡ true)
        × (owner r ≡ o)
  unfolding hit in_node
  hit_sound m o [] fits h = absurd (ground arith)
  hit_sound m o (b ∷ bs) (own, same, fits) h =
      elim (Bool-cases (match_keys_match_metadata b.keys m && owned owner o b.rule_list)) [
        | inl e ↦
            let (r, inside, it) = owned_sound owner o b.rule_list (ground arith) in
            let equal = match_keys_equal-match (keys r) b.keys m (derived r) own (same r inside) in
            (r, ground arith, ground arith, it)
        | inr e ↦
            let (r, inside, matches, it) = hit_sound m o bs fits (ground arith) in
            (r, ground arith, matches, it)
      ]

  pub hit_complete :
      (m : Metadata) (r : ℕ) (bs : List ByKeys)
      → Fits keys bs
      → in_node r bs ≡ true
      → match_keys_match_metadata (keys r) m ≡ true
      → hit owner m (owner r) bs ≡ true
  unfolding hit in_node
  hit_complete m r [] fits inside h = absurd (ground arith)
  hit_complete m r (b ∷ bs) (own, same, fits) inside h =
      elim (Bool-cases (member_of r b.rule_list)) [
        | inl e ↦ ground (
          arith,
          match_keys_equal-match (keys r) b.keys m (derived r) own (same r e),
          owned_complete owner r b.rule_list e,
        )
        | inr e ↦ ground (arith, hit_complete m r bs fits (ground arith) h)
      ]
