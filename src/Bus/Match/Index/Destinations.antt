-- ===== src/Bus/Match/Index/Destinations.antt =====
-- What the walk of src/bus/match.c over a tree of rules finds: the owners of the rules in the nodes
-- for the path, interface and member of a message, and in those for none.
use dbus_broker.Common.{
  ℕ, Bytes, Bool, true, ◌||◌, ◌⊎◌, ◌↔◌, inl, inr, Option, none, some, List, [], ◌≡◌, refl, ap, sym,
  ◌∙◌, Bool-cases, arith,
}
use mathlib.Core.Path.{subst}
use dbus_broker.Bus.Match.Keys.{MatchKeys}
use dbus_broker.Bus.Match.Matching.{Metadata, match_keys_match_metadata}
use dbus_broker.Bus.Match.Keys.Sender.{SenderDerived}
use dbus_broker.Bus.Match.Tree.{Tree, tree_get}
use dbus_broker.Bus.Match.Index.{
  ByPath, member_of, both_nodes, match_registry_by_member_get_destinations,
  match_registry_by_interface_get_destinations, match_registry_by_path_get_destinations,
  match_registry_get_destinations,
}
use dbus_broker.Bus.Match.Index.Nodes.{in_node}
use dbus_broker.Bus.Match.Index.Owners.{hit, member_of-by_member, hit_sound, hit_complete}
use dbus_broker.Bus.Match.Matching.{equal_if_set, string_equal}
use dbus_broker.Bus.Match.Index.Placement.{Places, node_at, sits_at}
use dbus_broker.Bus.Match.Index.{or_empty}
use dbus_broker.Common.{bytes_eq_refl, bytes_eq_sound}

-- Whether the node for none or that for a string has a property.
unfoldable reach : {A : Type 0} → Option Bytes → (List A → Bool) → Tree A → Bool
unfolding tree_get
reach none test t = test (tree_get [] t)
reach (some s) test t = test (tree_get [] t) || test (tree_get s t)

module _ {A : Type 0} where
  member_of-both_nodes :
      (o : ℕ) (s : Option Bytes) (visit : List A → List ℕ → List ℕ) (test : List A → Bool)
      (t : Tree A) (ds : List ℕ)
      → ((v : List A) (d : List ℕ) → member_of o (visit v d) ≡ (member_of o d || test v))
      → member_of o (both_nodes s visit t ds) ≡ (member_of o ds || reach s test t)
  unfolding reach
  member_of-both_nodes o none visit test t ds each = each (tree_get [] t) ds
  member_of-both_nodes o (some s) visit test t ds each =
      ground (arith, each (tree_get s t) (visit (tree_get [] t) ds), each (tree_get [] t) ds)

  reach_sound :
      (s : Option Bytes) (test : List A → Bool) (t : Tree A)
      → reach s test t ≡ true
      → (q : Bytes) × (test (tree_get q t) ≡ true)
  unfolding reach
  reach_sound none test t h = ([], h)
  reach_sound (some s) test t h = elim (Bool-cases (test (tree_get [] t))) [
    | inl e ↦ ([], e)
    | inr e ↦ (s, ground arith)
  ]

  reach_complete :
      (s : Option Bytes) (test : List A → Bool) (t : Tree A) (q : Bytes)
      → ((q ≡ []) ⊎ (s ≡ some q))
      → test (tree_get q t) ≡ true
      → reach s test t ≡ true
  unfolding reach
  reach_complete none test t q (inl e) h = ap (λ k. test (tree_get k t)) (sym e) ∙ h
  reach_complete (some s) test t q (inl e) h =
      ground (arith, ap (λ k. test (tree_get k t)) (sym e) ∙ h)
  reach_complete s test t q (inr e) h = rw e (ground arith)

unfoldable pub reached : (ℕ → ℕ) → Metadata → ℕ → List ByPath → Bool
unfolding reach hit
reached owner m o t = reach m.path (reach m.interface (reach m.member (hit owner m o))) t

pub member_of-match_registry_get_destinations :
    (owner : ℕ → ℕ) (m : Metadata) (o : ℕ) (t : List ByPath) (ds : List ℕ)
    → member_of o (match_registry_get_destinations owner m t ds)
      ≡ (member_of o ds || reached owner m o t)
unfolding match_registry_get_destinations match_registry_by_path_get_destinations
    match_registry_by_interface_get_destinations reached
member_of-match_registry_get_destinations owner m o t ds =
    member_of-both_nodes o m.path (match_registry_by_path_get_destinations owner m)
      (reach m.interface (reach m.member (hit owner m o))) t ds
      (λ u d.
        member_of-both_nodes o m.interface (match_registry_by_interface_get_destinations owner m)
          (reach m.member (hit owner m o)) u d
          (λ v e.
            member_of-both_nodes o m.member (match_registry_by_member_get_destinations owner m)
              (hit owner m o) v e (member_of-by_member owner m o)))

-- The node of a key that fits a string is visited.
visited :
    (key s : Option Bytes)
    → equal_if_set key s ≡ true
    → (or_empty key ≡ []) ⊎ (s ≡ some (or_empty key))
unfolding string_equal
visited none s h = inl refl
visited (some k) none h = absurd (ground arith)
visited (some k) (some s) h = inr (ap some (sym (bytes_eq_sound k s h)))

pub sits_at_refl :
    (k : MatchKeys) → sits_at k (or_empty k.path) (or_empty k.interface) (or_empty k.member) ≡ true
unfolding sits_at
sits_at_refl k =
    rw
      (
        bytes_eq_refl (or_empty k.path),
        bytes_eq_refl (or_empty k.interface),
        bytes_eq_refl (or_empty k.member),
      )
      refl

-- A rule that is linked, fits a message and has an owner.
abbrev pub Wants : (ℕ → ℕ) → (ℕ → MatchKeys) → (ℕ → Bool) → Metadata → ℕ → Type 0
Wants owner keys linked m o =
    (r : ℕ) × (linked r ≡ true) × (match_keys_match_metadata (keys r) m ≡ true) × (owner r ≡ o)

module _ (owner : ℕ → ℕ) (keys : ℕ → MatchKeys) (derived : (r : ℕ) → SenderDerived (keys r)) where
  pub reached_sound :
      (linked : ℕ → Bool) (m : Metadata) (o : ℕ) (t : List ByPath)
      → Places keys linked t
      → reached owner m o t ≡ true
      → Wants owner keys linked m o
  unfolding reached node_at
  reached_sound linked m o t w h =
      let (p, hp) = reach_sound m.path (reach m.interface (reach m.member (hit owner m o))) t h in
      let (i, hi) = reach_sound m.interface (reach m.member (hit owner m o)) (tree_get p t) hp in
      let (n, hn) = reach_sound m.member (hit owner m o) (tree_get i (tree_get p t)) hi in
      let (r, inside, matches, it) =
        hit_sound owner keys derived m o (node_at p i n t) (w.fits p i n) hn in
      (r, ground (arith, w.placed p i n r), matches, it)

  pub reached_complete :
      (linked : ℕ → Bool) (m : Metadata) (o : ℕ) (t : List ByPath)
      → Places keys linked t
      → Wants owner keys linked m o
      → reached owner m o t ≡ true
  unfolding reached node_at match_keys_match_metadata
  reached_complete linked m o t w (r, on, matches, it) =
      let p = or_empty (keys r).path in
      let i = or_empty (keys r).interface in
      let n = or_empty (keys r).member in
      let inside : in_node r (node_at p i n t) ≡ true =
        ground (arith, w.placed p i n r, sits_at_refl (keys r)) in
      let here =
        hit_complete owner keys derived m r (node_at p i n t) (w.fits p i n) inside matches in
      subst (λ q. reached owner m q t ≡ true) it
        (reach_complete m.path (reach m.interface (reach m.member (hit owner m (owner r)))) t p
          (visited (keys r).path m.path (ground arith))
          (reach_complete m.interface (reach m.member (hit owner m (owner r))) (tree_get p t) i
            (visited (keys r).interface m.interface (ground arith))
            (reach_complete m.member (hit owner m (owner r)) (tree_get i (tree_get p t)) n
              (visited (keys r).member m.member (ground arith)) here)))

  pub match_registry_get_destinations_lem :
      (linked : ℕ → Bool) (m : Metadata) (o : ℕ) (t : List ByPath)
      → Places keys linked t
      → (member_of o (match_registry_get_destinations owner m t []) ≡ true)
        ↔ Wants owner keys linked m o
  unfolding member_of
  match_registry_get_destinations_lem linked m o t w =
      let walk : member_of o (match_registry_get_destinations owner m t []) ≡ reached owner m o t =
        member_of-match_registry_get_destinations owner m o t [] in
      (
        (λ h. reached_sound linked m o t w (sym walk ∙ h)),
        (λ h. walk ∙ reached_complete linked m o t w h),
      )
