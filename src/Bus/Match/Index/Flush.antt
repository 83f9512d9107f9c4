-- ===== src/Bus/Match/Index/Flush.antt =====
-- match_registry_flush() of src/bus/match.c: the walk over both trees that unlinks all rules in them.
use dbus_broker.Common.{
  ℕ, Bytes, bytes_eq, Bool, true, false, ◌||◌, Option, none, some, List, [], ◌∷◌, ◌++◌, ◌==◌,
  if◌then◌else◌, ◌≡◌, refl, sym, ap, ◌∙◌, arith, Bool-cases, inl, inr,
}
use mathlib.Core.Path.{subst}
use dbus_broker.Bus.Match.Keys.{MatchKeys}
use dbus_broker.Bus.Match.Keys.Sender.{SenderDerived}
use dbus_broker.Bus.Match.Tree.{Tree, tree_get}
use dbus_broker.Bus.Match.Index.{
  ByKeys, ByPath, Link, Registry, or_empty, member_of, match_registry_init, match_rule_unlink,
  unlink_if_linked,
}
use dbus_broker.Bus.Match.Index.Nodes.{in_node}
use dbus_broker.Bus.Match.Index.Placement.{Places, node_at}
use dbus_broker.Bus.Match.Index.Destinations.{sits_at_refl}
use dbus_broker.Bus.Match.Index.Runs.{
  Step, run_steps, reachable-Placed, Placed, linked_for, unlink_if_linked-Placed,
}

-- The rules in the order of the walk.
unfoldable pub rules_by_keys : List ByKeys → List ℕ
rules_by_keys [] = []
rules_by_keys (b ∷ bs) = b.rule_list ++ rules_by_keys bs

unfoldable pub walk : {A : Type 0} → (List A → List ℕ) → Tree A → List ℕ
walk inside [] = []
walk inside ((k, v) ∷ t) = inside v ++ walk inside t

unfoldable pub rules_of : List ByPath → List ℕ
unfolding walk rules_by_keys
rules_of t = walk (walk (walk rules_by_keys)) t

module _ (owner : ℕ → ℕ) (keys : ℕ → MatchKeys) where
  unfoldable pub unlink_all : List ℕ → Registry → Registry
  unfolding match_rule_unlink
  unlink_all [] g = g
  unlink_all (r ∷ rs) g = unlink_all rs (match_rule_unlink owner keys r g)

  unfoldable pub match_registry_flush : Registry → Registry
  unfolding unlink_all rules_of
  match_registry_flush g =
      let g' = unlink_all (rules_of g.subscription_tree) g in
      unlink_all (rules_of g'.monitor_tree) g'

member_of-append :
    (r : ℕ) (xs ys : List ℕ) → member_of r (xs ++ ys) ≡ (member_of r xs || member_of r ys)
unfolding member_of
member_of-append r [] ys = refl
member_of-append r (x ∷ xs) ys = ground (arith, member_of-append r xs ys)

in_rules : (r : ℕ) (bs : List ByKeys) → in_node r bs ≡ true → member_of r (rules_by_keys bs) ≡ true
unfolding in_node rules_by_keys
in_rules r [] h = absurd (ground arith)
in_rules r (b ∷ bs) h = elim (Bool-cases (member_of r b.rule_list)) [
  | inl e ↦ ground (arith, member_of-append r b.rule_list (rules_by_keys bs))
  | inr e ↦
      ground
        (arith, member_of-append r b.rule_list (rules_by_keys bs), in_rules r bs (ground arith))
]

module _ {A : Type 0} where
  in_walk :
      (r : ℕ) (q : Bytes) (inside : List A → List ℕ) (t : Tree A)
      → member_of r (inside []) ≡ false
      → member_of r (inside (tree_get q t)) ≡ true
      → member_of r (walk inside t) ≡ true
  unfolding tree_get walk
  in_walk r q inside [] empty h = absurd (ground arith)
  in_walk r q inside ((k, v) ∷ t) empty h = elim (Bool-cases (bytes_eq k q)) [
    | inl e ↦
        let here = subst (λ b. member_of r (inside (if b then v else tree_get q t)) ≡ true) e h in
        ground (arith, member_of-append r (inside v) (walk inside t), here)
    | inr e ↦
        let later = subst (λ b. member_of r (inside (if b then v else tree_get q t)) ≡ true) e h in
        ground
          (arith, member_of-append r (inside v) (walk inside t), in_walk r q inside t empty later)
  ]

in_rules_of :
    (r : ℕ) (p i m : Bytes) (t : List ByPath)
    → in_node r (node_at p i m t) ≡ true
    → member_of r (rules_of t) ≡ true
unfolding node_at rules_of walk rules_by_keys member_of
in_rules_of r p i m t h = in_walk r p (walk (walk rules_by_keys)) t refl (
    in_walk r i (walk rules_by_keys) (tree_get p t) refl (
      in_walk r m rules_by_keys (tree_get i (tree_get p t)) refl
        (in_rules r (tree_get m (tree_get i (tree_get p t))) h)))

-- Every linked rule is met on the walk.
walk-Places :
    (keys : ℕ → MatchKeys) (linked : ℕ → Bool) (t : List ByPath) (r : ℕ)
    → Places keys linked t
    → linked r ≡ true
    → member_of r (rules_of t) ≡ true
walk-Places keys linked t r w on =
    let k = keys r in
    in_rules_of r (or_empty k.path) (or_empty k.interface) (or_empty k.member) t (
      ground (
        arith,
        w.placed (or_empty k.path) (or_empty k.interface) (or_empty k.member) r,
        sits_at_refl k,
      ))

module _ (owner : ℕ → ℕ) (keys : ℕ → MatchKeys) where
  unlink_if_linked_lem :
      (l : Option Link) (n : ℕ) (g : Registry)
      → g.links n ≡ l
      → (r : ℕ) → (unlink_if_linked owner keys l n g).links r ≡ (if n == r then none else g.links r)
  unfolding unlink_if_linked
  unlink_if_linked_lem none n g e r = elim (Bool-cases (n == r)) [
    | inl f ↦ let this : n ≡ r = ground arith in rw f (ap g.links (sym this) ∙ e)
    | inr f ↦ rw f refl
  ]
  unlink_if_linked_lem (some l) n g e r = elim (Bool-cases (n == r)) [
    | inl f ↦ let back : (r == n) ≡ true = ground arith in rw (f, back) refl
    | inr f ↦ let back : (r == n) ≡ false = ground arith in rw (f, back) refl
  ]

  links_unlinked :
      (n : ℕ) (g : Registry) (r : ℕ)
      → (match_rule_unlink owner keys n g).links r ≡ (if n == r then none else g.links r)
  unfolding match_rule_unlink
  links_unlinked n g r = unlink_if_linked_lem (g.links n) n g refl r

  unlink_all_lem :
      (rs : List ℕ) (g : Registry) (r : ℕ)
      → (unlink_all owner keys rs g).links r ≡ (if member_of r rs then none else g.links r)
  unfolding unlink_all member_of
  unlink_all_lem [] g r = refl
  unlink_all_lem (n ∷ rs) g r =
      unlink_all_lem rs (match_rule_unlink owner keys n g) r ∙ ground (arith, links_unlinked n g r)

  gone :
      (rs : List ℕ) (g : Registry) (r : ℕ)
      → member_of r rs ≡ true
      → (unlink_all owner keys rs g).links r ≡ none
  gone rs g r h = unlink_all_lem rs g r ∙ rw h refl

  stays_gone :
      (rs : List ℕ) (g : Registry) (r : ℕ)
      → g.links r ≡ none
      → (unlink_all owner keys rs g).links r ≡ none
  stays_gone rs g r h = unlink_all_lem rs g r ∙ ground (arith, h)

  stays_unlinked :
      (monitor : Bool) (rs : List ℕ) (g : Registry) (r : ℕ)
      → linked_for monitor g r ≡ false
      → linked_for monitor (unlink_all owner keys rs g) r ≡ false
  stays_unlinked monitor rs g r h = elim (Bool-cases (member_of r rs)) [
    | inl e ↦ rw (gone rs g r e) refl
    | inr e ↦ rw (unlink_all_lem rs g r, e) h
  ]

module _ (owner : ℕ → ℕ) (keys : ℕ → MatchKeys) (derived : (r : ℕ) → SenderDerived (keys r)) where
  unlink_all-Placed :
      (rs : List ℕ) (g : Registry) → Placed keys g → Placed keys (unlink_all owner keys rs g)
  unfolding unlink_all match_rule_unlink
  unlink_all-Placed [] g w = w
  unlink_all-Placed (n ∷ rs) g w =
      unlink_all-Placed rs (match_rule_unlink owner keys n g)
        (unlink_if_linked-Placed owner keys derived (g.links n) n g refl w)

  pub match_registry_flush-Placed :
      (g : Registry) → Placed keys g → Placed keys (match_registry_flush owner keys g)
  unfolding match_registry_flush
  match_registry_flush-Placed g w =
      let g' = unlink_all owner keys (rules_of g.subscription_tree) g in
      unlink_all-Placed (rules_of g'.monitor_tree) g'
        (unlink_all-Placed (rules_of g.subscription_tree) g w)

  -- A rule that is linked in neither way is not linked.
  pub neither :
      (g : Registry) (r : ℕ)
      → linked_for false g r ≡ false
      → linked_for true g r ≡ false
      → g.links r ≡ none
  neither g r a b = ground arith

  pub flushed :
      (g : Registry) (r : ℕ) → Placed keys g → (match_registry_flush owner keys g).links r ≡ none
  unfolding match_registry_flush
  flushed g r w =
      let subscribed = rules_of g.subscription_tree in
      let g' = unlink_all owner keys subscribed g in
      let w' = unlink_all-Placed subscribed g w in
      let rest = rules_of g'.monitor_tree in
      elim (Bool-cases (linked_for false g r)) [
        | inl e ↦ stays_gone owner keys rest g' r (
            gone owner keys subscribed g r
              (walk-Places keys (linked_for false g) g.subscription_tree r w.0 e))
        | inr e ↦ elim (Bool-cases (linked_for true g' r)) [
          | inl f ↦
              gone owner keys rest g' r
                (walk-Places keys (linked_for true g') g'.monitor_tree r w'.1 f)
          | inr f ↦
              stays_gone owner keys rest g' r
                (neither g' r (stays_unlinked owner keys false subscribed g r e) f)
        ]
      ]

  -- After any sequence of links and unlinks of rules whose sender IDs are those of their senders,
  -- flushing the registry leaves no rule linked.
  pub match_registry_flush_lem :
      (steps : List Step) (r : ℕ)
      → (match_registry_flush owner keys (run_steps owner keys steps match_registry_init)).links r
        ≡ none
  match_registry_flush_lem steps r =
      flushed (run_steps owner keys steps match_registry_init) r
        (reachable-Placed owner keys derived steps)
