-- ===== src/Bus/Match/Index/Runs.antt =====
-- The registry of src/bus/match.c over any sequence of its operations.
use dbus_broker.Common.{
  ℕ, Bool, true, false, not, ◌↔◌, ap, sym, ◌∙◌, Option, none, some, List, [], ◌∷◌, ◌==◌,
  if◌then◌else◌, ◌≡◌, refl, Bool-cases, inl, inr, arith,
}
use dbus_broker.Bus.Match.Keys.{MatchKeys}
use dbus_broker.Bus.Match.Matching.{Metadata}
use dbus_broker.Bus.Match.Keys.Sender.{SenderDerived}
use dbus_broker.Bus.Match.Index.{
  Link, Registry, member_of, match_registry_init, link_in, unlink_in, set_link, count_link,
  uncount_link, link_if_free, unlink_if_linked, match_rule_link, match_rule_unlink,
  match_registry_get_subscribers, match_registry_get_monitors,
}
use dbus_broker.Bus.Match.Index.Placement.{
  Places, empty-Places, cong-Places, link-Places, unlink-Places,
}
use dbus_broker.Bus.Match.Index.Destinations.{Wants, match_registry_get_destinations_lem}

-- Of a rule, whether counters are given and whether it is for monitoring.
pub data Step : Type 0 where
  link : ℕ → Bool → Bool → Step
  unlink : ℕ → Step

-- Whether a rule is linked for monitoring, or for a subscription.
abbrev pub is_for : Bool → Option Link → Bool
is_for monitor none = false
is_for monitor (some l) = if monitor then l.monitor else not l.monitor

abbrev pub linked_for : Bool → Registry → ℕ → Bool
linked_for monitor g r = is_for monitor (g.links r)

abbrev pub Placed : (ℕ → MatchKeys) → Registry → Type 0
Placed keys g =
    Places keys (linked_for false g) g.subscription_tree
    × Places keys (linked_for true g) g.monitor_tree

module _ (owner : ℕ → ℕ) (keys : ℕ → MatchKeys) where
  unfoldable pub run_steps : List Step → Registry → Registry
  unfolding match_rule_link match_rule_unlink
  run_steps [] g = g
  run_steps (link r counted monitor ∷ steps) g =
      run_steps steps (match_rule_link owner keys r counted monitor g)
  run_steps (unlink r ∷ steps) g = run_steps steps (match_rule_unlink owner keys r g)

abbrev set_links : ℕ → Option Link → Registry → Registry
set_links r l g = record g { links = set_link r l g.links }

==_refl : (n : ℕ) → (n == n) ≡ true
==_refl n = ground arith

others :
    (monitor : Bool) (r : ℕ) (l : Option Link) (g : Registry) (q : ℕ)
    → (q == r) ≡ false
    → linked_for monitor (set_links r l g) q ≡ linked_for monitor g q
others monitor r l g q h = rw h refl

-- A tree that the rule is not for, before or after.
unchanged :
    (monitor : Bool) (r : ℕ) (l : Option Link) (g : Registry)
    → is_for monitor l ≡ is_for monitor (g.links r)
    → (q : ℕ) → linked_for monitor (set_links r l g) q ≡ linked_for monitor g q
unchanged monitor r l g same q = elim (Bool-cases (q == r)) [
  | inr e ↦ rw e refl
  | inl e ↦ let this : q ≡ r = ground arith in rw e (same ∙ ap (linked_for monitor g) (sym this))
]

module _ (owner : ℕ → ℕ) (keys : ℕ → MatchKeys) (derived : (r : ℕ) → SenderDerived (keys r)) where
  link_in-Placed :
      (r : ℕ) (counted monitor : Bool) (g : Registry)
      → g.links r ≡ none
      → Placed keys g
      → Placed keys (
          set_links r
            (some (record { monitor = monitor; counted = counted }))
            (link_in owner keys monitor r g))
  unfolding link_in
  link_in-Placed r counted false g e (subscribed, monitored) =
      let l = some (record { monitor = false; counted = counted }) in
      (
        link-Places keys r (linked_for false g) (linked_for false (set_links r l g))
            g.subscription_tree (derived r) (rw (==_refl r) refl) (others false r l g) subscribed,
        cong-Places keys (linked_for true g) (linked_for true (set_links r l g)) g.monitor_tree
            (unchanged true r l g (ap (is_for true) (sym e))) monitored,
      )
  link_in-Placed r counted true g e (subscribed, monitored) =
      let l = some (record { monitor = true; counted = counted }) in
      (
        cong-Places keys (linked_for false g) (linked_for false (set_links r l g))
            g.subscription_tree (unchanged false r l g (ap (is_for false) (sym e))) subscribed,
        link-Places keys r (linked_for true g) (linked_for true (set_links r l g)) g.monitor_tree
            (derived r) (rw (==_refl r) refl) (others true r l g) monitored,
      )

  unlink_in-Placed :
      (r : ℕ) (counted monitor : Bool) (g : Registry)
      → g.links r ≡ some (record { monitor = monitor; counted = counted })
      → Placed keys g
      → Placed keys (set_links r none (unlink_in owner keys monitor r g))
  unfolding unlink_in
  unlink_in-Placed r counted false g e (subscribed, monitored) = (
    unlink-Places keys r (linked_for false g) (linked_for false (set_links r none g))
        g.subscription_tree (rw (==_refl r) refl) (others false r none g) subscribed,
    cong-Places keys (linked_for true g) (linked_for true (set_links r none g)) g.monitor_tree
        (unchanged true r none g (ap (is_for true) (sym e))) monitored,
  )
  unlink_in-Placed r counted true g e (subscribed, monitored) = (
    cong-Places keys (linked_for false g) (linked_for false (set_links r none g))
        g.subscription_tree (unchanged false r none g (ap (is_for false) (sym e))) subscribed,
    unlink-Places keys r (linked_for true g) (linked_for true (set_links r none g)) g.monitor_tree
        (rw (==_refl r) refl) (others true r none g) monitored,
  )

  pub link_if_free-Placed :
      (l : Option Link) (r : ℕ) (counted monitor : Bool) (g : Registry)
      → g.links r ≡ l
      → Placed keys g
      → Placed keys (link_if_free owner keys l r counted monitor g)
  unfolding link_if_free link_in count_link
  link_if_free-Placed (some l) r counted monitor g e w = w
  link_if_free-Placed none r true true g e w = link_in-Placed r true true g e w
  link_if_free-Placed none r true false g e w = link_in-Placed r true false g e w
  link_if_free-Placed none r false true g e w = link_in-Placed r false true g e w
  link_if_free-Placed none r false false g e w = link_in-Placed r false false g e w

  unlink_linked-Placed :
      (r : ℕ) (counted monitor : Bool) (g : Registry)
      → g.links r ≡ some (record { monitor = monitor; counted = counted })
      → Placed keys g
      → Placed keys
          (unlink_if_linked owner keys (some (record { monitor = monitor; counted = counted })) r g)
  unfolding unlink_if_linked unlink_in uncount_link
  unlink_linked-Placed r true true g e w = unlink_in-Placed r true true g e w
  unlink_linked-Placed r true false g e w = unlink_in-Placed r true false g e w
  unlink_linked-Placed r false true g e w = unlink_in-Placed r false true g e w
  unlink_linked-Placed r false false g e w = unlink_in-Placed r false false g e w

  pub unlink_if_linked-Placed :
      (l : Option Link) (r : ℕ) (g : Registry)
      → g.links r ≡ l
      → Placed keys g
      → Placed keys (unlink_if_linked owner keys l r g)
  unfolding unlink_if_linked
  unlink_if_linked-Placed none r g e w = w
  unlink_if_linked-Placed (some l) r g e w = unlink_linked-Placed r l.counted l.monitor g e w

  run_steps-Placed :
      (steps : List Step) (g : Registry)
      → Placed keys g
      → Placed keys (run_steps owner keys steps g)
  unfolding run_steps match_rule_link match_rule_unlink
  run_steps-Placed [] g w = w
  run_steps-Placed (link r counted monitor ∷ steps) g w =
      run_steps-Placed steps (match_rule_link owner keys r counted monitor g)
        (link_if_free-Placed (g.links r) r counted monitor g refl w)
  run_steps-Placed (unlink r ∷ steps) g w =
      run_steps-Placed steps (match_rule_unlink owner keys r g)
        (unlink_if_linked-Placed (g.links r) r g refl w)

  pub reachable-Placed :
      (steps : List Step) → Placed keys (run_steps owner keys steps match_registry_init)
  reachable-Placed steps =
      run_steps-Placed steps match_registry_init (empty-Places keys, empty-Places keys)

  -- After any sequence of links and unlinks of rules whose sender IDs are those of their senders, the
  -- subscribers found for a message are the owners of the rules that are linked for subscriptions and
  -- whose keys fit the message, and no others.
  pub match_registry_get_subscribers_lem :
      (steps : List Step) (m : Metadata) (o : ℕ)
      → (member_of o (
            match_registry_get_subscribers owner keys
              (run_steps owner keys steps match_registry_init)
              m)
          ≡ true)
        ↔ Wants owner keys (linked_for false (run_steps owner keys steps match_registry_init)) m o
  unfolding match_registry_get_subscribers
  match_registry_get_subscribers_lem steps m o =
      let g = run_steps owner keys steps match_registry_init in
      let w = reachable-Placed steps in
      match_registry_get_destinations_lem owner keys derived (linked_for false g) m o
        g.subscription_tree w.0

  -- After any sequence of links and unlinks of rules whose sender IDs are those of their senders, the
  -- monitors found for a message are the owners of the rules that are linked for monitoring and whose
  -- keys fit the message, and no others.
  pub match_registry_get_monitors_lem :
      (steps : List Step) (m : Metadata) (o : ℕ)
      → (member_of o (
            match_registry_get_monitors owner keys
              (run_steps owner keys steps match_registry_init)
              m)
          ≡ true)
        ↔ Wants owner keys (linked_for true (run_steps owner keys steps match_registry_init)) m o
  unfolding match_registry_get_monitors
  match_registry_get_monitors_lem steps m o =
      let g = run_steps owner keys steps match_registry_init in
      let w = reachable-Placed steps in
      match_registry_get_destinations_lem owner keys derived (linked_for true g) m o g.monitor_tree
        w.1
