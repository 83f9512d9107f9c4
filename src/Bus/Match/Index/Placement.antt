-- ===== src/Bus/Match/Index/Placement.antt =====
-- Where the rules of a tree of src/bus/match.c are: each linked rule at its own path, interface and
-- member, and no other rule anywhere.
use dbus_broker.Common.{
  ℕ, Bytes, bytes_eq, Bool, true, false, ◌&&◌, List, [], ◌==◌, if◌then◌else◌, ◌≡◌, refl, sym, ap,
  ◌∙◌, Bool-cases, inl, inr, arith,
}
use mathlib.Core.Path.{subst}
use dbus_broker.Bus.Match.Keys.{MatchKeys}
use dbus_broker.Bus.Match.Keys.Sender.{SenderDerived}
use dbus_broker.Bus.Match.Tree.{tree_get, Keyed, get-Keyed, tree_get_written, tree_write-Keyed}
use dbus_broker.Bus.Match.Index.{
  ByKeys, ByMember, ByInterface, ByPath, or_empty, match_rule_link_by_member, unlink_by_keys,
  match_rule_link_by_interface, match_rule_link_by_path, write_rule,
}
use dbus_broker.Bus.Match.Index.Nodes.{
  in_node, Fits, in_node-match_rule_link_by_member, in_node-unlink_by_keys,
  match_rule_link_by_member-Fits, unlink_by_keys-Fits,
}

abbrev pub KeyedMembers : List ByMember → Type 0
KeyedMembers t = Keyed (λ bs. Unit {0}) t

abbrev pub KeyedInterfaces : List ByInterface → Type 0
KeyedInterfaces t = Keyed KeyedMembers t

abbrev pub KeyedPaths : List ByPath → Type 0
KeyedPaths t = Keyed KeyedInterfaces t

unfoldable pub node_at : Bytes → Bytes → Bytes → List ByPath → List ByKeys
unfolding tree_get
node_at p i m t = tree_get m (tree_get i (tree_get p t))

unfoldable pub sits_at : MatchKeys → Bytes → Bytes → Bytes → Bool
unfolding bytes_eq
sits_at k p i m =
    bytes_eq (or_empty k.path) p
    && bytes_eq (or_empty k.interface) i
    && bytes_eq (or_empty k.member) m

write_rule-Keyed :
    (k : MatchKeys) (w : List ByKeys → List ByKeys) (t : List ByPath)
    → KeyedPaths t
    → KeyedPaths (write_rule k w t)
unfolding write_rule match_rule_link_by_path match_rule_link_by_interface
write_rule-Keyed k w t keyed =
    tree_write-Keyed KeyedInterfaces (or_empty k.path) (match_rule_link_by_path k w) t tt
      (λ v.
        tree_write-Keyed KeyedMembers (or_empty k.interface) (match_rule_link_by_interface k w) v tt
          (λ u. tree_write-Keyed (λ bs. Unit {0}) (or_empty k.member) w u tt (λ x y. tt)))
      keyed

node_at-write_rule :
    (k : MatchKeys) (w : List ByKeys → List ByKeys) (p i m : Bytes) (t : List ByPath)
    → KeyedPaths t
    → node_at p i m (write_rule k w t)
      ≡ (if sits_at k p i m then w (node_at p i m t) else node_at p i m t)
unfolding write_rule match_rule_link_by_path match_rule_link_by_interface node_at sits_at
node_at-write_rule k w p i m t keyed =
    let paths = get-Keyed KeyedInterfaces p t tt keyed in
    let members = get-Keyed KeyedMembers i (tree_get p t) tt paths in
    let above =
      tree_get_written KeyedInterfaces (or_empty k.path) p (match_rule_link_by_path k w) t keyed in
    let middle =
      tree_get_written KeyedMembers (or_empty k.interface) i (match_rule_link_by_interface k w)
        (tree_get p t) paths in
    let below =
      tree_get_written (λ bs. Unit {0}) (or_empty k.member) m w (tree_get i (tree_get p t))
        members in
    rw above (elim (Bool-cases (bytes_eq (or_empty k.path) p)) [
      | inr e ↦ rw e refl
      | inl e ↦
          rw (e, middle)
            (elim (Bool-cases (bytes_eq (or_empty k.interface) i)) [
              | inr f ↦ rw f refl
              | inl f ↦ rw (f, below) refl
            ])
    ])

-- Of a tree and which rules are linked in it.
pub record Places (keys : ℕ → MatchKeys) (linked : ℕ → Bool) (t : List ByPath) : Type 0 where
  pub keyed : KeyedPaths t
  pub fits : (p i m : Bytes) → Fits keys (node_at p i m t)
  pub placed :
      (p i m : Bytes) (r : ℕ) → in_node r (node_at p i m t) ≡ (linked r && sits_at (keys r) p i m)

module _ (keys : ℕ → MatchKeys) where
  pub empty-Places : Places keys (λ r. false) []
  unfolding node_at tree_get in_node
  empty-Places = record { keyed = tt; fits = λ p i m. tt; placed = λ p i m r. refl }

  pub cong-Places :
      (linked after : ℕ → Bool) (t : List ByPath)
      → ((r : ℕ) → after r ≡ linked r)
      → Places keys linked t
      → Places keys after t
  cong-Places linked after t same w = record {
    keyed = w.keyed;
    fits = w.fits;
    placed = λ p i m r. w.placed p i m r ∙ sym (ap (λ b. b && sits_at (keys r) p i m) (same r));
  }

  write_rule-Fits :
      (n : ℕ) (w : List ByKeys → List ByKeys) (p i m : Bytes) (t : List ByPath)
      → KeyedPaths t
      → ((bs : List ByKeys) → Fits keys bs → Fits keys (w bs))
      → Fits keys (node_at p i m t)
      → Fits keys (node_at p i m (write_rule (keys n) w t))
  write_rule-Fits n w p i m t keyed keeps fits =
      rw (node_at-write_rule (keys n) w p i m t keyed) (elim (Bool-cases (sits_at (keys n) p i m)) [
        | inl e ↦ rw e (keeps (node_at p i m t) fits)
        | inr e ↦ rw e fits
      ])

  pub link-Places :
      (n : ℕ) (linked after : ℕ → Bool) (t : List ByPath)
      → SenderDerived (keys n)
      → after n ≡ true
      → ((r : ℕ) → (r == n) ≡ false → after r ≡ linked r)
      → Places keys linked t
      → Places keys after (write_rule (keys n) (match_rule_link_by_member n (keys n)) t)
  link-Places n linked after t derived now same w = record {
    keyed = write_rule-Keyed (keys n) (match_rule_link_by_member n (keys n)) t w.keyed;
    fits = λ p i m.
        write_rule-Fits n (match_rule_link_by_member n (keys n)) p i m t w.keyed
          (λ bs. match_rule_link_by_member-Fits keys n bs derived) (w.fits p i m);
    placed = λ p i m r.
        rw (node_at-write_rule (keys n) (match_rule_link_by_member n (keys n)) p i m t w.keyed)
          (elim (Bool-cases (r == n)) [
            | inl e ↦
                let here : n ≡ r = ground arith in
                subst
                  (λ q.
                    in_node q (
                      if sits_at (keys n) p i m
                      then match_rule_link_by_member n (keys n) (node_at p i m t)
                      else node_at p i m t)
                    ≡ (after q && sits_at (keys q) p i m))
                  here
                  (ground (
                    arith,
                    w.placed p i m n,
                    now,
                    in_node-match_rule_link_by_member n n (keys n) (node_at p i m t),
                  ))
            | inr e ↦ ground (
              arith,
              w.placed p i m r,
              same r e,
              in_node-match_rule_link_by_member r n (keys n) (node_at p i m t),
            )
          ]);
  }

  pub unlink-Places :
      (n : ℕ) (linked after : ℕ → Bool) (t : List ByPath)
      → after n ≡ false
      → ((r : ℕ) → (r == n) ≡ false → after r ≡ linked r)
      → Places keys linked t
      → Places keys after (write_rule (keys n) (unlink_by_keys n) t)
  unlink-Places n linked after t now same w = record {
    keyed = write_rule-Keyed (keys n) (unlink_by_keys n) t w.keyed;
    fits = λ p i m.
        write_rule-Fits n (unlink_by_keys n) p i m t w.keyed (unlink_by_keys-Fits keys n)
          (w.fits p i m);
    placed = λ p i m r.
        rw (node_at-write_rule (keys n) (unlink_by_keys n) p i m t w.keyed)
          (elim (Bool-cases (r == n)) [
            | inl e ↦
                let here : n ≡ r = ground arith in
                subst
                  (λ q.
                    in_node q (
                      if sits_at (keys n) p i m
                      then unlink_by_keys n (node_at p i m t)
                      else node_at p i m t)
                    ≡ (after q && sits_at (keys q) p i m))
                  here
                  (ground
                    (arith, w.placed p i m n, now, in_node-unlink_by_keys n n (node_at p i m t)))
            | inr e ↦
                ground
                  (arith, w.placed p i m r, same r e, in_node-unlink_by_keys r n (node_at p i m t))
          ]);
  }
