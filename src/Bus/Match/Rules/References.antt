-- ===== src/Bus/Match/Rules/References.antt =====
-- The references and charges of the rules of an owner in src/bus/match.c, over its two operations.
use dbus_broker.Common.{
  ℕ, ◌+◌, ◌<◌, ◌≤◌, Bytes, Bool, Option, some, List, [], ◌∷◌, ◌++◌, ◌≡◌, arith, Bool-cases,
  Option-cases, inl, inr,
}
use dbus_broker.Util.Decimal.{u32_limit}
use dbus_broker.Util.User.{User, Charge}
use dbus_broker.Util.User.Balance.Ledger.{Books, AllClean}
use dbus_broker.Util.User.Pairs.{release_two}
use dbus_broker.Bus.Match.Keys.{MatchKeys}
use dbus_broker.Bus.Match.Matching.{match_keys_equal}
use dbus_broker.Bus.Match.Rules.{
  Rule, Code, success, invalid, quota, error, assertion, release_two, Made, made, failed,
  match_rule_new, find_rule, match_rule_user_ref, ref_made, match_owner_ref_rule,
}
use dbus_broker.Bus.Match.Rules.Accounting.{charges, match_rule_new-Books, RefBooks, ref_made-Books}

-- Every rule of an owner has a reference.
abbrev pub AllReferenced : List Rule → Type 0
AllReferenced [] = Unit {0}
AllReferenced (r ∷ rs) = (1 ≤ r.n_user_refs) × AllReferenced rs

-- The rules of an owner, with the books of the user that they and other charges are on.
abbrev pub OwnerBooks : List Charge → List Rule → User → Type 0
OwnerBooks others rules u = AllReferenced rules × Books u (charges rules ++ others)

match_rule_user_ref-AllReferenced :
    (k : MatchKeys) (rs : List Rule) → AllReferenced rs → AllReferenced (match_rule_user_ref k rs)
unfolding match_rule_user_ref
match_rule_user_ref-AllReferenced k [] a = tt
match_rule_user_ref-AllReferenced k (r ∷ rs) (some_refs, a) =
    elim (Bool-cases (match_keys_equal k r.keys)) [
      | inl e ↦ rw e (ground arith, a)
      | inr e ↦ rw e (some_refs, match_rule_user_ref-AllReferenced k rs a)
    ]

ref_made-AllReferenced :
    (rules : List Rule) (m : Made) → AllReferenced rules → AllReferenced (ref_made rules m).0
unfolding ref_made
ref_made-AllReferenced rules (failed u code) a = a
ref_made-AllReferenced rules (made u rule) a = elim (Option-cases (find_rule rule.keys rules)) [
  | inl e ↦ rw (ref_made, e) (ground arith, a)
  | inr (old, e) ↦ rw (ref_made, e) (match_rule_user_ref-AllReferenced rule.keys rules a)
]

-- Asking for a rule, on a user whose books agree with the charges of the owner's rules and with
-- others: unless an assertion of the accounting fails, the books agree with the rules there are then,
-- also when the rule is invalid, too long or over the quota, or memory runs out; and every rule has a
-- reference.
pub match_owner_ref_rule-Books :
    (is_path : Bytes → Bool) (size : ℕ) (memory usage_memory : Bool) (log : Option Bool)
    (others : List Charge) (rules : List Rule) (u : User) (string : Bytes) (allow_eavesdrop : Bool)
    → OwnerBooks others rules u
    → u.n_usages + 3 < u32_limit
    → let result =
        match_owner_ref_rule is_path size memory usage_memory log rules u string allow_eavesdrop in
      AllReferenced result.0 × RefBooks others result
unfolding match_owner_ref_rule
match_owner_ref_rule-Books is_path size memory usage_memory log others rules u string
      allow_eavesdrop (a, b) few =
    let m = match_rule_new is_path size memory usage_memory log u string allow_eavesdrop in
    (
      ref_made-AllReferenced rules m a,
      ref_made-Books rules m others (
          match_rule_new-Books is_path size memory usage_memory log u string allow_eavesdrop
            (charges rules ++ others) b few),
    )

pub success-OwnerBooks :
    (others : List Charge) (result : List Rule × User × Code)
    → result.2 ≡ success
    → AllReferenced result.0 × RefBooks others result
    → OwnerBooks others result.0 result.1
success-OwnerBooks others (rules, u, success) e w = w
success-OwnerBooks others (rules, u, invalid) e w = w
success-OwnerBooks others (rules, u, quota) e w = w
success-OwnerBooks others (rules, u, error) e w = w
success-OwnerBooks others (rules, u, assertion) e w = absurd (cc)

-- What is left after a reference is dropped.
abbrev pub Dropped : List Charge → Option (List Rule × User) → Type 0
Dropped others o =
    (r : List Rule × User) × (o ≡ some r) × OwnerBooks others r.0 r.1 × AllClean (charges r.0)
