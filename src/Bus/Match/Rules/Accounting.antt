-- ===== src/Bus/Match/Rules/Accounting.antt =====
-- The charges of the rules of src/bus/match.c on a user's books: none is lost, whichever way an
-- operation ends.
use dbus_broker.Common.{
  ℕ, ◌+◌, ◌<◌, Bytes, Bool, Option, none, some, List, [], ◌∷◌, ◌++◌, ltb, length, ◌≡◌, refl, ap,
  Bool-cases, Option-cases, inl, inr,
}
use dbus_broker.Util.Decimal.{u32_limit}
use dbus_broker.Util.User
use dbus_broker.Util.User.{
  User, Charge, user_charge, user_charge_deinit, user_charge_init, user_ref_usage, charge_slot,
  user_charge_commit_log,
}
use dbus_broker.Util.User.Balance.Ledger.{Books, IsClean, AllClean}
use dbus_broker.Util.User.Pairs.{
  release_two-Books, charge_two, charge_two-Books, charge_two-IsClean,
}
use dbus_broker.Bus.Match.Keys.{MatchKeys}
use dbus_broker.Bus.Match.Matching.{match_keys_equal}
use dbus_broker.Bus.Match.Parse.{Parsed, match_keys_parse}
use dbus_broker.Bus.Match.Rules.{
  Rule, Code, success, invalid, quota, error, assertion, slot_bytes, slot_matches,
  match_rule_length_max, Made, made, failed, with_keys, with_charges, match_rule_new, find_rule,
  match_rule_user_ref, ref_made, match_owner_ref_rule,
}

-- The charges of the rules.
abbrev pub charges : List Rule → List Charge
charges [] = []
charges (r ∷ rs) = r.bytes ∷ r.matches ∷ charges rs

-- The books after a rule was made, or not.
abbrev pub MadeBooks : List Charge → Made → Type 0
MadeBooks others (made u r) = Books u (r.bytes ∷ r.matches ∷ others)
MadeBooks others (failed u assertion) = Unit {0}
MadeBooks others (failed u _) = Books u others

with_keys-Books :
    (u : User) (bytes matches : Charge) (parsed : Option Parsed) (cs : List Charge)
    → Books u (bytes ∷ matches ∷ cs)
    → MadeBooks cs (with_keys u bytes matches parsed)
unfolding with_keys
with_keys-Books u bytes matches none cs b = release_two-Books u bytes matches cs b
with_keys-Books u bytes matches (some (none, used)) cs b = release_two-Books u bytes matches cs b
with_keys-Books u bytes matches (some (some keys, used)) cs b = b

with_charges-Books :
    (parsed : Option Parsed) (charged : User × Charge × Charge × User.Code) (cs : List Charge)
    → Books charged.0 (charged.1 ∷ charged.2 ∷ cs)
    → MadeBooks cs (with_charges parsed charged)
unfolding with_charges
with_charges-Books parsed (u, bytes, matches, User.success) cs b =
    with_keys-Books u bytes matches parsed cs b
with_charges-Books parsed (u, bytes, matches, User.quota) cs b =
    release_two-Books u bytes matches cs b
with_charges-Books parsed (u, bytes, matches, User.error) cs b =
    release_two-Books u bytes matches cs b
with_charges-Books parsed (u, bytes, matches, User.assertion) cs b = tt

pub match_rule_new-Books :
    (is_path : Bytes → Bool) (size : ℕ) (memory usage_memory : Bool) (log : Option Bool) (u : User)
    (string : Bytes) (allow_eavesdrop : Bool) (cs : List Charge)
    → Books u cs
    → u.n_usages + 3 < u32_limit
    → MadeBooks cs (match_rule_new is_path size memory usage_memory log u string allow_eavesdrop)
unfolding match_rule_new
match_rule_new-Books is_path size memory usage_memory log u string allow_eavesdrop cs b few =
    let amount = size + (length string + 1) in
    let charged = charge_two usage_memory log u u.uid (slot_bytes, amount) (slot_matches, 1) in
    let ok =
      with_charges-Books (match_keys_parse is_path allow_eavesdrop string) charged cs
        (charge_two-Books usage_memory log u u.uid slot_bytes amount slot_matches 1 cs b few) in
    elim (Bool-cases (ltb match_rule_length_max (length string))) [
      | inl e ↦ rw e b
      | inr e ↦ elim (Bool-cases memory) [ inl f ↦ rw (e, f) ok | inr f ↦ rw (e, f) b ]
    ]

abbrev MadeClean : Made → Type 0
MadeClean (made u r) = IsClean r.bytes × IsClean r.matches
MadeClean (failed u code) = Unit {0}

with_charges-MadeClean :
    (parsed : Option Parsed) (charged : User × Charge × Charge × User.Code)
    → IsClean charged.1 × IsClean charged.2
    → MadeClean (with_charges parsed charged)
unfolding with_charges with_keys
with_charges-MadeClean none (u, bytes, matches, User.success) c = tt
with_charges-MadeClean (some (none, used)) (u, bytes, matches, User.success) c = tt
with_charges-MadeClean (some (some keys, used)) (u, bytes, matches, User.success) c = c
with_charges-MadeClean parsed (u, bytes, matches, User.quota) c = tt
with_charges-MadeClean parsed (u, bytes, matches, User.error) c = tt
with_charges-MadeClean parsed (u, bytes, matches, User.assertion) c = tt

match_rule_new-MadeClean :
    (is_path : Bytes → Bool) (size : ℕ) (memory usage_memory : Bool) (log : Option Bool) (u : User)
    (string : Bytes) (allow_eavesdrop : Bool)
    → MadeClean (match_rule_new is_path size memory usage_memory log u string allow_eavesdrop)
unfolding match_rule_new
match_rule_new-MadeClean is_path size memory usage_memory log u string allow_eavesdrop =
    let amount = size + (length string + 1) in
    let charged = charge_two usage_memory log u u.uid (slot_bytes, amount) (slot_matches, 1) in
    let ok =
      with_charges-MadeClean (match_keys_parse is_path allow_eavesdrop string) charged
        (charge_two-IsClean usage_memory log u u.uid slot_bytes amount slot_matches 1) in
    elim (Bool-cases (ltb match_rule_length_max (length string))) [
      | inl e ↦ rw e tt
      | inr e ↦ elim (Bool-cases memory) [ inl f ↦ rw (e, f) ok | inr f ↦ rw (e, f) tt ]
    ]

charges-match_rule_user_ref :
    (k : MatchKeys) (rs : List Rule) → charges (match_rule_user_ref k rs) ≡ charges rs
unfolding match_rule_user_ref
charges-match_rule_user_ref k [] = refl
charges-match_rule_user_ref k (r ∷ rs) = elim (Bool-cases (match_keys_equal k r.keys)) [
  | inl e ↦ rw e refl
  | inr e ↦ rw e (ap (λ cs. r.bytes ∷ r.matches ∷ cs) (charges-match_rule_user_ref k rs))
]

-- The books after a reference was asked for: those of the rules there are then, unless an assertion
-- failed.
abbrev pub RefBooks : List Charge → List Rule × User × Code → Type 0
RefBooks others (rules, u, assertion) = Unit {0}
RefBooks others (rules, u, _) = Books u (charges rules ++ others)

pub ref_made-Books :
    (rules : List Rule) (m : Made) (others : List Charge)
    → MadeBooks (charges rules ++ others) m
    → RefBooks others (ref_made rules m)
unfolding ref_made
ref_made-Books rules (failed u success) others b = b
ref_made-Books rules (failed u invalid) others b = b
ref_made-Books rules (failed u quota) others b = b
ref_made-Books rules (failed u error) others b = b
ref_made-Books rules (failed u assertion) others b = tt
ref_made-Books rules (made u rule) others b = elim (Option-cases (find_rule rule.keys rules)) [
  | inl e ↦ rw (ref_made, e) b
  | inr (old, e) ↦
      rw (ref_made, e, charges-match_rule_user_ref rule.keys rules)
        (release_two-Books u rule.bytes rule.matches (charges rules ++ others) b)
]

ref_made-AllClean :
    (rules : List Rule) (m : Made)
    → MadeClean m
    → AllClean (charges rules)
    → AllClean (charges (ref_made rules m).0)
unfolding ref_made
ref_made-AllClean rules (failed u code) c a = a
ref_made-AllClean rules (made u rule) c a = elim (Option-cases (find_rule rule.keys rules)) [
  | inl e ↦ rw (ref_made, e) (c.0, (c.1, a))
  | inr (old, e) ↦ rw (ref_made, e, charges-match_rule_user_ref rule.keys rules) a
]

-- Asking for a rule leaves no rule with a charge that holds something without a usage.
pub match_owner_ref_rule-AllClean :
    (is_path : Bytes → Bool) (size : ℕ) (memory usage_memory : Bool) (log : Option Bool)
    (rules : List Rule) (u : User) (string : Bytes) (allow_eavesdrop : Bool)
    → AllClean (charges rules)
    → let result =
        match_owner_ref_rule is_path size memory usage_memory log rules u string allow_eavesdrop in
      AllClean (charges result.0)
unfolding match_owner_ref_rule
match_owner_ref_rule-AllClean is_path size memory usage_memory log rules u string allow_eavesdrop =
    ref_made-AllClean rules
      (match_rule_new is_path size memory usage_memory log u string allow_eavesdrop)
      (match_rule_new-MadeClean is_path size memory usage_memory log u string allow_eavesdrop)
