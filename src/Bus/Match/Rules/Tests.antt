-- ===== src/Bus/Match/Rules/Tests.antt =====
-- Rules of an owner of src/bus/match.c.
use dbus_broker.Common.{
  bytes_eq, Bytes, codes, Bool, true, false, none, some, Option, List, ◌∷◌, [], ◌≡◌, refl, arith,
}
use dbus_broker.Util.User.{
  User, user_new, user_ref_usage, find_usage, charge_slot, modify_usage, set_slot, references,
  sub32, add32,
}
use dbus_broker.Util.User.Release.{user_new-Books}
use dbus_broker.Bus.Match.Matching.{match_keys_equal, string_equal, all_args}
use dbus_broker.Bus.Match.{match_parse_key, match_copy_value, prepend}
use dbus_broker.Bus.Match.Keys.{MatchKeys, match_keys_assign, match_keys_null}
use dbus_broker.Bus.Match.Rules.{Rule, Code, match_owner_ref_rule, match_rule_user_unref}
use dbus_broker.Bus.Match.Rules.Accounting.{RefBooks}
use dbus_broker.Bus.Match.Rules.References.{AllReferenced, OwnerBooks, match_owner_ref_rule-Books}

abbrev first_keys : List Rule → MatchKeys
first_keys [] = match_keys_null
first_keys (r ∷ rs) = r.keys

abbrev rules_left : Option (List Rule × User) → Option (List Rule)
rules_left none = none
rules_left (some (rules, user)) = some rules

abbrev any_path : Bytes → Bool
any_path v = true

abbrev user : User
user = user_new 7 4 (λ s. 5000)

abbrev string : Bytes
string = codes "type='signal'"

user-OwnerBooks : OwnerBooks [] [] user
user-OwnerBooks = (tt, user_new-Books 7 4 (λ s. 5000) (λ s. omega arith))

abbrev result : List Rule × User × Code
result = match_owner_ref_rule any_path 100 true true none [] user string false

match_owner_ref_rule-Books_example : AllReferenced result.0 × RefBooks [] result
unfolding user_new
match_owner_ref_rule-Books_example =
    match_owner_ref_rule-Books any_path 100 true true none [] [] user string false user-OwnerBooks
      (omega arith)

-- The keys of the rule that was made.
abbrev keys : MatchKeys
keys = first_keys result.0

-- It is dropped.
rule_gone : rules_left (match_rule_user_unref keys result.0 result.1) ≡ some []
unfolding match_owner_ref_rule user_ref_usage find_usage user_new charge_slot modify_usage set_slot
    match_parse_key match_copy_value prepend match_keys_assign bytes_eq match_rule_user_unref
    match_keys_equal string_equal all_args references sub32 add32
rule_gone = refl
