-- ===== src/Bus/Match/Rules.antt =====
-- The rules of an owner in src/bus/match.c: match_rule_new(), match_owner_ref_rule(),
-- match_rule_user_ref() and match_rule_user_unref(), with the charges on the user. The tree of an
-- owner's rules is a list without equal keys. A rule that is freed also leaves the registry, which is
-- match_rule_unlink() of Match/Index and is not repeated here.
pub mod Accounting
pub mod References
pub mod Tests
use dbus_broker.Common.{
  ℕ, suc, ◌+◌, ◌-◌, Bytes, Bool, true, false, Option, none, some, List, [], ◌∷◌, ltb, ◌==◌,
  if◌then◌else◌, length,
}
use dbus_broker.Util.User
use dbus_broker.Util.User.{User, Charge, user_charge, user_charge_deinit, user_charge_init, add32}
use dbus_broker.Util.User.Pairs.{release_two, release_two_code, charge_two}
use dbus_broker.Bus.Match.Keys.{MatchKeys}
use dbus_broker.Bus.Match.Matching.{match_keys_equal}
use dbus_broker.Bus.Match.Parse.{Parsed, match_keys_parse}

-- MatchRule, as far as its owner sees it
pub record Rule : Type 0 where
  pub keys : MatchKeys
  pub bytes : Charge
  pub matches : Charge
  pub n_user_refs : ℕ

-- 0, MATCH_E_INVALID, MATCH_E_QUOTA, other errors, and a failed assertion
pub data Code : Type 0 where
  success : Code
  invalid : Code
  quota : Code
  error : Code
  assertion : Code

-- MATCH_RULE_LENGTH_MAX, USER_SLOT_BYTES and USER_SLOT_MATCHES
abbrev pub match_rule_length_max : ℕ
match_rule_length_max = 1024

abbrev pub slot_bytes : ℕ
slot_bytes = 0

abbrev pub slot_matches : ℕ
slot_matches = 2

-- What match_rule_new() makes.
pub data Made : Type 0 where
  made : User → Rule → Made
  failed : User → Code → Made

-- The rule with its keys, or what is left when they are invalid.
unfoldable pub with_keys : User → Charge → Charge → Option Parsed → Made
unfolding release_two
with_keys user bytes matches none = failed (release_two user bytes matches) invalid
with_keys user bytes matches (some (none, used)) = failed (release_two user bytes matches) invalid
with_keys user bytes matches (some (some keys, used)) =
    made user (record { keys = keys; bytes = bytes; matches = matches; n_user_refs = 0 })

-- What comes of the charges, of the bytes and of the rule; an error frees the rule.
unfoldable pub with_charges : Option Parsed → User × Charge × Charge × User.Code → Made
unfolding with_keys release_two
with_charges parsed (user, bytes, matches, User.success) = with_keys user bytes matches parsed
with_charges parsed (user, bytes, matches, User.quota) =
    failed (release_two user bytes matches) quota
with_charges parsed (user, bytes, matches, User.error) =
    failed (release_two user bytes matches) error
with_charges parsed (user, bytes, matches, User.assertion) = failed user assertion

-- `size` is sizeof(MatchRule), `memory` says whether the rule can be allocated and `usage_memory`
-- whether a usage can, and `log` is the user's log. A user charges itself.
module _ (is_path : Bytes → Bool) (size : ℕ) (memory usage_memory : Bool) (log : Option Bool) where
  unfoldable pub match_rule_new : User → Bytes → Bool → Made
  unfolding with_charges charge_two match_keys_parse
  match_rule_new user string allow_eavesdrop =
      if ltb match_rule_length_max (length string)
      then failed user invalid
      else if memory
      then with_charges (match_keys_parse is_path allow_eavesdrop string) (
          charge_two usage_memory log user user.uid (slot_bytes, size + (length string + 1))
            (slot_matches, 1))
      else failed user error

unfoldable pub find_rule : MatchKeys → List Rule → Option Rule
find_rule keys [] = none
find_rule keys (r ∷ rs) = if match_keys_equal keys r.keys then some r else find_rule keys rs

-- match_rule_user_ref() on the rule of some keys
unfoldable pub match_rule_user_ref : MatchKeys → List Rule → List Rule
match_rule_user_ref keys [] = []
match_rule_user_ref keys (r ∷ rs) =
    let rest = match_rule_user_ref keys rs in
    if match_keys_equal keys r.keys
    then record r { n_user_refs = r.n_user_refs + 1 } ∷ rs
    else r ∷ rest

-- The new rule takes a reference; if there is an equal one, that is referenced instead, and the new
-- one is freed.
unfoldable pub ref_made : List Rule → Made → List Rule × User × Code
unfolding release_two find_rule match_rule_user_ref
ref_made rules (failed user code) = (rules, user, code)
ref_made rules (made user rule) = elim (find_rule rule.keys rules) [
  | none ↦ (record rule { n_user_refs = 1 } ∷ rules, user, success)
  | some old ↦
      (match_rule_user_ref rule.keys rules, release_two user rule.bytes rule.matches, success)
]

module _ (is_path : Bytes → Bool) (size : ℕ) (memory usage_memory : Bool) (log : Option Bool) where
  unfoldable pub match_owner_ref_rule : List Rule → User → Bytes → Bool → List Rule × User × Code
  unfolding ref_made match_rule_new
  match_owner_ref_rule rules user string allow_eavesdrop =
      ref_made rules
        (match_rule_new is_path size memory usage_memory log user string allow_eavesdrop)

abbrev is_success : User.Code → Bool
is_success User.success = true
is_success User.quota = false
is_success User.error = false
is_success User.assertion = false

-- match_rule_user_unref() on the rule of some keys; a failed assertion is `none`.
unfoldable pub match_rule_user_unref : MatchKeys → List Rule → User → Option (List Rule × User)
unfolding release_two release_two_code
match_rule_user_unref keys [] user = some ([], user)
match_rule_user_unref keys (r ∷ rs) user =
    let rest = match_rule_user_unref keys rs user in
    if match_keys_equal keys r.keys
    then (if r.n_user_refs == 0
        then none
        else if r.n_user_refs == 1
        then (if is_success (release_two_code user r.bytes r.matches)
            then some (rs, release_two user r.bytes r.matches)
            else none)
        else some (record r { n_user_refs = r.n_user_refs - 1 } ∷ rs, user))
    else elim rest [ none ↦ none | some (rs', user') ↦ some (r ∷ rs', user') ]

-- match_owner_get_stats()
unfoldable pub match_owner_get_stats : List Rule → ℕ × ℕ
unfolding add32
match_owner_get_stats [] = (0, 0)
match_owner_get_stats (r ∷ rs) =
    let (n_bytes, n_matches) = match_owner_get_stats rs in
    (add32 n_bytes r.bytes.charge, add32 n_matches r.matches.charge)

-- match_owner_find_rule(); `none` is an error, and no rule is a result.
unfoldable pub match_owner_find_rule : (Bytes → Bool) → List Rule → Bytes → Option (Option Rule)
unfolding find_rule match_keys_parse
match_owner_find_rule is_path rules string =
    if ltb match_rule_length_max (length string)
    then none
    else elim (match_keys_parse is_path false string) [
      | none ↦ none
      | some parsed ↦ elim parsed.0 [ none ↦ none | some keys ↦ some (find_rule keys rules) ]
    ]
