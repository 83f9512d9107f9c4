-- ===== src/Util/User/Tests.antt =====
-- Runs of the accounting of src/util/user.c.
use dbus_broker.Common.{List, ◌≡◌, refl, none, true, [], ◌∷◌, ◌++◌, arith}
use dbus_broker.Util.User.{
  User, user_new, user_charge_init, user_charge, user_free, Charge, user_charge_check,
  user_charge_deinit, success, user_ref_usage, find_usage, charge_slot, consumed, add32,
}
use dbus_broker.Util.User.Balance.Ledger.{
  Books, AllClean, Books-unused, user_charge-Books, user_charge_deinit-Books,
}
use dbus_broker.Util.User.Balance.Fairness.{FairShare, user_charge_fair}
use dbus_broker.Util.User.Release.{user_new-Books, all_given_back, release_all}

-- A user with four slots of 100 each.
abbrev alice : User
alice = user_new 1 4 (λ s. 100)

alice-Books : Books alice (user_charge_init ∷ [])
alice-Books = Books-unused alice [] (user_new-Books 1 4 (λ s. 100) (λ s. omega arith))

user_charge-Books_example :
    let (u', c', code) = user_charge true none alice user_charge_init 2 3 50 in
    Books u' ([] ++ c' ∷ [])
unfolding user_new
user_charge-Books_example =
    user_charge-Books true none alice [] [] user_charge_init 2 3 50 alice-Books refl (omega arith)

user_charge_deinit-Books_example :
    let (charged, c, code) = user_charge true none alice user_charge_init 2 3 50 in
    let (u', c', code) = user_charge_deinit charged c in Books u' ([] ++ c' ∷ [])
user_charge_deinit-Books_example =
    user_charge_deinit-Books (user_charge true none alice user_charge_init 2 3 50).0 [] []
      (user_charge true none alice user_charge_init 2 3 50).1 user_charge-Books_example

granted : (user_charge true none alice user_charge_init 2 3 50).2 ≡ success
unfolding user_charge user_new user_ref_usage find_usage charge_slot user_charge_check consumed
    add32
granted = refl

user_charge_fair_example : FairShare (user_charge true none alice user_charge_init 2 3 50).0 2 3
unfolding user_new
user_charge_fair_example =
    user_charge_fair true none alice [] [] user_charge_init 2 3 50 alice-Books refl (omega arith)
      (omega arith) (λ e. omega (arith, e)) granted

abbrev two : User × List Charge
two =
    let (charged, c, code) = user_charge true none alice user_charge_init 2 3 50 in
    (charged, c ∷ user_charge_init ∷ [])

two-Books : Books two.0 two.1
unfolding user_new
two-Books =
    user_charge-Books true none alice [] (user_charge_init ∷ []) user_charge_init 2 3 50
      (Books-unused alice (user_charge_init ∷ []) alice-Books) refl (omega arith)

two-AllClean : AllClean two.1
unfolding user_charge user_new user_ref_usage find_usage charge_slot user_charge_check consumed
    add32
two-AllClean = (tt, (refl, tt))

all_given_back_example :
    let (u', code) = release_all two.0 two.1 in
    (code ≡ success) × (user_free u' ≡ success) × (u'.max ≡ two.0.max)
all_given_back_example = all_given_back two.0 two.1 two-Books two-AllClean
