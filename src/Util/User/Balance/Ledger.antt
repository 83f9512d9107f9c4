-- ===== src/Util/User/Balance/Ledger.antt =====
-- All charges of a user at once: the books of src/util/user.c are kept by charging and releasing in
-- any order, and with the last charge everything is given back.
use dbus_broker.Common.{
  ℕ, ◌+◌, ◌<◌, Bool, List, [], ◌∷◌, ◌++◌, Option, none, some, ◌≡◌, refl, arith, sym,
}
use dbus_broker.Util.Decimal.{u32_limit}
use dbus_broker.Util.User.{User, Charge, user_charge, user_charge_deinit, user_charge_init, success}
use dbus_broker.Util.User.Balance.{Balanced, BalancedWith, held1, pin1}
use dbus_broker.Util.User.Balance.Charges.{
  Balanced-ext, user_charge-cases, deinit-cases, deinit-success,
}

-- What the charges of a list hold of a slot for a user ID, and how many of them pin its usage.
abbrev pub held : List Charge → ℕ → ℕ → ℕ
held [] k s = 0
held (c ∷ cs) k s = held1 c k s + held cs k s

abbrev pub pins : List Charge → ℕ → ℕ
pins [] k = 0
pins (c ∷ cs) k = pin1 c k + pins cs k

-- A charge without a usage holds nothing.
abbrev pub IsClean : Charge → Type 0
IsClean c = elim c.usage [ none ↦ c.charge ≡ 0 | some uid ↦ Unit {0} ]

abbrev pub AllClean : List Charge → Type 0
AllClean [] = Unit {0}
AllClean (c ∷ cs) = IsClean c × AllClean cs

-- The books of a user agree with a list of charges.
pub record Books (u : User) (cs : List Charge) : Type 0 where
  pub balanced : Balanced u (held cs) (pins cs)

pub held-middle :
    (before after : List Charge) (c : Charge) (k s : ℕ)
    → held (before ++ c ∷ after) k s ≡ held (before ++ after) k s + held1 c k s
held-middle [] after c k s = omega arith
held-middle (d ∷ before) after c k s = omega (arith, held-middle before after c k s)

pub pins-middle :
    (before after : List Charge) (c : Charge) (k : ℕ)
    → pins (before ++ c ∷ after) k ≡ pins (before ++ after) k + pin1 c k
pins-middle [] after c k = omega arith
pins-middle (d ∷ before) after c k = omega (arith, pins-middle before after c k)

module _ (u : User) (before after : List Charge) (c : Charge) where
  pub apart :
      Books u (before ++ c ∷ after)
      → BalancedWith u (held (before ++ after)) (pins (before ++ after)) c
  apart b = Balanced-ext b.balanced (held-middle before after c) (pins-middle before after c)

  together :
      BalancedWith u (held (before ++ after)) (pins (before ++ after)) c
      → Books u (before ++ c ∷ after)
  together b = record {
    balanced =
        Balanced-ext b (λ k s. sym (held-middle before after c k s))
          (λ k. sym (pins-middle before after c k));
  }

unpinned_holds_nothing1 : (c : Charge) (k s : ℕ) → pin1 c k ≡ 0 → held1 c k s ≡ 0
unpinned_holds_nothing1 c k s h = ground arith

unpinned_holds_nothing : (cs : List Charge) (k : ℕ) → pins cs k ≡ 0 → (s : ℕ) → held cs k s ≡ 0
unpinned_holds_nothing [] k h s = refl
unpinned_holds_nothing (c ∷ cs) k h s = omega (
  arith,
  unpinned_holds_nothing1 c k s (omega arith),
  unpinned_holds_nothing cs k (omega arith) s,
)

-- Charging keeps the books, whichever way it ends: granted, over the quota, out of memory or with a
-- failed assertion. The charge is one of any list; if it has no usage it holds nothing, and the user
-- has fewer than 2^32 - 2 usages.
pub user_charge-Books :
    (memory : Bool) (log : Option Bool) (u : User) (before after : List Charge) (c : Charge)
    (actor slot amount : ℕ)
    → Books u (before ++ c ∷ after)
    → IsClean c
    → u.n_usages + 2 < u32_limit
    → let (u', c', code) = user_charge memory log u c actor slot amount in
      Books u' (before ++ c' ∷ after)
user_charge-Books memory log u before after c actor slot amount b clean few =
    together _ before after _ (
      user_charge-cases memory log u (held (before ++ after)) (pins (before ++ after)) c.usage
        c.slot c.charge actor slot amount (apart u before after c b) (λ e. ground arith) few)

-- Releasing a charge keeps the books too.
pub user_charge_deinit-Books :
    (u : User) (before after : List Charge) (c : Charge)
    → Books u (before ++ c ∷ after)
    → let (u', c', code) = user_charge_deinit u c in Books u' (before ++ c' ∷ after)
user_charge_deinit-Books u before after c b = together _ before after _ (
    deinit-cases u (held (before ++ after)) (pins (before ++ after)) c.usage c.slot c.charge
      (apart u before after c b) (unpinned_holds_nothing (before ++ after)))

-- No assertion fails on the way, if the charge holds nothing without a usage.
pub user_charge_deinit-success :
    (u : User) (before after : List Charge) (c : Charge)
    → Books u (before ++ c ∷ after)
    → IsClean c
    → (user_charge_deinit u c).2 ≡ success
user_charge_deinit-success u before after c b clean =
    deinit-success u (held (before ++ after)) (pins (before ++ after)) c.usage c.slot c.charge
      (apart u before after c b) (unpinned_holds_nothing (before ++ after)) (λ e. ground arith)

-- A charge that is not in use changes nothing.
pub Books-unused : (u : User) (cs : List Charge) → Books u cs → Books u (user_charge_init ∷ cs)
Books-unused u cs b = record {
  balanced = Balanced-ext b.balanced (λ k s. omega arith) (λ k. omega arith);
}
