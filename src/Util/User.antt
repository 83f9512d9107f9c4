-- ===== src/Util/User.antt =====
-- src/util/user.c: accounting of resources per user. A user has slots with what is left of each
-- maximum, and one usage object per user ID that consumes its resources; a charge records what one
-- object consumes, so that it can be undone. Slots are functions from their index, the usage tree is
-- a list, and a charge names its usage by the user ID, of which the tree holds at most one.
pub mod Tests
pub mod Quota
pub mod Usages
pub mod Balance
pub mod Release
pub mod Pairs
use dbus_broker.Common.{
  ℕ, zero, suc, ◌+◌, ◌-◌, ◌*◌, ◌%◌, Bool, true, false, ◌&&◌, ◌||◌, not, Option, none, some, List,
  [], ◌∷◌, ◌++◌, leb, ltb, ◌==◌, if◌then◌else◌, is_nil,
}
use dbus_broker.Util.Decimal.{u32_limit}

-- `unsigned int` addition and subtraction.
unfoldable pub add32 : ℕ → ℕ → ℕ
add32 a b = (a + b) % u32_limit

unfoldable pub sub32 : ℕ → ℕ → ℕ
sub32 a b = (a + u32_limit - b) % u32_limit

pub record Usage : Type 0 where
  pub uid : ℕ
  pub n_refs : ℕ
  pub logged : Bool
  pub slots : ℕ → ℕ

pub record User : Type 0 where
  pub uid : ℕ
  pub n_refs : ℕ
  pub n_slots : ℕ
  pub usages : List Usage
  pub n_usages : ℕ
  pub n : ℕ → ℕ
  pub max : ℕ → ℕ

-- The usage of a charge by its user ID, if it has one.
pub record Charge : Type 0 where
  pub usage : Option ℕ
  pub slot : ℕ
  pub charge : ℕ

abbrev pub user_charge_init : Charge
user_charge_init = record { usage = none; slot = 0; charge = 0 }

-- user_new() with the maxima of its registry
unfoldable pub user_new : ℕ → ℕ → (ℕ → ℕ) → User
user_new uid n_slots maxima = record {
  uid = uid;
  n_refs = 1;
  n_slots = n_slots;
  usages = [];
  n_usages = 0;
  n = maxima;
  max = maxima;
}

-- The results of the functions: 0, USER_E_QUOTA, a negative error code and a failed assertion.
pub data Code : Type 0 where
  success quota error assertion : Code

-- slots[slot] = v
unfoldable pub set_slot : (ℕ → ℕ) → ℕ → ℕ → ℕ → ℕ
set_slot slots slot v s = if s == slot then v else slots s

unfoldable pub find_usage : ℕ → List Usage → Option Usage
find_usage uid [] = none
find_usage uid (g ∷ us) = if g.uid == uid then some g else find_usage uid us

-- A write to the usage object of a user ID.
unfoldable pub modify_usage : ℕ → (Usage → Usage) → List Usage → List Usage
modify_usage uid f [] = []
modify_usage uid f (g ∷ us) =
    let rest = modify_usage uid f us in if g.uid == uid then f g ∷ us else g ∷ rest

unfoldable pub unlink_usage : ℕ → List Usage → List Usage
unlink_usage uid [] = []
unlink_usage uid (g ∷ us) = let rest = unlink_usage uid us in if g.uid == uid then us else g ∷ rest

-- user_usage_new(): a usage without charges, with one reference.
abbrev pub user_usage_new : ℕ → Usage
user_usage_new uid = record { uid = uid; n_refs = 1; logged = false; slots = λ s. 0 }

abbrev pub user_usage_ref : Usage → Usage
user_usage_ref g = record g { n_refs = g.n_refs + 1 }

-- user_ref_usage(): `memory` says whether an allocation succeeds.
unfoldable pub user_ref_usage : Bool → User → ℕ → Option User
user_ref_usage memory user actor = elim (find_usage actor user.usages) [
  | some g ↦ some (record user { usages = modify_usage actor user_usage_ref user.usages })
  | none ↦
      if memory
      then some (record user {
        usages = user_usage_new actor ∷ user.usages;
        n_usages = user.n_usages + 1;
        n_refs = user.n_refs + 1;
      })
      else none
]

-- What the usage of a user ID has consumed of a slot, and its references; 0 without a usage.
unfoldable pub consumed : ℕ → ℕ → List Usage → ℕ
consumed uid slot [] = 0
consumed uid slot (g ∷ us) = if g.uid == uid then g.slots slot else consumed uid slot us

unfoldable pub references : ℕ → List Usage → ℕ
references uid [] = 0
references uid (g ∷ us) = if g.uid == uid then g.n_refs else references uid us

-- The assertions of user_usage_free() on the first slots of a usage: nothing is consumed of them.
unfoldable pub all_zero : ℕ → ℕ → List Usage → Bool
unfolding consumed
all_zero uid zero us = true
all_zero uid (suc i) us = (consumed uid i us == 0) && all_zero uid i us

-- user_usage_unref() of a usage with the given references: the last one frees it, which unlinks it and
-- drops its reference on the user. Where an assertion has failed, the state is the one that the rest
-- of the code would leave, if assertions are compiled out.
unfoldable pub unref_usage : User → ℕ → ℕ → User × Code
unfolding all_zero
unref_usage user uid zero = (user, assertion)
unref_usage user uid (suc zero) = (
  record user {
    usages = unlink_usage uid user.usages;
    n_usages = user.n_usages - 1;
    n_refs = user.n_refs - 1;
  },
  if all_zero uid user.n_slots user.usages then success else assertion,
)
unref_usage user uid (suc (suc k)) = (
  record user { usages = modify_usage uid (λ g. record g { n_refs = suc k }) user.usages },
  success,
)

-- The result of an overflow builtin: a value that fits, or nothing.
unfoldable pub fits32 : ℕ → Option ℕ
fits32 v = if ltb v u32_limit then some v else none

-- user_charge_check(): true is 0, false is USER_E_QUOTA.
unfoldable pub user_charge_check : ℕ → ℕ → ℕ → ℕ → Bool
unfolding fits32
user_charge_check remaining users share charge = elim (fits32 (share + charge)) [
  | none ↦ false
  | some limit ↦ elim (fits32 (limit * add32 users 1)) [
    | none ↦ false
    | some product ↦ leb share product && leb (product - share) remaining
  ]
]

-- user_charge_commit_log(): without a log, or if the usage has logged before, there is nothing to
-- do. `log` says whether there is one, and whether committing to it succeeds.
unfoldable pub user_charge_commit_log : Option Bool → User → ℕ → User × Code
user_charge_commit_log log user actor = elim log [
  | none ↦ (user, quota)
  | some committed ↦ elim (find_usage actor user.usages) [
    | none ↦ (user, quota)
    | some g ↦
        if g.logged
        then (user, quota)
        else if committed
        then (
          record user { usages = modify_usage actor (λ g. record g { logged = true }) user.usages },
          quota,
        )
        else (user, error)
  ]
]

-- The body of user_charge() once the charge has its usage: quotas are not applied to a user's
-- charges on itself.
unfoldable pub charge_slot : Option Bool → User → Charge → ℕ → ℕ → ℕ → User × Charge × Code
charge_slot log user charge actor slot amount =
    let allowed =
      if user.uid == actor
      then leb amount (user.n slot)
      else user_charge_check (user.n slot) user.n_usages (consumed actor slot user.usages) amount in
    if allowed
    then (
      record user {
        n = set_slot user.n slot (sub32 (user.n slot) amount);
        usages =
            modify_usage actor
              (λ g. record g { slots = set_slot g.slots slot (add32 (g.slots slot) amount) })
              user.usages;
      },
      record charge { charge = add32 charge.charge amount },
      success,
    )
    else (let (logged, code) = user_charge_commit_log log user actor in (logged, charge, code))

-- user_charge() of a user; a null user, which is not accounted, is left out. There is one user, so the
-- assertion that the usage of a charge is of this user has no counterpart. A failed assertion ends
-- the program, so the state with it is the one before. A charge without a usage takes a reference on
-- the actor's, and keeps it whether or not the quota allows the charge.
unfoldable pub user_charge : Bool → Option Bool → User → Charge → ℕ → ℕ → ℕ → User × Charge × Code
user_charge memory log user charge actor slot amount =
    if amount == 0 then (user, charge, success) else elim charge.usage [
      | some uid ↦
          if (actor == uid) && (slot == charge.slot) && ltb slot user.n_slots
          then charge_slot log user charge actor slot amount
          else (user, charge, assertion)
      | none ↦ elim (user_ref_usage memory user actor) [
        | none ↦ (user, charge, error)
        | some user' ↦
            if ltb slot user.n_slots
            then charge_slot log user' (record charge { usage = some actor; slot = slot }) actor
                slot amount
            else (user, charge, assertion)
      ]
    ]

-- user_charge_deinit(): a charge without a usage must hold nothing. The code tells whether an
-- assertion failed, on which the state says no more than for user_usage_unref().
unfoldable pub user_charge_deinit : User → Charge → User × Charge × Code
unfolding unref_usage
user_charge_deinit user charge = elim charge.usage [
  | none ↦ (user, charge, if charge.charge == 0 then success else assertion)
  | some uid ↦
      let released = record user {
        n = set_slot user.n charge.slot (add32 (user.n charge.slot) charge.charge);
        usages =
            modify_usage uid
              (λ g. record g {
                slots = set_slot g.slots charge.slot (sub32 (g.slots charge.slot) charge.charge);
              })
              user.usages;
      } in
      let (user', code) = unref_usage released uid (references uid released.usages) in
      (user', user_charge_init, code)
]

-- The assertions of user_free() on the first slots: everything is back.
unfoldable pub all_back : ℕ → (ℕ → ℕ) → (ℕ → ℕ) → Bool
all_back zero n max = true
all_back (suc i) n max = (n i == max i) && all_back i n max

-- user_free(): its assertions.
unfoldable pub user_free : User → Code
unfolding all_back
user_free user =
    if is_nil user.usages && (user.n_usages == 0) && all_back user.n_slots user.n user.max
    then success
    else assertion
