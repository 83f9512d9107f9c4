-- ===== src/Util/User/Quota.antt =====
-- The quota of src/util/user.c in machine arithmetic against the inequality that it stands for.
use dbus_broker.Common.{ℕ, ◌+◌, ◌-◌, ◌*◌, ◌<◌, ◌≤◌, true, leb, ◌≡◌, arith, leb→le, sym, ◌∙◌}
use dbus_broker.Util.Decimal.{u32_limit}
use dbus_broker.Util.User.{add32, sub32, user_charge_check}

pub add32_lem : (a b : ℕ) → a + b < u32_limit → add32 a b ≡ a + b
unfolding add32
add32_lem a b h = omega arith

pub sub32_lem : (a b : ℕ) → b ≤ a → a < u32_limit → sub32 a b ≡ a - b
unfolding sub32
sub32_lem a b h k = omega arith

le-mul_suc : (a k : ℕ) → a ≤ a * (k + 1)
le-mul_suc a k = grind arith

-- Where the remaining resources and the actor's share are parts of a 32-bit maximum, and the number
-- of users is below the largest 32-bit value, the overflow-checked test grants a charge exactly if
-- (users + 1) * (charge + share) - share <= remaining.
pub user_charge_check_lem :
    (remaining users share charge : ℕ)
    → remaining + share < u32_limit
    → users + 1 < u32_limit
    → user_charge_check remaining users share charge
      ≡ leb ((share + charge) * (users + 1)) (remaining + share)
unfolding user_charge_check
user_charge_check_lem remaining users share charge h k =
    ground (arith, add32_lem users 1 k, le-mul_suc (share + charge) users)

-- A granted charge is available.
pub user_charge_check-le :
    (remaining users share charge : ℕ)
    → remaining + share < u32_limit
    → users + 1 < u32_limit
    → user_charge_check remaining users share charge ≡ true
    → charge ≤ remaining
user_charge_check-le remaining users share charge h k t =
    let le = leb→le _ _ ((sym (user_charge_check_lem remaining users share charge h k)) ∙ t) in
    omega (arith, le-mul_suc (share + charge) users)
