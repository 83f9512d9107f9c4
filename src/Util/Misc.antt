-- ===== src/Util/Misc.antt =====
-- The saturating arithmetic of src/util/misc.c; `size_t` has 64 bits.
use dbus_broker.Common.{ℕ, ◌-◌, ◌*◌, ◌%◌, ◌==◌, ltb, if◌then◌else◌, min, ◌≡◌, arith}
use dbus_broker.Util.Decimal.{u32_limit, u64_limit}

unfoldable pub util_umul64_saturating : ℕ → ℕ → ℕ
util_umul64_saturating a b = if ltb (a * b) u64_limit then a * b else u64_limit - 1

unfoldable pub util_z2u_saturating : ℕ → ℕ
util_z2u_saturating v = let cast = v % u32_limit in if cast == v then cast else u32_limit - 1

unfoldable pub util_t2u_saturating : ℕ → ℕ
util_t2u_saturating v = let cast = v % u32_limit in if cast == v then cast else u32_limit - 1

-- The comparison with the truncated value finds every overflow: both casts give the smaller of the
-- value and the largest `unsigned int`.
pub saturating_casts :
    (v : ℕ)
    → (util_z2u_saturating v ≡ min v (u32_limit - 1))
      × (util_t2u_saturating v ≡ min v (u32_limit - 1))
unfolding util_z2u_saturating util_t2u_saturating
saturating_casts v = (ground arith, ground arith)
