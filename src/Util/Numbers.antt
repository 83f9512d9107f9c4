-- ===== src/Util/Numbers.antt =====
-- util_strtou32() and util_strtou64() of src/util/string.c. `ulong` is one more than the largest
-- `unsigned long`; the errors of the C library other than ERANGE do not arise in base 10.
use dbus_broker.Common.{ℕ, Bytes, ◌||◌, ◌≡◌, ◌<◌, ◌≤◌, not, is_nil, ltb, if◌then◌else◌, arith}
use dbus_broker.Util.Decimal.{Strtoul, strtoul, u32_limit, u64_limit, decimal}
use dbus_broker.Util.Decimal.RoundTrip.{strtoul-decimal}

pub data Parsed : Type 0 where
  success : ℕ → Parsed
  invalid : Parsed
  range : Parsed

-- The checks that both functions make, with the bound of the result type.
unfoldable pub check_parsed : ℕ → Strtoul → Parsed
check_parsed bound r =
    if r.out_of_range
    then range
    else if not (is_nil r.rest) || not r.converted
    then invalid
    else if ltb r.value bound
    then success r.value
    else range

unfoldable pub util_strtou32 : ℕ → Bytes → Parsed
unfolding check_parsed
util_strtou32 ulong s = check_parsed u32_limit (strtoul ulong s)

unfoldable pub util_strtou64 : Bytes → Parsed
unfolding check_parsed
util_strtou64 s = check_parsed u64_limit (strtoul u64_limit s)

check_parsed-lt : (bound n : ℕ) (r : Strtoul) → check_parsed bound r ≡ success n → n < bound
unfolding check_parsed
check_parsed-lt bound n r h = ground arith

-- A text that is read as n has n below 2^32, and the decimal digits of n are read as n again;
-- `unsigned long` has from 32 to 64 bits.
pub util_strtou32-decimal :
    (ulong n : ℕ) (s : Bytes)
    → u32_limit ≤ ulong
    → ulong ≤ u64_limit
    → util_strtou32 ulong s ≡ success n
    → (n < u32_limit) × (util_strtou32 ulong (decimal n) ≡ success n)
unfolding util_strtou32
util_strtou32-decimal ulong n s low high h =
    let small = check_parsed-lt u32_limit n (strtoul ulong s) h in
    (small, rw (strtoul-decimal ulong n (omega arith) (omega arith)) (ground arith))

-- A text that is read as n has n below 2^64, and the decimal digits of n are read as n again.
pub util_strtou64-decimal :
    (n : ℕ) (s : Bytes)
    → util_strtou64 s ≡ success n
    → (n < u64_limit) × (util_strtou64 (decimal n) ≡ success n)
unfolding util_strtou64
util_strtou64-decimal n s h =
    let small = check_parsed-lt u64_limit n (strtoul u64_limit s) h in
    (small, rw (strtoul-decimal u64_limit n small (omega arith)) (ground arith))
