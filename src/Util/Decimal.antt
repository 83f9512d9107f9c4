-- ===== src/Util/Decimal.antt =====
-- Decimal numbers of the C library as the broker uses them: `strtoul(s, &end, 10)` and its kin, and
-- the conversion of `snprintf("%u")`. A string is the list of the bytes before its terminator.
pub mod RoundTrip
use dbus_broker.Common.{
  ℕ, zero, suc, ◌+◌, ◌-◌, ◌*◌, ◌/◌, ◌%◌, ◌^◌, Bytes, Bool, true, false, ◌&&◌, ◌||◌, [], ◌∷◌, leb,
  ltb, ◌==◌, if◌then◌else◌,
}

unfoldable pub is_space : ℕ → Bool
is_space c = (c == b' ') || (leb 9 c && leb c 13)

unfoldable pub is_decimal : ℕ → Bool
is_decimal c = leb b'0' c && leb c b'9'

-- The value of the digits in front, with what follows them.
unfoldable pub scan_digits : ℕ → Bytes → ℕ × Bytes
unfolding is_decimal
scan_digits n [] = (n, [])
scan_digits n (c ∷ s) =
    let more = scan_digits (n * 10 + (c - b'0')) s in if is_decimal c then more else (n, c ∷ s)

unfoldable pub skip_space : Bytes → Bytes
unfolding is_space
skip_space [] = []
skip_space (c ∷ s) = let more = skip_space s in if is_space c then more else c ∷ s

-- What `strtoul` gives: the value, the text at `end`, whether anything was converted (otherwise
-- `end` is the start), and whether `errno` is ERANGE.
pub record Strtoul : Type 0 where
  pub value : ℕ
  pub rest : Bytes
  pub converted : Bool
  pub out_of_range : Bool

-- The number behind an optional sign. `limit` is one more than the largest value of the type; a
-- minus sign negates within the type.
unfoldable pub convert : ℕ → Bool → Bytes → Bytes → Strtoul
convert limit negative start [] = record {
  value = 0;
  rest = start;
  converted = false;
  out_of_range = false;
}
convert limit negative start (c ∷ s) =
    let (n, rest) = scan_digits 0 (c ∷ s) in
    if is_decimal c
    then (if ltb n limit
        then record {
          value = if negative then (limit - n) % limit else n;
          rest = rest;
          converted = true;
          out_of_range = false;
        }
        else record { value = limit - 1; rest = rest; converted = true; out_of_range = true })
    else record { value = 0; rest = start; converted = false; out_of_range = false }

unfoldable pub sign : ℕ → Bytes → Bytes → Strtoul
unfolding convert
sign limit start [] = convert limit false start []
sign limit start (c ∷ s) =
    if c == b'-'
    then convert limit true start s
    else if c == b'+'
    then convert limit false start s
    else convert limit false start (c ∷ s)

unfoldable pub strtoul : ℕ → Bytes → Strtoul
unfolding sign skip_space scan_digits
strtoul limit s = sign limit s (skip_space s)

abbrev pub u32_limit : ℕ
u32_limit = 2 ^ 32

abbrev pub u64_limit : ℕ
u64_limit = 2 ^ 64

-- The digits of n in front of `out`, with fuel for the number of digits.
unfoldable pub emit : ℕ → ℕ → Bytes → Bytes
emit zero n out = out
emit (suc f) n out =
    let more = emit f (n / 10) ((b'0' + n % 10) ∷ out) in
    if ltb n 10 then (b'0' + n) ∷ out else more

-- Twenty digits are enough for 64 bits.
unfoldable pub decimal : ℕ → Bytes
unfolding emit
decimal n = emit 20 n []
