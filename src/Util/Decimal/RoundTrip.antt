-- ===== src/Util/Decimal/RoundTrip.antt =====
-- Reading back what the decimal conversion writes.
use native.Mathlib.Nat.{pow-suc, mod-lt}
use dbus_broker.Common.{
  ℕ, zero, suc, ◌+◌, ◌-◌, ◌/◌, ◌%◌, ◌^◌, Bytes, Bool, true, false, [], ◌∷◌, ltb, ◌≡◌, ◌<◌, ◌≤◌,
  arith, inl, inr, length, Bool-cases, ltb→lt, lt→ltb, ◌∙◌,
}
use dbus_broker.Util.Decimal.{
  emit, decimal, scan_digits, is_decimal, skip_space, strtoul, sign, convert,
}

scan_digits-emit :
    (f n : ℕ) (out : Bytes)
    → n < 10 ^ suc f
    → scan_digits 0 (emit (suc f) n out) ≡ scan_digits n out
unfolding emit scan_digits
scan_digits-emit zero n out h = ground (arith)
scan_digits-emit (suc f) n out h =
    ground (arith, scan_digits-emit f (n / 10) ((b'0' + n % 10) ∷ out), pow-suc 10 (suc f))

abbrev begins_decimal : Bytes → Bool
begins_decimal [] = false
begins_decimal (c ∷ s) = is_decimal c

digit-is_decimal : (n : ℕ) → n < 10 → is_decimal (b'0' + n) ≡ true
unfolding is_decimal
digit-is_decimal n h = ground arith

emit-begins_decimal :
    (f n : ℕ) (out : Bytes) → begins_decimal out ≡ true → begins_decimal (emit f n out) ≡ true
unfolding emit
emit-begins_decimal zero n out h = h
emit-begins_decimal (suc f) n out h = elim (Bool-cases (ltb n 10)) [
  | inl small ↦ rw small (digit-is_decimal n (ltb→lt n 10 small))
  | inr big ↦ rw big (emit-begins_decimal f (n / 10) _ (digit-is_decimal (n % 10) (omega arith)))
]

decimal-begins_decimal : (n : ℕ) → begins_decimal (decimal n) ≡ true
unfolding decimal emit
decimal-begins_decimal n = elim (Bool-cases (ltb n 10)) [
  | inl small ↦ rw small (digit-is_decimal n (ltb→lt n 10 small))
  | inr big ↦ rw big (emit-begins_decimal 19 (n / 10) _ (digit-is_decimal (n % 10) (omega arith)))
]

-- A text that begins with a digit is converted as it stands.
strtoul-digit :
    (limit : ℕ) (s : Bytes) → begins_decimal s ≡ true → strtoul limit s ≡ convert limit false s s
unfolding strtoul is_decimal
strtoul-digit limit [] h = cc
strtoul-digit limit (c ∷ s) h = ground arith

convert-digits :
    (limit n : ℕ) (s : Bytes)
    → begins_decimal s ≡ true
    → scan_digits 0 s ≡ (n, [])
    → n < limit
    → convert limit false s s
      ≡ record { value = n; rest = []; converted = true; out_of_range = false }
unfolding convert
convert-digits limit n [] d e h = cc
convert-digits limit n (c ∷ s) d e h = rw (d, e, lt→ltb n limit h)

-- Reading back a number that fits the type gives the number, with nothing left over.
pub strtoul-decimal :
    (limit n : ℕ)
    → n < limit
    → limit ≤ 10 ^ 20
    → strtoul limit (decimal n)
      ≡ record { value = n; rest = []; converted = true; out_of_range = false }
strtoul-decimal limit n h k =
    strtoul-digit limit (decimal n) (decimal-begins_decimal n)
    ∙ convert-digits limit n (decimal n) (decimal-begins_decimal n)
        (unfold decimal scan_digits in scan_digits-emit 19 n [] (omega arith)) h

length-emit-le : (f n : ℕ) (out : Bytes) → length (emit f n out) ≤ f + length out
unfolding emit
length-emit-le zero n out = omega arith
length-emit-le (suc f) n out = ground (arith, length-emit-le f (n / 10) ((b'0' + n % 10) ∷ out))

pub length-decimal-le : (n : ℕ) → length (decimal n) ≤ 20
unfolding decimal
length-decimal-le n = omega (arith, length-emit-le 20 n [])

convert-lt :
    (limit : ℕ) (negative : Bool) (start s : Bytes)
    → 0 < limit
    → (convert limit negative start s).value < limit
unfolding convert
convert-lt limit negative start [] h = omega arith
convert-lt limit negative start (c ∷ s) h =
    ground (arith, mod-lt (limit - (scan_digits 0 (c ∷ s)).0) h)

sign-lt : (limit : ℕ) (start s : Bytes) → 0 < limit → (sign limit start s).value < limit
unfolding sign
sign-lt limit start [] h = convert-lt limit false start [] h
sign-lt limit start (c ∷ s) h = ground (
  arith,
  convert-lt limit true start s h,
  convert-lt limit false start s h,
  convert-lt limit false start (c ∷ s) h,
)

-- The value always fits the type.
pub strtoul-lt : (limit : ℕ) (s : Bytes) → 0 < limit → (strtoul limit s).value < limit
unfolding strtoul
strtoul-lt limit s h = sign-lt limit s (skip_space s) h
