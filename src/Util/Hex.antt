-- ===== src/Util/Hex.antt =====
-- string_to_hex() and string_from_hex() of src/util/string.h.
use dbus_broker.Common.{
  ℕ, zero, suc, ◌+◌, ◌-◌, ◌*◌, ◌/◌, ◌%◌, ◌<◌, Bytes, codes, Bool, true, false, ◌&&◌, ◌||◌, Option,
  none, some, [], ◌∷◌, ◌≡◌, refl, leb, ltb, ◌==◌, if◌then◌else◌, length, get_elem?, arith,
  holds_up_to, holds_up_to_elim, ◌∙◌, ap, not,
}
use mathlib.Core.Option.{get_or}
use mathlib.Core.Option

-- table[i] of string_to_hex()
unfoldable pub hex_digit : ℕ → ℕ
hex_digit i = get_or (get_elem? (codes "0123456789abcdef") i) 0

unfoldable pub string_to_hex : Bytes → Bytes
string_to_hex [] = []
string_to_hex (c ∷ s) = hex_digit ((c / 16) % 16) ∷ hex_digit (c % 16) ∷ string_to_hex s

-- table[c] of string_from_hex(), for c < 128; the `uint8_t` -1 is 255.
unfoldable pub nibble : ℕ → ℕ
nibble c =
    if leb b'0' c && leb c b'9'
    then c - b'0'
    else if leb b'A' c && leb c b'F'
    then c - b'A' + 10
    else if leb b'a' c && leb c b'f'
    then c - b'a' + 10
    else 255

-- One byte from two digits. `(hex[0] | hex[1] | v1 | v2) & 0x80` asks whether one of the four is 128
-- or more.
unfoldable pub decode_pair : ℕ → ℕ → Option ℕ
decode_pair a b =
    let v1 = nibble (a % 128) in
    let v2 = nibble (b % 128) in
    if leb 128 a || leb 128 b || leb 128 v1 || leb 128 v2 then none else some (v1 * 16 + v2)

unfoldable pub string_from_hex : ℕ → Bytes → Option Bytes
string_from_hex zero hex = some []
string_from_hex (suc n) [] = none
string_from_hex (suc n) (a ∷ []) = none
string_from_hex (suc n) (a ∷ b ∷ hex) = elim (decode_pair a b) [
  | none ↦ none
  | some c ↦ Option.map (λ s. c ∷ s) (string_from_hex n hex)
]

decodes : ℕ → Bool
unfolding hex_digit nibble
decodes i = let h = hex_digit i in ltb h 128 && (nibble (h % 128) == i)

decodes_all : holds_up_to decodes 16 ≡ true
unfolding decodes holds_up_to
decodes_all = refl

nibble-hex_digit :
    (i : ℕ) → i < 16 → (ltb (hex_digit i) 128 ≡ true) × (nibble (hex_digit i % 128) ≡ i)
nibble-hex_digit i h =
    let d = holds_up_to_elim decodes i 16 decodes_all h in unfold decodes in ground arith

abbrev pub AllBytes : Bytes → Type 0
AllBytes [] = Unit {0}
AllBytes (c ∷ s) = (c < 256) × AllBytes s

decode_pair-hex_digit :
    (i j : ℕ) → i < 16 → j < 16 → decode_pair (hex_digit i) (hex_digit j) ≡ some (i * 16 + j)
unfolding decode_pair
decode_pair-hex_digit i j h k = ground (arith, nibble-hex_digit i h, nibble-hex_digit j k)

decode_pair-byte :
    (c : ℕ) → c < 256 → decode_pair (hex_digit ((c / 16) % 16)) (hex_digit (c % 16)) ≡ some c
decode_pair-byte c h =
    decode_pair-hex_digit ((c / 16) % 16) (c % 16) (omega arith) (omega arith)
    ∙ ap some (omega arith)

-- Decoding an encoded buffer of bytes gives the buffer.
pub string_from_hex-string_to_hex :
    (s : Bytes) → AllBytes s → string_from_hex (length s) (string_to_hex s) ≡ some s
unfolding string_from_hex string_to_hex
string_from_hex-string_to_hex [] b = refl
string_from_hex-string_to_hex (c ∷ s) b =
    ground (arith, decode_pair-byte c b.0, string_from_hex-string_to_hex s b.1)

pub length-string_to_hex : (s : Bytes) → length (string_to_hex s) ≡ 2 * length s
unfolding string_to_hex
length-string_to_hex [] = refl
length-string_to_hex (c ∷ s) = omega (arith, length-string_to_hex s)

not_blank : ℕ → Bool
unfolding hex_digit
not_blank i = not (hex_digit i == b' ')

not_blank_all : holds_up_to not_blank 16 ≡ true
unfolding not_blank holds_up_to
not_blank_all = refl

-- No encoded byte begins with a blank.
pub hex_digit-not_blank : (c : ℕ) → (hex_digit ((c / 16) % 16) == b' ') ≡ false
hex_digit-not_blank c =
    let d = holds_up_to_elim not_blank ((c / 16) % 16) 16 not_blank_all (omega arith) in
    unfold not_blank in ground arith
