-- ===== src/Dbus/Address/RoundTrip.antt =====
-- Writing and reading the addresses of src/dbus/address.c.
use mathlib.Core.Option
use dbus_broker.Common.{
  ◌==◌, ℕ, ◌<◌, Bytes, codes, ◌≡◌, ◌≢◌, refl, ◌++◌, ◌∷◌, [], false, some, none, Option, length,
  arith, ltb, if◌then◌else◌, ap, Bool-cases, inl, inr,
}
use dbus_broker.Util.Decimal.{decimal, u64_limit, strtoul}
use dbus_broker.Util.Decimal.RoundTrip.{strtoul-decimal, length-decimal-le, strtoul-lt}
use dbus_broker.Dbus.Address.{
  id_behind, Address, other, id, name, address_id_invalid, id_of, address_from_string,
  address_to_string, address_write, print_bounded, Strtoul,
}

-- The string of an identifier fits the buffer of an address.
address_to_string-id : (n : ℕ) → address_to_string (id n) ≡ some (codes ":1." ++ decimal n)
unfolding address_to_string
address_to_string-id n = ground (arith, length-decimal-le n)

address_from_string-id :
    (n : ℕ) → n < address_id_invalid → address_from_string (codes ":1." ++ decimal n) ≡ id n
unfolding address_from_string
address_from_string-id n h =
    rw (strtoul-decimal u64_limit n (omega arith) (omega arith)) (ground arith)

-- An identifier below the invalid one is read back from its string, and writing it never fails.
pub from_string-to_string :
    (n : ℕ)
    → n < address_id_invalid
    → Option.map address_from_string (address_to_string (id n)) ≡ some (id n)
from_string-to_string n h = rw address_to_string-id (ap some (address_from_string-id n h))

-- What a parsed address can be.
abbrev pub IsParsed : Address → Type 0
IsParsed other = Unit {0}
IsParsed (id n) = n < address_id_invalid
IsParsed (name []) = ⊥
IsParsed (name (c ∷ s)) = (c == b':') ≡ false

id_of-IsParsed : (r : Strtoul) → r.value < u64_limit → IsParsed (id_of r)
unfolding id_of
id_of-IsParsed r small = ground arith

id_behind-IsParsed : (o : Option Bytes) → IsParsed (id_behind o)
unfolding id_behind
id_behind-IsParsed none = tt
id_behind-IsParsed (some t) =
    id_of-IsParsed (strtoul u64_limit t) (strtoul-lt u64_limit t (omega arith))

pub from_string-IsParsed : (s : Bytes) → IsParsed (address_from_string s)
unfolding address_from_string
from_string-IsParsed [] = tt
from_string-IsParsed (c ∷ s) = elim (Bool-cases (c == b':')) [
  | inl colon ↦ rw colon (id_behind-IsParsed _)
  | inr plain ↦ rw plain plain
]

IsParsed-reparse :
    (a : Address)
    → IsParsed a
    → a ≢ other
    → Option.map address_from_string (address_to_string a) ≡ some a
unfolding address_from_string address_to_string
IsParsed-reparse other p h = absurd (h refl)
IsParsed-reparse (id n) p h = from_string-to_string n p
IsParsed-reparse (name []) p h = elim p [ ]
IsParsed-reparse (name (c ∷ s)) p h = rw p

-- Whatever string an address was parsed from, writing the address and parsing the result gives the
-- same address, unless the string was no address at all.
pub reparse :
    (s : Bytes)
    → address_from_string s ≢ other
    → Option.map address_from_string (address_to_string (address_from_string s))
      ≡ some (address_from_string s)
reparse s h = IsParsed-reparse (address_from_string s) (from_string-IsParsed s) h

-- Writing an address into a buffer of n bytes gives the string of the address if that is shorter
-- than n, and is a failed assertion if it is not, or if the address is of neither kind.
pub address_write_lem :
    (a : Address) (n : ℕ)
    → address_write a n
      ≡ Option.bind (address_to_string a) (λ s. if ltb (length s) n then some s else none)
unfolding address_write print_bounded Option.bind
address_write_lem (id k) n = rw address_to_string-id
address_write_lem (name s) n = unfold address_to_string in refl
address_write_lem other n = unfold address_to_string in refl
