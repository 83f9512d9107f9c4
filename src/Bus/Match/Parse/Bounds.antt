-- ===== src/Bus/Match/Parse/Bounds.antt =====
-- The loop of match_keys_parse() in src/bus/match.c: how far each part of it reads, and how much it
-- writes.
use dbus_broker.Common.{
  ℕ, suc, ◌+◌, ◌≤◌, ◌<◌, Bytes, Bool, false, not, Option, none, some, [], ◌∷◌, ◌==◌, length, ◌≡◌,
  refl, arith, Bool-cases, inl, inr,
}
use dbus_broker.Bus.Match.{
  apostrophe, ParsedKey, key, eof, invalid, skip, span_until, is_blank, is_blank_or_equals,
  at_equals, behind_key, from_key, match_parse_key, prepend, copy_value, match_copy_value,
}
use dbus_broker.Bus.Match.Parse.{written}

-- What is left of a rule behind its value, or nothing.
abbrev pub left : Option (Bytes × Bytes) → ℕ
left none = 0
left (some (v, rest)) = length rest

left-prepend : (c : ℕ) (r : Option (Bytes × Bytes)) → left (prepend c r) ≡ left r
unfolding prepend
left-prepend c none = refl
left-prepend c (some (v, rest)) = refl

copy_bounds :
    (quoted : Bool) (s : Bytes) → written quoted s + left (copy_value quoted s) ≤ suc (length s)
unfolding written copy_value
copy_bounds quoted [] = ground arith
copy_bounds quoted (c ∷ []) = ground arith
copy_bounds quoted (c ∷ d ∷ s) = ground (
  arith,
  copy_bounds (not quoted) (d ∷ s),
  copy_bounds quoted (d ∷ s),
  copy_bounds quoted s,
  left-prepend c (copy_value quoted (d ∷ s)),
  left-prepend apostrophe (copy_value quoted s),
)

-- A value and its terminating zero are not longer than the text they are read from and one more, and
-- what is left of the text is behind them.
pub match_copy_value_bounds :
    (s : Bytes) → written false s + left (match_copy_value s) ≤ suc (length s)
unfolding match_copy_value
match_copy_value_bounds s = copy_bounds false s

length-skip : (among : ℕ → Bool) (s : Bytes) → length (skip among s) ≤ length s
unfolding skip
length-skip among [] = ground arith
length-skip among (c ∷ s) = ground (arith, length-skip among s)

length-span_until : (among : ℕ → Bool) (s : Bytes) → length (span_until among s).1 ≤ length s
unfolding span_until
length-span_until among [] = ground arith
length-span_until among (c ∷ s) = ground (arith, length-span_until among s)

-- Behind a key there is less of the rule than before.
abbrev pub Shorter : ℕ → ParsedKey → Type 0
Shorter n eof = Unit {0}
Shorter n invalid = Unit {0}
Shorter n (key k s) = length s < n

at_equals-Shorter : (k s : Bytes) (n : ℕ) → length s ≤ n → Shorter n (at_equals k s)
unfolding at_equals
at_equals-Shorter k [] n h = tt
at_equals-Shorter k (c ∷ s) n h = elim (Bool-cases (c == b'=')) [
  | inl e ↦ rw e (ground arith)
  | inr e ↦ rw e tt
]

behind_key-Shorter : (r : Bytes × Bytes) (n : ℕ) → length r.1 ≤ n → Shorter n (behind_key r)
unfolding behind_key
behind_key-Shorter (k, []) n h = tt
behind_key-Shorter (k, c ∷ s) n h =
    at_equals-Shorter k (skip is_blank (c ∷ s)) n (ground (arith, length-skip is_blank (c ∷ s)))

from_key-Shorter : (s : Bytes) (n : ℕ) → length s ≤ n → Shorter n (from_key s)
unfolding from_key
from_key-Shorter [] n h = tt
from_key-Shorter (c ∷ s) n h =
    behind_key-Shorter (span_until is_blank_or_equals (c ∷ s)) n
      (ground (arith, length-span_until is_blank_or_equals (c ∷ s)))

pub match_parse_key-Shorter : (s : Bytes) → Shorter (length s) (match_parse_key s)
unfolding match_parse_key
match_parse_key-Shorter s =
    from_key-Shorter (skip is_blank_or_equals s) (length s) (length-skip is_blank_or_equals s)
