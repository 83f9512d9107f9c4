-- ===== src/Dbus/Protocol/Relations.antt =====
-- How the validators of src/dbus/protocol.c relate to one another.
use dbus_broker.Common.{
  all_of, is_nil, ℕ, Bytes, Bool, true, false, ◌&&◌, not, List, [], ◌∷◌, ◌≡◌, refl, leb, ◌==◌,
  length, arith, ◌≤◌, suc, Bool-cases, leb→le,
}
use mathlib.Core.Path.{fun_ext}
use dbus_broker.Common.{inl, inr}
use dbus_broker.Dbus.Protocol.{
  interface_char, member_char, dbus_validate_name, dbus_validate_interface, dbus_validate_member,
}
use dbus_broker.Dbus.Protocol.Grammar.{
  split, element, element_byte, dotted, well_formed_name, dbus_validate_interface_lem,
  dbus_validate_name_common_lem, dbus_validate_member_lem,
}

module _ (f g : Bool → ℕ → Bool) (le : (b : Bool) (c : ℕ) → f b c ≡ true → g b c ≡ true) where
  all_of_mono : (s : Bytes) → all_of (f false) s ≡ true → all_of (g false) s ≡ true
  all_of_mono [] h = refl
  all_of_mono (c ∷ s) h = ground (arith, le false c, all_of_mono s)

  element_mono : (s : Bytes) → element f s ≡ true → element g s ≡ true
  element_mono [] h = h
  element_mono (c ∷ s) h = ground (arith, le true c, all_of_mono s)

  elements_mono : (l : List Bytes) → all_of (element f) l ≡ true → all_of (element g) l ≡ true
  elements_mono [] h = refl
  elements_mono (s ∷ l) h = ground (arith, element_mono s, elements_mono l)

  dotted_mono : (single : Bool) (s : Bytes) → dotted f single s ≡ true → dotted g single s ≡ true
  unfolding dotted
  dotted_mono single s h = ground (arith, element_mono (split s).0, elements_mono (split s).1)

interface_char-element_byte :
    (b : Bool) (c : ℕ) → interface_char b c ≡ true → element_byte false b c ≡ true
unfolding interface_char
interface_char-element_byte b c h = ground arith

colon_is_no_start :
    (c : ℕ) (s : Bytes) → dotted interface_char false (c ∷ s) ≡ true → (c == b':') ≡ false
unfolding dotted interface_char
colon_is_no_start c s h = ground arith

interface_well_formed :
    (s : Bytes) → dotted interface_char false s ≡ true → well_formed_name false s ≡ true
unfolding well_formed_name
interface_well_formed [] h = unfold dotted in cc
interface_well_formed (c ∷ s) h = ground (
  arith,
  colon_is_no_start c s h,
  dotted_mono interface_char (element_byte false) interface_char-element_byte false (c ∷ s) h,
)

-- Every valid interface is a valid bus name.
pub interface-name : (s : Bytes) → dbus_validate_interface s ≡ true → dbus_validate_name s ≡ true
unfolding dbus_validate_name
interface-name s h = ground (
  arith,
  dbus_validate_interface_lem s,
  dbus_validate_name_common_lem s false,
  interface_well_formed s,
)

-- Every element is at most as long as the string that it comes from.
abbrev AllShort : ℕ → List Bytes → Type 0
AllShort n [] = Unit {0}
AllShort n (s ∷ l) = (length s ≤ n) × AllShort n l

AllShort-mono : (m n : ℕ) (l : List Bytes) → m ≤ n → AllShort m l → AllShort n l
AllShort-mono m n [] h a = tt
AllShort-mono m n (s ∷ l) h a = (omega arith, AllShort-mono m n l h a.1)

split-AllShort : (s : Bytes) → (length (split s).0 ≤ length s) × AllShort (length s) (split s).1
unfolding split
split-AllShort [] = (omega arith, tt)
split-AllShort (c ∷ s) =
    ground (arith, split-AllShort s, AllShort-mono (length s) (suc (length s)) (split s).1)

members-elements :
    (l : List Bytes)
    → AllShort 255 l
    → all_of dbus_validate_member l ≡ all_of (element member_char) l
members-elements [] a = refl
members-elements (s ∷ l) a = ground (arith, dbus_validate_member_lem s, members-elements l a.1)

interface_char-eq-member_char : interface_char ≡ member_char
unfolding interface_char member_char
interface_char-eq-member_char = fun_ext λ b. fun_ext λ c. refl

dotted-members :
    (s : Bytes)
    → length s ≤ 255
    → dotted member_char false s
      ≡ (all_of dbus_validate_member ((split s).0 ∷ (split s).1) && not (is_nil (split s).1))
unfolding dotted
dotted-members s h = ground (
  arith,
  split-AllShort s,
  dbus_validate_member_lem (split s).0,
  members-elements (split s).1 (AllShort-mono (length s) 255 (split s).1 h (split-AllShort s).1),
)

-- A string is a valid interface exactly if it has at most 255 bytes, and cutting it at its dots
-- leaves two or more strings, each a valid member.
pub interface-members :
    (s : Bytes)
    → dbus_validate_interface s ≡ (
        leb (length s) 255
        && all_of dbus_validate_member ((split s).0 ∷ (split s).1)
        && not (is_nil (split s).1))
interface-members s =
    rw (dbus_validate_interface_lem s, interface_char-eq-member_char)
      (elim (Bool-cases (leb (length s) 255)) [
        | inl short ↦ rw short (ground (arith, dotted-members s (leb→le _ _ short)))
        | inr long ↦ rw long
      ])
