-- ===== src/Dbus/Protocol/Grammar.antt =====
-- The validators of src/dbus/protocol.c against the grammar of names: a string is cut at its dots,
-- and every element has to be well formed.
use dbus_broker.Common.{
  all_of, is_nil, ℕ, Bytes, Bool, true, false, ◌&&◌, ◌||◌, not, List, [], ◌∷◌, ◌≡◌, refl, leb, ◌==◌,
  if◌then◌else◌, length, arith, ◌∙◌, ap,
}
use dbus_broker.Dbus.Protocol.{
  interface_char, scan_elements, accept, dbus_validate_interface, dbus_validate_name, scan_member,
  name_char, skip_colon, dbus_validate_name_common, dbus_validate_member, member_char,
  dbus_validate_namespace,
}

-- The first element of a string, and those behind each dot.
unfoldable pub split : Bytes → Bytes × List Bytes
split [] = ([], [])
split (c ∷ s) = let (h, t) = split s in if c == b'.' then ([], h ∷ t) else (c ∷ h, t)

-- An element is not empty; `accepts true` admits its first character, `accepts false` the others.
abbrev pub element : (Bool → ℕ → Bool) → Bytes → Bool
element accepts [] = false
element accepts (c ∷ s) = accepts true c && all_of (accepts false) s

abbrev head_ok : (Bool → ℕ → Bool) → Bool → Bytes → Bool
head_ok accepts true s = element accepts s
head_ok accepts false s = all_of (accepts false) s

-- A dotted string: well-formed elements, two or more of them unless `single` allows one.
unfoldable pub dotted : (Bool → ℕ → Bool) → Bool → Bytes → Bool
unfolding split
dotted accepts single s =
    element accepts (split s).0
    && all_of (element accepts) (split s).1
    && (not (is_nil (split s).1) || single)

scan_elements_lem :
    (accepts : Bool → ℕ → Bool) (single has_dot dot : Bool) (s : Bytes)
    → accept single (scan_elements accepts has_dot dot s) ≡ (
        head_ok accepts dot (split s).0
        && all_of (element accepts) (split s).1
        && (has_dot || not (is_nil (split s).1) || single))
unfolding scan_elements accept split
scan_elements_lem accepts single has_dot true [] = ground arith
scan_elements_lem accepts single has_dot false [] = ground arith
scan_elements_lem accepts single has_dot true (c ∷ s) =
    ground (arith, scan_elements_lem accepts single has_dot false s)
scan_elements_lem accepts single has_dot false (c ∷ s) = ground (
  arith,
  scan_elements_lem accepts single true true s,
  scan_elements_lem accepts single has_dot false s,
)

scan_elements-dotted :
    (accepts : Bool → ℕ → Bool) (single : Bool) (s : Bytes)
    → accept single (scan_elements accepts false true s) ≡ dotted accepts single s
unfolding dotted
scan_elements-dotted accepts single s = scan_elements_lem accepts single false true s

-- A string is a valid interface exactly if it has at most 255 bytes and consists of two or more
-- elements, separated by dots, each a letter or underscore followed by letters, digits and
-- underscores.
pub dbus_validate_interface_lem :
    (s : Bytes) → dbus_validate_interface s ≡ (leb (length s) 255 && dotted interface_char false s)
unfolding dbus_validate_interface
dbus_validate_interface_lem s = ground (arith, scan_elements-dotted interface_char false s)

-- The bytes of an element of a name, by their ASCII codes: letters, `_` and `-` at any place, and
-- digits behind the first place or, in a unique name, there too.
abbrev pub element_byte : Bool → Bool → ℕ → Bool
element_byte unique first c =
    (leb 65 c && leb c 90)
    || (leb 97 c && leb c 122)
    || (c == 95)
    || (c == 45)
    || ((unique || not first) && leb 48 c && leb c 57)

name_char_lem :
    (unique first : Bool) (c : ℕ) → name_char unique first c ≡ element_byte unique first c
unfolding name_char
name_char_lem unique first c = ground arith

name_char-element_byte : (unique : Bool) → name_char unique ≡ element_byte unique
name_char-element_byte unique = λ i first c. name_char_lem unique first c i

-- What `dbus_validate_name_common` admits, after the length test.
unfoldable pub well_formed_name : Bool → Bytes → Bool
unfolding dotted
well_formed_name single [] = false
well_formed_name single (c ∷ s) =
    if c == b':'
    then dotted (element_byte true) single s
    else dotted (element_byte false) single (c ∷ s)

name-dotted :
    (unique single : Bool) (s : Bytes)
    → accept single (scan_elements (name_char unique) false true s)
      ≡ dotted (element_byte unique) single s
name-dotted unique single s =
    scan_elements-dotted (name_char unique) single s
    ∙ ap (λ a. dotted a single s) (name_char-element_byte unique)

skip_colon_lem : (single : Bool) (s : Bytes) → skip_colon single s ≡ well_formed_name single s
unfolding skip_colon well_formed_name
skip_colon_lem single [] = ground (arith, name-dotted false single [])
skip_colon_lem single (c ∷ s) =
    ground (arith, name-dotted true single s, name-dotted false single (c ∷ s))

-- For bus names and for namespaces alike: a string is accepted exactly if it has at most 255 bytes
-- and consists, behind an optional colon, of elements of letters, digits, underscores and dashes;
-- an element begins with a digit only behind a colon, and a name has two or more elements.
pub dbus_validate_name_common_lem :
    (s : Bytes) (namespace : Bool)
    → dbus_validate_name_common s namespace ≡ (leb (length s) 255 && well_formed_name namespace s)
unfolding dbus_validate_name_common
dbus_validate_name_common_lem s namespace = ground (arith, skip_colon_lem namespace s)

-- Every valid bus name is a valid namespace.
pub name-namespace : (s : Bytes) → dbus_validate_name s ≡ true → dbus_validate_namespace s ≡ true
unfolding dbus_validate_name dbus_validate_namespace well_formed_name
name-namespace [] h =
    ground (arith, dbus_validate_name_common_lem [] false, dbus_validate_name_common_lem [] true)
name-namespace (c ∷ s) h =
    ground (
      arith,
      dbus_validate_name_common_lem (c ∷ s) false,
      dbus_validate_name_common_lem (c ∷ s) true,
    )

scan_member_lem :
    (s : Bytes)
    → (scan_member false s ≡ all_of (member_char false) s)
      × (scan_member true s ≡ element member_char s)
unfolding scan_member
scan_member_lem [] = (refl, refl)
scan_member_lem (c ∷ s) = ground (arith, scan_member_lem s)

-- A string is a valid member exactly if it is one element of at most 255 bytes.
pub dbus_validate_member_lem :
    (s : Bytes) → dbus_validate_member s ≡ (leb (length s) 255 && element member_char s)
unfolding dbus_validate_member
dbus_validate_member_lem s = ground (arith, scan_member_lem s)
