-- ===== src/Bus/Match/Matching/Fits.antt =====
-- A message fits a rule, for match_keys_match_metadata() of src/bus/match.c, as a proposition, and
-- that the code decides it.
use dbus_broker.Common.{
  SameIfSet, ℕ, ◌<◌, ◌≤◌, Bytes, strip_prefix, true, false, ◌&&◌, ◌||◌, not, Option, none, some,
  ◌==◌, max, ◌≡◌, refl, arith, ◌⊎◌, ◌↔◌, inl, inr, Bool-cases,
}
use dbus_broker.Dbus.Address.{address_id_invalid}
use dbus_broker.Bus.Match.Keys.{MatchKeys, is_set}
use dbus_broker.Bus.Match.Matching.{
  Argument, Metadata, match_string_prefix, match_arg, match_keys_match_metadata,
}
use dbus_broker.Bus.Match.Matching.Meaning.{
  Below, under_sound, under_complete, FitsArg, match_arg-FitsArg, FitsArg-match_arg, all_args_sound,
  all_args_complete, same_sound, same_complete,
}

-- What a namespace key asks of a string.
abbrev pub InNamespace : ℕ → Option Bytes → Option Bytes → Type 0
InNamespace delimiter none value = Unit {0}
InNamespace delimiter (some top) value = Below delimiter top value

abbrev pub FitsRule : MatchKeys → Metadata → Type 0
FitsRule keys m =
    (keys.n_args ≤ m.n_args)
    × (keys.n_argpaths ≤ m.n_args)
    × InNamespace b'/' keys.path_namespace m.path
    × ((keys.arg0namespace ≡ none)
        ⊎ (((m.args 0).element ≡ b's') × InNamespace b'.' keys.arg0namespace (m.args 0).value))
    × ((i : ℕ)
        → i < max keys.n_args keys.n_argpaths
        → FitsArg (keys.args i) (keys.argpaths i) (m.args i))
    × ((keys.type ≡ 0) ⊎ (keys.type ≡ m.type))
    × ((keys.sender_id ≡ address_id_invalid) ⊎ (keys.sender_id ≡ m.sender_id))
    × SameIfSet keys.interface m.interface
    × SameIfSet keys.member m.member
    × SameIfSet keys.path m.path

under_any :
    (delimiter : ℕ) (top : Bytes) (value : Option Bytes)
    → match_string_prefix value (some top) delimiter false ≡ true
    → Below delimiter top value
unfolding match_string_prefix
under_any delimiter top none h = absurd (ground arith)
under_any delimiter top (some v) h = under_sound delimiter top v (strip_prefix top v) refl h

namespace_sound :
    (delimiter : ℕ) (key value : Option Bytes)
    → (not (is_set key) || match_string_prefix value key delimiter false) ≡ true
    → InNamespace delimiter key value
namespace_sound delimiter none value h = tt
namespace_sound delimiter (some top) value h = under_any delimiter top value h

namespace_complete :
    (delimiter : ℕ) (key value : Option Bytes)
    → InNamespace delimiter key value
    → (not (is_set key) || match_string_prefix value key delimiter false) ≡ true
namespace_complete delimiter none value h = refl
namespace_complete delimiter (some top) value below = under_complete delimiter top value below

arg0_sound :
    (key : Option Bytes) (a : Argument)
    → (not (is_set key) || (a.element == b's') && match_string_prefix a.value key b'.' false) ≡ true
    → (key ≡ none) ⊎ ((a.element ≡ b's') × InNamespace b'.' key a.value)
arg0_sound none a h = inl refl
arg0_sound (some top) a h = inr (ground arith, under_any b'.' top a.value (ground arith))

arg0_complete :
    (key : Option Bytes) (a : Argument)
    → ((key ≡ none) ⊎ ((a.element ≡ b's') × InNamespace b'.' key a.value))
    → (not (is_set key) || (a.element == b's') && match_string_prefix a.value key b'.' false) ≡ true
arg0_complete none a h = refl
arg0_complete (some top) a (inl e) = absurd (cc)
arg0_complete (some top) a (inr (element, below)) =
    ground (arith, under_complete b'.' top a.value below)

equal_or : (a b none_of : ℕ) → ((a == none_of) || (a == b)) ≡ true → (a ≡ none_of) ⊎ (a ≡ b)
equal_or a b none_of h = elim (Bool-cases (a == none_of)) [
  | inl e ↦ inl (ground arith)
  | inr e ↦ inr (ground arith)
]

or_equal : (a b none_of : ℕ) → ((a ≡ none_of) ⊎ (a ≡ b)) → ((a == none_of) || (a == b)) ≡ true
or_equal a b none_of (inl e) = ground arith
or_equal a b none_of (inr e) = ground arith

match_sound :
    (keys : MatchKeys) (m : Metadata) → match_keys_match_metadata keys m ≡ true → FitsRule keys m
unfolding match_keys_match_metadata
match_sound keys m h = (
  ground arith,
  ground arith,
  namespace_sound b'/' keys.path_namespace m.path (ground arith),
  arg0_sound keys.arg0namespace (m.args 0) (ground arith),
  (λ i short.
      match_arg-FitsArg keys m i (
        all_args_sound (match_arg keys m) (max keys.n_args keys.n_argpaths) (ground arith) i
          short)),
  equal_or keys.type m.type 0 (ground arith),
  equal_or keys.sender_id m.sender_id address_id_invalid (ground arith),
  same_sound keys.interface m.interface (ground arith),
  same_sound keys.member m.member (ground arith),
  same_sound keys.path m.path (ground arith),
)

match_complete :
    (keys : MatchKeys) (m : Metadata) → FitsRule keys m → match_keys_match_metadata keys m ≡ true
unfolding match_keys_match_metadata
match_complete keys m
      (args, argpaths, namespace, arg0, each, type, sender, interface, member, path) =
    let loop =
      all_args_complete (match_arg keys m) (max keys.n_args keys.n_argpaths)
        (λ i short. FitsArg-match_arg keys m i (each i short)) in
    ground (
      arith,
      namespace_complete b'/' keys.path_namespace m.path namespace,
      arg0_complete keys.arg0namespace (m.args 0) arg0,
      loop,
      or_equal keys.type m.type 0 type,
      or_equal keys.sender_id m.sender_id address_id_invalid sender,
      same_complete keys.interface m.interface interface,
      same_complete keys.member m.member member,
      same_complete keys.path m.path path,
    )

-- The test of a message against the keys of a rule holds exactly if the message has all arguments that
-- keys are for, its path is the namespace or lies below it behind a slash, its first argument is a
-- string in the namespace for it, every argument is the string of its key and leads to its path or is
-- led to by it, and type, sender ID, interface, member and path are those of the keys that are set.
pub match_keys_match_metadata_lem :
    (keys : MatchKeys) (m : Metadata) → (match_keys_match_metadata keys m ≡ true) ↔ FitsRule keys m
match_keys_match_metadata_lem keys m = (match_sound keys m, match_complete keys m)
