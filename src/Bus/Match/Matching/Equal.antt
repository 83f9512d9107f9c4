-- ===== src/Bus/Match/Matching/Equal.antt =====
-- Keys that match_keys_compare() of src/bus/match.c does not tell apart fit the same messages.
use dbus_broker.Common.{
  ℕ, zero, suc, Bytes, bytes_eq_refl, bytes_eq_sound, true, Option, none, some, max, ◌≡◌, refl,
  arith, ap, sym, ◌∙◌, &&_split,
}
use dbus_broker.Bus.Match.Keys.{MatchKeys}
use dbus_broker.Bus.Match.Keys.Sender.{derived_id, SenderDerived}
use dbus_broker.Bus.Match.Matching.{
  Metadata, string_equal, match_arg, all_args, match_keys_match_metadata, same_arg,
  match_keys_equal,
}

pub string_equal_sound : (a b : Option Bytes) → string_equal a b ≡ true → a ≡ b
unfolding string_equal
string_equal_sound none none h = refl
string_equal_sound none (some b) h = absurd (ground arith)
string_equal_sound (some a) none h = absurd (ground arith)
string_equal_sound (some a) (some b) h = ap some (bytes_eq_sound a b h)

pub string_equal_refl : (a : Option Bytes) → string_equal a a ≡ true
unfolding string_equal
string_equal_refl none = refl
string_equal_refl (some a) = bytes_eq_refl a

all_args-same :
    (a b : MatchKeys) (m : Metadata) (n : ℕ)
    → all_args (same_arg a b) n ≡ true
    → all_args (match_arg a m) n ≡ all_args (match_arg b m) n
unfolding all_args same_arg match_arg
all_args-same a b m zero h = refl
all_args-same a b m (suc n) h =
    let (before, here) = &&_split (all_args (same_arg a b) n) (same_arg a b n) h in
    let (arg, path) = &&_split (string_equal (a.args n) (b.args n)) _ here in
    rw
      (
        all_args-same a b m n before,
        string_equal_sound (a.args n) (b.args n) arg,
        string_equal_sound (a.argpaths n) (b.argpaths n) path,
      )
      refl

all_args_refl : (a : MatchKeys) (n : ℕ) → all_args (same_arg a a) n ≡ true
unfolding all_args same_arg
all_args_refl a zero = refl
all_args_refl a (suc n) =
    rw (all_args_refl a n, string_equal_refl (a.args n), string_equal_refl (a.argpaths n)) refl

pub match_keys_equal_refl : (a : MatchKeys) → match_keys_equal a a ≡ true
unfolding match_keys_equal
match_keys_equal_refl a = ground (
  arith,
  string_equal_refl a.sender,
  string_equal_refl a.destination,
  string_equal_refl a.interface,
  string_equal_refl a.member,
  string_equal_refl a.path,
  string_equal_refl a.path_namespace,
  string_equal_refl a.arg0namespace,
  all_args_refl a (max a.n_args a.n_argpaths),
)

-- What match_keys_compare() compares, as equations.
abbrev pub SameKeys : MatchKeys → MatchKeys → Type 0
SameKeys a b =
    (a.sender ≡ b.sender)
    × (a.interface ≡ b.interface)
    × (a.member ≡ b.member)
    × (a.path ≡ b.path)
    × (a.path_namespace ≡ b.path_namespace)
    × (a.arg0namespace ≡ b.arg0namespace)
    × (a.type ≡ b.type)
    × (a.n_args ≡ b.n_args)
    × (a.n_argpaths ≡ b.n_argpaths)
    × (all_args (same_arg a b) (max a.n_args a.n_argpaths) ≡ true)

pub match_keys_equal_sound : (a b : MatchKeys) → match_keys_equal a b ≡ true → SameKeys a b
unfolding match_keys_equal
match_keys_equal_sound a b h = (
  string_equal_sound a.sender b.sender (ground arith),
  string_equal_sound a.interface b.interface (ground arith),
  string_equal_sound a.member b.member (ground arith),
  string_equal_sound a.path b.path (ground arith),
  string_equal_sound a.path_namespace b.path_namespace (ground arith),
  string_equal_sound a.arg0namespace b.arg0namespace (ground arith),
  ground arith,
  ground arith,
  ground arith,
  ground arith,
)

pub match_keys_equal-match :
    (a b : MatchKeys) (m : Metadata)
    → SenderDerived a
    → SenderDerived b
    → match_keys_equal a b ≡ true
    → match_keys_match_metadata a m ≡ match_keys_match_metadata b m
unfolding match_keys_match_metadata
match_keys_equal-match a b m da db h =
    let (sender, interface, member, path, namespace, arg0, type, args, argpaths, same) =
      match_keys_equal_sound a b h in
    let id : a.sender_id ≡ b.sender_id = da ∙ ap derived_id sender ∙ sym db in
    let loop = all_args-same a b m (max a.n_args a.n_argpaths) same in
    rw (loop, interface, member, path, namespace, arg0, type, args, argpaths, id) refl
