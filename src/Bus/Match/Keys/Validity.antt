-- ===== src/Bus/Match/Keys/Validity.antt =====
-- What match_keys_assign() of src/bus/match.c keeps of the keys of a rule.
use dbus_broker.Common.{
  &&_split, ℕ, ◌+◌, ◌<◌, ◌≤◌, Bytes, codes, bytes_eq, strip_prefix, Bool, true, false, ◌&&◌, ◌||◌,
  not, Option, none, some, [], leb, ◌==◌, if◌then◌else◌, ◌≡◌, refl, arith, max,
}
use dbus_broker.Dbus.Protocol.{
  dbus_validate_name, dbus_validate_namespace, dbus_validate_interface, dbus_validate_member,
}
use dbus_broker.Dbus.Address.{address_from_string}
use dbus_broker.Bus.Match.Keys.{
  MatchKeys, is_set, guard, type_of, sender_id_of, scan_index, set_arg, assign_arg, assign_other,
  match_keys_assign,
}

-- A value that is set satisfies the test of its key.
abbrev pub fits : (Bytes → Bool) → Option Bytes → Bool
fits p none = true
fits p (some v) = p v

abbrev pub NamesValid : MatchKeys → Type 0
NamesValid k =
    (fits dbus_validate_name k.sender ≡ true)
    × (fits dbus_validate_name k.destination ≡ true)
    × (fits dbus_validate_interface k.interface ≡ true)
    × (fits dbus_validate_member k.member ≡ true)
    × (fits dbus_validate_namespace k.arg0namespace ≡ true)

abbrev pub PathsValid : (Bytes → Bool) → MatchKeys → Type 0
PathsValid is_path k =
    (fits is_path k.path ≡ true)
    × (fits is_path k.path_namespace ≡ true)
    × ((is_set k.path && is_set k.path_namespace) ≡ false)

-- The arguments that are set are below the counts, which fit the arrays; none has both a value and a
-- path, and the first has neither beside a namespace.
abbrev pub ArgsValid : MatchKeys → Type 0
ArgsValid k =
    (k.n_args ≤ 64)
    × (k.n_argpaths ≤ 64)
    × ((j : ℕ) → is_set (k.args j) ≡ true → j < k.n_args)
    × ((j : ℕ) → is_set (k.argpaths j) ≡ true → j < k.n_argpaths)
    × ((j : ℕ) → (is_set (k.args j) && is_set (k.argpaths j)) ≡ false)
    × ((is_set k.arg0namespace && (is_set (k.args 0) || is_set (k.argpaths 0))) ≡ false)

abbrev pub KeysValid : (Bytes → Bool) → MatchKeys → Type 0
KeysValid is_path k = NamesValid k × PathsValid is_path k × ArgsValid k

abbrev pub AllKeys : (MatchKeys → Type 0) → Option MatchKeys → Type 0
AllKeys P none = Unit {0}
AllKeys P (some k) = P k

module _ (P : MatchKeys → Type 0) where
  guard-AllKeys : (test : Bool) (k : MatchKeys) → (test ≡ true → P k) → AllKeys P (guard test k)
  unfolding guard
  guard-AllKeys true k h = h refl
  guard-AllKeys false k h = tt

  if-AllKeys :
      (b : Bool) (x y : Option MatchKeys)
      → AllKeys P x
      → AllKeys P y
      → AllKeys P (if b then x else y)
  if-AllKeys true x y p q = p
  if-AllKeys false x y p q = q

  -- One branch of an assignment: its test on the key, its guard and its keys.
  pub step :
      (b test : Bool) (k : MatchKeys) (rest : Option MatchKeys)
      → (test ≡ true → P k)
      → AllKeys P rest
      → AllKeys P (if b then guard test k else rest)
  step b test k rest h r = if-AllKeys b (guard test k) rest (guard-AllKeys test k h) r

module _ (is_path : Bytes → Bool) (keys : MatchKeys) (v : KeysValid is_path keys)
    (value : Bytes) where
  assign_arg-KeysValid :
      (index : ℕ × Bytes) → AllKeys (KeysValid is_path) (assign_arg keys value index)
  unfolding assign_arg set_arg
  assign_arg-KeysValid (i, suffix) =
      let (names, paths, args) = v in
      let (a, p, below, below', apart, first) = args in
      let free =
        not ((i == 0) && is_set keys.arg0namespace)
        && leb i 63
        && not (is_set (keys.args i) || is_set (keys.argpaths i)) in
      let with_arg = record keys {
        args = set_arg i value keys.args;
        n_args = max (i + 1) keys.n_args;
      } in
      let with_path = record keys {
        argpaths = set_arg i value keys.argpaths;
        n_argpaths = max (i + 1) keys.n_argpaths;
      } in
      let arg_valid : free ≡ true → ArgsValid with_arg = λ f. (
        ground arith,
        p,
        (λ j s. ground (arith, below j)),
        below',
        (λ j. ground (arith, apart j)),
        ground (arith, first),
      ) in
      let path_valid : free ≡ true → ArgsValid with_path = λ f. (
        a,
        ground arith,
        below,
        (λ j s. ground (arith, below' j)),
        (λ j. ground (arith, apart j)),
        ground (arith, first),
      ) in
      let on = step (KeysValid is_path) in
      on (bytes_eq suffix []) free with_arg _ (λ f. (names, paths, arg_valid f))
        (on (bytes_eq suffix (codes "path")) free with_path none (λ f. (names, paths, path_valid f))
          tt)

  assign_other-KeysValid :
      (index : Option Bytes) → AllKeys (KeysValid is_path) (assign_other keys value index)
  unfolding assign_other
  assign_other-KeysValid none = tt
  assign_other-KeysValid (some index) = assign_arg-KeysValid (scan_index 2 0 index)

-- Assigning a key to valid keys either fails or gives valid keys: every name, interface, member,
-- namespace and path that is set passes its validator, path and path_namespace are not both set,
-- every argument lies below the count of its array of 64, none has both a value and a path, and the
-- first has neither where arg0namespace is set.
pub match_keys_assign-KeysValid :
    (is_path : Bytes → Bool) (keys : MatchKeys) (key value : Bytes) (allow_eavesdrop : Bool)
    → KeysValid is_path keys
    → AllKeys (KeysValid is_path) (match_keys_assign is_path keys key value allow_eavesdrop)
unfolding match_keys_assign
match_keys_assign-KeysValid is_path keys key value allow_eavesdrop v =
    let ((sender, destination, interface, member, namespace), paths, args) = v in
    let (path, path_namespace, one_path) = paths in
    let (a, p, below, below', apart, first) = args in
    let on = step (KeysValid is_path) in
    on (bytes_eq key (codes "type")) _ (record keys { type = type_of value }) _ (λ h. v)
      (on (bytes_eq key (codes "sender")) (not (is_set keys.sender) && dbus_validate_name value)
        (record keys {
          sender = some value;
          sender_id = sender_id_of keys.sender_id (address_from_string value);
        })
        _ (λ h. (((&&_split _ _ h).1, destination, interface, member, namespace), paths, args))
        (on (bytes_eq key (codes "destination"))
          (not (is_set keys.destination) && dbus_validate_name value)
          (record keys { destination = some value }) _
          (λ h. ((sender, (&&_split _ _ h).1, interface, member, namespace), paths, args))
          (on (bytes_eq key (codes "interface"))
            (not (is_set keys.interface) && dbus_validate_interface value)
            (record keys { interface = some value }) _
            (λ h. ((sender, destination, (&&_split _ _ h).1, member, namespace), paths, args))
            (on (bytes_eq key (codes "member"))
              (not (is_set keys.member) && dbus_validate_member value)
              (record keys { member = some value }) _
              (λ h. ((sender, destination, interface, (&&_split _ _ h).1, namespace), paths, args))
              (on (bytes_eq key (codes "path"))
                (not (is_set keys.path || is_set keys.path_namespace) && is_path value)
                (record keys { path = some value }) _
                (λ h. (v.0, ((&&_split _ _ h).1, path_namespace, ground arith), args))
                (on (bytes_eq key (codes "path_namespace"))
                  (not (is_set keys.path_namespace || is_set keys.path) && is_path value)
                  (record keys { path_namespace = some value }) _
                  (λ h. (v.0, (path, (&&_split _ _ h).1, ground arith), args))
                  (on (bytes_eq key (codes "eavesdrop")) _ keys _ (λ h. v)
                    (on (bytes_eq key (codes "arg0namespace"))
                      (not (
                          is_set keys.arg0namespace
                          || (is_set (keys.args 0) || is_set (keys.argpaths 0)))
                        && dbus_validate_namespace value)
                      (record keys { arg0namespace = some value }) _
                      (λ h. (
                        (sender, destination, interface, member, (&&_split _ _ h).1),
                        paths,
                        (a, p, below, below', apart, ground arith),
                      ))
                      (assign_other-KeysValid is_path keys v value
                        (strip_prefix (codes "arg") key))))))))))
