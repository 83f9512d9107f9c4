-- ===== src/Bus/Match/Keys/Sender.antt =====
-- The ID of the sender of a rule of src/bus/match.c: match_keys_assign() sets it with the sender.
use dbus_broker.Common.{
  ℕ, Bytes, codes, bytes_eq, strip_prefix, Bool, true, ◌&&◌, not, Option, none, some, [], max, ◌+◌,
  ◌≡◌, arith, ap,
}
use dbus_broker.Dbus.Protocol.{dbus_validate_name}
use dbus_broker.Dbus.Address.{address_id_invalid, address_from_string}
use dbus_broker.Bus.Match.Keys.{
  MatchKeys, is_set, type_of, sender_id_of, scan_index, set_arg, assign_arg, assign_other,
  match_keys_assign,
}
use dbus_broker.Bus.Match.Keys.Validity.{AllKeys, step}

-- The ID to look for is that of the sender, if the sender is an ID.
abbrev pub derived_id : Option Bytes → ℕ
derived_id none = address_id_invalid
derived_id (some s) = sender_id_of address_id_invalid (address_from_string s)

abbrev pub SenderDerived : MatchKeys → Type 0
SenderDerived k = k.sender_id ≡ derived_id k.sender

assign_other-SenderDerived :
    (keys : MatchKeys) (value : Bytes) (index : Option Bytes)
    → SenderDerived keys
    → AllKeys SenderDerived (assign_other keys value index)
unfolding assign_other assign_arg
assign_other-SenderDerived keys value none d = tt
assign_other-SenderDerived keys value (some index) d =
    let (i, suffix) = scan_index 2 0 index in
    let on = step SenderDerived in
    on (bytes_eq suffix []) _
      (record keys { args = set_arg i value keys.args; n_args = max (i + 1) keys.n_args }) _
      (λ h. d)
      (on (bytes_eq suffix (codes "path")) _
        (record keys {
          argpaths = set_arg i value keys.argpaths;
          n_argpaths = max (i + 1) keys.n_argpaths;
        })
        none (λ h. d) tt)

-- The sender is set once, so the ID is still unset when it is.
first_sender :
    (sender : Option Bytes) (n : ℕ) (value : Bytes)
    → n ≡ derived_id sender
    → (not (is_set sender) && dbus_validate_name value) ≡ true
    → sender_id_of n (address_from_string value) ≡ derived_id (some value)
first_sender none n value d h = ap (λ k. sender_id_of k (address_from_string value)) d
first_sender (some s) n value d h = absurd (ground arith)

pub match_keys_assign-SenderDerived :
    (is_path : Bytes → Bool) (keys : MatchKeys) (key value : Bytes) (allow_eavesdrop : Bool)
    → SenderDerived keys
    → AllKeys SenderDerived (match_keys_assign is_path keys key value allow_eavesdrop)
unfolding match_keys_assign
match_keys_assign-SenderDerived is_path keys key value allow_eavesdrop d =
    let on = step SenderDerived in
    on (bytes_eq key (codes "type")) _ (record keys { type = type_of value }) _ (λ h. d)
      (on (bytes_eq key (codes "sender")) (not (is_set keys.sender) && dbus_validate_name value)
        (record keys {
          sender = some value;
          sender_id = sender_id_of keys.sender_id (address_from_string value);
        })
        _ (λ h. first_sender keys.sender keys.sender_id value d h)
        (on (bytes_eq key (codes "destination")) _ (record keys { destination = some value }) _
          (λ h. d)
          (on (bytes_eq key (codes "interface")) _ (record keys { interface = some value }) _
            (λ h. d)
            (on (bytes_eq key (codes "member")) _ (record keys { member = some value }) _ (λ h. d)
              (on (bytes_eq key (codes "path")) _ (record keys { path = some value }) _ (λ h. d)
                (on (bytes_eq key (codes "path_namespace")) _
                  (record keys { path_namespace = some value }) _ (λ h. d)
                  (on (bytes_eq key (codes "eavesdrop")) _ keys _ (λ h. d)
                    (on (bytes_eq key (codes "arg0namespace")) _
                      (record keys { arg0namespace = some value }) _ (λ h. d)
                      (assign_other-SenderDerived keys value (strip_prefix (codes "arg") key)
                        d)))))))))
