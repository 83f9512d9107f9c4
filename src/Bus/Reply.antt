-- ===== src/Bus/Reply.antt =====
-- src/bus/reply.c: the slots of expected replies, by the ID of the peer and the serial of the call. An
-- owner's list of slots is what the registry holds for the owner. The accounting is that of
-- src/util/user.c, on one user.
pub mod Tests
pub mod Slots
pub mod Accounting
use dbus_broker.Common.{
  ℕ, ◌+◌, Bool, true, false, ◌&&◌, Option, none, some, List, [], ◌∷◌, ltb, ◌==◌, if◌then◌else◌,
}
use dbus_broker.Util.User
use dbus_broker.Util.User.{User, Charge, user_charge, user_charge_deinit, user_charge_init, add32}

pub record ReplySlot : Type 0 where
  pub id : ℕ
  pub serial : ℕ
  pub owner : ℕ
  pub charge : Charge

-- 0, REPLY_E_EXISTS, REPLY_E_QUOTA and a negative error code; an assertion that fails in
-- user_charge() ends the program.
pub data Code : Type 0 where
  success exists quota error assertion : Code

-- USER_SLOT_OBJECTS
abbrev pub slot_objects : ℕ
slot_objects = 3

abbrev pub has_key : ℕ → ℕ → ReplySlot → Bool
has_key id serial r = (r.id == id) && (r.serial == serial)

unfoldable pub reply_slot_get_by_id : List ReplySlot → ℕ → ℕ → Option ReplySlot
reply_slot_get_by_id [] id serial = none
reply_slot_get_by_id (r ∷ rs) id serial =
    if has_key id serial r then some r else reply_slot_get_by_id rs id serial

-- The result of charging a new slot: it is linked only if the charge was granted, and nothing
-- undoes the charge otherwise.
unfoldable pub link_charged :
    List ReplySlot → ReplySlot → User × Charge × User.Code → List ReplySlot × User × Code
link_charged rs r (user, charge, User.success) = (record r { charge = charge } ∷ rs, user, success)
link_charged rs r (user, charge, User.quota) = (rs, user, quota)
link_charged rs r (user, charge, User.error) = (rs, user, error)
link_charged rs r (user, charge, User.assertion) = (rs, user, assertion)

-- reply_slot_new(): `memory` says whether the slot can be allocated, `usage_memory` whether a usage
-- can, and `log` is the user's log.
unfoldable pub reply_slot_new :
    Bool → Bool → Option Bool → List ReplySlot → ℕ → User → ℕ → ℕ → ℕ → List ReplySlot × User × Code
reply_slot_new memory usage_memory log rs owner user actor id serial =
    elim (reply_slot_get_by_id rs id serial) [
      | some r ↦ (rs, user, exists)
      | none ↦
          if memory
          then link_charged rs
              (record { id = id; serial = serial; owner = owner; charge = user_charge_init })
              (user_charge usage_memory log user user_charge_init actor slot_objects 1)
          else (rs, user, error)
    ]

unfoldable pub unlink_slot : ℕ → ℕ → List ReplySlot → List ReplySlot
unlink_slot id serial [] = []
unlink_slot id serial (r ∷ rs) =
    let rest = unlink_slot id serial rs in if has_key id serial r then rs else r ∷ rest

-- reply_slot_free() of the slot with a key, if there is one
unfoldable pub reply_slot_free : List ReplySlot → User → ℕ → ℕ → List ReplySlot × User
reply_slot_free rs user id serial = elim (reply_slot_get_by_id rs id serial) [
  | none ↦ (rs, user)
  | some r ↦ (unlink_slot id serial rs, (user_charge_deinit user r.charge).0)
]

-- reply_owner_get_stats(): what the slots of an owner have been charged.
unfoldable pub reply_owner_get_stats : ℕ → List ReplySlot → ℕ
reply_owner_get_stats owner [] = 0
reply_owner_get_stats owner (r ∷ rs) =
    let rest = reply_owner_get_stats owner rs in
    if r.owner == owner then add32 r.charge.charge rest else rest
