-- ===== src/Bus/Reply/Slots.antt =====
-- Looking up the slots of src/bus/reply.c after they are made and freed.
use dbus_broker.Common.{
  ℕ, Bool, true, false, ◌&&◌, Option, none, some, List, [], ◌∷◌, ◌==◌, if◌then◌else◌, ◌≡◌, refl,
  arith, Option-cases, inl, inr,
}
use mathlib.Core.Option
use dbus_broker.Util.User
use dbus_broker.Util.User.{User, Charge, user_charge, user_charge_deinit, user_charge_init}
use dbus_broker.Bus.Reply.{
  ReplySlot, Code, success, exists, quota, error, assertion, has_key, reply_slot_get_by_id,
  link_charged, reply_slot_new, unlink_slot, reply_slot_free, slot_objects,
}

-- No key has two slots.
abbrev pub AllDistinct : List ReplySlot → Type 0
AllDistinct [] = Unit {0}
AllDistinct (r ∷ rs) = (reply_slot_get_by_id rs r.id r.serial ≡ none) × AllDistinct rs

abbrev pub is_success : Code → Bool
is_success success = true
is_success exists = false
is_success quota = false
is_success error = false
is_success assertion = false

-- The owner of the slot that is found under a key.
abbrev pub owner_at : List ReplySlot → ℕ → ℕ → Option ℕ
owner_at rs i s = Option.map (λ (r : ReplySlot). r.owner) (reply_slot_get_by_id rs i s)

link_charged-owner_at :
    (rs : List ReplySlot) (r : ReplySlot) (charged : User × Charge × User.Code) (i s : ℕ)
    → owner_at (link_charged rs r charged).0 i s ≡ (
        if is_success (link_charged rs r charged).2 && has_key i s r
        then some r.owner
        else owner_at rs i s)
unfolding link_charged reply_slot_get_by_id
link_charged-owner_at rs r (u, c, User.success) i s = ground arith
link_charged-owner_at rs r (u, c, User.quota) i s = refl
link_charged-owner_at rs r (u, c, User.error) i s = refl
link_charged-owner_at rs r (u, c, User.assertion) i s = refl

link_charged-AllDistinct :
    (rs : List ReplySlot) (r : ReplySlot) (charged : User × Charge × User.Code)
    → reply_slot_get_by_id rs r.id r.serial ≡ none
    → AllDistinct rs
    → AllDistinct (link_charged rs r charged).0
unfolding link_charged
link_charged-AllDistinct rs r (u, c, User.success) n d = (n, d)
link_charged-AllDistinct rs r (u, c, User.quota) n d = d
link_charged-AllDistinct rs r (u, c, User.error) n d = d
link_charged-AllDistinct rs r (u, c, User.assertion) n d = d

module _ (memory usage_memory : Bool) (log : Option Bool) (rs : List ReplySlot) (owner : ℕ)
    (user : User) (actor id serial : ℕ) where
  fresh : ReplySlot
  fresh = record { id = id; serial = serial; owner = owner; charge = user_charge_init }

  charged : User × Charge × User.Code
  charged = user_charge usage_memory log user user_charge_init actor slot_objects 1

  -- After a slot was made for a key, that key leads to its owner, and every other key to the owner
  -- that it had; a call that does not succeed changes no key.
  pub new-owner_at :
      (i s : ℕ)
      → let (rs', user', code) =
          reply_slot_new memory usage_memory log rs owner user actor id serial in
        owner_at rs' i s
        ≡ (if is_success code && (id == i) && (serial == s) then some owner else owner_at rs i s)
  unfolding reply_slot_new fresh charged
  new-owner_at i s = elim (Option-cases (reply_slot_get_by_id rs id serial)) [
    | inl free ↦ ground (arith, free, link_charged-owner_at rs fresh charged i s)
    | inr (r, taken) ↦ ground (arith, taken)
  ]

  -- The keys stay distinct.
  pub new-AllDistinct :
      AllDistinct rs
      → AllDistinct (reply_slot_new memory usage_memory log rs owner user actor id serial).0
  unfolding reply_slot_new fresh charged
  new-AllDistinct d = elim (Option-cases (reply_slot_get_by_id rs id serial)) [
    | inl free ↦ ground (arith, free, link_charged-AllDistinct rs fresh charged free d)
    | inr (r, taken) ↦ ground (arith, taken)
  ]

get-unlink_ne :
    (id serial i s : ℕ) (rs : List ReplySlot)
    → reply_slot_get_by_id rs i s ≡ none
    → reply_slot_get_by_id (unlink_slot id serial rs) i s ≡ none
unfolding reply_slot_get_by_id unlink_slot
get-unlink_ne id serial i s [] h = refl
get-unlink_ne id serial i s (r ∷ rs) h = ground (arith, get-unlink_ne id serial i s rs)

get-unlink :
    (id serial i s : ℕ) (rs : List ReplySlot)
    → AllDistinct rs
    → reply_slot_get_by_id (unlink_slot id serial rs) i s
      ≡ (if (id == i) && (serial == s) then none else reply_slot_get_by_id rs i s)
unfolding reply_slot_get_by_id unlink_slot
get-unlink id serial i s [] d = ground arith
get-unlink id serial i s (r ∷ rs) d = ground (arith, get-unlink id serial i s rs d.1)

-- Freeing the slot of a key leaves that key without one, and every other key with what it had.
pub get-free :
    (rs : List ReplySlot) (user : User) (id serial i s : ℕ)
    → AllDistinct rs
    → reply_slot_get_by_id (reply_slot_free rs user id serial).0 i s
      ≡ (if (id == i) && (serial == s) then none else reply_slot_get_by_id rs i s)
unfolding reply_slot_free
get-free rs user id serial i s d = elim (Option-cases (reply_slot_get_by_id rs id serial)) [
  | inl away ↦ ground (arith, away)
  | inr (r, here) ↦ ground (arith, here, get-unlink id serial i s rs d)
]
