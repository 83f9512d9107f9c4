-- ===== src/Bus/Reply/Accounting.antt =====
-- The charges of the slots of src/bus/reply.c on a user's books.
use dbus_broker.Common.{
  ℕ, ◌+◌, ◌<◌, Bool, Option, none, List, [], ◌∷◌, ◌++◌, map, ◌≡◌, ◌≢◌, refl, arith, Option-cases,
  inl, inr, Bool-cases,
}
use dbus_broker.Util.Decimal.{u32_limit}
use dbus_broker.Util.User
use dbus_broker.Util.User.{
  User, Charge, user_charge, user_charge_deinit, user_charge_init, user_ref_usage, charge_slot,
}
use dbus_broker.Util.User.Balance.Ledger.{Books, Books-unused, user_charge-Books}
use dbus_broker.Bus.Reply.{
  ReplySlot, Code, success, exists, quota, error, assertion, reply_slot_get_by_id, link_charged,
  reply_slot_new, slot_objects,
}

-- The charges of the slots.
abbrev pub charges : List ReplySlot → List Charge
charges rs = map (λ (r : ReplySlot). r.charge) rs

-- What the registry and the books look like after a slot was asked for. On a quota error the books
-- hold a charge that pins a usage and belongs to no slot; on other errors they may.
abbrev pub Accounted : Code → List Charge → List ReplySlot → List ReplySlot → User → User → Type 0
Accounted success others rs rs' u u' = Books u' (charges rs' ++ others)
Accounted exists others rs rs' u u' = (rs' ≡ rs) × (u' ≡ u)
Accounted quota others rs rs' u u' =
    (rs' ≡ rs) × (lost : Charge) × (lost.usage ≢ none) × Books u' (lost ∷ charges rs ++ others)
Accounted error others rs rs' u u' =
    (rs' ≡ rs) × (lost : Charge) × Books u' (lost ∷ charges rs ++ others)
Accounted assertion others rs rs' u u' =
    (rs' ≡ rs) × (lost : Charge) × Books u' (lost ∷ charges rs ++ others)

quota_pins :
    (memory : Bool) (log : Option Bool) (u : User) (actor slot amount : ℕ)
    → (user_charge memory log u user_charge_init actor slot amount).2 ≡ User.quota
    → (user_charge memory log u user_charge_init actor slot amount).1.usage ≢ none
unfolding user_charge charge_slot
quota_pins memory log u actor slot amount h = ground arith

link_charged-Accounted :
    (others : List Charge) (rs : List ReplySlot) (r : ReplySlot) (u : User)
    (charged : User × Charge × User.Code)
    → Books charged.0 (charged.1 ∷ charges rs ++ others)
    → (charged.2 ≡ User.quota → charged.1.usage ≢ none)
    → let (rs', u', code) = link_charged rs r charged in Accounted code others rs rs' u u'
unfolding link_charged
link_charged-Accounted others rs r u (u', c, User.success) b q = b
link_charged-Accounted others rs r u (u', c, User.quota) b q = (refl, c, q refl, b)
link_charged-Accounted others rs r u (u', c, User.error) b q = (refl, c, b)
link_charged-Accounted others rs r u (u', c, User.assertion) b q = (refl, c, b)

-- Asking for a reply slot, on a user whose books agree with the charges of the registry's slots and
-- with others. If it is made, the books agree with the slots that there are then. If the key is
-- taken, nothing changes. If the quota forbids it, the registry is as it was, but the books hold a
-- charge that pins a usage of the user and belongs to no slot, so nothing will release it.
pub new-Accounted :
    (memory usage_memory : Bool) (log : Option Bool) (others : List Charge) (rs : List ReplySlot)
    (owner : ℕ) (user : User) (actor id serial : ℕ)
    → Books user (charges rs ++ others)
    → user.n_usages + 2 < u32_limit
    → let (rs', user', code) =
        reply_slot_new memory usage_memory log rs owner user actor id serial in
      Accounted code others rs rs' user user'
unfolding reply_slot_new
new-Accounted memory usage_memory log others rs owner user actor id serial b few =
    let fresh : ReplySlot = record {
      id = id;
      serial = serial;
      owner = owner;
      charge = user_charge_init;
    } in
    let charged = user_charge usage_memory log user user_charge_init actor slot_objects 1 in
    let linked =
      link_charged-Accounted others rs fresh user charged
        (user_charge-Books usage_memory log user [] (charges rs ++ others) user_charge_init actor
          slot_objects 1 (Books-unused user (charges rs ++ others) b) refl few)
        (quota_pins usage_memory log user actor slot_objects 1) in
    elim (Option-cases (reply_slot_get_by_id rs id serial)) [
      | inr (r, taken) ↦ rw (taken, reply_slot_new) (refl, refl)
      | inl free ↦ elim (Bool-cases memory) [
        | inl ample ↦ rw (free, ample, reply_slot_new) linked
        | inr short ↦
            rw (free, short, reply_slot_new)
              (refl, user_charge_init, Books-unused user (charges rs ++ others) b)
      ]
    ]
