-- ===== src/Util/User/Balance/Charges.antt =====
-- user_charge() and user_charge_deinit() of src/util/user.c keep the books of a user, beside any
-- other charges.
use dbus_broker.Common.{
  Option-cases, ℕ, zero, suc, ◌+◌, ◌<◌, ◌≤◌, Bool, true, Option, none, some, ◌==◌, if◌then◌else◌,
  ◌≡◌, refl, arith, inl, inr, sym, ◌∙◌,
}
use dbus_broker.Util.Decimal.{u32_limit}
use dbus_broker.Util.User.{
  User, Charge, modify_usage, consumed, set_slot, add32, sub32, charge_slot, user_charge,
  user_charge_deinit, user_charge_commit_log, user_ref_usage, success, references,
}
use dbus_broker.Util.User.Quota.{add32_lem, sub32_lem, user_charge_check-le}
use dbus_broker.Util.User.Usages
use dbus_broker.Util.User.Balance.{
  Balanced, BalancedWith, held1, pinned_present, within, ref_present-Balanced, ref_absent-Balanced,
  logged-Balanced, pin1,
}
use dbus_broker.Util.User.Balance.Slots.{written-Balanced}
use dbus_broker.Util.User.Balance.Unref.{unref_usage-Balanced, unref_usage-success}

pub Balanced-ext :
    {u : User} {h h' : ℕ → ℕ → ℕ} {p p' : ℕ → ℕ}
    → Balanced u h p
    → ((k s : ℕ) → h k s ≡ h' k s)
    → ((k : ℕ) → p k ≡ p' k)
    → Balanced u h' p'
Balanced-ext b e f = record {
  distinct = b.distinct;
  pinned = b.pinned;
  counted = b.counted;
  consumed_held = λ k s. b.consumed_held k s ∙ e k s;
  references_pins = λ k. b.references_pins k ∙ f k;
  conserved = b.conserved;
  bounded = b.bounded;
}

-- A charge of q on the slot of an actor's usage.
abbrev pub on : ℕ → ℕ → ℕ → Charge
on actor slot q = record { usage = some actor; slot = slot; charge = q }

module _ (u : User) (H : ℕ → ℕ → ℕ) (P : ℕ → ℕ) (actor slot q : ℕ)
    (b : BalancedWith u H P (on actor slot q)) where
  pub on_present : Usages.present actor u.usages ≡ true
  on_present = pinned_present b actor (ground arith)

  pub on_consumed : consumed actor slot u.usages ≡ H actor slot + q
  on_consumed = ground (arith, b.consumed_held actor slot)

  pub on_room : u.n slot + consumed actor slot u.usages < u32_limit
  on_room = omega (arith, within b actor slot, b.bounded slot)

  -- An amount that is available is moved in full, without wrapping around.
  granted-Balanced :
      (amount : ℕ)
      → amount ≤ u.n slot
      → BalancedWith
          (record u {
            n = set_slot u.n slot (sub32 (u.n slot) amount);
            usages =
                modify_usage actor
                  (λ g. record g { slots = set_slot g.slots slot (add32 (g.slots slot) amount) })
                  u.usages;
          })
          H
          P
          (on actor slot (add32 q amount))
  granted-Balanced amount h =
      written-Balanced b actor slot on_present (λ n. add32 n amount) (sub32 (u.n slot) amount) _
        (omega (
          arith,
          on_room,
          add32_lem (consumed actor slot u.usages) amount (omega (arith, on_room)),
          sub32_lem (u.n slot) amount h (omega (arith, on_room)),
        ))
        (λ k s. ground (
          arith,
          add32_lem q amount (omega (arith, on_room, on_consumed)),
          add32_lem (H actor slot + q) amount (omega (arith, on_room, on_consumed)),
        ))

  commit_log-Balanced :
      (log : Option Bool)
      → BalancedWith (user_charge_commit_log log u actor).0 H P (on actor slot q)
  unfolding user_charge_commit_log
  commit_log-Balanced none = b
  commit_log-Balanced (some committed) = ground (arith, logged-Balanced b actor on_present)

  charge_slot-Balanced :
      (log : Option Bool) (amount : ℕ)
      → u.n_usages + 1 < u32_limit
      → let (u', c', code) = charge_slot log u (on actor slot q) actor slot amount in
        BalancedWith u' H P c'
  unfolding charge_slot
  charge_slot-Balanced log amount few = ground (
    arith,
    granted-Balanced amount,
    commit_log-Balanced log,
    user_charge_check-le (u.n slot) u.n_usages (consumed actor slot u.usages) amount on_room few,
  )

-- A fresh charge, once it has the actor's usage.
pub attached-Balanced :
    (memory : Bool) (u u' : User) (H : ℕ → ℕ → ℕ) (P : ℕ → ℕ) (actor slot slot' : ℕ)
    → BalancedWith u H P (record { usage = none; slot = slot'; charge = 0 })
    → user_ref_usage memory u actor ≡ some u'
    → BalancedWith u' H P (on actor slot 0) × (u'.n_usages ≤ u.n_usages + 1)
unfolding user_ref_usage
attached-Balanced memory u u' H P actor slot slot' b e =
    let held0 : ℕ → ℕ → ℕ = λ k s. H k s + 0 in
    let pins1 : ℕ → ℕ = λ k. P k + (if actor == k then 1 else 0) in
    let zero_held : (k s : ℕ) → held0 k s ≡ H k s + held1 (on actor slot 0) k s =
      λ k s. ground arith in
    let one_pin : (k : ℕ) → pins1 k ≡ P k + 0 + (if actor == k then 1 else 0) = λ k. omega arith in
    elim (Usages.find_usage-present actor u.usages) [
      | inl (missing, away) ↦
          let b' = ref_absent-Balanced b actor pins1 away one_pin in
          ground (arith, missing, Balanced-ext b' zero_held (λ k. refl))
      | inr (g, found, here) ↦
          let b' = ref_present-Balanced b actor pins1 here one_pin in
          ground (arith, found, Balanced-ext b' zero_held (λ k. refl))
    ]

pub user_charge-cases :
    (memory : Bool) (log : Option Bool) (u : User) (H : ℕ → ℕ → ℕ) (P : ℕ → ℕ) (o : Option ℕ)
    (slot' q actor slot amount : ℕ)
    → BalancedWith u H P (record { usage = o; slot = slot'; charge = q })
    → (o ≡ none → q ≡ 0)
    → u.n_usages + 2 < u32_limit
    → let (u', c', code) =
        user_charge memory log u
          (record { usage = o; slot = slot'; charge = q })
          actor
          slot
          amount in
      BalancedWith u' H P c'
unfolding user_charge
user_charge-cases memory log u H P none slot' (suc q) actor slot amount b unused few =
    absurd (omega (arith, unused refl))
user_charge-cases memory log u H P none slot' zero actor slot amount b unused few =
    elim (Option-cases (user_ref_usage memory u actor)) [
      | inl failed ↦ ground (arith, failed)
      | inr (u', e) ↦
          let (b', grown) = attached-Balanced memory u u' H P actor slot slot' b e in
          let charged = charge_slot-Balanced u' H P actor slot 0 b' log amount (omega arith) in
          ground (arith, e, charged)
    ]
user_charge-cases memory log u H P (some uid) slot' q actor slot amount b unused few =
    ground (arith, charge_slot-Balanced u H P uid slot' q b log amount)

-- The state in which the usage of a released charge loses a reference.
abbrev pub released : User → ℕ → ℕ → ℕ → User
released u uid slot q = record u {
  n = set_slot u.n slot (add32 (u.n slot) q);
  usages =
      modify_usage uid (λ g. record g { slots = set_slot g.slots slot (sub32 (g.slots slot) q) })
        u.usages;
}

module _ (u : User) (H : ℕ → ℕ → ℕ) (P : ℕ → ℕ) (uid slot q : ℕ)
    (b : BalancedWith u H P (on uid slot q)) where
  released-Balanced :
      Balanced (released u uid slot q) (λ k s. H k s + 0) (λ k. P k + pin1 (on uid slot q) k)
  released-Balanced =
      let here = on_present u H P uid slot q b in
      let had = on_consumed u H P uid slot q b in
      let room = on_room u H P uid slot q b in
      written-Balanced b uid slot here (λ n. sub32 n q) (add32 (u.n slot) q) (λ k s. H k s + 0)
        (omega (
          arith,
          add32_lem (u.n slot) q (omega arith),
          sub32_lem (consumed uid slot u.usages) q (omega arith) (omega arith),
        ))
        (λ k s. ground (arith, sub32_lem (H uid slot + q) q (omega arith) (omega arith)))

  last_holds_nothing :
      ((uid : ℕ) → P uid ≡ 0 → (s : ℕ) → H uid s ≡ 0)
      → references uid (released u uid slot q).usages ≡ 1
      → (s : ℕ) → H uid s + 0 ≡ 0
  last_holds_nothing idle one s =
      let last : P uid ≡ 0 = ground (arith, released-Balanced.references_pins uid) in
      omega (arith, idle uid last s)

pub deinit-success :
    (u : User) (H : ℕ → ℕ → ℕ) (P : ℕ → ℕ) (o : Option ℕ) (slot q : ℕ)
    → BalancedWith u H P (record { usage = o; slot = slot; charge = q })
    → ((uid : ℕ) → P uid ≡ 0 → (s : ℕ) → H uid s ≡ 0)
    → (o ≡ none → q ≡ 0)
    → (user_charge_deinit u (record { usage = o; slot = slot; charge = q })).2 ≡ success
unfolding user_charge_deinit
deinit-success u H P none slot q b idle clean = rw (clean refl) refl
deinit-success u H P (some uid) slot q b idle clean =
    let b' = released-Balanced u H P uid slot q b in
    unref_usage-success b' uid (λ k. P k + 0) (λ k. omega arith) _ (sym (b'.references_pins uid))
      (last_holds_nothing u H P uid slot q b idle)

pub deinit-cases :
    (u : User) (H : ℕ → ℕ → ℕ) (P : ℕ → ℕ) (o : Option ℕ) (slot q : ℕ)
    → BalancedWith u H P (record { usage = o; slot = slot; charge = q })
    → ((uid : ℕ) → P uid ≡ 0 → (s : ℕ) → H uid s ≡ 0)
    → BalancedWith
        (user_charge_deinit u (record { usage = o; slot = slot; charge = q })).0
        H
        P
        (user_charge_deinit u (record { usage = o; slot = slot; charge = q })).1
unfolding user_charge_deinit
deinit-cases u H P none slot q b idle = b
deinit-cases u H P (some uid) slot q b idle =
    let b' = released-Balanced u H P uid slot q b in
    unref_usage-Balanced b' uid (λ k. P k + 0) (λ k. omega arith) _ (sym (b'.references_pins uid))
      (last_holds_nothing u H P uid slot q b idle)
