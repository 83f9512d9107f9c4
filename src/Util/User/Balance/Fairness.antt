-- ===== src/Util/User/Balance/Fairness.antt =====
-- What a granted charge of src/util/user.c leaves to the other users.
use dbus_broker.Common.{
  ℕ, zero, suc, ◌+◌, ◌*◌, ◌<◌, ◌≤◌, Bool, List, ◌∷◌, ◌++◌, Option, none, some, ◌≡◌, ◌≢◌, refl,
  arith, inl, inr, Bool-cases, Option-cases, sym, ◌∙◌, leb→le,
}
use dbus_broker.Util.Decimal.{u32_limit}
use dbus_broker.Util.User.{
  User, Charge, success, add32, sub32, modify_usage, consumed, charge_slot, user_charge,
  user_charge_commit_log, user_charge_check, user_ref_usage,
}
use dbus_broker.Util.User.Quota.{add32_lem, sub32_lem, user_charge_check_lem, user_charge_check-le}
use dbus_broker.Util.User.Usages
use dbus_broker.Util.User.Balance.{BalancedWith}
use dbus_broker.Util.User.Balance.Slots.{write, set_slot_self}
use dbus_broker.Util.User.Balance.Charges.{on, on_present, on_room, attached-Balanced}
use dbus_broker.Util.User.Balance.Ledger.{Books, IsClean, held, pins, apart}

commit_log-ne-success :
    (log : Option Bool) (u : User) (actor : ℕ) → (user_charge_commit_log log u actor).1 ≢ success
unfolding user_charge_commit_log
commit_log-ne-success log u actor = ground arith

module _ (u : User) (H : ℕ → ℕ → ℕ) (P : ℕ → ℕ) (actor slot q : ℕ)
    (b : BalancedWith u H P (on actor slot q)) where
  after_consumed :
      (amount : ℕ)
      → consumed actor slot (modify_usage actor (write (λ n. add32 n amount) slot) u.usages)
        ≡ add32 (consumed actor slot u.usages) amount
  after_consumed amount =
      Usages.consumed-modify actor (write (λ n. add32 n amount) slot) (λ g. refl) slot
        (λ n. add32 n amount) (λ g. set_slot_self g.slots slot _) u.usages
        (on_present u H P actor slot q b)

  charge_slot_fair :
      (log : Option Bool) (amount : ℕ)
      → u.n_usages + 1 < u32_limit
      → u.uid ≢ actor
      → (charge_slot log u (on actor slot q) actor slot amount).2 ≡ success
      → let u' = (charge_slot log u (on actor slot q) actor slot amount).0 in
        consumed actor slot u'.usages * (u'.n_usages + 1)
        ≤ u'.n slot + consumed actor slot u'.usages
  unfolding charge_slot
  charge_slot_fair log amount few foreign ok =
      let share = consumed actor slot u.usages in
      let room = on_room u H P actor slot q b in
      let check = user_charge_check (u.n slot) u.n_usages share amount in
      elim (Bool-cases check) [
        | inl granted ↦
            let fits = user_charge_check-le (u.n slot) u.n_usages share amount room few granted in
            let le =
              leb→le _ _ (
                sym (user_charge_check_lem (u.n slot) u.n_usages share amount room few)
                ∙ granted) in
            ground (
              arith,
              after_consumed amount,
              set_slot_self u.n slot (sub32 (u.n slot) amount),
              add32_lem share amount (omega arith),
              sub32_lem (u.n slot) amount fits (omega arith),
              le,
            )
        | inr refused ↦ absurd (ground (arith, commit_log-ne-success log u actor))
      ]

-- What the actor has consumed of the slot, times one more than the number of usages, is at most what
-- it has consumed and what is left together.
abbrev pub FairShare : User → ℕ → ℕ → Type 0
FairShare u actor slot =
    consumed actor slot u.usages * (u.n_usages + 1) ≤ u.n slot + consumed actor slot u.usages

fair-cases :
    (memory : Bool) (log : Option Bool) (u : User) (H : ℕ → ℕ → ℕ) (P : ℕ → ℕ) (o : Option ℕ)
    (slot' q actor slot amount : ℕ)
    → BalancedWith u H P (record { usage = o; slot = slot'; charge = q })
    → (o ≡ none → q ≡ 0)
    → u.n_usages + 2 < u32_limit
    → 0 < amount
    → u.uid ≢ actor
    → (user_charge memory log u
        (record { usage = o; slot = slot'; charge = q })
        actor
        slot
        amount).2
      ≡ success
    → FairShare
        (user_charge memory log u
          (record { usage = o; slot = slot'; charge = q })
          actor
          slot
          amount).0
        actor
        slot
unfolding user_charge
fair-cases memory log u H P none slot' (suc q) actor slot amount b unused few pos foreign ok =
    absurd (omega (arith, unused refl))
fair-cases memory log u H P none slot' zero actor slot amount b unused few pos foreign ok =
    elim (Option-cases (user_ref_usage memory u actor)) [
      | inl failed ↦ absurd (ground (arith, failed))
      | inr (u', e) ↦
          let (b', grown) = attached-Balanced memory u u' H P actor slot slot' b e in
          let same : u'.uid ≡ u.uid = unfold user_ref_usage in ground arith in
          let fair =
            charge_slot_fair u' H P actor slot 0 b' log amount (omega arith)
              (λ k. foreign (sym same ∙ k)) in
          ground (arith, e, fair)
    ]
fair-cases memory log u H P (some uid) slot' q actor slot amount b unused few pos foreign ok =
    ground (arith, charge_slot_fair u H P uid slot' q b log amount)

-- Where a charge on behalf of another user is granted, the actor's consumption of the slot, taken
-- (number of users + 1) times, is at most that consumption and what is left together: a share of no
-- more than one n-th, n being one more than the number of users. The charge is one of any list; if
-- it has no usage it holds nothing, and the user has fewer than 2^32 - 2 usages.
pub user_charge_fair :
    (memory : Bool) (log : Option Bool) (u : User) (before after : List Charge) (c : Charge)
    (actor slot amount : ℕ)
    → Books u (before ++ c ∷ after)
    → IsClean c
    → u.n_usages + 2 < u32_limit
    → 0 < amount
    → u.uid ≢ actor
    → (user_charge memory log u c actor slot amount).2 ≡ success
    → FairShare (user_charge memory log u c actor slot amount).0 actor slot
user_charge_fair memory log u before after c actor slot amount b clean few pos foreign ok =
    fair-cases memory log u (held (before ++ after)) (pins (before ++ after)) c.usage c.slot
      c.charge actor slot amount (apart u before after c b) (λ e. ground arith) few pos foreign ok
