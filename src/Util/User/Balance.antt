-- ===== src/Util/User/Balance.antt =====
-- The books of src/util/user.c: what the charges hold, the usages have consumed, and what is left.

pub mod Slots
pub mod Unref
pub mod Charges
pub mod Ledger
pub mod Fairness
use dbus_broker.Common.{
  ℕ, zero, suc, ◌+◌, ◌-◌, ◌*◌, ◌%◌, ◌<◌, ◌≤◌, Bool, true, false, ◌&&◌, ◌||◌, not, Option, none,
  some, List, [], ◌∷◌, leb, ltb, ◌==◌, if◌then◌else◌, ◌≡◌, ◌≢◌, refl, arith, inl, inr, ◌⊎◌, length,
  Bool-cases, ◌∙◌, sym,
}
use dbus_broker.Util.Decimal.{u32_limit}
use dbus_broker.Util.User.{
  Usage, User, Charge, Code, success, quota, error, assertion, find_usage, modify_usage,
  unlink_usage, consumed, references, set_slot, user_usage_ref, user_usage_new, user_ref_usage,
  unref_usage, charge_slot, user_charge_check, user_charge_commit_log, user_charge,
  user_charge_deinit, user_charge_init, add32, sub32,
}
use dbus_broker.Util.User.Quota.{add32_lem, sub32_lem, user_charge_check-le}
use dbus_broker.Util.User.Usages

-- What one charge holds of a user ID's usage, and whether it pins it.
abbrev pub held1 : Charge → ℕ → ℕ → ℕ
held1 c k s = elim c.usage [
  | none ↦ 0
  | some uid ↦ if (uid == k) && (c.slot == s) then c.charge else 0
]

abbrev pub pin1 : Charge → ℕ → ℕ
pin1 c k = elim c.usage [ none ↦ 0 | some uid ↦ if uid == k then 1 else 0 ]

-- The books of a user agree with what is held and pinned of it.
pub record Balanced (u : User) (held : ℕ → ℕ → ℕ) (pins : ℕ → ℕ) : Type 0 where
  pub distinct : Usages.AllDistinct u.usages
  pub pinned : Usages.AllPinned u.usages
  pub counted : u.n_usages ≡ length u.usages
  pub consumed_held : (k s : ℕ) → consumed k s u.usages ≡ held k s
  pub references_pins : (k : ℕ) → references k u.usages ≡ pins k
  pub conserved : (s : ℕ) → u.n s + Usages.total s u.usages ≡ u.max s
  pub bounded : (s : ℕ) → u.max s < u32_limit

-- A charge among others that hold `H` and pin `P`.
abbrev pub BalancedWith : User → (ℕ → ℕ → ℕ) → (ℕ → ℕ) → Charge → Type 0
BalancedWith u H P c = Balanced u (λ k s. H k s + held1 c k s) (λ k. P k + pin1 c k)

module _ {u : User} {held : ℕ → ℕ → ℕ} {pins : ℕ → ℕ} (b : Balanced u held pins) where
  pub pinned_present : (k : ℕ) → 0 < pins k → Usages.present k u.usages ≡ true
  pinned_present k h = elim (Bool-cases (Usages.present k u.usages)) [
    | inl here ↦ here
    | inr away ↦
        absurd (omega (arith, (Usages.present-none k u.usages away).0, b.references_pins k))
  ]

  -- What is consumed and what is left stay below the maximum.
  pub within : (k s : ℕ) → u.n s + consumed k s u.usages ≤ u.max s
  within k s = omega (arith, b.conserved s, Usages.consumed-le-total k s u.usages)

  -- Taking a reference on the usage of an actor that has one.
  pub ref_present-Balanced :
      (actor : ℕ) (pins' : ℕ → ℕ)
      → Usages.present actor u.usages ≡ true
      → ((k : ℕ) → pins' k ≡ pins k + (if actor == k then 1 else 0))
      → Balanced (record u { usages = modify_usage actor user_usage_ref u.usages }) held pins'
  ref_present-Balanced actor pins' p e = record {
    distinct = Usages.AllDistinct-modify actor user_usage_ref (λ g. refl) u.usages b.distinct;
    pinned =
        Usages.AllPinned-modify actor user_usage_ref (λ g. refl) (λ n. n + 1) (λ g. refl) u.usages
          (λ n h. omega arith) b.pinned;
    counted = b.counted ∙ sym (Usages.length-modify actor user_usage_ref (λ g. refl) u.usages);
    consumed_held = λ k s.
        Usages.consumed-modify_if actor user_usage_ref (λ g. refl) u.usages p k s (λ n. n)
          (λ g. refl)
        ∙ ground (arith, b.consumed_held k s);
    references_pins = λ k. ground (
      arith,
      Usages.references-modify_if actor user_usage_ref (λ g. refl) u.usages p k (λ n. n + 1)
          (λ g. refl),
      b.references_pins k,
      e k,
    );
    conserved = λ s. omega (
      arith,
      b.conserved s,
      Usages.total-modify actor user_usage_ref (λ g. refl) s (λ n. n) (λ g. refl) u.usages p,
    );
    bounded = b.bounded;
  }

  -- Linking a new usage for an actor that has none.
  pub ref_absent-Balanced :
      (actor : ℕ) (pins' : ℕ → ℕ)
      → Usages.present actor u.usages ≡ false
      → ((k : ℕ) → pins' k ≡ pins k + (if actor == k then 1 else 0))
      → Balanced
          (record u {
            usages = user_usage_new actor ∷ u.usages;
            n_usages = u.n_usages + 1;
            n_refs = u.n_refs + 1;
          })
          held
          pins'
  unfolding consumed references Usages.total
  ref_absent-Balanced actor pins' p e = record {
    distinct = (p, b.distinct);
    pinned = (omega arith, b.pinned);
    counted = omega (arith, b.counted);
    consumed_held =
        λ k s. ground (arith, (Usages.present-none actor u.usages p).1 s, b.consumed_held k s);
    references_pins =
        λ k. ground (arith, (Usages.present-none actor u.usages p).0, b.references_pins k, e k);
    conserved = λ s. omega (arith, b.conserved s);
    bounded = b.bounded;
  }

  -- Marking a usage as logged.
  pub logged-Balanced :
      (actor : ℕ)
      → Usages.present actor u.usages ≡ true
      → Balanced
          (record u { usages = modify_usage actor (λ g. record g { logged = true }) u.usages })
          held
          pins
  logged-Balanced actor p =
      let f : Usage → Usage = λ g. record g { logged = true } in
      record {
        distinct = Usages.AllDistinct-modify actor f (λ g. refl) u.usages b.distinct;
        pinned =
            Usages.AllPinned-modify actor f (λ g. refl) (λ n. n) (λ g. refl) u.usages (λ n h. h)
              b.pinned;
        counted = b.counted ∙ sym (Usages.length-modify actor f (λ g. refl) u.usages);
        consumed_held = λ k s.
            Usages.consumed-modify_if actor f (λ g. refl) u.usages p k s (λ n. n) (λ g. refl)
            ∙ ground (arith, b.consumed_held k s);
        references_pins = λ k.
            Usages.references-modify_if actor f (λ g. refl) u.usages p k (λ n. n) (λ g. refl)
            ∙ ground (arith, b.references_pins k);
        conserved = λ s. omega (
          arith,
          b.conserved s,
          Usages.total-modify actor f (λ g. refl) s (λ n. n) (λ g. refl) u.usages p,
        );
        bounded = b.bounded;
      }
