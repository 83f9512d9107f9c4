-- ===== src/Util/User/Balance/Unref.antt =====
-- Dropping a reference on a usage of src/util/user.c.
use dbus_broker.Common.{
  ℕ, zero, suc, ◌+◌, ◌-◌, true, ◌==◌, if◌then◌else◌, ◌≡◌, refl, arith, inl, inr, Bool-cases, sym,
  ◌∙◌, ==_iff,
}
use dbus_broker.Util.User.{
  Usage, User, modify_usage, unlink_usage, unref_usage, consumed, references, all_zero, success,
}
use dbus_broker.Util.User.Usages
use dbus_broker.Util.User.Balance.{Balanced, pinned_present}

module _ {u : User} {held : ℕ → ℕ → ℕ} {pins : ℕ → ℕ} (b : Balanced u held pins) (uid : ℕ)
    (pins' : ℕ → ℕ) (drops : (k : ℕ) → pins k ≡ pins' k + (if uid == k then 1 else 0)) where
  dropped_present : Usages.present uid u.usages ≡ true
  dropped_present = pinned_present b uid (ground (arith, drops uid))

  unlinked_consumed :
      ((s : ℕ) → held uid s ≡ 0) → (k s : ℕ) → consumed k s (unlink_usage uid u.usages) ≡ held k s
  unlinked_consumed none_held k s = elim (Bool-cases (k == uid)) [
    | inl same ↦
        let e : k ≡ uid = (==_iff k uid).0 same in
        rw e (
          (Usages.present-none uid (unlink_usage uid u.usages)
              (Usages.present-unlink uid u.usages b.distinct)).1
            s
          ∙ sym (none_held s))
    | inr other ↦
        Usages.consumed-unlink_ne uid k s u.usages (λ e. ground arith) ∙ b.consumed_held k s
  ]

  unlinked_references : pins uid ≡ 1 → (k : ℕ) → references k (unlink_usage uid u.usages) ≡ pins' k
  unlinked_references last k = elim (Bool-cases (k == uid)) [
    | inl same ↦
        let e : k ≡ uid = (==_iff k uid).0 same in
        rw e (
          (Usages.present-none uid (unlink_usage uid u.usages)
            (Usages.present-unlink uid u.usages b.distinct)).0
          ∙ ground (arith, drops uid))
    | inr other ↦
        Usages.references-unlink_ne uid k u.usages (λ e. ground arith)
        ∙ ground (arith, b.references_pins k, drops k)
  ]

  unlinked-Balanced :
      pins uid ≡ 1
      → ((s : ℕ) → held uid s ≡ 0)
      → Balanced
          (record u {
            usages = unlink_usage uid u.usages;
            n_usages = u.n_usages - 1;
            n_refs = u.n_refs - 1;
          })
          held
          pins'
  unlinked-Balanced last none_held = record {
    distinct = Usages.AllDistinct-unlink uid u.usages b.distinct;
    pinned = Usages.AllPinned-unlink uid u.usages b.pinned;
    counted = omega (arith, b.counted, Usages.length-unlink uid u.usages dropped_present);
    consumed_held = unlinked_consumed none_held;
    references_pins = unlinked_references last;
    conserved = λ s. omega (
      arith,
      b.conserved s,
      Usages.total-unlink uid s u.usages,
      b.consumed_held uid s,
      none_held s,
    );
    bounded = b.bounded;
  }

  kept-Balanced :
      (m : ℕ)
      → pins uid ≡ suc (suc m)
      → Balanced
          (record u { usages = modify_usage uid (λ g. record g { n_refs = suc m }) u.usages })
          held
          pins'
  kept-Balanced m e =
      let f : Usage → Usage = λ g. record g { n_refs = suc m } in
      record {
        distinct = Usages.AllDistinct-modify uid f (λ g. refl) u.usages b.distinct;
        pinned =
            Usages.AllPinned-modify uid f (λ g. refl) (λ n. suc m) (λ g. refl) u.usages
              (λ n h. omega arith) b.pinned;
        counted = b.counted ∙ sym (Usages.length-modify uid f (λ g. refl) u.usages);
        consumed_held = λ k s.
            Usages.consumed-modify_if uid f (λ g. refl) u.usages dropped_present k s (λ n. n)
              (λ g. refl)
            ∙ ground (arith, b.consumed_held k s);
        references_pins = λ k.
            Usages.references-modify_if uid f (λ g. refl) u.usages dropped_present k (λ n. suc m)
              (λ g. refl)
            ∙ ground (arith, b.references_pins k, drops k);
        conserved = λ s. omega (
          arith,
          b.conserved s,
          Usages.total-modify uid f (λ g. refl) s (λ n. n) (λ g. refl) u.usages dropped_present,
        );
        bounded = b.bounded;
      }

  -- The usage goes with its last reference, and nothing may be held of it then.
  pub unref_usage-Balanced :
      (r : ℕ)
      → pins uid ≡ r
      → (r ≡ 1 → (s : ℕ) → held uid s ≡ 0)
      → Balanced (unref_usage u uid r).0 held pins'
  unfolding unref_usage
  unref_usage-Balanced zero e last = absurd (ground (arith, drops uid))
  unref_usage-Balanced (suc zero) e last = unlinked-Balanced e (last refl)
  unref_usage-Balanced (suc (suc m)) e last = kept-Balanced m e

  unheld-all_zero : ((s : ℕ) → held uid s ≡ 0) → (n : ℕ) → all_zero uid n u.usages ≡ true
  unfolding all_zero
  unheld-all_zero none_held zero = refl
  unheld-all_zero none_held (suc i) =
      ground (arith, b.consumed_held uid i, none_held i, unheld-all_zero none_held i)

  -- No assertion fails on the way.
  pub unref_usage-success :
      (r : ℕ)
      → pins uid ≡ r
      → (r ≡ 1 → (s : ℕ) → held uid s ≡ 0)
      → (unref_usage u uid r).1 ≡ success
  unfolding unref_usage
  unref_usage-success zero e last = absurd (ground (arith, drops uid))
  unref_usage-success (suc zero) e last = rw (unheld-all_zero (last refl) u.n_slots) refl
  unref_usage-success (suc (suc m)) e last = refl
