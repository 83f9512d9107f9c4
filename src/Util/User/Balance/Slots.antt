-- ===== src/Util/User/Balance/Slots.antt =====
-- Moving an amount between what is left of a slot and what a usage has consumed of it, in the 32-bit
-- arithmetic of src/util/user.c.
use dbus_broker.Common.{
  ==_iff, ℕ, ◌+◌, true, ◌&&◌, ◌==◌, if◌then◌else◌, ◌≡◌, ◌≢◌, refl, arith, inl, inr, Bool-cases, sym,
  ◌∙◌,
}
use dbus_broker.Util.User.{Usage, User, modify_usage, consumed, set_slot}
use dbus_broker.Util.User.Usages
use dbus_broker.Util.User.Balance.{Balanced}

-- The write of a slot of a usage, by `v`.
abbrev pub write : (ℕ → ℕ) → ℕ → Usage → Usage
write v slot g = record g { slots = set_slot g.slots slot (v (g.slots slot)) }

abbrev pub seen : (ℕ → ℕ) → ℕ → ℕ → ℕ → ℕ
seen v slot s n = if s == slot then v n else n

pub set_slot_self : (f : ℕ → ℕ) (slot v : ℕ) → set_slot f slot v slot ≡ v
unfolding set_slot
set_slot_self f slot v = ground arith

pub set_slot_ne : (f : ℕ → ℕ) (slot v s : ℕ) → s ≢ slot → set_slot f slot v s ≡ f s
unfolding set_slot
set_slot_ne f slot v s n = ground arith

write-seen :
    (v : ℕ → ℕ) (slot s : ℕ) (g : Usage) → (write v slot g).slots s ≡ seen v slot s (g.slots s)
unfolding set_slot
write-seen v slot s g = elim (Bool-cases (s == slot)) [
  | inl same ↦ let e : s ≡ slot = (==_iff s slot).0 same in rw same (rw e)
  | inr other ↦ rw other
]

module _ {u : User} {held : ℕ → ℕ → ℕ} {pins : ℕ → ℕ} (b : Balanced u held pins) (uid slot : ℕ)
    (p : Usages.present uid u.usages ≡ true) (v : ℕ → ℕ) (w : ℕ) (held' : ℕ → ℕ → ℕ)
    (same_sum : w + v (consumed uid slot u.usages) ≡ u.n slot + consumed uid slot u.usages)
    (moves : (k s : ℕ)
      → held' k s ≡ (if (uid == k) && (slot == s) then v (held k s) else held k s)) where
  written_consumed : (k s : ℕ) → consumed k s (modify_usage uid (write v slot) u.usages) ≡ held' k s
  written_consumed k s =
      Usages.consumed-modify_if uid (write v slot) (λ g. refl) u.usages p k s (seen v slot s)
        (write-seen v slot s)
      ∙ ground (arith, b.consumed_held k s, moves k s)

  written_at :
      set_slot u.n slot w slot + Usages.total slot (modify_usage uid (write v slot) u.usages)
      ≡ u.max slot
  written_at = omega (
    arith,
    b.conserved slot,
    same_sum,
    set_slot_self u.n slot w,
    Usages.total-modify uid (write v slot) (λ g. refl) slot v
        (λ g. set_slot_self g.slots slot (v (g.slots slot))) u.usages p,
  )

  written_ne :
      (s : ℕ)
      → s ≢ slot
      → set_slot u.n slot w s + Usages.total s (modify_usage uid (write v slot) u.usages) ≡ u.max s
  written_ne s n = omega (
    arith,
    b.conserved s,
    set_slot_ne u.n slot w s n,
    Usages.total-modify uid (write v slot) (λ g. refl) s (λ m. m)
        (λ g. set_slot_ne g.slots slot (v (g.slots slot)) s n) u.usages p,
  )

  -- A write that keeps the sum of what is left and what is consumed keeps the books.
  pub written-Balanced :
      Balanced
        (record u { n = set_slot u.n slot w; usages = modify_usage uid (write v slot) u.usages })
        held'
        pins
  written-Balanced = record {
    distinct = Usages.AllDistinct-modify uid (write v slot) (λ g. refl) u.usages b.distinct;
    pinned =
        Usages.AllPinned-modify uid (write v slot) (λ g. refl) (λ n. n) (λ g. refl) u.usages
          (λ n h. h) b.pinned;
    counted = b.counted ∙ sym (Usages.length-modify uid (write v slot) (λ g. refl) u.usages);
    consumed_held = written_consumed;
    references_pins = λ k.
        Usages.references-modify_if uid (write v slot) (λ g. refl) u.usages p k (λ n. n) (λ g. refl)
        ∙ ground (arith, b.references_pins k);
    conserved = λ s. elim (Bool-cases (s == slot)) [
      | inl same ↦ let e : s ≡ slot = (==_iff s slot).0 same in rw e written_at
      | inr other ↦ written_ne s (λ e. ground arith)
    ];
    bounded = b.bounded;
  }
