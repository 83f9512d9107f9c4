-- ===== src/Bus/Policy/Conditions.antt =====
-- The conditions of a rule on a message in src/bus/policy.c, as propositions.
use dbus_broker.Common.{
  SameIfSet, ◌≤◌, Bytes, bytes_eq_refl, bytes_eq_sound, true, false, Option, none, some, ◌⊎◌, inl,
  inr, ◌≡◌, refl, ap, arith, ◌==◌, Bool-cases, ◌||◌,
}
use dbus_broker.Bus.Policy.{Xmit}
use dbus_broker.Bus.Policy.Snapshot.{Traffic, allows, allows_broadcast, xmit_matches}

abbrev pub FitsMessage : Traffic → Xmit → Type 0
FitsMessage t x =
    ((x.type ≡ 0) ⊎ (t.type ≡ x.type))
    × SameIfSet x.path t.path
    × SameIfSet x.interface t.interface
    × SameIfSet x.member t.member
    × (x.broadcast ≡ 1 → t.broadcast ≡ true)
    × (x.broadcast ≡ 2 → t.broadcast ≡ false)
    × (x.min_fds ≤ t.n_fds)
    × (t.n_fds ≤ x.max_fds)

allows_sound : (rule value : Option Bytes) → allows rule value ≡ true → SameIfSet rule value
unfolding allows
allows_sound none value h = inl refl
allows_sound (some s) none h = absurd (ground arith)
allows_sound (some s) (some v) h = inr (ap some (bytes_eq_sound v s h))

allows_complete : (rule value : Option Bytes) → SameIfSet rule value → allows rule value ≡ true
unfolding allows
allows_complete rule value (inl e) = rw e refl
allows_complete none value (inr e) = refl
allows_complete (some s) value (inr e) = rw e (bytes_eq_refl s)

pub xmit_matches-FitsMessage : (t : Traffic) (x : Xmit) → xmit_matches t x ≡ true → FitsMessage t x
unfolding xmit_matches allows_broadcast
xmit_matches-FitsMessage t x h =
    let type : (x.type ≡ 0) ⊎ (t.type ≡ x.type) = elim (Bool-cases (x.type == 0)) [
      | inl e ↦ inl (ground arith)
      | inr e ↦ inr (ground arith)
    ] in
    (
      type,
      allows_sound x.path t.path (ground arith),
      allows_sound x.interface t.interface (ground arith),
      allows_sound x.member t.member (ground arith),
      (λ e. ground arith),
      (λ e. ground arith),
      ground arith,
      ground arith,
    )

pub FitsMessage-xmit_matches : (t : Traffic) (x : Xmit) → FitsMessage t x → xmit_matches t x ≡ true
unfolding xmit_matches allows_broadcast
FitsMessage-xmit_matches t x (type, path, interface, member, yes_only, no_only, low, high) =
    let same : ((x.type == 0) || (t.type == x.type)) ≡ true = elim type [
      | inl e ↦ ground arith
      | inr e ↦ ground arith
    ] in
    ground (
      arith,
      same,
      allows_complete x.path t.path path,
      allows_complete x.interface t.interface interface,
      allows_complete x.member t.member member,
      yes_only,
      no_only,
    )
