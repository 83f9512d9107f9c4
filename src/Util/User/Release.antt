-- ===== src/Util/User/Release.antt =====
-- The two ends of a user of src/util/user.c: a new user's books, and the release of all charges.
use dbus_broker.Common.{
  ℕ, ◌<◌, List, [], ◌∷◌, ◌≡◌, refl, arith, length, ◌∙◌, ap, zero, suc, Option-cases, inl, inr, true,
}
use dbus_broker.Util.Decimal.{u32_limit}
use dbus_broker.Util.User.{
  Usage, User, Charge, Code, success, user_new, consumed, references, user_charge_deinit,
  unref_usage, user_free, all_back,
}
use dbus_broker.Util.User.Usages
use dbus_broker.Util.User.Balance.Ledger.{Books, AllClean, user_charge_deinit-success}
use dbus_broker.Util.User.Balance.Charges.{released}
use dbus_broker.Util.User.Pairs.{and_then, release_one-Books}

all_back_lem : (i : ℕ) (n max : ℕ → ℕ) → ((s : ℕ) → n s ≡ max s) → all_back i n max ≡ true
unfolding all_back
all_back_lem zero n max e = refl
all_back_lem (suc i) n max e = ground (arith, e i, all_back_lem i n max e)

no_references : (us : List Usage) → Usages.AllPinned us → ((k : ℕ) → references k us ≡ 0) → us ≡ []
unfolding references
no_references [] p r = refl
no_references (g ∷ us) p r = absurd (ground (arith, r g.uid))

-- A new user with 32-bit maxima has its books in order, without any charges.
pub user_new-Books :
    (uid n_slots : ℕ) (maxima : ℕ → ℕ)
    → ((s : ℕ) → maxima s < u32_limit)
    → Books (user_new uid n_slots maxima) []
unfolding user_new consumed references Usages.total
user_new-Books uid n_slots maxima h = record {
  balanced = record {
    distinct = tt;
    pinned = tt;
    counted = refl;
    consumed_held = λ k s. refl;
    references_pins = λ k. refl;
    conserved = λ s. omega arith;
    bounded = h;
  };
}

-- The end of a user whose books agree with no charges.
no_charges_free : (u : User) → Books u [] → user_free u ≡ success
unfolding user_free
no_charges_free u b =
    let gone = no_references u.usages b.balanced.pinned (λ k. b.balanced.references_pins k) in
    let none_left : u.n_usages ≡ 0 = omega (arith, b.balanced.counted, ap length gone) in
    let back : (s : ℕ) → u.n s ≡ u.max s =
      λ s. unfold Usages.total in omega (arith, b.balanced.conserved s, ap (Usages.total s) gone) in
    rw (gone, none_left, all_back_lem u.n_slots u.n u.max back) refl

-- user_charge_deinit() of all charges in turn
unfoldable pub release_all : User → List Charge → User × Code
unfolding and_then user_charge_deinit
release_all user [] = (user, success)
release_all user (c ∷ cs) =
    let (user', c', code) = user_charge_deinit user c in
    let (last, rest) = release_all user' cs in (last, and_then code rest)

unref_usage-max : (u : User) (uid r : ℕ) → (unref_usage u uid r).0.max ≡ u.max
unfolding unref_usage
unref_usage-max u uid zero = refl
unref_usage-max u uid (suc zero) = refl
unref_usage-max u uid (suc (suc m)) = refl

deinit-max : (u : User) (c : Charge) → (user_charge_deinit u c).0.max ≡ u.max
unfolding user_charge_deinit
deinit-max u c = elim (Option-cases c.usage) [
  | inl e ↦ rw (user_charge_deinit, e) refl
  | inr (uid, e) ↦
      let before = released u uid c.slot c.charge in
      rw (user_charge_deinit, e) (unref_usage-max before uid (references uid before.usages))
]

-- Where the books of a user agree with its charges, and a charge without a usage holds nothing: the
-- charges can all be released in turn, after which the user can be freed, and no assertion fails in
-- either. Every slot is then back at the maximum that it had.
pub all_given_back :
    (u : User) (cs : List Charge)
    → Books u cs
    → AllClean cs
    → let (u', code) = release_all u cs in
      (code ≡ success) × (user_free u' ≡ success) × (u'.max ≡ u.max)
unfolding release_all and_then
all_given_back u [] b clean = (refl, no_charges_free u b, refl)
all_given_back u (c ∷ cs) b (clean, all_clean) =
    let u' = (user_charge_deinit u c).0 in
    let (success', free, same) = all_given_back u' cs (release_one-Books u c cs b) all_clean in
    (rw (user_charge_deinit-success u [] cs c b clean) success', free, same ∙ deinit-max u c)
