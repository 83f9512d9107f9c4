-- ===== src/Util/User/Pairs.antt =====
-- Objects that hold two charges of src/util/user.c: the pattern `r = user_charge(...); r = r ?:
-- user_charge(...)`, and the release of both.
use dbus_broker.Common.{
  ℕ, ◌+◌, ◌<◌, ◌≤◌, Bool, Option, none, some, List, [], ◌∷◌, ◌≡◌, refl, arith, Option-cases, inl,
  inr,
}
use dbus_broker.Util.Decimal.{u32_limit}
use dbus_broker.Util.User.{
  User, Charge, Code, success, quota, error, assertion, user_charge, user_charge_deinit,
  user_charge_init, user_ref_usage, charge_slot, user_charge_commit_log,
}
use dbus_broker.Util.User.Balance.{held1, pin1}
use dbus_broker.Util.User.Balance.Charges.{Balanced-ext}
use dbus_broker.Util.User.Balance.Ledger.{
  Books, Books-unused, user_charge-Books, user_charge_deinit-Books, held, pins, IsClean,
  user_charge_deinit-success,
}

-- The second charge is released first.
unfoldable pub release_two : User → Charge → Charge → User
unfolding user_charge_deinit
release_two user first second =
    let (user', second', code) = user_charge_deinit user second in
    (user_charge_deinit user' first).0

-- The first code that is not success, as an assertion ends the program.
unfoldable pub and_then : Code → Code → Code
and_then success code = code
and_then quota code = quota
and_then error code = error
and_then assertion code = assertion

-- The assertions of both releases
unfoldable pub release_two_code : User → Charge → Charge → Code
unfolding user_charge_deinit and_then
release_two_code user first second =
    let (user', second', code) = user_charge_deinit user second in
    and_then code (user_charge_deinit user' first).2

unfoldable pub then_charge :
    Bool → Option Bool → ℕ → ℕ → ℕ → User × Charge × Code → User × Charge × Charge × Code
unfolding user_charge
then_charge memory log actor slot amount (user, first, success) =
    let (user', second, code) = user_charge memory log user user_charge_init actor slot amount in
    (user', first, second, code)
then_charge memory log actor slot amount (user, first, quota) =
    (user, first, user_charge_init, quota)
then_charge memory log actor slot amount (user, first, error) =
    (user, first, user_charge_init, error)
then_charge memory log actor slot amount (user, first, assertion) =
    (user, first, user_charge_init, assertion)

unfoldable pub charge_two :
    Bool → Option Bool → User → ℕ → ℕ × ℕ → ℕ × ℕ → User × Charge × Charge × Code
unfolding then_charge user_charge
charge_two memory log user actor (slot, amount) (slot', amount') =
    then_charge memory log actor slot' amount'
      (user_charge memory log user user_charge_init actor slot amount)

pub Books-ext :
    (u : User) (cs ds : List Charge)
    → ((k s : ℕ) → held cs k s ≡ held ds k s)
    → ((k : ℕ) → pins cs k ≡ pins ds k)
    → Books u cs
    → Books u ds
Books-ext u cs ds h p b = record { balanced = Balanced-ext b.balanced h p }

unused_nothing : (c : Charge) → c.usage ≡ none → (k s : ℕ) → (held1 c k s ≡ 0) × (pin1 c k ≡ 0)
unused_nothing c e k s = (rw e refl, rw e refl)

deinit_unused : (u : User) (c : Charge) → (user_charge_deinit u c).1.usage ≡ none
unfolding user_charge_deinit
deinit_unused u c = ground arith

pub release_one-Books :
    (u : User) (c : Charge) (cs : List Charge)
    → Books u (c ∷ cs)
    → Books (user_charge_deinit u c).0 cs
release_one-Books u c cs b =
    let d = (user_charge_deinit u c).1 in
    let gone = unused_nothing d (deinit_unused u c) in
    Books-ext (user_charge_deinit u c).0 (d ∷ cs) cs (λ k s. omega (arith, (gone k s).0))
      (λ k. omega (arith, (gone k 0).1)) (user_charge_deinit-Books u [] cs c b)

-- Releasing both charges leaves the books of the others.
pub release_two-Books :
    (u : User) (bytes matches : Charge) (cs : List Charge)
    → Books u (bytes ∷ matches ∷ cs)
    → Books (release_two u bytes matches) cs
unfolding release_two
release_two-Books u bytes matches cs b =
    let u' = (user_charge_deinit u matches).0 in
    let m = (user_charge_deinit u matches).1 in
    let unused = unused_nothing m (deinit_unused u matches) in
    let first = user_charge_deinit-Books u (bytes ∷ []) cs matches b in
    let rest =
      Books-ext u' (bytes ∷ m ∷ cs) (bytes ∷ cs) (λ k s. omega (arith, (unused k s).0))
        (λ k. omega (arith, (unused k 0).1)) first in
    release_one-Books u' bytes cs rest

-- No assertion fails in it, if they hold nothing without a usage.
pub release_two-success :
    (u : User) (bytes matches : Charge) (cs : List Charge)
    → Books u (bytes ∷ matches ∷ cs)
    → IsClean bytes
    → IsClean matches
    → release_two_code u bytes matches ≡ success
unfolding release_two_code and_then
release_two-success u bytes matches cs b clean_bytes clean_matches =
    let swapped =
      Books-ext u (bytes ∷ matches ∷ cs) (matches ∷ bytes ∷ cs) (λ k s. omega arith)
        (λ k. omega arith) b in
    let u' = (user_charge_deinit u matches).0 in
    rw (user_charge_deinit-success u [] (bytes ∷ cs) matches swapped clean_matches) (
      user_charge_deinit-success u' [] cs bytes (release_one-Books u matches (bytes ∷ cs) swapped)
        clean_bytes)

user_charge_commit_log-n_usages :
    (log : Option Bool) (u : User) (actor : ℕ)
    → (user_charge_commit_log log u actor).0.n_usages ≡ u.n_usages
unfolding user_charge_commit_log
user_charge_commit_log-n_usages log u actor = ground arith

charge_slot-n_usages :
    (log : Option Bool) (u : User) (c : Charge) (actor slot amount : ℕ)
    → (charge_slot log u c actor slot amount).0.n_usages ≡ u.n_usages
unfolding charge_slot
charge_slot-n_usages log u c actor slot amount =
    ground (arith, user_charge_commit_log-n_usages log u actor)

user_ref_usage-n_usages :
    (memory : Bool) (u u' : User) (actor : ℕ)
    → user_ref_usage memory u actor ≡ some u'
    → u'.n_usages ≤ u.n_usages + 1
unfolding user_ref_usage
user_ref_usage-n_usages memory u u' actor e = ground arith

-- A charge adds one usage at most.
user_charge-n_usages :
    (memory : Bool) (log : Option Bool) (u : User) (actor slot amount : ℕ)
    → (user_charge memory log u user_charge_init actor slot amount).0.n_usages ≤ u.n_usages + 1
unfolding user_charge
user_charge-n_usages memory log u actor slot amount =
    elim (Option-cases (user_ref_usage memory u actor)) [
      | inl e ↦ ground arith
      | inr (u', e) ↦
          let c : Charge = record { usage = some actor; slot = slot; charge = 0 } in
          ground (
            arith,
            user_ref_usage-n_usages memory u u' actor e,
            charge_slot-n_usages log u' c actor slot amount,
          )
    ]

charge-IsClean : (c : Charge) → (c.usage ≡ none → c.charge ≡ 0) → IsClean c
charge-IsClean c h = elim (Option-cases c.usage) [ inl e ↦ rw e (h e) | inr (uid, e) ↦ rw e tt ]

charge_slot-usage :
    (log : Option Bool) (u : User) (c : Charge) (actor slot amount : ℕ)
    → (charge_slot log u c actor slot amount).1.usage ≡ c.usage
unfolding charge_slot
charge_slot-usage log u c actor slot amount = ground arith

user_charge-clean :
    (memory : Bool) (log : Option Bool) (u : User) (actor slot amount : ℕ)
    → let c = (user_charge memory log u user_charge_init actor slot amount).1 in
      c.usage ≡ none → c.charge ≡ 0
unfolding user_charge
user_charge-clean memory log u actor slot amount h =
    elim (Option-cases (user_ref_usage memory u actor)) [
      | inl e ↦ ground (arith, h)
      | inr (u', e) ↦
          let c : Charge = record { usage = some actor; slot = slot; charge = 0 } in
          ground (arith, e, charge_slot-usage log u' c actor slot amount)
    ]

user_charge-IsClean :
    (memory : Bool) (log : Option Bool) (u : User) (actor slot amount : ℕ)
    → IsClean (user_charge memory log u user_charge_init actor slot amount).1
user_charge-IsClean memory log u actor slot amount =
    charge-IsClean (user_charge memory log u user_charge_init actor slot amount).1
      (user_charge-clean memory log u actor slot amount)

then_charge-IsClean :
    (memory : Bool) (log : Option Bool) (actor slot amount : ℕ) (charged : User × Charge × Code)
    → IsClean charged.1
    → let (u, first, second, code) = then_charge memory log actor slot amount charged in
      IsClean first × IsClean second
unfolding then_charge
then_charge-IsClean memory log actor slot amount (u, c, success) h =
    (h, user_charge-IsClean memory log u actor slot amount)
then_charge-IsClean memory log actor slot amount (u, c, quota) h = (h, refl)
then_charge-IsClean memory log actor slot amount (u, c, error) h = (h, refl)
then_charge-IsClean memory log actor slot amount (u, c, assertion) h = (h, refl)

-- Two charges hold nothing without a usage, whichever way they end.
pub charge_two-IsClean :
    (memory : Bool) (log : Option Bool) (u : User) (actor slot amount slot' amount' : ℕ)
    → let (u', first, second, code) =
        charge_two memory log u actor (slot, amount) (slot', amount') in
      IsClean first × IsClean second
unfolding charge_two
charge_two-IsClean memory log u actor slot amount slot' amount' =
    then_charge-IsClean memory log actor slot' amount'
      (user_charge memory log u user_charge_init actor slot amount)
      (user_charge-IsClean memory log u actor slot amount)

second_unused_lem :
    (u : User) (c : Charge) (cs : List Charge)
    → Books u (c ∷ cs)
    → Books u (c ∷ user_charge_init ∷ cs)
second_unused_lem u c cs b =
    Books-ext u (c ∷ cs) (c ∷ user_charge_init ∷ cs) (λ k s. omega arith) (λ k. omega arith) b

then_charge-Books :
    (memory : Bool) (log : Option Bool) (actor slot amount : ℕ) (charged : User × Charge × Code)
    (cs : List Charge)
    → charged.0.n_usages + 2 < u32_limit
    → Books charged.0 (charged.1 ∷ cs)
    → let (u, first, second, code) = then_charge memory log actor slot amount charged in
      Books u (first ∷ second ∷ cs)
unfolding then_charge
then_charge-Books memory log actor slot amount (u, c, success) cs few b =
    user_charge-Books memory log u (c ∷ []) cs user_charge_init actor slot amount
      (second_unused_lem u c cs b) refl few
then_charge-Books memory log actor slot amount (u, c, quota) cs few b = second_unused_lem u c cs b
then_charge-Books memory log actor slot amount (u, c, error) cs few b = second_unused_lem u c cs b
then_charge-Books memory log actor slot amount (u, c, assertion) cs few b =
    second_unused_lem u c cs b

-- Two charges on a user keep the books, whichever way they end.
pub charge_two-Books :
    (memory : Bool) (log : Option Bool) (u : User) (actor slot amount slot' amount' : ℕ)
    (cs : List Charge)
    → Books u cs
    → u.n_usages + 3 < u32_limit
    → let (u', first, second, code) =
        charge_two memory log u actor (slot, amount) (slot', amount') in
      Books u' (first ∷ second ∷ cs)
unfolding charge_two
charge_two-Books memory log u actor slot amount slot' amount' cs b few =
    then_charge-Books memory log actor slot' amount'
      (user_charge memory log u user_charge_init actor slot amount) cs
      (omega (arith, user_charge-n_usages memory log u actor slot amount))
      (user_charge-Books memory log u [] cs user_charge_init actor slot amount (Books-unused u cs b)
        refl (omega arith))
