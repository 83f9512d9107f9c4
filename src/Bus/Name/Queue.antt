-- ===== src/Bus/Name/Queue.antt =====
-- The queue of one name of src/bus/name.c, under requests and releases.
use dbus_broker.Common.{
  ℕ, Bool, true, false, ◌&&◌, ◌||◌, not, Option, none, some, List, [], ◌∷◌, ◌++◌, ◌==◌,
  if◌then◌else◌, ◌≡◌, ◌≢◌, refl, arith, Bool-cases, inl, inr,
}
use dbus_broker.Bus.Name.{
  NameOwnership, NameChange, Code, success, not_found, not_owner, quota, already_owner, in_queue,
  exists, Counters, primary, is_linked, unlink, rewrite, name_ownership_release,
  name_ownership_update,
}

-- No owner stands in the queue twice.
abbrev pub AllDistinct : List NameOwnership → Type 0
AllDistinct [] = Unit {0}
AllDistinct (o ∷ q) = (is_linked o.owner q ≡ false) × AllDistinct q

module _ (owner : ℕ) where
  pub is_linked-unlink_ne :
      (k : ℕ) (q : List NameOwnership)
      → is_linked k q ≡ false
      → is_linked k (unlink owner q) ≡ false
  unfolding is_linked unlink
  is_linked-unlink_ne k [] h = refl
  is_linked-unlink_ne k (o ∷ q) h = ground (arith, is_linked-unlink_ne k q)

  pub is_linked-unlink :
      (q : List NameOwnership) → AllDistinct q → is_linked owner (unlink owner q) ≡ false
  unfolding is_linked unlink
  is_linked-unlink [] d = refl
  is_linked-unlink (o ∷ q) d = ground (arith, is_linked-unlink q d.1)

  pub AllDistinct-unlink : (q : List NameOwnership) → AllDistinct q → AllDistinct (unlink owner q)
  unfolding unlink
  AllDistinct-unlink [] d = tt
  AllDistinct-unlink (o ∷ q) d =
      ground (arith, AllDistinct-unlink q d.1, is_linked-unlink_ne o.owner q d.0)

  pub unlink_away : (q : List NameOwnership) → is_linked owner q ≡ false → unlink owner q ≡ q
  unfolding is_linked unlink
  unlink_away [] h = refl
  unlink_away (o ∷ q) h = ground (arith, unlink_away q)

module _ (own : NameOwnership) where
  pub is_linked-rewrite :
      (k : ℕ) (q : List NameOwnership) → is_linked k (rewrite own q) ≡ is_linked k q
  unfolding is_linked rewrite
  is_linked-rewrite k [] = refl
  is_linked-rewrite k (o ∷ q) = ground (arith, is_linked-rewrite k q)

  pub AllDistinct-rewrite : (q : List NameOwnership) → AllDistinct q → AllDistinct (rewrite own q)
  unfolding rewrite
  AllDistinct-rewrite [] d = tt
  AllDistinct-rewrite (o ∷ q) d =
      ground (arith, AllDistinct-rewrite q d.1, is_linked-rewrite o.owner q)

  pub unlink-rewrite :
      (q : List NameOwnership) → unlink own.owner (rewrite own q) ≡ unlink own.owner q
  unfolding unlink rewrite
  unlink-rewrite [] = refl
  unlink-rewrite (o ∷ q) = ground (arith, unlink-rewrite q)

  pub is_linked-append :
      (k : ℕ) (q : List NameOwnership)
      → is_linked k (q ++ own ∷ []) ≡ (is_linked k q || (own.owner == k))
  unfolding is_linked
  is_linked-append k [] = ground arith
  is_linked-append k (o ∷ q) = ground (arith, is_linked-append k q)

  pub AllDistinct-append :
      (q : List NameOwnership)
      → is_linked own.owner q ≡ false
      → AllDistinct q
      → AllDistinct (q ++ own ∷ [])
  unfolding is_linked
  AllDistinct-append [] h d = (refl, tt)
  AllDistinct-append (o ∷ q) h d = ground (arith, AllDistinct-append q, is_linked-append o.owner q)

  pub unlink-append :
      (q : List NameOwnership)
      → is_linked own.owner q ≡ false
      → unlink own.owner (q ++ own ∷ []) ≡ q
  unfolding is_linked unlink
  unlink-append [] h = ground arith
  unlink-append (o ∷ q) h = ground (arith, unlink-append q)

-- A request keeps the queue without doubles.
pub update-AllDistinct :
    (c : Counters) (q : List NameOwnership) (own : NameOwnership)
    → AllDistinct q
    → AllDistinct (name_ownership_update c q own).1
unfolding name_ownership_update
update-AllDistinct c [] own d = unfold is_linked in (refl, tt)
update-AllDistinct c (p ∷ q) own d = ground (
  arith,
  is_linked-unlink own.owner q d.1,
  is_linked-unlink_ne own.owner p.owner q d.0,
  AllDistinct-unlink own.owner q d.1,
  AllDistinct-rewrite own q d.1,
  is_linked-rewrite own p.owner q,
  AllDistinct-append own q,
  is_linked-append own p.owner q,
)

pub release-AllDistinct :
    (c : Counters) (q : List NameOwnership) (owner : ℕ)
    → AllDistinct q
    → AllDistinct (name_ownership_release c q owner).1
unfolding name_ownership_release
release-AllDistinct c [] owner d = tt
release-AllDistinct c (p ∷ []) owner d = ground arith
release-AllDistinct c (p ∷ n ∷ q) owner d =
    ground
      (arith, is_linked-unlink_ne owner p.owner (n ∷ q) d.0, AllDistinct-unlink owner (n ∷ q) d.1)

-- The change that a move from one primary owner to another is reported as: none if it is the same.
abbrev pub change_between : Option ℕ → Option ℕ → Option NameChange
change_between none none = none
change_between none (some b) = some (record { old_owner = none; new_owner = some b })
change_between (some a) none = some (record { old_owner = some a; new_owner = none })
change_between (some a) (some b) =
    if a == b then none else some (record { old_owner = some a; new_owner = some b })

-- A request reports a change exactly if the primary owner changes, with both of its ends.
pub update-change :
    (c : Counters) (q : List NameOwnership) (own : NameOwnership)
    → let (c', q', change, code) = name_ownership_update c q own in
      change ≡ change_between (primary q) (primary q')
unfolding name_ownership_update
update-change c [] own = refl
update-change c (p ∷ q) own = ground arith

-- A release too: the new primary owner is the next one in the queue.
pub release-change :
    (c : Counters) (q : List NameOwnership) (owner : ℕ)
    → AllDistinct q
    → let (c', q', change) = name_ownership_release c q owner in
      (q' ≡ unlink owner q) × (change ≡ change_between (primary q) (primary q'))
unfolding name_ownership_release
release-change c [] owner d = (refl, refl)
release-change c (p ∷ []) owner d = ground arith
release-change c (p ∷ n ∷ q) owner d = unfold is_linked in ground arith

-- What the code of a request says of the owner's place in the queue, before and after.
abbrev pub Placed : Code → ℕ → List NameOwnership → List NameOwnership → Type 0
Placed success owner q q' = (primary q ≢ some owner) × (primary q' ≡ some owner)
Placed already_owner owner q q' = (primary q ≡ some owner) × (primary q' ≡ some owner)
Placed in_queue owner q q' =
    (primary q' ≡ primary q) × (primary q ≢ some owner) × (is_linked owner q' ≡ true)
Placed exists owner q q' = (primary q' ≡ primary q) × (is_linked owner q' ≡ false)
Placed quota owner q q' = ⊥
Placed not_found owner q q' = ⊥
Placed not_owner owner q q' = ⊥

-- The codes of a request place the owner.
pub update-Placed :
    (c : Counters) (q : List NameOwnership) (own : NameOwnership)
    → AllDistinct q
    → let (c', q', change, code) = name_ownership_update c q own in Placed code own.owner q q'
unfolding name_ownership_update
update-Placed c [] own d = (λ e. cc, refl)
update-Placed c (p ∷ q) own d = elim (Bool-cases (p.owner == own.owner)) [
  | inl same ↦ rw same (ground arith, refl)
  | inr other ↦ elim (Bool-cases (own.flags.replace_existing && p.flags.allow_replacement)) [
    | inl replaced ↦ rw (other, replaced) (λ e. ground arith, refl)
    | inr stays ↦ elim (Bool-cases own.flags.do_not_queue) [
      | inl dropped ↦
          rw (other, stays, dropped) (refl, ground (arith, is_linked-unlink own.owner q d.1))
      | inr queued ↦
          rw (other, stays, queued)
            (
              refl,
              λ e. ground arith,
              ground (arith, is_linked-rewrite own own.owner q, is_linked-append own own.owner q),
            )
    ]
  ]
]

-- A primary owner that neither waits nor holds on when it is replaced.
abbrev pub is_dropped : List NameOwnership → NameOwnership → Bool
is_dropped [] own = false
is_dropped (p ∷ q) own =
    not (p.owner == own.owner)
    && own.flags.replace_existing
    && p.flags.allow_replacement
    && p.flags.do_not_queue

abbrev pub rest_of : List NameOwnership → List NameOwnership
rest_of [] = []
rest_of (p ∷ q) = q

-- All other owners keep their order and their flags, but for a replaced primary owner that asked not
-- to be queued, which is dropped.
pub update-others :
    (c : Counters) (q : List NameOwnership) (own : NameOwnership)
    → AllDistinct q
    → let q' = (name_ownership_update c q own).1 in
      unlink own.owner q' ≡ unlink own.owner (if is_dropped q own then rest_of q else q)
unfolding name_ownership_update
update-others c [] own d = unfold unlink in ground arith
update-others c (p ∷ q) own d = ground (
  arith,
  unlink_away own.owner (unlink own.owner q) (is_linked-unlink own.owner q d.1),
  unlink-rewrite own q,
  unlink-append own q,
  unlink_away own.owner q,
)
