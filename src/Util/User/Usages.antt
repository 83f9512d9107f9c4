-- ===== src/Util/User/Usages.antt =====
-- The usage list of src/util/user.c: what writing, linking and unlinking a usage changes.
use dbus_broker.Common.{
  ==_iff, Bool-cases, ℕ, ◌+◌, ◌<◌, ◌≤◌, Bool, true, false, ◌||◌, none, some, List, [], ◌∷◌, ◌==◌,
  if◌then◌else◌, ◌≡◌, refl, arith, inl, inr, ◌⊎◌, length, ◌≢◌,
}
use dbus_broker.Util.User.{Usage, find_usage, modify_usage, unlink_usage, consumed, references}

-- What all usages together have consumed of a slot.
unfoldable pub total : ℕ → List Usage → ℕ
total slot [] = 0
total slot (g ∷ us) = g.slots slot + total slot us

-- Whether a user ID has a usage.
unfoldable pub present : ℕ → List Usage → Bool
present uid [] = false
present uid (g ∷ us) = (g.uid == uid) || present uid us

-- No user ID has two usages, and every usage is referenced.
abbrev pub AllDistinct : List Usage → Type 0
AllDistinct [] = Unit {0}
AllDistinct (g ∷ us) = (present g.uid us ≡ false) × AllDistinct us

abbrev pub AllPinned : List Usage → Type 0
AllPinned [] = Unit {0}
AllPinned (g ∷ us) = (0 < g.n_refs) × AllPinned us

pub find_usage-present :
    (uid : ℕ) (us : List Usage)
    → ((find_usage uid us ≡ none) × (present uid us ≡ false))
      ⊎ ((g : Usage) × (find_usage uid us ≡ some g) × (present uid us ≡ true))
unfolding find_usage present
find_usage-present uid [] = inl (refl, refl)
find_usage-present uid (g ∷ us) = elim (Bool-cases (g.uid == uid)) [
  | inl hit ↦ inr (g, rw hit, rw hit)
  | inr miss ↦ rw miss (find_usage-present uid us)
]

pub present-none :
    (uid : ℕ) (us : List Usage)
    → present uid us ≡ false
    → (references uid us ≡ 0) × ((slot : ℕ) → consumed uid slot us ≡ 0)
unfolding present references consumed
present-none uid [] h = (refl, λ slot. refl)
present-none uid (g ∷ us) h =
    let rest = present-none uid us (ground arith) in
    (ground arith, λ slot. ground (arith, rest.1 slot))

pub consumed-le-total : (uid slot : ℕ) (us : List Usage) → consumed uid slot us ≤ total slot us
unfolding consumed total
consumed-le-total uid slot [] = omega arith
consumed-le-total uid slot (g ∷ us) = ground (arith, consumed-le-total uid slot us)

-- A write that keeps the user ID.
module _ (uid : ℕ) (f : Usage → Usage) (keeps : (g : Usage) → (f g).uid ≡ g.uid) where
  pub present-modify : (k : ℕ) (us : List Usage) → present k (modify_usage uid f us) ≡ present k us
  unfolding present modify_usage
  present-modify k [] = refl
  present-modify k (g ∷ us) = ground (arith, keeps g, present-modify k us)

  pub length-modify : (us : List Usage) → length (modify_usage uid f us) ≡ length us
  unfolding modify_usage
  length-modify [] = refl
  length-modify (g ∷ us) = ground (arith, length-modify us)

  pub AllDistinct-modify : (us : List Usage) → AllDistinct us → AllDistinct (modify_usage uid f us)
  unfolding modify_usage
  AllDistinct-modify [] d = tt
  AllDistinct-modify (g ∷ us) d =
      ground (arith, keeps g, present-modify g.uid us, AllDistinct-modify us d.1)

  pub consumed-modify_ne :
      (k slot : ℕ) (us : List Usage)
      → k ≢ uid
      → consumed k slot (modify_usage uid f us) ≡ consumed k slot us
  unfolding consumed modify_usage
  consumed-modify_ne k slot [] n = refl
  consumed-modify_ne k slot (g ∷ us) n = ground (arith, keeps g, consumed-modify_ne k slot us n)

  pub references-modify_ne :
      (k : ℕ) (us : List Usage) → k ≢ uid → references k (modify_usage uid f us) ≡ references k us
  unfolding references modify_usage
  references-modify_ne k [] n = refl
  references-modify_ne k (g ∷ us) n = ground (arith, keeps g, references-modify_ne k us n)

  -- The write seen at one slot, where it acts as `h`.
  module _ (slot : ℕ) (h : ℕ → ℕ) (acts : (g : Usage) → (f g).slots slot ≡ h (g.slots slot)) where
    pub consumed-modify :
        (us : List Usage)
        → present uid us ≡ true
        → consumed uid slot (modify_usage uid f us) ≡ h (consumed uid slot us)
    unfolding consumed modify_usage present
    consumed-modify [] p = cc
    consumed-modify (g ∷ us) p = ground (arith, keeps g, acts g, consumed-modify us)

    pub total-modify :
        (us : List Usage)
        → present uid us ≡ true
        → total slot (modify_usage uid f us) + consumed uid slot us
          ≡ total slot us + h (consumed uid slot us)
    unfolding consumed total modify_usage present
    total-modify [] p = cc
    total-modify (g ∷ us) p = ground (arith, acts g, total-modify us)

  -- The same for the references.
  module _ (h : ℕ → ℕ) (acts : (g : Usage) → (f g).n_refs ≡ h g.n_refs) where
    pub references-modify :
        (us : List Usage)
        → present uid us ≡ true
        → references uid (modify_usage uid f us) ≡ h (references uid us)
    unfolding references modify_usage present
    references-modify [] p = cc
    references-modify (g ∷ us) p = ground (arith, keeps g, acts g, references-modify us)

    pub AllPinned-modify :
        (us : List Usage)
        → ((n : ℕ) → 0 < n → 0 < h n)
        → AllPinned us
        → AllPinned (modify_usage uid f us)
    unfolding modify_usage
    AllPinned-modify [] pos a = tt
    AllPinned-modify (g ∷ us) pos a = ground (arith, acts g, pos g.n_refs, AllPinned-modify us pos)

-- The writes seen at every user ID.
module _ (uid : ℕ) (f : Usage → Usage) (keeps : (g : Usage) → (f g).uid ≡ g.uid) (us : List Usage)
    (p : present uid us ≡ true) where
  pub consumed-modify_if :
      (k slot : ℕ) (h : ℕ → ℕ)
      → ((g : Usage) → (f g).slots slot ≡ h (g.slots slot))
      → consumed k slot (modify_usage uid f us)
        ≡ (if uid == k then h (consumed k slot us) else consumed k slot us)
  consumed-modify_if k slot h acts = elim (Bool-cases (uid == k)) [
    | inl same ↦
        let e : uid ≡ k = (==_iff uid k).0 same in
        rw same (rw (← e) (consumed-modify uid f keeps slot h acts us p))
    | inr other ↦ rw other (consumed-modify_ne uid f keeps k slot us (λ e. ground arith))
  ]

  pub references-modify_if :
      (k : ℕ) (h : ℕ → ℕ)
      → ((g : Usage) → (f g).n_refs ≡ h g.n_refs)
      → references k (modify_usage uid f us)
        ≡ (if uid == k then h (references k us) else references k us)
  references-modify_if k h acts = elim (Bool-cases (uid == k)) [
    | inl same ↦
        let e : uid ≡ k = (==_iff uid k).0 same in
        rw same (rw (← e) (references-modify uid f keeps h acts us p))
    | inr other ↦ rw other (references-modify_ne uid f keeps k us (λ e. ground arith))
  ]

-- Unlinking a usage that has consumed nothing of a slot.
module _ (uid : ℕ) where
  pub present-unlink_ne :
      (k : ℕ) (us : List Usage) → present k us ≡ false → present k (unlink_usage uid us) ≡ false
  unfolding present unlink_usage
  present-unlink_ne k [] p = refl
  present-unlink_ne k (g ∷ us) p = ground (arith, present-unlink_ne k us)

  pub present-unlink :
      (us : List Usage) → AllDistinct us → present uid (unlink_usage uid us) ≡ false
  unfolding present unlink_usage
  present-unlink [] d = refl
  present-unlink (g ∷ us) d = ground (arith, present-unlink us d.1)

  pub AllDistinct-unlink : (us : List Usage) → AllDistinct us → AllDistinct (unlink_usage uid us)
  unfolding unlink_usage
  AllDistinct-unlink [] d = tt
  AllDistinct-unlink (g ∷ us) d =
      ground (arith, AllDistinct-unlink us d.1, present-unlink_ne g.uid us d.0)

  pub AllPinned-unlink : (us : List Usage) → AllPinned us → AllPinned (unlink_usage uid us)
  unfolding unlink_usage
  AllPinned-unlink [] a = tt
  AllPinned-unlink (g ∷ us) a = ground (arith, AllPinned-unlink us a.1)

  pub length-unlink :
      (us : List Usage) → present uid us ≡ true → length (unlink_usage uid us) + 1 ≡ length us
  unfolding unlink_usage present
  length-unlink [] p = cc
  length-unlink (g ∷ us) p = ground (arith, length-unlink us)

  pub consumed-unlink_ne :
      (k slot : ℕ) (us : List Usage)
      → k ≢ uid
      → consumed k slot (unlink_usage uid us) ≡ consumed k slot us
  unfolding consumed unlink_usage
  consumed-unlink_ne k slot [] n = refl
  consumed-unlink_ne k slot (g ∷ us) n = ground (arith, consumed-unlink_ne k slot us n)

  pub references-unlink_ne :
      (k : ℕ) (us : List Usage) → k ≢ uid → references k (unlink_usage uid us) ≡ references k us
  unfolding references unlink_usage
  references-unlink_ne k [] n = refl
  references-unlink_ne k (g ∷ us) n = ground (arith, references-unlink_ne k us n)

  pub total-unlink :
      (slot : ℕ) (us : List Usage)
      → total slot (unlink_usage uid us) + consumed uid slot us ≡ total slot us
  unfolding consumed total unlink_usage
  total-unlink slot [] = omega arith
  total-unlink slot (g ∷ us) = ground (arith, total-unlink slot us)
