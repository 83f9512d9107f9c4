-- ===== src/Bus/Policy/Best.antt =====
-- The verdicts of src/bus/policy.c as a specification: the best of the verdicts that apply.
use dbus_broker.Common.{
  ◌<◌, ◌≤◌, Bool, true, false, Option, none, some, List, [], ◌∷◌, leb, ltb, if◌then◌else◌, ◌≡◌,
  refl, arith, ◌⊎◌, inl, inr, Bool-cases, Bytes, bytes_eq, bytes_eq_refl, bytes_eq_sound, ap, ◌∙◌,
}
use dbus_broker.Bus.Policy.{
  Verdict, policy_verdict_init, BatchName, policy_batch_name_new, policy_batch_find_name,
  policy_batch_at_name, supersede,
}
use dbus_broker.Bus.Policy.Snapshot.{improve, Code, result_of}

abbrev pub Any {ℓ} : {A : Type ℓ} → (A → Type 0) → List A → Type 0
Any P [] = ⊥
Any P (x ∷ xs) = P x ⊎ Any P xs

-- A verdict that applies, or the initial one, and none that applies has a higher priority.
pub record Best (P : Verdict → Type 0) (v : Verdict) : Type 0 where
  pub applies : (v ≡ policy_verdict_init) ⊎ P v
  pub highest : (w : Verdict) → P w → w.priority ≤ v.priority

pub Best-init : Best (λ w. ⊥) policy_verdict_init
Best-init = record { applies = inl refl; highest = λ w p. absurd p }

module _ {P Q : Verdict → Type 0} where
  pub Best-map :
      {v : Verdict}
      → ((w : Verdict) → P w → Q w)
      → ((w : Verdict) → Q w → P w)
      → Best P v
      → Best Q v
  Best-map {v} f g b = record {
    applies = elim b.applies [ inl e ↦ inl e | inr p ↦ inr (f v p) ];
    highest = λ w q. b.highest w (g w q);
  }

  -- The better one of two groups' best.
  either :
      (v u : Verdict) (take : Bool)
      → Best P v
      → Best Q u
      → (take ≡ true → v.priority ≤ u.priority)
      → (take ≡ false → u.priority ≤ v.priority)
      → Best (λ w. P w ⊎ Q w) (if take then u else v)
  either v u true b c up down = record {
    applies = elim c.applies [ inl e ↦ inl e | inr q ↦ inr (inr q) ];
    highest =
        λ w pq. elim pq [ inl p ↦ omega (arith, b.highest w p, up refl) | inr q ↦ c.highest w q ];
  }
  either v u false b c up down = record {
    applies = elim b.applies [ inl e ↦ inl e | inr p ↦ inr (inl p) ];
    highest =
        λ w pq. elim pq [ inl p ↦ b.highest w p | inr q ↦ omega (arith, c.highest w q, down refl) ];
  }

  pub Best-improve : (v u : Verdict) → Best P v → Best Q u → Best (λ w. P w ⊎ Q w) (improve v u)
  unfolding improve
  Best-improve v u b c =
      either v u (ltb v.priority u.priority) b c (λ h. ground arith) (λ h. ground arith)

  pub Best-supersede : (v u : Verdict) → Best P v → Best Q u → Best (λ w. P w ⊎ Q w) (supersede v u)
  unfolding supersede
  Best-supersede v u b c =
      either v u (leb v.priority u.priority) b c (λ h. ground arith) (λ h. ground arith)

-- A rule that gives nothing, and one that gives one verdict.
pub Best-nothing :
    {P Q : Verdict → Type 0} {v : Verdict}
    → Best P v
    → ((w : Verdict) → Q w → ⊥)
    → Best (λ w. P w ⊎ Q w) v
Best-nothing b never =
    Best-map (λ w p. inl p) (λ w pq. elim pq [ inl p ↦ p | inr q ↦ absurd (never w q) ]) b

pub Best-assoc :
    {P Q R : Verdict → Type 0} {v : Verdict}
    → Best (λ w. (P w ⊎ Q w) ⊎ R w) v
    → Best (λ w. P w ⊎ (Q w ⊎ R w)) v
Best-assoc b =
    Best-map
      (λ w p. elim p [
        | inl pq ↦ elim pq [ inl a ↦ inl a | inr q ↦ inr (inl q) ]
        | inr r ↦ inr (inr r)
      ])
      (λ w p. elim p [
        | inl a ↦ inl (inl a)
        | inr qr ↦ elim qr [ inl q ↦ inl (inr q) | inr r ↦ inr r ]
      ])
      b

pub Best-right :
    {P Q R : Verdict → Type 0} {v : Verdict}
    → ((w : Verdict) → Q w → R w)
    → ((w : Verdict) → R w → Q w)
    → Best (λ w. P w ⊎ Q w) v
    → Best (λ w. P w ⊎ R w) v
Best-right f g b =
    Best-map (λ w p. elim p [ inl a ↦ inl a | inr q ↦ inr (f w q) ])
      (λ w p. elim p [ inl a ↦ inl a | inr q ↦ inr (g w q) ]) b

pub Any-map {ℓ} :
    {A : Type ℓ} {P Q : A → Type 0} → ((x : A) → P x → Q x) → (xs : List A) → Any P xs → Any Q xs
Any-map f [] a = a
Any-map f (x ∷ xs) a = elim a [ inl p ↦ inl (f x p) | inr r ↦ inr (Any-map f xs r) ]

-- A fold, each of whose steps takes the rules of an item into account.
pub Best-fold {ℓ} :
    {A : Type ℓ} (R : A → Verdict → Type 0) (step : Verdict → A → Verdict)
    (fold : Verdict → List A → Verdict)
    → ((v : Verdict) → fold v [] ≡ v)
    → ((v : Verdict) (x : A) (xs : List A) → fold v (x ∷ xs) ≡ fold (step v x) xs)
    → ((P : Verdict → Type 0) (v : Verdict) (x : A) → Best P v → Best (λ w. P w ⊎ R x w) (step v x))
    → (P : Verdict → Type 0) (v : Verdict) (xs : List A) → Best P v
    → Best (λ w. P w ⊎ Any (λ x. R x w) xs) (fold v xs)
Best-fold R step fold stop go each P v [] b = rw (stop v) (Best-nothing b (λ w q. q))
Best-fold R step fold stop go each P v (x ∷ xs) b = rw (go v x xs) (
    Best-assoc (Best-fold R step fold stop go each (λ w. P w ⊎ R x w) (step v x) xs (each P v x b)))

-- The initial verdict, or one that has a priority above 0.
abbrev pub IsEffective : Verdict → Type 0
IsEffective v = (v ≡ policy_verdict_init) ⊎ (0 < v.priority)

pub improve-IsEffective : (v u : Verdict) → IsEffective v → IsEffective (improve v u)
unfolding improve
improve-IsEffective v u e = elim (Bool-cases (ltb v.priority u.priority)) [
  | inl better ↦ rw better (inr (ground arith))
  | inr worse ↦ rw worse e
]

pub fold-IsEffective {ℓ} :
    {A : Type ℓ} (step : Verdict → A → Verdict) (fold : Verdict → List A → Verdict)
    → ((v : Verdict) → fold v [] ≡ v)
    → ((v : Verdict) (x : A) (xs : List A) → fold v (x ∷ xs) ≡ fold (step v x) xs)
    → ((v : Verdict) (x : A) → IsEffective v → IsEffective (step v x))
    → (v : Verdict) (xs : List A) → IsEffective v
    → IsEffective (fold v xs)
fold-IsEffective step fold stop go each v [] e = rw (stop v) e
fold-IsEffective step fold stop go each v (x ∷ xs) e =
    rw (go v x xs) (fold-IsEffective step fold stop go each (step v x) xs (each v x e))

-- A decision by the best verdict of the rules that apply, if its priority is above 0; otherwise the
-- initial verdict, which denies access, decides.
abbrev pub Decides : (Verdict → Type 0) → Code → Type 0
Decides P code = (v : Verdict) × Best P v × IsEffective v × (code ≡ result_of v)

pub Best-one : (v : Verdict) → Best (λ w. v ≡ w) v
Best-one v = record {
  applies = inr refl;
  highest = λ w e. omega (arith, ap (λ (x : Verdict). x.priority) e);
}

-- A name of a batch; one that is missing has no rules.
abbrev pub or_new : Bytes → Option BatchName → BatchName
or_new name none = policy_batch_name_new name
or_new name (some n) = n

abbrev pub name_at : Bytes → List BatchName → BatchName
name_at name names = or_new name (policy_batch_find_name names name)

-- A write at a name that keeps the name's string changes the entry of that name, and no other.
module _ (m : Bytes) (write : BatchName → BatchName)
    (keeps : (x : BatchName) → (write x).name ≡ x.name) where
  named : (x : BatchName) (n : Bytes) → bytes_eq (write x).name n ≡ bytes_eq x.name n
  named x n = ap (λ s. bytes_eq s n) (keeps x)

  pub name_at_written :
      (names : List BatchName)
      → name_at m (policy_batch_at_name m write names) ≡ write (name_at m names)
  unfolding policy_batch_find_name policy_batch_at_name
  name_at_written [] = rw (named (policy_batch_name_new m) m ∙ bytes_eq_refl m) refl
  name_at_written (x ∷ names) = elim (Bool-cases (bytes_eq x.name m)) [
    | inl e ↦ rw (e, named x m ∙ e) refl
    | inr e ↦ rw e (rw e (name_at_written names))
  ]

  pub name_at_other :
      (n : Bytes)
      → bytes_eq m n ≡ false
      → (names : List BatchName) → name_at n (policy_batch_at_name m write names) ≡ name_at n names
  unfolding policy_batch_find_name policy_batch_at_name
  name_at_other n away [] = rw (named (policy_batch_name_new m) n ∙ away) refl
  name_at_other n away (x ∷ names) = elim (Bool-cases (bytes_eq x.name m)) [
    | inl e ↦
        let here = ap (λ s. bytes_eq s n) (bytes_eq_sound x.name m e) ∙ away in
        rw (e, named x n ∙ here, here) refl
    | inr e ↦ elim (Bool-cases (bytes_eq x.name n)) [
      | inl f ↦ rw (e, f) refl
      | inr f ↦ rw (e, f) (name_at_other n away names)
    ]
  ]
