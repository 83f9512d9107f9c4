-- ===== src/Bus/Match/Tree.antt =====
-- The trees of src/bus/match.c whose nodes have a string and hold a list: as lists of nodes. A node
-- counts its references by what it holds, so it is dropped when that gets empty.
use dbus_broker.Common.{
  Bytes, bytes_eq, bytes_eq_refl, bytes_eq_sound, true, false, List, [], ◌∷◌, if◌then◌else◌, ◌≡◌,
  refl, Bool-cases, inl, inr, ap, sym, ◌∙◌, arith,
}

abbrev pub Tree : Type 0 → Type 0
Tree A = List (Bytes × List A)

-- What the node of a string holds; nothing if there is none.
unfoldable pub tree_get : {A : Type 0} → Bytes → Tree A → List A
unfolding bytes_eq
tree_get key [] = []
tree_get key ((k, v) ∷ t) = if bytes_eq k key then v else tree_get key t

abbrev pub keep : {A : Type 0} → Bytes → List A → Tree A → Tree A
keep key [] t = t
keep key (x ∷ v) t = (key, x ∷ v) ∷ t

-- A write to what the node of a string holds: the node is added if it is missing, and dropped if it
-- ends up empty.
unfoldable pub tree_write : {A : Type 0} → Bytes → (List A → List A) → Tree A → Tree A
unfolding bytes_eq
tree_write key write [] = keep key (write []) []
tree_write key write ((k, v) ∷ t) =
    let rest = tree_write key write t in
    if bytes_eq k key then keep k (write v) t else (k, v) ∷ rest

-- No string has two nodes, and all that nodes hold satisfies a predicate.
abbrev pub Keyed : {A : Type 0} → (List A → Type 0) → Tree A → Type 0
Keyed P [] = Unit {0}
Keyed P ((k, v) ∷ t) = (tree_get k t ≡ []) × P v × Keyed P t

away : (k key q : Bytes) → bytes_eq k key ≡ false → bytes_eq k q ≡ true → bytes_eq key q ≡ false
away k key q e f = elim (Bool-cases (bytes_eq key q)) [
  | inr g ↦ g
  | inl g ↦
      let same = bytes_eq_sound k q f ∙ sym (bytes_eq_sound key q g) in
      let again : bytes_eq k key ≡ true = ap (bytes_eq k) (sym same) ∙ bytes_eq_refl k in
      absurd (ground arith)
]

module _ {A : Type 0} where
  get-keep :
      (key q : Bytes) (v : List A) (t : Tree A)
      → tree_get key t ≡ []
      → tree_get q (keep key v t) ≡ (if bytes_eq key q then v else tree_get q t)
  unfolding tree_get
  get-keep key q [] t absent = elim (Bool-cases (bytes_eq key q)) [
    | inl e ↦ rw (e, sym (bytes_eq_sound key q e)) absent
    | inr e ↦ rw e refl
  ]
  get-keep key q (x ∷ v) t absent = refl

  keep-Keyed :
      (P : List A → Type 0) (key : Bytes) (v : List A) (t : Tree A)
      → P v
      → tree_get key t ≡ []
      → Keyed P t
      → Keyed P (keep key v t)
  keep-Keyed P key [] t p absent w = w
  keep-Keyed P key (x ∷ v) t p absent w = (absent, p, w)

  pub get-Keyed :
      (P : List A → Type 0) (key : Bytes) (t : Tree A) → P [] → Keyed P t → P (tree_get key t)
  unfolding tree_get
  get-Keyed P key [] none_ok w = none_ok
  get-Keyed P key ((k, v) ∷ t) none_ok (absent, p, w) = elim (Bool-cases (bytes_eq k key)) [
    | inl e ↦ rw e p
    | inr e ↦ rw e (get-Keyed P key t none_ok w)
  ]

  pub tree_get-tree_write :
      (P : List A → Type 0) (key q : Bytes) (write : List A → List A) (t : Tree A)
      → Keyed P t
      → tree_get q (tree_write key write t)
        ≡ (if bytes_eq key q then write (tree_get key t) else tree_get q t)
  unfolding tree_get tree_write
  tree_get-tree_write P key q write [] w = get-keep key q (write []) [] refl
  tree_get-tree_write P key q write ((k, v) ∷ t) (absent, p, w) =
      elim (Bool-cases (bytes_eq k key)) [
        | inl e ↦
            let here = bytes_eq_sound k key e in
            rw e (
              get-keep k q (write v) t absent ∙ elim (Bool-cases (bytes_eq k q)) [
                | inl f ↦ rw (f, sym (ap (λ s. bytes_eq s q) here) ∙ f) refl
                | inr f ↦ rw (f, sym (ap (λ s. bytes_eq s q) here) ∙ f) refl
              ])
        | inr e ↦
            let later = tree_get-tree_write P key q write t w in
            elim (Bool-cases (bytes_eq k q)) [
              | inl f ↦ rw (e, f, away k key q e f) refl
              | inr f ↦ rw (e, f) later
            ]
      ]

  pub tree_write-Keyed :
      (P : List A → Type 0) (key : Bytes) (write : List A → List A) (t : Tree A)
      → P []
      → ((v : List A) → P v → P (write v))
      → Keyed P t
      → Keyed P (tree_write key write t)
  unfolding tree_write tree_get
  tree_write-Keyed P key write [] none_ok keeps w =
      keep-Keyed P key (write []) [] (keeps [] none_ok) refl w
  tree_write-Keyed P key write ((k, v) ∷ t) none_ok keeps (absent, p, w) =
      elim (Bool-cases (bytes_eq k key)) [
        | inl e ↦ rw e (keep-Keyed P k (write v) t (keeps v p) absent w)
        | inr e ↦ rw e (
          tree_get-tree_write P key k write t w
              ∙ ap (λ b. if b then write (tree_get key t) else tree_get k t)
                  (away k key k e (bytes_eq_refl k))
              ∙ absent,
          p,
          tree_write-Keyed P key write t none_ok keeps w,
        )
      ]

  pub tree_get_written :
      (P : List A → Type 0) (key q : Bytes) (write : List A → List A) (t : Tree A)
      → Keyed P t
      → tree_get q (tree_write key write t)
        ≡ (if bytes_eq key q then write (tree_get q t) else tree_get q t)
  tree_get_written P key q write t w =
      tree_get-tree_write P key q write t w ∙ elim (Bool-cases (bytes_eq key q)) [
        | inl e ↦ rw e (ap (λ k. write (tree_get k t)) (bytes_eq_sound key q e))
        | inr e ↦ rw e refl
      ]
