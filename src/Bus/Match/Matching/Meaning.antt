-- ===== src/Bus/Match/Matching/Meaning.antt =====
-- What it means that a message fits the keys of a rule, for match_keys_match_metadata() of
-- src/bus/match.c.
use dbus_broker.Common.{
  SameIfSet, ℕ, zero, suc, ◌<◌, Bytes, strip_prefix, strip_prefix-append, strip_prefix_sound,
  append-nil, Bool, true, false, ◌&&◌, ◌||◌, not, Option, none, some, [], ◌∷◌, ◌++◌, ◌==◌, ◌≡◌, ◌≢◌,
  refl, sym, ap, ◌∙◌, arith, ◌⊎◌, inl, inr, Bool-cases,
}
use dbus_broker.Bus.Match.Keys.{MatchKeys, is_set}
use dbus_broker.Bus.Match.Matching.Equal.{string_equal_sound, string_equal_refl}
use dbus_broker.Bus.Match.Matching.{
  Argument, Metadata, string_equal, last_is, fits_tail, match_string_prefix, match_arg, all_args,
  equal_if_set,
}

-- A namespace, or something below it behind a delimiter.
abbrev pub Below : ℕ → Bytes → Option Bytes → Type 0
Below delimiter top value =
    (value ≡ some top) ⊎ ((rest : Bytes) × (value ≡ some (top ++ delimiter ∷ rest)))

-- A path that is not empty, or something that it is a prefix of and that it leads to by its last slash.
abbrev pub LeadsTo : Option Bytes → Option Bytes → Type 0
LeadsTo none value = ⊥
LeadsTo (some top) value =
    (top ≢ [])
    × ((value ≡ some top)
        ⊎ ((last_is b'/' top ≡ true) × (rest : Bytes) × (value ≡ some (top ++ rest))))

pub under_sound :
    (delimiter : ℕ) (top v : Bytes) (tail : Option Bytes)
    → strip_prefix top v ≡ tail
    → fits_tail top delimiter false tail ≡ true
    → Below delimiter top (some v)
unfolding fits_tail
under_sound delimiter top v none e h = absurd (ground arith)
under_sound delimiter top v (some []) e h =
    inl (ap some (strip_prefix_sound top v [] e ∙ append-nil top))
under_sound delimiter top v (some (c ∷ t)) e h =
    let this : c ≡ delimiter = ground arith in
    inr (t, ap some (strip_prefix_sound top v (c ∷ t) e ∙ ap (λ d. top ++ d ∷ t) this))

pub under_complete :
    (delimiter : ℕ) (top : Bytes) (value : Option Bytes)
    → Below delimiter top value
    → match_string_prefix value (some top) delimiter false ≡ true
unfolding match_string_prefix fits_tail
under_complete delimiter top value (inl e) =
    let whole = ap (strip_prefix top) (sym (append-nil top)) ∙ strip_prefix-append top [] in
    rw (e, whole) refl
under_complete delimiter top value (inr (rest, e)) =
    rw (e, strip_prefix-append top (delimiter ∷ rest)) (ground arith)

leads_sound :
    (top v : Bytes) (tail : Option Bytes)
    → strip_prefix top v ≡ tail
    → fits_tail top b'/' true tail ≡ true
    → LeadsTo (some top) (some v)
unfolding fits_tail
leads_sound [] v none e h = absurd (ground arith)
leads_sound [] v (some t) e h = absurd (ground arith)
leads_sound (c ∷ top) v none e h = absurd (ground arith)
leads_sound (c ∷ top) v (some []) e h =
    ((λ z. absurd (cc)), inl (ap some (strip_prefix_sound (c ∷ top) v [] e ∙ append-nil (c ∷ top))))
leads_sound (c ∷ top) v (some (d ∷ t)) e h = (
  (λ z. absurd (cc)),
  inr (ground arith, d ∷ t, ap some (strip_prefix_sound (c ∷ top) v (d ∷ t) e)),
)

leads_complete :
    (top : Bytes) (value : Option Bytes)
    → LeadsTo (some top) value
    → match_string_prefix value (some top) b'/' true ≡ true
unfolding match_string_prefix fits_tail
leads_complete [] value (some_top, how) = absurd (some_top refl)
leads_complete (c ∷ top) value (some_top, inl e) =
    let whole =
      ap (strip_prefix (c ∷ top)) (sym (append-nil (c ∷ top))) ∙ strip_prefix-append (c ∷ top) [] in
    rw (e, whole) refl
leads_complete (c ∷ top) value (some_top, inr (slash, rest, e)) =
    rw (e, strip_prefix-append (c ∷ top) rest) (ground arith)

leads_split :
    (top value : Option Bytes)
    → is_set top ≡ true ⊎ is_set value ≡ true
    → match_string_prefix value top b'/' true ≡ true
    → LeadsTo top value
unfolding match_string_prefix
leads_split none none (inl e) h = absurd (ground arith)
leads_split none none (inr e) h = absurd (ground arith)
leads_split none (some v) e h = absurd (ground arith)
leads_split (some top) none e h = absurd (ground arith)
leads_split (some top) (some v) e h = leads_sound top v (strip_prefix top v) refl h

leads_join :
    (top value : Option Bytes) → LeadsTo top value → match_string_prefix value top b'/' true ≡ true
leads_join none value h = absurd h
leads_join (some top) value h = leads_complete top value h

-- An argument with a key is that string, and one with a path leads to that path or is led to by it.
abbrev pub FitsArg : Option Bytes → Option Bytes → Argument → Type 0
FitsArg arg argpath a =
    ((arg ≡ none) ⊎ ((a.element ≡ b's') × (a.value ≡ arg)))
    × ((argpath ≡ none) ⊎ (LeadsTo argpath a.value ⊎ LeadsTo a.value argpath))

pub same_sound : (key value : Option Bytes) → equal_if_set key value ≡ true → SameIfSet key value
same_sound none value h = inl refl
same_sound (some k) value h = inr (sym (string_equal_sound (some k) value h))

pub same_complete : (key value : Option Bytes) → SameIfSet key value → equal_if_set key value ≡ true
same_complete key value (inl e) = rw e refl
same_complete none value (inr e) = refl
same_complete (some k) value (inr e) = rw e (string_equal_refl (some k))

arg_sound :
    (key : Option Bytes) (a : Argument)
    → (not (is_set key) || (a.element == b's') && string_equal key a.value) ≡ true
    → (key ≡ none) ⊎ ((a.element ≡ b's') × (a.value ≡ key))
arg_sound none a h = inl refl
arg_sound (some k) a h =
    inr (ground arith, sym (string_equal_sound (some k) a.value (ground arith)))

path_sound :
    (key : Option Bytes) (value : Option Bytes)
    → (not (is_set key)
        || (match_string_prefix value key b'/' true || match_string_prefix key value b'/' true))
      ≡ true
    → (key ≡ none) ⊎ (LeadsTo key value ⊎ LeadsTo value key)
path_sound none value h = inl refl
path_sound (some k) value h = elim (Bool-cases (match_string_prefix value (some k) b'/' true)) [
  | inl e ↦ inr (inl (leads_split (some k) value (inl refl) e))
  | inr e ↦ inr (inr (leads_split value (some k) (inr refl) (ground arith)))
]

pub match_arg-FitsArg :
    (keys : MatchKeys) (m : Metadata) (i : ℕ)
    → match_arg keys m i ≡ true
    → FitsArg (keys.args i) (keys.argpaths i) (m.args i)
unfolding match_arg
match_arg-FitsArg keys m i h = (
  arg_sound (keys.args i) (m.args i) (ground arith),
  path_sound (keys.argpaths i) (m.args i).value (ground arith),
)

arg_complete :
    (key : Option Bytes) (a : Argument)
    → ((key ≡ none) ⊎ ((a.element ≡ b's') × (a.value ≡ key)))
    → (not (is_set key) || (a.element == b's') && string_equal key a.value) ≡ true
arg_complete key a (inl e) = rw e refl
arg_complete key a (inr (element, e)) = rw e (ground (arith, string_equal_refl key))

path_complete :
    (key : Option Bytes) (value : Option Bytes)
    → ((key ≡ none) ⊎ (LeadsTo key value ⊎ LeadsTo value key))
    → (not (is_set key)
        || (match_string_prefix value key b'/' true || match_string_prefix key value b'/' true))
      ≡ true
path_complete key value (inl e) = rw e refl
path_complete key value (inr (inl e)) = ground (arith, leads_join key value e)
path_complete key value (inr (inr e)) = ground (arith, leads_join value key e)

pub FitsArg-match_arg :
    (keys : MatchKeys) (m : Metadata) (i : ℕ)
    → FitsArg (keys.args i) (keys.argpaths i) (m.args i)
    → match_arg keys m i ≡ true
unfolding match_arg
FitsArg-match_arg keys m i (arg, path) = ground (
  arith,
  arg_complete (keys.args i) (m.args i) arg,
  path_complete (keys.argpaths i) (m.args i).value path,
)

pub all_args_sound :
    (test : ℕ → Bool) (n : ℕ) → all_args test n ≡ true → (i : ℕ) → i < n → test i ≡ true
unfolding all_args
all_args_sound test zero h i short = absurd (ground arith)
all_args_sound test (suc n) h i short = elim (Bool-cases (i == n)) [
  | inl e ↦ let this : i ≡ n = ground arith in ground (arith, ap test this)
  | inr e ↦ all_args_sound test n (ground arith) i (ground arith)
]

pub all_args_complete :
    (test : ℕ → Bool) (n : ℕ) → ((i : ℕ) → i < n → test i ≡ true) → all_args test n ≡ true
unfolding all_args
all_args_complete test zero h = refl
all_args_complete test (suc n) h =
    ground (arith, all_args_complete test n (λ i short. h i (ground arith)), h n (ground arith))
