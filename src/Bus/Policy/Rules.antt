-- ===== src/Bus/Policy/Rules.antt =====
-- What the import of a batch of src/bus/policy.c leaves alone: a view of the entry of one name.
use dbus_broker.Common.{
  Bool, true, false, Option, some, List, [], ◌∷◌, leb, ◌≡◌, refl, arith, inl, inr, Bool-cases,
  Bytes, bytes_eq, bytes_eq_sound, ap, sym, ◌∙◌,
}
use mathlib.Core.Path.{subst}
use mathlib.Core.Option.{get_or}
use dbus_broker.Bus.Policy.{
  Verdict, Batch, BatchName, OwnEntry, XmitEntry, policy_batch_at_name, add_own_entry, import_owns,
  import_xmits, write_own, write_own_prefix, util_tristate_n,
}
use dbus_broker.Bus.Policy.Best.{name_at, name_at_written, name_at_other}

abbrev pub writes : Bool → Verdict → BatchName → BatchName
writes true v = write_own_prefix v
writes false v = write_own v

pub add_own_entry-names :
    (b : Batch) (verdict : Verdict) (kind : Bool) (m : Bytes)
    → (add_own_entry b (record { verdict = verdict; is_prefix = kind; name = m })).names
      ≡ policy_batch_at_name m (writes kind verdict) b.names
unfolding add_own_entry
add_own_entry-names b verdict true m = refl
add_own_entry-names b verdict false m = refl

pub writes-name : (kind : Bool) (v : Verdict) (x : BatchName) → (writes kind v x).name ≡ x.name
writes-name true v x = refl
writes-name false v x = refl

module _ {A : Type 0} (view : BatchName → A) (n : Bytes) where
  pub keeps_view :
      (m : Bytes) (write : BatchName → BatchName)
      → ((x : BatchName) → (write x).name ≡ x.name)
      → ((x : BatchName) → view (write x) ≡ view x)
      → (names : List BatchName)
      → view (name_at n (policy_batch_at_name m write names)) ≡ view (name_at n names)
  keeps_view m write same keeps names = elim (Bool-cases (bytes_eq m n)) [
    | inl here ↦
        subst (λ k. view (name_at n (policy_batch_at_name k write names)) ≡ view (name_at n names))
          (sym (bytes_eq_sound m n here))
          (ap view (name_at_written n write same names) ∙ keeps (name_at n names))
    | inr away ↦ ap view (name_at_other m write same n away names)
  ]

  pub import_owns-view :
      ((kind : Bool) (v : Verdict) (x : BatchName) → view (writes kind v x) ≡ view x)
      → (es : List OwnEntry) (b : Batch)
      → view (name_at n (import_owns es b).names) ≡ view (name_at n b.names)
  unfolding import_owns
  import_owns-view keeps [] b = refl
  import_owns-view keeps (e ∷ es) b =
      import_owns-view keeps es (add_own_entry b e)
      ∙ ap (λ names. view (name_at n names)) (add_own_entry-names b e.verdict e.is_prefix e.name)
      ∙ keeps_view e.name (writes e.is_prefix e.verdict) (writes-name e.is_prefix e.verdict)
          (keeps e.is_prefix e.verdict) b.names

  pub import_xmits-view :
      (add : Batch → XmitEntry → Batch)
      → ((b : Batch) (e : XmitEntry) → view (name_at n (add b e).names) ≡ view (name_at n b.names))
      → (es : List XmitEntry) (b b' : Batch) → import_xmits add es b ≡ some b'
      → view (name_at n b'.names) ≡ view (name_at n b.names)
  unfolding import_xmits
  import_xmits-view add keeps [] b b' h =
      ap (λ (o : Option Batch). view (name_at n (get_or o b).names)) (sym h)
  import_xmits-view add keeps (e ∷ es) b b' h =
      elim (Bool-cases (leb util_tristate_n e.broadcast)) [
        | inl bad ↦ absurd (ground (arith, bad))
        | inr good ↦ import_xmits-view add keeps es (add b e) b' (ground (arith, good)) ∙ keeps b e
      ]
