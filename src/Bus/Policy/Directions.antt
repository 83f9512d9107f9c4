-- ===== src/Bus/Policy/Directions.antt =====
-- The rules on messages of an imported batch of src/bus/policy.c.
use dbus_broker.Common.{
  Bool, true, false, not, Option, none, some, List, [], ◌∷◌, ◌++◌, append_assoc, append-nil, leb,
  if◌then◌else◌, ◌≡◌, refl, arith, inl, inr, Bool-cases, Option-cases, Bytes, bytes_eq,
  bytes_eq_sound, ap, sym, ◌∙◌,
}
use mathlib.Core.Path.{subst}
use mathlib.Core.Option
use mathlib.Core.Option.{get_or}
use dbus_broker.Bus.Policy.{
  Verdict, Xmit, Batch, BatchName, XmitEntry, BatchEntry, policy_batch_new, policy_batch_find_name,
  policy_batch_at_name, policy_batch_add_send, policy_batch_add_recv, policy_xmit_new, import_owns,
  import_xmits, policy_registry_import_batch, write_send, write_recv, util_tristate_n,
}
use dbus_broker.Bus.Policy.Snapshot.{direction}
use dbus_broker.Bus.Policy.Rules.{writes, keeps_view, import_owns-view, import_xmits-view}
use dbus_broker.Bus.Policy.Best.{name_at, name_at_written, name_at_other}

-- The entries for a name, as rules.
abbrev one_for : Bytes → XmitEntry → List Xmit
one_for n e = if bytes_eq e.name n then policy_xmit_new e ∷ [] else []

abbrev pub xmits_for : Bytes → List XmitEntry → List Xmit
xmits_for n [] = []
xmits_for n (e ∷ es) = one_for n e ++ xmits_for n es

abbrev adds : Bool → Batch → XmitEntry → Batch
adds true b e = policy_batch_add_send b e
adds false b e = policy_batch_add_recv b e

abbrev write_of : Bool → XmitEntry → BatchName → BatchName
write_of true e n = write_send e n
write_of false e n = write_recv e n

adds-names :
    (d : Bool) (b : Batch) (e : XmitEntry)
    → (adds d b e).names ≡ policy_batch_at_name e.name (write_of d e) b.names
unfolding policy_batch_add_send policy_batch_add_recv
adds-names true b e = refl
adds-names false b e = refl

write_of-name : (d : Bool) (e : XmitEntry) (x : BatchName) → (write_of d e x).name ≡ x.name
write_of-name true e x = refl
write_of-name false e x = refl

write_of-direction :
    (d : Bool) (e : XmitEntry) (x : BatchName)
    → direction d (write_of d e x) ≡ direction d x ++ policy_xmit_new e ∷ []
write_of-direction true e x = refl
write_of-direction false e x = refl

write_of-other :
    (d : Bool) (e : XmitEntry) (x : BatchName) → direction d (write_of (not d) e x) ≡ direction d x
write_of-other true e x = refl
write_of-other false e x = refl

writes-direction :
    (d kind : Bool) (v : Verdict) (x : BatchName) → direction d (writes kind v x) ≡ direction d x
writes-direction true true v x = refl
writes-direction true false v x = refl
writes-direction false true v x = refl
writes-direction false false v x = refl

module _ (n : Bytes) (d : Bool) where
  adds-direction :
      (b : Batch) (e : XmitEntry)
      → direction d (name_at n (adds d b e).names) ≡ direction d (name_at n b.names) ++ one_for n e
  adds-direction b e = rw (adds-names d b e) (elim (Bool-cases (bytes_eq e.name n)) [
    | inl here ↦ rw here (
        subst
          (λ k.
            direction d (name_at n (policy_batch_at_name k (write_of d e) b.names))
            ≡ direction d (name_at n b.names) ++ policy_xmit_new e ∷ [])
          (sym (bytes_eq_sound e.name n here))
          (ap (direction d) (name_at_written n (write_of d e) (write_of-name d e) b.names)
            ∙ write_of-direction d e (name_at n b.names)))
    | inr away ↦ rw away (
        ap (direction d) (name_at_other e.name (write_of d e) (write_of-name d e) n away b.names)
        ∙ sym (append-nil (direction d (name_at n b.names))))
  ])

  adds-other :
      (b : Batch) (e : XmitEntry)
      → direction d (name_at n (adds (not d) b e).names) ≡ direction d (name_at n b.names)
  adds-other b e =
      ap (λ names. direction d (name_at n names)) (adds-names (not d) b e)
      ∙ keeps_view (direction d) n e.name (write_of (not d) e) (write_of-name (not d) e)
          (write_of-other d e) b.names

  import_xmits-direction :
      (es : List XmitEntry) (b b' : Batch)
      → import_xmits (adds d) es b ≡ some b'
      → direction d (name_at n b'.names) ≡ direction d (name_at n b.names) ++ xmits_for n es
  unfolding import_xmits
  import_xmits-direction [] b b' h =
      ap (λ (o : Option Batch). direction d (name_at n (get_or o b).names)) (sym h)
      ∙ sym (append-nil (direction d (name_at n b.names)))
  import_xmits-direction (e ∷ es) b b' h = elim (Bool-cases (leb util_tristate_n e.broadcast)) [
    | inl bad ↦ absurd (ground (arith, bad))
    | inr good ↦
        import_xmits-direction es (adds d b e) b' (ground (arith, good))
        ∙ ap (λ xs. xs ++ xmits_for n es) (adds-direction b e)
        ∙ append_assoc (direction d (name_at n b.names)) (one_for n e) (xmits_for n es)
  ]

-- The rules of an entry in one direction.
abbrev pub entries_of : Bool → BatchEntry → List XmitEntry
entries_of true e = e.sends
entries_of false e = e.recvs

module _ (n : Bytes) (e : BatchEntry) (start sent b : Batch) where
  imported_direction :
      (d : Bool)
      → direction d (name_at n start.names) ≡ []
      → import_xmits (adds true) e.sends (import_owns e.owns start) ≡ some sent
      → import_xmits (adds false) e.recvs sent ≡ some b
      → direction d (name_at n b.names) ≡ xmits_for n (entries_of d e)
  imported_direction true empty sending receiving =
      import_xmits-view (direction true) n (adds false) (adds-other n true) e.recvs sent b receiving
      ∙ import_xmits-direction n true e.sends (import_owns e.owns start) sent sending
      ∙ ap (λ xs. xs ++ xmits_for n e.sends)
          (import_owns-view (direction true) n (writes-direction true) e.owns start ∙ empty)
  imported_direction false empty sending receiving =
      import_xmits-direction n false e.recvs sent b receiving
      ∙ ap (λ xs. xs ++ xmits_for n e.recvs)
          (import_xmits-view (direction false) n (adds true) (adds-other n false) e.sends
              (import_owns e.owns start) sent sending
            ∙ import_owns-view (direction false) n (writes-direction false) e.owns start
            ∙ empty)

no_rules : (n : Bytes) (d : Bool) → direction d (name_at n []) ≡ []
unfolding policy_batch_find_name
no_rules n true = refl
no_rules n false = refl

-- An imported batch has the rules of its entry, for every name.
pub import_batch-direction :
    (n : Bytes) (d : Bool) (e : BatchEntry) (b : Batch)
    → policy_registry_import_batch policy_batch_new e ≡ some b
    → direction d (name_at n b.names) ≡ xmits_for n (entries_of d e)
unfolding policy_registry_import_batch Option.bind
import_batch-direction n d e b h =
    let start = record policy_batch_new { connect_verdict = e.connect } in
    let owned = import_owns e.owns start in
    elim (Option-cases (import_xmits policy_batch_add_send e.sends owned)) [
      | inl bad ↦
          let nothing : none ≡ some b =
            sym (ap (λ o. Option.bind o (import_xmits policy_batch_add_recv e.recvs)) bad) ∙ h in
          absurd (ground arith)
      | inr (sent, good) ↦
          let received : import_xmits policy_batch_add_recv e.recvs sent ≡ some b =
            sym (ap (λ o. Option.bind o (import_xmits policy_batch_add_recv e.recvs)) good) ∙ h in
          imported_direction n e start sent b d (no_rules n d) good received
    ]
