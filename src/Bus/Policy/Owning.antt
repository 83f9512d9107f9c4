-- ===== src/Bus/Policy/Owning.antt =====
-- The rules on owning names of an imported batch of src/bus/policy.c.
use dbus_broker.Common.{
  Option-cases, Bool, true, false, none, some, List, [], ◌∷◌, ◌≡◌, refl, arith, ◌⊎◌, inl, inr,
  Bool-cases, Bytes, bytes_eq, bytes_eq_sound, ap, sym, ◌∙◌,
}
use mathlib.Core.Path.{subst}
use mathlib.Core.Option
use mathlib.Core.Option.{get_or}
use dbus_broker.Bus.Policy.{
  Verdict, Batch, BatchName, OwnEntry, XmitEntry, BatchEntry, policy_batch_new,
  policy_batch_find_name, policy_batch_at_name, import_owns, import_xmits,
  policy_registry_import_batch, add_own_entry, write_recv, write_send, policy_batch_add_send,
  policy_batch_add_recv,
}
use dbus_broker.Bus.Policy.Rules.{
  writes, add_own_entry-names, writes-name, keeps_view, import_xmits-view,
}
use dbus_broker.Bus.Policy.Best.{
  Any, Best, Best-init, Best-supersede, Best-one, Best-map, name_at, name_at_written, name_at_other,
  Best-nothing, Best-assoc,
}

-- The verdict of an entry for a name, of one of the two kinds.
abbrev pub Gives : Bytes → Bool → Verdict → OwnEntry → Type 0
Gives n kind w e = (e.verdict ≡ w) × (e.is_prefix ≡ kind) × (bytes_eq e.name n ≡ true)

abbrev pub kind_of : Bool → BatchName → Verdict
kind_of true n = n.own_prefix_verdict
kind_of false n = n.own_verdict

module _ (n : Bytes) (P : Verdict → Type 0) where
  writes-Best :
      (kind k : Bool) (v : Verdict) (x : BatchName)
      → Best P (kind_of kind x)
      → Best (λ w. P w ⊎ ((v ≡ w) × (k ≡ kind))) (kind_of kind (writes k v x))
  writes-Best true true v x best =
      Best-map (λ w p. elim p [ inl a ↦ inl a | inr e ↦ inr (e, refl) ])
        (λ w p. elim p [ inl a ↦ inl a | inr e ↦ inr e.0 ]) (Best-supersede _ v best (Best-one v))
  writes-Best false false v x best =
      Best-map (λ w p. elim p [ inl a ↦ inl a | inr e ↦ inr (e, refl) ])
        (λ w p. elim p [ inl a ↦ inl a | inr e ↦ inr e.0 ]) (Best-supersede _ v best (Best-one v))
  writes-Best true false v x best = Best-nothing best (λ w e. ground (arith, e.1))
  writes-Best false true v x best = Best-nothing best (λ w e. ground (arith, e.1))

  add_own_entry-Best :
      (kind : Bool) (e : OwnEntry) (b : Batch)
      → Best P (kind_of kind (name_at n b.names))
      → Best (λ w. P w ⊎ Gives n kind w e) (kind_of kind (name_at n (add_own_entry b e).names))
  add_own_entry-Best kind e b best = elim (Bool-cases (bytes_eq e.name n)) [
    | inl here ↦
        let same : name_at n (add_own_entry b e).names
            ≡ writes e.is_prefix e.verdict (name_at n b.names) =
          ap (name_at n) (add_own_entry-names b e.verdict e.is_prefix e.name)
          ∙ subst
              (λ m.
                name_at n (policy_batch_at_name m (writes e.is_prefix e.verdict) b.names)
                ≡ writes e.is_prefix e.verdict (name_at n b.names))
              (sym (bytes_eq_sound e.name n here))
              (name_at_written n _ (writes-name e.is_prefix e.verdict) b.names) in
        rw same (
          Best-map (λ w p. elim p [ inl a ↦ inl a | inr q ↦ inr (q.0, q.1, here) ])
            (λ w p. elim p [ inl a ↦ inl a | inr q ↦ inr (q.0, q.1) ])
            (writes-Best kind e.is_prefix e.verdict (name_at n b.names) best))
    | inr away ↦
        let same : name_at n (add_own_entry b e).names ≡ name_at n b.names =
          ap (name_at n) (add_own_entry-names b e.verdict e.is_prefix e.name)
          ∙ name_at_other e.name _ (writes-name e.is_prefix e.verdict) n away b.names in
        rw same (Best-nothing best (λ w q. ground (arith, q.2)))
  ]

-- All rules of a batch.
import_owns-Best :
    (n : Bytes) (P : Verdict → Type 0) (kind : Bool) (es : List OwnEntry) (b : Batch)
    → Best P (kind_of kind (name_at n b.names))
    → Best (λ w. P w ⊎ Any (Gives n kind w) es) (kind_of kind (name_at n (import_owns es b).names))
unfolding import_owns
import_owns-Best n P kind [] b best = Best-nothing best (λ w q. q)
import_owns-Best n P kind (e ∷ es) b best = Best-assoc (
    import_owns-Best n (λ w. P w ⊎ Gives n kind w e) kind es (add_own_entry b e)
      (add_own_entry-Best n P kind e b best))

send_kind :
    (kind : Bool) (e : XmitEntry) (x : BatchName) → kind_of kind (write_send e x) ≡ kind_of kind x
send_kind true e x = refl
send_kind false e x = refl

recv_kind :
    (kind : Bool) (e : XmitEntry) (x : BatchName) → kind_of kind (write_recv e x) ≡ kind_of kind x
recv_kind true e x = refl
recv_kind false e x = refl

module _ (n : Bytes) (kind : Bool) where
  add_send-kind :
      (b : Batch) (e : XmitEntry)
      → kind_of kind (name_at n (policy_batch_add_send b e).names)
        ≡ kind_of kind (name_at n b.names)
  unfolding policy_batch_add_send
  add_send-kind b e =
      keeps_view (kind_of kind) n e.name (write_send e) (λ x. refl) (send_kind kind e) b.names

  add_recv-kind :
      (b : Batch) (e : XmitEntry)
      → kind_of kind (name_at n (policy_batch_add_recv b e).names)
        ≡ kind_of kind (name_at n b.names)
  unfolding policy_batch_add_recv
  add_recv-kind b e =
      keeps_view (kind_of kind) n e.name (write_recv e) (λ x. refl) (recv_kind kind e) b.names

starts : (n : Bytes) (kind : Bool) → Best (λ w. ⊥) (kind_of kind (name_at n []))
unfolding policy_batch_find_name
starts n true = Best-init
starts n false = Best-init

-- An imported batch has the verdicts of its rules.
pub import_batch-kind :
    (n : Bytes) (kind : Bool) (e : BatchEntry) (b : Batch)
    → policy_registry_import_batch policy_batch_new e ≡ some b
    → Best (λ w. ⊥ ⊎ Any (Gives n kind w) e.owns) (kind_of kind (name_at n b.names))
unfolding policy_registry_import_batch Option.bind
import_batch-kind n kind e b h =
    let owned = import_owns e.owns (record policy_batch_new { connect_verdict = e.connect }) in
    elim (Option-cases (import_xmits policy_batch_add_send e.sends owned)) [
      | inl bad ↦
          let nothing : none ≡ some b =
            sym (ap (λ o. Option.bind o (import_xmits policy_batch_add_recv e.recvs)) bad) ∙ h in
          absurd (ground arith)
      | inr (sent, good) ↦
          let received : import_xmits policy_batch_add_recv e.recvs sent ≡ some b =
            sym (ap (λ o. Option.bind o (import_xmits policy_batch_add_recv e.recvs)) good) ∙ h in
          rw
            (import_xmits-view (kind_of kind) n policy_batch_add_recv (add_recv-kind n kind) e.recvs
                sent b received
              ∙ import_xmits-view (kind_of kind) n policy_batch_add_send (add_send-kind n kind)
                  e.sends owned sent good)
            (import_owns-Best n (λ w. ⊥) kind e.owns
              (record policy_batch_new { connect_verdict = e.connect }) (starts n kind))
    ]
