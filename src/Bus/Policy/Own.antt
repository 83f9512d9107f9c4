-- ===== src/Bus/Policy/Own.antt =====
-- policy_snapshot_check_own() of src/bus/policy.c against the rules that its batches were imported
-- from.
use dbus_broker.Common.{true, some, List, [], ◌∷◌, ◌≡◌, Bytes, bytes_eq}
use dbus_broker.Bus.Policy.{
  Verdict, Batch, OwnEntry, BatchEntry, policy_batch_new, policy_registry_import_batch,
}
use dbus_broker.Bus.Policy.Best.{Any, Best}

-- A rule for one of the strings that a name is looked up by.
abbrev pub OwnApplies : List OwnEntry → Bytes → Verdict → Type 0
OwnApplies es p w = Any (λ (e : OwnEntry). (e.verdict ≡ w) × (bytes_eq e.name p ≡ true)) es

-- The batches of a snapshot, each imported afresh from its entry.
abbrev pub Imported : List Batch → List BatchEntry → Type 0
Imported [] [] = Unit {0}
Imported (b ∷ bs) (e ∷ es) =
    (policy_registry_import_batch policy_batch_new e ≡ some b) × Imported bs es
Imported bs es = ⊥

-- A rule of any batch, with one of the strings.
abbrev pub OwnRule : List BatchEntry → List Bytes → Verdict → Type 0
OwnRule es ps w = Any (λ (e : BatchEntry). Any (λ p. OwnApplies e.owns p w) ps) es
