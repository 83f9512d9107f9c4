-- ===== src/Bus/Policy/Registry.antt =====
-- The registry of a policy of src/bus/policy.c: its import, and the snapshots that are taken of it for a
-- peer.
use dbus_broker.Common.{
  ℕ, ◌-◌, Bool, ◌&&◌, ◌||◌, Option, none, some, List, [], ◌∷◌, ◌++◌, ltb, ◌==◌, if◌then◌else◌,
}
use mathlib.Core.Option
use dbus_broker.Util.Decimal.{u32_limit}
use dbus_broker.Bus.Policy.{
  Batch, policy_batch_new, BatchEntry, policy_registry_import_batch, Node, PolicyRegistry,
}

-- policy_registry_node_compare() is less than 0, and is 0.
abbrev pub is_before : ℕ → ℕ → Node → Bool
is_before first last n =
    ltb first n.uidgid_start || ((first == n.uidgid_start) && ltb last n.uidgid_end)

abbrev pub is_at : ℕ → ℕ → Node → Bool
is_at first last n = (first == n.uidgid_start) && (last == n.uidgid_end)

unfoldable pub find_node : ℕ → List Node → Option Node
find_node id [] = none
find_node id (n ∷ nodes) = if is_at id id n then some n else find_node id nodes

-- policy_registry_at_uidgid(), and the import into the batch of the node it gives: a missing node is
-- added, in the order of the tree.
unfoldable pub policy_registry_at_uidgid : ℕ → ℕ → BatchEntry → List Node → Option (List Node)
policy_registry_at_uidgid first last e [] =
    Option.map (λ b. record { uidgid_start = first; uidgid_end = last; batch = b } ∷ [])
      (policy_registry_import_batch policy_batch_new e)
policy_registry_at_uidgid first last e (n ∷ nodes) =
    let rest = policy_registry_at_uidgid first last e nodes in
    if is_at first last n
    then Option.map (λ b. record n { batch = b } ∷ nodes) (policy_registry_import_batch n.batch e)
    else if is_before first last n
    then Option.map (λ b. record { uidgid_start = first; uidgid_end = last; batch = b } ∷ n ∷ nodes)
        (policy_registry_import_batch policy_batch_new e)
    else Option.map (λ ns. n ∷ ns) rest

-- The entries of the first array of a policy, by user ID, and of the second, by a range of user IDs
-- or by a group ID.
pub record UidEntry : Type 0 where
  pub uid : ℕ
  pub rules : BatchEntry

pub record RangeEntry : Type 0 where
  pub group : Bool
  pub uidgid_start : ℕ
  pub uidgid_end : ℕ
  pub rules : BatchEntry

unfoldable pub import_uid : PolicyRegistry → UidEntry → Option PolicyRegistry
import_uid registry e =
    if e.uid == u32_limit - 1
    then Option.map (λ b. record registry { default_batch = b })
        (policy_registry_import_batch registry.default_batch e.rules)
    else Option.map (λ t. record registry { uid_tree = t })
        (policy_registry_at_uidgid e.uid e.uid e.rules registry.uid_tree)

unfoldable pub import_range : PolicyRegistry → RangeEntry → Option PolicyRegistry
import_range registry e =
    if e.group
    then (if e.uidgid_start == e.uidgid_end
        then Option.map (λ t. record registry { gid_tree = t })
            (policy_registry_at_uidgid e.uidgid_start e.uidgid_start e.rules registry.gid_tree)
        else none)
    else Option.map (λ t. record registry { uid_range_tree = t })
        (policy_registry_at_uidgid e.uidgid_start e.uidgid_end e.rules registry.uid_range_tree)

unfoldable pub import_uids : List UidEntry → PolicyRegistry → Option PolicyRegistry
import_uids [] registry = some registry
import_uids (e ∷ es) registry = Option.bind (import_uid registry e) (import_uids es)

unfoldable pub import_ranges : List RangeEntry → PolicyRegistry → Option PolicyRegistry
import_ranges [] registry = some registry
import_ranges (e ∷ es) registry = Option.bind (import_range registry e) (import_ranges es)

-- policy_registry_import(), without the labels that it passes on to SELinux and AppArmor.
unfoldable pub policy_registry_import :
    PolicyRegistry → List UidEntry → List RangeEntry → Option PolicyRegistry
policy_registry_import registry uids ranges =
    Option.bind (import_uids uids registry) (import_ranges ranges)

-- The batches of the ranges around a user ID, in the order of the tree.
unfoldable pub range_batches : ℕ → List Node → List Batch
range_batches uid [] = []
range_batches uid (n ∷ nodes) =
    let rest = range_batches uid nodes in
    if ltb uid n.uidgid_start then rest else if ltb n.uidgid_end uid then rest else n.batch ∷ rest

-- The batches of the groups, from the last to the first.
unfoldable pub gid_batches : List ℕ → List Node → List Batch
gid_batches [] nodes = []
gid_batches (gid ∷ gids) nodes =
    gid_batches gids nodes ++ (elim (find_node gid nodes) [ none ↦ [] | some n ↦ n.batch ∷ [] ])

abbrev pub uid_batch : PolicyRegistry → ℕ → Batch
uid_batch registry uid = elim (find_node uid registry.uid_tree) [
  | none ↦ registry.default_batch
  | some n ↦ n.batch
]

-- policy_snapshot_new(): the batches of a snapshot.
unfoldable pub policy_snapshot_new : PolicyRegistry → ℕ → List ℕ → List Batch
policy_snapshot_new registry uid gids =
    uid_batch registry uid ∷ range_batches uid registry.uid_range_tree
    ++ gid_batches gids registry.gid_tree
