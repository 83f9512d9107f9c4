-- ===== src/Bus/Policy.antt =====
-- src/bus/policy.c: the batches of a policy and the registry that holds them by user and group. The
-- values that the policy is read from are given as records, in the order in which the source reads
-- them. Trees are lists; batches that a snapshot shares with its registry are copied, since a registry
-- is only written while it is imported. Allocations succeed.
pub mod Registry
pub mod Snapshot
pub mod Tests
pub mod Best
pub mod Conditions
pub mod Rules
pub mod Owning
pub mod Own
pub mod Directions
pub mod Transmit
use dbus_broker.Common.{
  ℕ, ◌-◌, Bytes, bytes_eq, Bool, true, false, ◌&&◌, ◌||◌, not, Option, none, some, List, [], ◌∷◌,
  ◌++◌, leb, ltb, ◌==◌, if◌then◌else◌,
}
use mathlib.Core.Option
use dbus_broker.Util.Decimal.{u32_limit, u64_limit}

-- PolicyVerdict, and POLICY_VERDICT_INIT: without a rule, access is denied.
pub record Verdict : Type 0 where
  pub verdict : Bool
  pub priority : ℕ

abbrev pub policy_verdict_init : Verdict
policy_verdict_init = record { verdict = false; priority = 0 }

-- The strings of a rule; an absent one is not looked at.
pub record Xmit : Type 0 where
  pub verdict : Verdict
  pub type : ℕ
  pub broadcast : ℕ
  pub path : Option Bytes
  pub interface : Option Bytes
  pub member : Option Bytes
  pub min_fds : ℕ
  pub max_fds : ℕ

pub record BatchName : Type 0 where
  pub name : Bytes
  pub own_verdict : Verdict
  pub own_prefix_verdict : Verdict
  pub send_unindexed : List Xmit
  pub recv_unindexed : List Xmit

pub record Batch : Type 0 where
  pub connect_verdict : Verdict
  pub names : List BatchName

abbrev pub policy_batch_new : Batch
policy_batch_new = record { connect_verdict = policy_verdict_init; names = [] }

abbrev pub policy_batch_name_new : Bytes → BatchName
policy_batch_name_new name = record {
  name = name;
  own_verdict = policy_verdict_init;
  own_prefix_verdict = policy_verdict_init;
  send_unindexed = [];
  recv_unindexed = [];
}

unfoldable pub policy_batch_find_name : List BatchName → Bytes → Option BatchName
unfolding bytes_eq
policy_batch_find_name [] name = none
policy_batch_find_name (n ∷ names) name =
    if bytes_eq n.name name then some n else policy_batch_find_name names name

-- policy_batch_at_name() followed by a write to the name it gives: the name is added if it is missing.
unfoldable pub policy_batch_at_name :
    Bytes → (BatchName → BatchName) → List BatchName → List BatchName
unfolding bytes_eq
policy_batch_at_name name write [] = write (policy_batch_name_new name) ∷ []
policy_batch_at_name name write (n ∷ names) =
    let rest = policy_batch_at_name name write names in
    if bytes_eq n.name name then write n ∷ names else n ∷ rest

-- A verdict replaces one of a lower or of the same priority.
unfoldable pub supersede : Verdict → Verdict → Verdict
supersede old new = if leb old.priority new.priority then new else old

abbrev pub write_own : Verdict → BatchName → BatchName
write_own verdict n = record n { own_verdict = supersede n.own_verdict verdict }

abbrev pub write_own_prefix : Verdict → BatchName → BatchName
write_own_prefix verdict n = record n {
  own_prefix_verdict = supersede n.own_prefix_verdict verdict;
}

unfoldable pub policy_batch_add_own : Batch → Bytes → Verdict → Batch
policy_batch_add_own batch name verdict = record batch {
  names = policy_batch_at_name name (write_own verdict) batch.names;
}

unfoldable pub policy_batch_add_own_prefix : Batch → Bytes → Verdict → Batch
policy_batch_add_own_prefix batch name verdict = record batch {
  names = policy_batch_at_name name (write_own_prefix verdict) batch.names;
}

-- The rules that a policy is read from.
pub record OwnEntry : Type 0 where
  pub verdict : Verdict
  pub is_prefix : Bool
  pub name : Bytes

pub record XmitEntry : Type 0 where
  pub verdict : Verdict
  pub name : Bytes
  pub path : Bytes
  pub interface : Bytes
  pub member : Bytes
  pub type : ℕ
  pub broadcast : ℕ
  pub min_fds : ℕ
  pub max_fds : ℕ

pub record BatchEntry : Type 0 where
  pub connect : Verdict
  pub owns : List OwnEntry
  pub sends : List XmitEntry
  pub recvs : List XmitEntry

-- An empty string is as good as none.
abbrev pub unless_empty : Bytes → Option Bytes
unless_empty [] = none
unless_empty (c ∷ s) = some (c ∷ s)

-- policy_xmit_new(), with the verdict that its callers write
unfoldable pub policy_xmit_new : XmitEntry → Xmit
policy_xmit_new e = record {
  verdict = e.verdict;
  type = e.type;
  broadcast = e.broadcast;
  path = unless_empty e.path;
  interface = unless_empty e.interface;
  member = unless_empty e.member;
  min_fds = e.min_fds;
  max_fds = e.max_fds;
}

abbrev pub write_send : XmitEntry → BatchName → BatchName
write_send e n = record n { send_unindexed = n.send_unindexed ++ policy_xmit_new e ∷ [] }

abbrev pub write_recv : XmitEntry → BatchName → BatchName
write_recv e n = record n { recv_unindexed = n.recv_unindexed ++ policy_xmit_new e ∷ [] }

unfoldable pub policy_batch_add_send : Batch → XmitEntry → Batch
policy_batch_add_send batch e = record batch {
  names = policy_batch_at_name e.name (write_send e) batch.names;
}

unfoldable pub policy_batch_add_recv : Batch → XmitEntry → Batch
policy_batch_add_recv batch e = record batch {
  names = policy_batch_at_name e.name (write_recv e) batch.names;
}

unfoldable pub add_own_entry : Batch → OwnEntry → Batch
unfolding policy_batch_add_own policy_batch_add_own_prefix
add_own_entry batch e =
    if e.is_prefix
    then policy_batch_add_own_prefix batch e.name e.verdict
    else policy_batch_add_own batch e.name e.verdict

-- The three loops of policy_registry_import_batch().
unfoldable pub import_owns : List OwnEntry → Batch → Batch
import_owns [] batch = batch
import_owns (e ∷ es) batch = import_owns es (add_own_entry batch e)

-- _UTIL_TRISTATE_N; a larger value is POLICY_E_INVALID, here `none`. The caller of a failed import
-- frees the registry.
abbrev pub util_tristate_n : ℕ
util_tristate_n = 3

unfoldable pub import_xmits : (Batch → XmitEntry → Batch) → List XmitEntry → Batch → Option Batch
import_xmits add [] batch = some batch
import_xmits add (e ∷ es) batch =
    let rest = import_xmits add es (add batch e) in
    if leb util_tristate_n e.broadcast then none else rest

unfoldable pub policy_registry_import_batch : Batch → BatchEntry → Option Batch
policy_registry_import_batch batch e =
    Option.bind
      (import_xmits policy_batch_add_send e.sends
        (import_owns e.owns (record batch { connect_verdict = e.connect })))
      (import_xmits policy_batch_add_recv e.recvs)

pub record Node : Type 0 where
  pub uidgid_start : ℕ
  pub uidgid_end : ℕ
  pub batch : Batch

pub record PolicyRegistry : Type 0 where
  pub default_batch : Batch
  pub uid_range_tree : List Node
  pub uid_tree : List Node
  pub gid_tree : List Node

abbrev pub policy_registry_new : PolicyRegistry
policy_registry_new = record {
  default_batch = policy_batch_new;
  uid_range_tree = [];
  uid_tree = [];
  gid_tree = [];
}
