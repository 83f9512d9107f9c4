-- ===== src/Bus/Policy/Snapshot.antt =====
-- The checks on a snapshot, of src/bus/policy.c. The answers of AppArmor and SELinux are arguments.
use dbus_broker.Common.{
  ℕ, Bytes, codes, bytes_eq, Bool, true, false, ◌&&◌, ◌||◌, not, Option, none, some, List, [], ◌∷◌,
  ◌++◌, leb, ltb, ◌==◌, if◌then◌else◌,
}
use dbus_broker.Bus.Policy.{
  Verdict, policy_verdict_init, Xmit, BatchName, Batch, policy_batch_find_name,
}

-- 0 and the POLICY_E_* codes; `failed` is an error of a security module.
pub data Code : Type 0 where
  success access_denied selinux_access_denied apparmor_access_denied failed : Code

-- What a security module answers.
pub data Access : Type 0 where
  granted denied broken : Access

-- A verdict gives way to one of a higher priority.
unfoldable pub improve : Verdict → Verdict → Verdict
improve verdict other = if ltb verdict.priority other.priority then other else verdict

abbrev pub result_of : Verdict → Code
result_of v = if v.verdict then success else access_denied

unfoldable pub connect_verdict : Verdict → List Batch → Verdict
unfolding improve
connect_verdict verdict [] = verdict
connect_verdict verdict (b ∷ bs) = connect_verdict (improve verdict b.connect_verdict) bs

unfoldable pub policy_snapshot_check_connect : List Batch → Code
policy_snapshot_check_connect batches = result_of (connect_verdict policy_verdict_init batches)

-- The prefixes that end at a dot or at the end of the name, behind the bytes `front`.
unfoldable pub ends : Bytes → Bytes → List Bytes
ends front [] = front ∷ []
ends front (c ∷ s) = let more = ends (front ++ c ∷ []) s in if c == b'.' then front ∷ more else more

-- The strings up to `end` in the loop of policy_snapshot_check_own(); a dot in the first place ends
-- none.
unfoldable pub prefixes : Bytes → List Bytes
prefixes [] = [] ∷ []
prefixes (c ∷ s) = [] ∷ ends (c ∷ []) s

-- The search of a prefix in the tree of names finds the name that is equal to it.
unfoldable pub check_prefix : List BatchName → Verdict → Bytes → Verdict
check_prefix names verdict prefix = elim (policy_batch_find_name names prefix) [
  | none ↦ verdict
  | some n ↦ improve (improve verdict n.own_verdict) n.own_prefix_verdict
]

unfoldable pub check_prefixes : List BatchName → Verdict → List Bytes → Verdict
check_prefixes names verdict [] = verdict
check_prefixes names verdict (p ∷ ps) = check_prefixes names (check_prefix names verdict p) ps

unfoldable pub own_verdict : Verdict → List Batch → List Bytes → Verdict
own_verdict verdict [] ps = verdict
own_verdict verdict (b ∷ bs) ps = own_verdict (check_prefixes b.names verdict ps) bs ps

-- The answers of the security modules come before the policy's.
unfoldable pub behind_modules : Access → Access → Code → Code
behind_modules denied selinux code = apparmor_access_denied
behind_modules broken selinux code = failed
behind_modules granted denied code = selinux_access_denied
behind_modules granted broken code = failed
behind_modules granted granted code = code

unfoldable pub policy_snapshot_check_own : Access → Access → List Batch → Bytes → Code
policy_snapshot_check_own apparmor selinux batches name =
    behind_modules apparmor selinux
      (result_of (own_verdict policy_verdict_init batches (prefixes name)))

-- What a rule is compared with.
pub record Traffic : Type 0 where
  pub interface : Option Bytes
  pub member : Option Bytes
  pub path : Option Bytes
  pub type : ℕ
  pub broadcast : Bool
  pub n_fds : ℕ

-- A string of a rule against one of a message.
unfoldable pub allows : Option Bytes → Option Bytes → Bool
unfolding bytes_eq
allows none value = true
allows (some s) none = false
allows (some s) (some v) = bytes_eq v s

-- UTIL_TRISTATE_YES and UTIL_TRISTATE_NO
unfoldable pub allows_broadcast : ℕ → Bool → Bool
allows_broadcast tristate broadcast =
    if tristate == 1 then broadcast else if tristate == 2 then not broadcast else true

-- The conditions of the loop of policy_snapshot_check_xmit_name(), but for the priority.
unfoldable pub xmit_matches : Traffic → Xmit → Bool
unfolding allows allows_broadcast
xmit_matches t x =
    ((x.type == 0) || (t.type == x.type))
    && allows x.path t.path
    && allows x.interface t.interface
    && allows x.member t.member
    && allows_broadcast x.broadcast t.broadcast
    && not (ltb t.n_fds x.min_fds)
    && not (ltb x.max_fds t.n_fds)

unfoldable pub check_xmits : Traffic → Verdict → List Xmit → Verdict
unfolding xmit_matches
check_xmits t verdict [] = verdict
check_xmits t verdict (x ∷ xs) =
    check_xmits t
      (if leb x.verdict.priority verdict.priority
        then verdict
        else if xmit_matches t x
        then x.verdict
        else verdict)
      xs

abbrev pub direction : Bool → BatchName → List Xmit
direction is_send n = if is_send then n.send_unindexed else n.recv_unindexed

unfoldable pub policy_snapshot_check_xmit_name :
    Bool → Traffic → List BatchName → Verdict → Bytes → Verdict
policy_snapshot_check_xmit_name is_send t names verdict name =
    elim (policy_batch_find_name names name) [
      | none ↦ verdict
      | some n ↦ check_xmits t verdict (direction is_send n)
    ]

unfoldable pub check_xmit_names : Bool → Traffic → List BatchName → Verdict → List Bytes → Verdict
check_xmit_names is_send t names verdict [] = verdict
check_xmit_names is_send t names verdict (n ∷ ns) =
    check_xmit_names is_send t names (policy_snapshot_check_xmit_name is_send t names verdict n) ns

-- The names of a peer that a message is sent to or comes from: those of the driver, or those that the
-- peer owns or queues for.
pub data NameSet : Type 0 where
  driver : NameSet
  names : List Bytes → NameSet

abbrev pub names_of : NameSet → List Bytes
names_of driver = codes "org.freedesktop.DBus" ∷ []
names_of (names ns) = ns

-- policy_snapshot_check_xmit(): the empty name is a catch-all entry.
unfoldable pub policy_snapshot_check_xmit : Bool → Traffic → Batch → Verdict → NameSet → Verdict
policy_snapshot_check_xmit is_send t batch verdict nameset =
    check_xmit_names is_send t batch.names verdict ([] ∷ names_of nameset)

unfoldable pub xmit_verdict : Bool → Traffic → Verdict → List Batch → NameSet → Verdict
xmit_verdict is_send t verdict [] nameset = verdict
xmit_verdict is_send t verdict (b ∷ bs) nameset =
    xmit_verdict is_send t (policy_snapshot_check_xmit is_send t b verdict nameset) bs nameset

unfoldable pub policy_snapshot_check_send : Access → Access → List Batch → NameSet → Traffic → Code
policy_snapshot_check_send apparmor selinux batches subject t =
    behind_modules apparmor selinux
      (result_of (xmit_verdict true t policy_verdict_init batches subject))

unfoldable pub policy_snapshot_check_receive : List Batch → NameSet → Traffic → Code
policy_snapshot_check_receive batches subject t =
    result_of (xmit_verdict false t policy_verdict_init batches subject)
