-- ===== src/Bus/Policy/Transmit.antt =====
-- policy_snapshot_check_send() and policy_snapshot_check_receive() of src/bus/policy.c against the
-- rules that the batches were imported from.
use dbus_broker.Common.{Bool, true, List, leb, if◌then◌else◌, ◌≡◌, Bytes, bytes_eq}
use dbus_broker.Bus.Policy.{Verdict, Xmit, XmitEntry, BatchEntry, policy_xmit_new}
use dbus_broker.Bus.Policy.Snapshot.{Traffic, xmit_matches}
use dbus_broker.Bus.Policy.Best.{Any, Best}
use dbus_broker.Bus.Policy.Conditions.{FitsMessage}
use dbus_broker.Bus.Policy.Directions.{entries_of}

-- A rule that applies to a message and gives a verdict.
abbrev pub Applies : Traffic → Verdict → Xmit → Type 0
Applies t w x = (x.verdict ≡ w) × FitsMessage t x

abbrev pub EntryApplies : Traffic → Bytes → Verdict → XmitEntry → Type 0
EntryApplies t n w e = Applies t w (policy_xmit_new e) × (bytes_eq e.name n ≡ true)

module _ (t : Traffic) where
  abbrev check_step : Verdict → Xmit → Verdict
  check_step v x =
      if leb x.verdict.priority v.priority then v else if xmit_matches t x then x.verdict else v

-- A rule of any batch, for any name.
abbrev pub XmitRule : Bool → List BatchEntry → List Bytes → Traffic → Verdict → Type 0
XmitRule d es ns t w =
    Any (λ (e : BatchEntry). Any (λ n. Any (λ x. EntryApplies t n w x) (entries_of d e)) ns) es
