-- ===== src/Bus/Policy/Tests.antt =====
-- Runs of the checks of src/bus/policy.c.
use dbus_broker.Common.{◌≡◌, refl, some, none, codes, true, false, [], ◌∷◌}
use mathlib.Core.Option
use mathlib.Core.Option.{get_or}
use dbus_broker.Bus.Policy.{
  Verdict, Batch, BatchEntry, XmitEntry, policy_batch_new, policy_registry_import_batch,
  import_owns, import_xmits, policy_batch_find_name, policy_batch_add_send, add_own_entry,
  policy_batch_at_name, supersede,
}
use dbus_broker.Bus.Policy.Snapshot.{
  behind_modules, own_verdict, check_prefixes, ends, check_prefix, improve, success, granted,
  prefixes, Traffic, policy_snapshot_check_own,
}

abbrev allow : Verdict
allow = record { verdict = true; priority = 2 }

abbrev deny : Verdict
deny = record { verdict = false; priority = 1 }

abbrev hello : XmitEntry
hello = record {
  verdict = allow;
  name = codes "org.freedesktop.DBus";
  path = [];
  interface = [];
  member = codes "Hello";
  type = 1;
  broadcast = 0;
  min_fds = 0;
  max_fds = 10;
}

-- "org.x" alone may be owned, and "Hello" may be sent to the driver.
abbrev rules : BatchEntry
rules = record {
  connect = allow;
  owns =
      record { verdict = deny; is_prefix = true; name = [] }
      ∷ record { verdict = allow; is_prefix = false; name = codes "org.x" }
      ∷ [];
  sends = hello ∷ [];
  recvs = [];
}

abbrev batch : Batch
batch = get_or (policy_registry_import_batch policy_batch_new rules) policy_batch_new

abbrev call : Traffic
call = record {
  interface = none;
  member = some (codes "Hello");
  path = none;
  type = 1;
  broadcast = false;
  n_fds = 0;
}

-- The rule for exactly "org.x" admits a name below it.
below_exact : policy_snapshot_check_own granted granted (batch ∷ []) (codes "org.x.y") ≡ success
unfolding policy_snapshot_check_own behind_modules own_verdict check_prefixes prefixes ends
    check_prefix policy_batch_find_name policy_registry_import_batch Option.bind import_xmits
    import_owns policy_batch_add_send add_own_entry policy_batch_at_name improve supersede
below_exact = refl
