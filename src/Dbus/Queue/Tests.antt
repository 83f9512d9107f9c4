-- ===== src/Dbus/Queue/Tests.antt =====
-- Runs of the input queue of src/dbus/queue.c.
use dbus_broker.Common.{refl, some, none, codes, ◌++◌, ◌∷◌, [], drop, Bytes, arith, false, true}
use dbus_broker.Util.User.{
  User, user_new, user_charge, user_charge_init, user_ref_usage, find_usage, charge_slot,
}
use dbus_broker.Util.User.Balance.Ledger.{Books-unused, Books, user_charge-Books}
use dbus_broker.Util.User.Release.{user_new-Books}
use dbus_broker.Dbus.Queue.{IQueue, Target, iqueue_init}
use dbus_broker.Dbus.Queue.Lines.{
  Searched, Pops, line_end, last_cr, fdlist_count, iqueue_pop_line, iqueue_pop_line_lem,
}
use dbus_broker.Dbus.Queue.Pop.{iqueue_pop_data}
use dbus_broker.Dbus.Queue.Messages.{Moves, QueueBooks, iqueue_pop_data_lem}

-- A queue that was searched up to the newline of "AUTH\r\n".
abbrev bytes : Bytes
bytes = codes "AUTH" ++ 13 ∷ 10 ∷ codes "DA"

abbrev filled : IQueue
filled = record (iqueue_init (user_new 1 4 (λ s. 100))) {
  buffer = bytes;
  data_start = 0;
  data_cursor = 5;
  pending = none;
  fds = none;
}

filled-Searched : Searched filled
unfolding line_end last_cr
filled-Searched = record {
  before = [];
  seen = codes "AUTH" ++ 13 ∷ [];
  rest = 10 ∷ codes "DA";
  split = refl;
  start = refl;
  cursor = refl;
  no_line = refl;
  no_cr = refl;
}

iqueue_pop_line_example :
    Pops filled (drop 0 bytes) (line_end false 0 (drop 0 bytes)) (iqueue_pop_line filled)
unfolding fdlist_count
iqueue_pop_line_example = iqueue_pop_line_lem filled filled-Searched refl refl

abbrev target : Target
target = record { n_data = 6; copied = codes "xy" }

abbrev alice : User
alice = user_new 1 4 (λ s. 100)

-- The pending buffer is charged on the user.
abbrev receiving : IQueue
receiving =
    let (user, charge, code) = user_charge true none alice user_charge_init 1 0 6 in
    record filled {
      user = user;
      data_cursor = 0;
      pending = some target;
      pending_charge_data = charge;
    }

alice-Books : Books alice (user_charge_init ∷ user_charge_init ∷ user_charge_init ∷ [])
alice-Books = Books-unused alice (user_charge_init ∷ user_charge_init ∷ []) (
    Books-unused alice (user_charge_init ∷ [])
      (Books-unused alice [] (user_new-Books 1 4 (λ s. 100) (λ s. omega arith))))

receiving-QueueBooks : QueueBooks receiving []
unfolding user_new iqueue_init user_charge user_ref_usage find_usage charge_slot
receiving-QueueBooks = (
  user_charge-Books true none alice (user_charge_init ∷ []) (user_charge_init ∷ []) user_charge_init
      1 0 6 alice-Books refl (omega arith),
  (refl, (tt, (refl, tt))),
)

iqueue_pop_data_example : Moves receiving target (iqueue_pop_data true receiving)
iqueue_pop_data_example =
    iqueue_pop_data_lem true receiving target refl (omega arith) (omega arith) []
      receiving-QueueBooks
