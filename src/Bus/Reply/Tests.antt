-- ===== src/Bus/Reply/Tests.antt =====
-- Runs of the reply slots of src/bus/reply.c.
use dbus_broker.Common.{none, true, [], ◌∷◌, List, arith}
use dbus_broker.Util.User.{User, user_new, user_charge_init}
use dbus_broker.Util.User.Release.{user_new-Books}
use dbus_broker.Bus.Reply.{ReplySlot, reply_slot_new}
use dbus_broker.Bus.Reply.Accounting.{Accounted, new-Accounted}

abbrev caller : User
caller = user_new 1 4 (λ s. 100)

abbrev two_slots : List ReplySlot
two_slots =
    record { id = 1; serial = 7; owner = 5; charge = user_charge_init }
    ∷ record { id = 1; serial = 8; owner = 5; charge = user_charge_init }
    ∷ []

new-Accounted_example :
    let (rs', user', code) = reply_slot_new true true none [] 5 caller 2 1 7 in
    Accounted code [] [] rs' caller user'
unfolding user_new
new-Accounted_example =
    new-Accounted true true none [] [] 5 caller 2 1 7
      (user_new-Books 1 4 (λ s. 100) (λ s. omega arith)) (omega arith)
