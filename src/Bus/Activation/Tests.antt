-- ===== src/Bus/Activation/Tests.antt =====
-- Runs of src/bus/activation.c.
use dbus_broker.Common.{true, none, [], ◌≡◌, refl, arith}
use dbus_broker.Util.User.{User, user_new}
use dbus_broker.Util.User.Balance.Ledger.{Books}
use dbus_broker.Util.User.Release.{user_new-Books}
use dbus_broker.Bus.Activation.{
  Activation, activation_null, activation_request, activation_queue_message,
  activation_queue_request, activation_deinit,
}
use dbus_broker.Bus.Activation.Accounting.{QueueBooks, activation-Books}

abbrev owner : User
owner = user_new 1 4 (λ s. 1000)

abbrev idle : Activation
idle = activation_null 6

-- The controller is asked once.
asked_once : (activation_request true (activation_request true idle).0).0.activation_ids ≡ 7
unfolding activation_request
asked_once = refl

activation-Books_example :
    QueueBooks [] (activation_queue_message true true true none true 200 1 idle owner 2 9)
    × QueueBooks [] (activation_queue_request true true true none 64 idle owner 2 9 5)
    × Books (activation_deinit idle owner).1 []
unfolding user_new
activation-Books_example =
    activation-Books true true true true none idle owner 2 9 200 1 64 5 [] (omega arith)
      (user_new-Books 1 4 (λ s. 1000) (λ s. omega arith))
