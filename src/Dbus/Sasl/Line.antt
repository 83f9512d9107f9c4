-- ===== src/Dbus/Sasl/Line.antt =====
-- What both ends of the exchange of src/dbus/sasl.c share: the split of a line and the outcomes.
use dbus_broker.Common.{Bytes, Option, [], ◌∷◌, ◌==◌, if◌then◌else◌}

-- 0, SASL_E_FAILURE, SASL_E_PROTOCOL_VIOLATION and -ENOTRECOVERABLE. A successful dispatch has an
-- output, or none.
pub data Outcome : Type 0 where
  output : Option Bytes → Outcome
  failure : Outcome
  protocol_violation : Outcome
  not_recoverable : Outcome

unfoldable pub skip_blanks : Bytes → Bytes
skip_blanks [] = []
skip_blanks (c ∷ s) = let more = skip_blanks s in if c == b' ' then more else c ∷ s

-- The command in front of the first blank, and the argument behind the blanks; an argument that is
-- missing is empty, as its length 0 says in the source.
unfoldable pub sasl_split : Bytes → Bytes × Bytes
unfolding skip_blanks
sasl_split [] = ([], [])
sasl_split (c ∷ s) =
    let (cmd, arg) = sasl_split s in if c == b' ' then ([], skip_blanks s) else (c ∷ cmd, arg)
