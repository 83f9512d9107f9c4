-- ===== src/Dbus/Sasl/Client.antt =====
-- The client of src/dbus/sasl.c. No input (a null pointer) is `none`.
use dbus_broker.Common.{
  Bytes, codes, bytes_eq, Bool, Option, none, some, [], ◌∷◌, ◌++◌, ◌==◌, if◌then◌else◌, is_nil,
  length, not,
}
use dbus_broker.Dbus.Sasl.Line.{
  Outcome, output, failure, protocol_violation, not_recoverable, sasl_split,
}

pub data ClientState : Type 0 where
  init done auth data_state unix_fd : ClientState

abbrev crlf : Bytes
crlf = 13 ∷ 10 ∷ []

abbrev pub request : Bytes
request =
    0 ∷ codes "AUTH EXTERNAL"
    ++ (crlf ++ (codes "DATA" ++ (crlf ++ (codes "NEGOTIATE_UNIX_FD" ++ (crlf ++ codes "BEGIN")))))

-- The client waits for one answer of a fixed form; `fits` is the test on its argument.
unfoldable pub expect :
    ClientState → ClientState → Bytes → (Bytes → Bool) → Bytes × Bytes → ClientState × Outcome
expect here next word fits (cmd, arg) =
    if not (bytes_eq cmd word)
    then (here, failure)
    else if not (fits arg)
    then (here, protocol_violation)
    else (next, output none)

unfoldable pub sasl_client_dispatch : ClientState → Option Bytes → ClientState × Outcome
unfolding expect
sasl_client_dispatch init none = (auth, output (some request))
sasl_client_dispatch init (some input) = (init, protocol_violation)
sasl_client_dispatch auth none = (auth, output none)
sasl_client_dispatch auth (some input) =
    expect auth data_state (codes "DATA") is_nil (sasl_split input)
sasl_client_dispatch data_state none = (data_state, output none)
sasl_client_dispatch data_state (some input) =
    expect data_state unix_fd (codes "OK") (λ arg. length arg == 32) (sasl_split input)
sasl_client_dispatch unix_fd none = (unix_fd, output none)
sasl_client_dispatch unix_fd (some input) =
    expect unix_fd done (codes "AGREE_UNIX_FD") is_nil (sasl_split input)
sasl_client_dispatch done input = (done, not_recoverable)
