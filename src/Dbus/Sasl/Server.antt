-- ===== src/Dbus/Sasl/Server.antt =====
-- The server of src/dbus/sasl.c.
use dbus_broker.Common.{
  ℕ, Bytes, codes, bytes_eq, Bool, true, false, ◌&&◌, ◌||◌, none, some, [], ◌∷◌, ◌++◌, ◌==◌,
  if◌then◌else◌, is_nil, List,
}
use dbus_broker.Util.Decimal.{decimal}
use dbus_broker.Util.Hex.{string_to_hex}
use dbus_broker.Dbus.Sasl.Line.{Outcome, output, protocol_violation, not_recoverable, sasl_split}

pub data ServerState : Type 0 where
  init done auth challenge authenticated negotiated_fds : ServerState

pub record SaslServer : Type 0 where
  pub state : ServerState
  pub fds_allowed : Bool
  pub uid : ℕ
  pub ok_response : Bytes

unfoldable pub sasl_server_init : ℕ → Bytes → SaslServer
sasl_server_init uid guid = record {
  state = init;
  fds_allowed = false;
  uid = uid;
  ok_response = codes "OK " ++ string_to_hex guid;
}

abbrev pub rejected : Outcome
rejected = output (some (codes "REJECTED EXTERNAL"))

abbrev pub reply : Bytes → Outcome
reply s = output (some s)

-- An omitted identity is deduced from the socket; another one is compared with the hex encoding of
-- the decimal user ID.
unfoldable pub credentials_fit : ℕ → Bytes → Bool
unfolding bytes_eq
credentials_fit uid input = is_nil input || bytes_eq input (string_to_hex (decimal uid))

unfoldable pub sasl_server_handle_data : SaslServer → Bytes → SaslServer × Outcome
sasl_server_handle_data sasl input =
    if credentials_fit sasl.uid input
    then (record sasl { state = authenticated }, reply sasl.ok_response)
    else (record sasl { state = auth }, rejected)

unfoldable pub sasl_server_handle_auth : SaslServer → Bytes → SaslServer × Outcome
sasl_server_handle_auth sasl input =
    let (protocol, arg) = sasl_split input in
    if bytes_eq protocol (codes "EXTERNAL")
    then (if is_nil arg
        then (record sasl { state = challenge }, reply (codes "DATA"))
        else sasl_server_handle_data sasl arg)
    else (record sasl { state = auth }, rejected)

-- The code under SASL_SERVER_STATE_AUTH, which SASL_SERVER_STATE_INIT falls through to.
unfoldable pub dispatch_auth : SaslServer → Bytes → Bytes → SaslServer × Outcome
dispatch_auth sasl cmd arg =
    if bytes_eq cmd (codes "AUTH")
    then sasl_server_handle_auth sasl arg
    else if bytes_eq cmd (codes "ERROR")
    then (record sasl { state = auth }, rejected)
    else if bytes_eq cmd (codes "BEGIN") && is_nil arg
    then (sasl, protocol_violation)
    else (sasl, reply (codes "ERROR"))

-- The first byte has to be zero.
unfoldable pub dispatch_init : SaslServer → Bytes → Bytes → SaslServer × Outcome
dispatch_init sasl [] arg = (sasl, protocol_violation)
dispatch_init sasl (c ∷ cmd) arg =
    if c == 0 then dispatch_auth sasl cmd arg else (sasl, protocol_violation)

unfoldable pub is_error_or_cancel : Bytes → Bytes → Bool
is_error_or_cancel cmd arg =
    bytes_eq cmd (codes "ERROR") || (bytes_eq cmd (codes "CANCEL") && is_nil arg)

unfoldable pub dispatch_challenge : SaslServer → Bytes → Bytes → SaslServer × Outcome
dispatch_challenge sasl cmd arg =
    if bytes_eq cmd (codes "DATA")
    then sasl_server_handle_data sasl arg
    else if is_error_or_cancel cmd arg
    then (record sasl { state = auth }, rejected)
    else if bytes_eq cmd (codes "BEGIN") && is_nil arg
    then (sasl, protocol_violation)
    else (sasl, reply (codes "ERROR"))

unfoldable pub dispatch_authenticated : SaslServer → Bytes → Bytes → SaslServer × Outcome
dispatch_authenticated sasl cmd arg =
    if bytes_eq cmd (codes "NEGOTIATE_UNIX_FD") && is_nil arg
    then (record sasl { state = negotiated_fds; fds_allowed = true }, reply (codes "AGREE_UNIX_FD"))
    else if bytes_eq cmd (codes "BEGIN") && is_nil arg
    then (record sasl { state = done }, output none)
    else if is_error_or_cancel cmd arg
    then (record sasl { state = auth; fds_allowed = false }, rejected)
    else (sasl, reply (codes "ERROR"))

unfoldable pub dispatch_state : ServerState → SaslServer → Bytes → Bytes → SaslServer × Outcome
dispatch_state init sasl cmd arg = dispatch_init sasl cmd arg
dispatch_state auth sasl cmd arg = dispatch_auth sasl cmd arg
dispatch_state challenge sasl cmd arg = dispatch_challenge sasl cmd arg
dispatch_state authenticated sasl cmd arg = dispatch_authenticated sasl cmd arg
dispatch_state negotiated_fds sasl cmd arg = dispatch_authenticated sasl cmd arg
dispatch_state done sasl cmd arg = (sasl, not_recoverable)

unfoldable pub sasl_server_dispatch : SaslServer → Bytes → SaslServer × Outcome
unfolding dispatch_state
sasl_server_dispatch sasl input =
    let (cmd, arg) = sasl_split input in dispatch_state sasl.state sasl cmd arg

-- The state and the outcomes after a sequence of lines.
unfoldable pub serve : SaslServer → List Bytes → SaslServer × List Outcome
serve sasl [] = (sasl, [])
serve sasl (line ∷ lines) =
    let (next, o) = sasl_server_dispatch sasl line in
    let (last, os) = serve next lines in (last, o ∷ os)
