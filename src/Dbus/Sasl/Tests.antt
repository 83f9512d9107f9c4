-- ===== src/Dbus/Sasl/Tests.antt =====
-- Runs of the exchange of src/dbus/sasl.c.
use dbus_broker.Common.{
  bytes_eq, bytes_eq_iff, ◌≡◌, ◌≢◌, refl, codes, none, true, false, [], ◌∷◌, arith, Bytes, some,
}
use dbus_broker.Util.Decimal.{decimal}
use dbus_broker.Dbus.Sasl.Line.{sasl_split, output}
use dbus_broker.Dbus.Sasl.Server.{
  ServerState, SaslServer, init, done, auth, challenge, authenticated, sasl_server_init,
  sasl_server_dispatch, serve, reply,
}
use dbus_broker.Dbus.Sasl.Client
use dbus_broker.Dbus.Sasl.Server
use dbus_broker.Util.Hex.{string_to_hex, hex_digit}
use dbus_broker.Dbus.Sasl.Access.{
  is_accepted, Credentials, Authenticated, dispatch_accepts, access_needs_credentials,
}
use dbus_broker.Dbus.Sasl.Outcomes.{Answers, fds_only_if_negotiated, dispatch-Answers}
use dbus_broker.Dbus.Sasl.Descriptors.{FdsNegotiated}
use dbus_broker.Dbus.Sasl.Exchange.{joined, request_lines, sent, receive, exchange_completes}

abbrev guid : Bytes
guid = codes "0123456789abcdef"

abbrev waiting : SaslServer
waiting = record { state = auth; fds_allowed = false; uid = 1000; ok_response = codes "OK 00" }

abbrev login : Bytes
login = codes "AUTH EXTERNAL 31303030"

login_accepted : is_accepted (sasl_server_dispatch waiting login).0.state ≡ true
unfolding sasl_server_dispatch decimal Server.dispatch_auth bytes_eq sasl_split
    Server.sasl_server_handle_auth Server.sasl_server_handle_data Server.credentials_fit
    string_to_hex hex_digit
login_accepted = refl

dispatch_accepts_example :
    Credentials 1000 auth (sasl_split login)
    × ((sasl_server_dispatch waiting login).1 ≡ reply (codes "OK 00"))
dispatch_accepts_example = dispatch_accepts waiting login refl login_accepted

lines_accepted : is_accepted (serve (sasl_server_init 1000 guid) ((0 ∷ login) ∷ [])).0.state ≡ true
unfolding serve sasl_server_init sasl_server_dispatch decimal Server.dispatch_init
    Server.dispatch_auth bytes_eq sasl_split Server.sasl_server_handle_auth
    Server.sasl_server_handle_data Server.credentials_fit string_to_hex hex_digit
lines_accepted = refl

access_needs_credentials_example : Authenticated (sasl_server_init 1000 guid) ((0 ∷ login) ∷ [])
access_needs_credentials_example =
    access_needs_credentials 1000 guid ((0 ∷ login) ∷ []) lines_accepted

fds_only_if_negotiated_example :
    let start = sasl_server_init 1000 guid in
    let lines = (0 ∷ login) ∷ codes "NEGOTIATE_UNIX_FD" ∷ codes "BEGIN" ∷ [] in
    ((serve start lines).0.fds_allowed ≡ true → FdsNegotiated start lines)
    × (FdsNegotiated start lines → (serve start lines).0.fds_allowed ≡ true)
fds_only_if_negotiated_example =
    fds_only_if_negotiated 1000 guid ((0 ∷ login) ∷ codes "NEGOTIATE_UNIX_FD" ∷ codes "BEGIN" ∷ [])

dispatch-Answers_example : Answers waiting (sasl_server_dispatch waiting login)
dispatch-Answers_example = dispatch-Answers waiting login

differ : (a b : Bytes) → bytes_eq a b ≡ false → a ≢ b
differ a b h e = let same = (bytes_eq_iff a b).1 e in ground arith

abbrev fresh : SaslServer
fresh = record waiting { state = init }

exchange_completes_example :
    let (server, answers) = serve (sasl_server_init 1000 guid) request_lines in
    ((Client.sasl_client_dispatch Client.init none).1 ≡ output (some (joined request_lines)))
    × (server.state ≡ ServerState.done)
    × (server.fds_allowed ≡ true)
    × (receive (Client.sasl_client_dispatch Client.init none).0 (sent answers) ≡ Client.done)
exchange_completes_example = exchange_completes 1000 guid refl
