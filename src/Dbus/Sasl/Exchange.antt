-- ===== src/Dbus/Sasl/Exchange.antt =====
-- A whole exchange between the client and the server of src/dbus/sasl.c.
use dbus_broker.Common.{
  ℕ, Bytes, codes, bytes_eq, true, none, some, List, [], ◌∷◌, ◌≡◌, refl, arith, ◌++◌, length, ap,
}
use dbus_broker.Util.Hex.{string_to_hex, length-string_to_hex, hex_digit-not_blank}
use dbus_broker.Dbus.Sasl.Line.{
  Outcome, output, failure, protocol_violation, not_recoverable, sasl_split,
}
use dbus_broker.Dbus.Sasl.Server.{
  ServerState, sasl_server_init, sasl_server_dispatch, serve, reply, dispatch_init, dispatch_auth,
  dispatch_challenge, dispatch_authenticated, sasl_server_handle_auth, sasl_server_handle_data,
  credentials_fit,
}
use dbus_broker.Dbus.Sasl.Client.{
  ClientState, init, done, data_state, unix_fd, sasl_client_dispatch, auth,
}

-- The lines of the client's request.
abbrev pub request_lines : List Bytes
request_lines =
    (0 ∷ codes "AUTH EXTERNAL") ∷ codes "DATA" ∷ codes "NEGOTIATE_UNIX_FD" ∷ codes "BEGIN" ∷ []

-- The lines as they are sent, each but the last one with its end.
abbrev pub joined : List Bytes → Bytes
joined [] = []
joined (line ∷ []) = line
joined (line ∷ lines) = line ++ 13 ∷ 10 ∷ joined lines

-- The server takes the four lines, whatever the user ID.
serve_request :
    (uid : ℕ) (guid : Bytes)
    → serve (sasl_server_init uid guid) request_lines ≡ (
      record (sasl_server_init uid guid) { state = ServerState.done; fds_allowed = true },
      reply (codes "DATA")
          ∷ reply (codes "OK " ++ string_to_hex guid)
          ∷ reply (codes "AGREE_UNIX_FD")
          ∷ output none
          ∷ [],
    )
unfolding serve sasl_server_dispatch sasl_server_init dispatch_init dispatch_auth dispatch_challenge
    dispatch_authenticated sasl_server_handle_auth sasl_server_handle_data sasl_split
    credentials_fit bytes_eq
serve_request uid guid = refl

-- The texts that the server sent.
abbrev pub sent : List Outcome → List Bytes
sent [] = []
sent (output (some s) ∷ os) = s ∷ sent os
sent (output none ∷ os) = sent os
sent (failure ∷ os) = sent os
sent (protocol_violation ∷ os) = sent os
sent (not_recoverable ∷ os) = sent os

-- The client's state after a sequence of inputs.
unfoldable pub receive : ClientState → List Bytes → ClientState
receive st [] = st
receive st (line ∷ lines) = receive (sasl_client_dispatch st (some line)).0 lines

sasl_split-ok :
    (guid : Bytes)
    → sasl_split (codes "OK " ++ string_to_hex guid) ≡ (codes "OK", string_to_hex guid)
unfolding sasl_split string_to_hex
sasl_split-ok [] = refl
sasl_split-ok (c ∷ guid) = rw (hex_digit-not_blank c)

receive_ok :
    (guid : Bytes)
    → length guid ≡ 16
    → sasl_client_dispatch data_state (some (codes "OK " ++ string_to_hex guid))
      ≡ (unix_fd, output none)
unfolding sasl_client_dispatch bytes_eq
receive_ok guid h =
    rw (sasl_split-ok guid)
      (let e : length (string_to_hex guid) ≡ 32 = omega (arith, length-string_to_hex guid) in rw e)

receive_answers :
    (guid : Bytes)
    → length guid ≡ 16
    → receive auth (codes "DATA" ∷ (codes "OK " ++ string_to_hex guid) ∷ codes "AGREE_UNIX_FD" ∷ [])
      ≡ done
unfolding receive
receive_answers guid h =
    let ok =
      ap (λ (p : ClientState × Outcome). receive p.0 (codes "AGREE_UNIX_FD" ∷ []))
        (receive_ok guid h) in
    unfold sasl_client_dispatch sasl_split bytes_eq in ok

-- What the client sends first, ahead of any answer, is four lines. They complete the exchange on both
-- ends for every user ID and every GUID of 16 bytes: the server ends done, with descriptors allowed,
-- and its answers take the client from the state after its request to its last one.
pub exchange_completes :
    (uid : ℕ) (guid : Bytes)
    → length guid ≡ 16
    → let (server, answers) = serve (sasl_server_init uid guid) request_lines in
      ((sasl_client_dispatch init none).1 ≡ output (some (joined request_lines)))
      × (server.state ≡ ServerState.done)
      × (server.fds_allowed ≡ true)
      × (receive (sasl_client_dispatch init none).0 (sent answers) ≡ done)
exchange_completes uid guid h = rw (serve_request uid guid) (
  unfold sasl_client_dispatch in refl,
  refl,
  refl,
  unfold sasl_client_dispatch in receive_answers guid h,
)
