-- ===== src/Dbus/Sasl/Outcomes.antt =====
-- The answers of the server of src/dbus/sasl.c, and when file descriptors may be passed.
use dbus_broker.Common.{
  ℕ, Bytes, codes, true, false, List, [], ◌∷◌, ◌≡◌, ◌≢◌, refl, arith, bytes_eq_sound, none, some,
  inl, inr,
}
use dbus_broker.Dbus.Sasl.Line.{
  Outcome, output, failure, protocol_violation, not_recoverable, sasl_split,
}
use dbus_broker.Dbus.Sasl.Server.{
  ServerState, init, done, auth, challenge, authenticated, negotiated_fds, SaslServer,
  sasl_server_init, sasl_server_handle_data, sasl_server_handle_auth, dispatch_auth, dispatch_init,
  dispatch_challenge, dispatch_authenticated, dispatch_state, sasl_server_dispatch, serve, reply,
}
use dbus_broker.Dbus.Sasl.Access.{is_accepted}
use dbus_broker.Dbus.Sasl.Descriptors.{FdsNegotiated, AllowsAccepted, serve_gained, serve_given}

-- After any lines from a client, the exchange being done or not, descriptors are allowed exactly if one
-- of the lines was NEGOTIATE_UNIX_FD, without an argument and from a client that was accepted and had
-- not begun, and the client has stayed accepted since.
pub fds_only_if_negotiated :
    (uid : ℕ) (guid : Bytes) (lines : List Bytes)
    → let start = sasl_server_init uid guid in
      ((serve start lines).0.fds_allowed ≡ true → FdsNegotiated start lines)
      × (FdsNegotiated start lines → (serve start lines).0.fds_allowed ≡ true)
fds_only_if_negotiated uid guid lines =
    let start = sasl_server_init uid guid in
    let fresh : start.fds_allowed ≡ false = unfold sasl_server_init in refl in
    let none_yet : AllowsAccepted start = λ h. absurd (ground arith) in
    (
      λ h. elim (serve_gained start lines none_yet h) [
        | inl (before, stays) ↦ absurd (ground arith)
        | inr n ↦ n
      ],
      λ n. serve_given start lines none_yet n,
    )

-- How a dispatch may answer, with the server that it leaves.
pub data Answers (s : SaslServer) : SaslServer × Outcome → Type 0 where
  with_output : (t : SaslServer) (text : Bytes) → s.state ≢ done → Answers s (t, output (some text))
  begun :
      is_accepted s.state ≡ true
      → s.state ≢ done
      → Answers s (record s { state = done }, output none)
  violated : is_accepted s.state ≡ false → Answers s (s, protocol_violation)
  finished : s.state ≡ done → Answers s (s, not_recoverable)

module _ (s : SaslServer) where
  -- What a function called by the dispatch does on its branches.
  abbrev Violates : SaslServer × Outcome → Type 0
  Violates (t, o) =
      (o ≢ failure)
      × (o ≢ not_recoverable)
      × (o ≡ protocol_violation → (is_accepted s.state ≡ false) × (t ≡ s))
      × (o ≡ output none → (is_accepted s.state ≡ true) × (t ≡ record s { state = done }))

  Violates-Answers : (p : SaslServer × Outcome) → s.state ≢ done → Violates p → Answers s p
  Violates-Answers (t, output (some text)) n v = with_output t text n
  Violates-Answers (t, output none) n v = rw (v.3 refl).1 (begun (v.3 refl).0 n)
  Violates-Answers (t, failure) n v = absurd (v.0 refl)
  Violates-Answers (t, protocol_violation) n v = rw (v.2 refl).1 (violated (v.2 refl).0)
  Violates-Answers (t, not_recoverable) n v = absurd (v.1 refl)

  handle_auth-Violates : (arg : Bytes) → Violates (sasl_server_handle_auth s arg)
  unfolding sasl_server_handle_auth sasl_server_handle_data
  handle_auth-Violates arg = ground arith

  dispatch_auth-Violates :
      (cmd arg : Bytes) → is_accepted s.state ≡ false → Violates (dispatch_auth s cmd arg)
  unfolding dispatch_auth
  dispatch_auth-Violates cmd arg a = ground (arith, handle_auth-Violates arg)

  dispatch_init-Violates :
      (cmd arg : Bytes) → is_accepted s.state ≡ false → Violates (dispatch_init s cmd arg)
  unfolding dispatch_init
  dispatch_init-Violates [] arg a = ground arith
  dispatch_init-Violates (c ∷ cmd) arg a = ground (arith, dispatch_auth-Violates cmd arg a)

  dispatch_challenge-Violates :
      (cmd arg : Bytes) → is_accepted s.state ≡ false → Violates (dispatch_challenge s cmd arg)
  unfolding dispatch_challenge sasl_server_handle_data
  dispatch_challenge-Violates cmd arg a = ground arith

  dispatch_authenticated-Violates :
      (cmd arg : Bytes) → is_accepted s.state ≡ true → Violates (dispatch_authenticated s cmd arg)
  unfolding dispatch_authenticated
  dispatch_authenticated-Violates cmd arg a = ground arith

  dispatch_state-Answers :
      (st : ServerState) (cmd arg : Bytes) → s.state ≡ st → Answers s (dispatch_state st s cmd arg)
  unfolding dispatch_state
  dispatch_state-Answers init cmd arg e =
      Violates-Answers _ (λ d. cc) (dispatch_init-Violates cmd arg (rw e))
  dispatch_state-Answers auth cmd arg e =
      Violates-Answers _ (λ d. cc) (dispatch_auth-Violates cmd arg (rw e))
  dispatch_state-Answers challenge cmd arg e =
      Violates-Answers _ (λ d. cc) (dispatch_challenge-Violates cmd arg (rw e))
  dispatch_state-Answers authenticated cmd arg e =
      Violates-Answers _ (λ d. cc) (dispatch_authenticated-Violates cmd arg (rw e refl))
  dispatch_state-Answers negotiated_fds cmd arg e =
      Violates-Answers _ (λ d. cc) (dispatch_authenticated-Violates cmd arg (rw e refl))
  dispatch_state-Answers done cmd arg e = finished e

-- A dispatch never reports the client's failure code. It is a protocol violation only before the
-- client is accepted, it cannot go on exactly when the exchange is done, and both leave the server
-- unchanged. It succeeds without a text to send only when an accepted client's exchange becomes done,
-- which changes nothing else of the server; any other dispatch has a text to send.
pub dispatch-Answers : (s : SaslServer) (line : Bytes) → Answers s (sasl_server_dispatch s line)
unfolding sasl_server_dispatch
dispatch-Answers s line =
    dispatch_state-Answers s s.state (sasl_split line).0 (sasl_split line).1 refl

-- A first line with a command that is neither AUTH, ERROR nor BEGIN is answered by ERROR, and leaves
-- the server where it was. There it takes no line without a leading zero byte: the next line is a
-- protocol violation if it does not begin with another zero byte.
pub unknown_first_command :
    (s : SaslServer) (cmd : Bytes) (c : ℕ) (line : Bytes)
    → s.state ≡ init
    → (sasl_split cmd).0 ≢ codes "AUTH"
    → (sasl_split cmd).0 ≢ codes "ERROR"
    → (sasl_split cmd).0 ≢ codes "BEGIN"
    → c ≢ 0
    → (serve s ((0 ∷ cmd) ∷ (c ∷ line) ∷ [])) ≡ (s, reply (codes "ERROR") ∷ protocol_violation ∷ [])
unfolding serve sasl_server_dispatch dispatch_state dispatch_init dispatch_auth sasl_split
unknown_first_command s cmd c line e a r b z = ground (
  arith,
  bytes_eq_sound (sasl_split cmd).0 (codes "AUTH"),
  bytes_eq_sound (sasl_split cmd).0 (codes "ERROR"),
  bytes_eq_sound (sasl_split cmd).0 (codes "BEGIN"),
)
