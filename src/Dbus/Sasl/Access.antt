-- ===== src/Dbus/Sasl/Access.antt =====
-- Who the server of src/dbus/sasl.c lets in, and what a dispatch can answer.
use dbus_broker.Common.{
  ℕ, Bytes, codes, bytes_eq_sound, Bool, true, false, ◌⊎◌, inl, inr, List, [], ◌∷◌, ◌≡◌, refl,
  arith, ◌++◌, Bool-cases, ap,
}
use mathlib.Core.Path.{subst}
use dbus_broker.Util.Hex.{string_to_hex}
use dbus_broker.Util.Decimal.{decimal}
use dbus_broker.Dbus.Sasl.Line.{sasl_split}
use dbus_broker.Dbus.Sasl.Server.{
  ServerState, init, done, auth, challenge, authenticated, negotiated_fds, SaslServer,
  sasl_server_init, credentials_fit, sasl_server_handle_data, sasl_server_handle_auth,
  dispatch_auth, dispatch_init, dispatch_challenge, dispatch_authenticated, dispatch_state,
  sasl_server_dispatch, serve, reply,
}

abbrev pub is_accepted : ServerState → Bool
is_accepted init = false
is_accepted auth = false
is_accepted challenge = false
is_accepted authenticated = true
is_accepted negotiated_fds = true
is_accepted done = true

-- The hex encoding of the decimal digits of the user ID.
abbrev pub identity : ℕ → Bytes
identity uid = string_to_hex (decimal uid)

-- `AUTH EXTERNAL` with the identity.
abbrev pub AuthLine : ℕ → Bytes → Bytes → Type 0
AuthLine uid cmd arg = (cmd ≡ codes "AUTH") × (sasl_split arg ≡ (codes "EXTERNAL", identity uid))

-- The first line has a zero byte in front.
abbrev pub InitLine : ℕ → Bytes → Bytes → Type 0
InitLine uid [] arg = ⊥
InitLine uid (c ∷ cmd) arg = (c ≡ 0) × AuthLine uid cmd arg

-- `DATA`, with the identity or without.
abbrev pub DataLine : ℕ → Bytes → Bytes → Type 0
DataLine uid cmd arg = (cmd ≡ codes "DATA") × ((arg ≡ []) ⊎ (arg ≡ identity uid))

-- The credentials that a state asks for.
abbrev pub Credentials : ℕ → ServerState → Bytes × Bytes → Type 0
Credentials uid init (cmd, arg) = InitLine uid cmd arg
Credentials uid auth (cmd, arg) = AuthLine uid cmd arg
Credentials uid challenge (cmd, arg) = DataLine uid cmd arg
Credentials uid authenticated l = ⊥
Credentials uid negotiated_fds l = ⊥
Credentials uid done l = ⊥

module _ (s : SaslServer) where
  handle_data_accepts :
      (arg : Bytes)
      → is_accepted (sasl_server_handle_data s arg).0.state ≡ true
      → ((arg ≡ []) ⊎ (arg ≡ identity s.uid))
        × ((sasl_server_handle_data s arg).1 ≡ reply s.ok_response)
  unfolding sasl_server_handle_data credentials_fit
  handle_data_accepts [] h = (inl refl, refl)
  handle_data_accepts (c ∷ arg) h =
      (inr (bytes_eq_sound (c ∷ arg) (identity s.uid) (ground arith)), ground arith)

  handle_auth_accepts :
      (arg : Bytes)
      → is_accepted (sasl_server_handle_auth s arg).0.state ≡ true
      → (sasl_split arg ≡ (codes "EXTERNAL", identity s.uid))
        × ((sasl_server_handle_auth s arg).1 ≡ reply s.ok_response)
  unfolding sasl_server_handle_auth
  handle_auth_accepts arg h = ground (
    arith,
    bytes_eq_sound (sasl_split arg).0 (codes "EXTERNAL"),
    handle_data_accepts (sasl_split arg).1,
  )

  dispatch_auth_accepts :
      (cmd arg : Bytes)
      → is_accepted s.state ≡ false
      → is_accepted (dispatch_auth s cmd arg).0.state ≡ true
      → AuthLine s.uid cmd arg × ((dispatch_auth s cmd arg).1 ≡ reply s.ok_response)
  unfolding dispatch_auth
  dispatch_auth_accepts cmd arg n h =
      ground (arith, bytes_eq_sound cmd (codes "AUTH"), handle_auth_accepts arg)

  dispatch_init_accepts :
      (cmd arg : Bytes)
      → is_accepted s.state ≡ false
      → is_accepted (dispatch_init s cmd arg).0.state ≡ true
      → InitLine s.uid cmd arg × ((dispatch_init s cmd arg).1 ≡ reply s.ok_response)
  unfolding dispatch_init
  dispatch_init_accepts [] arg n h = cc
  dispatch_init_accepts (c ∷ cmd) arg n h = ground (arith, dispatch_auth_accepts cmd arg n)

  dispatch_challenge_accepts :
      (cmd arg : Bytes)
      → is_accepted s.state ≡ false
      → is_accepted (dispatch_challenge s cmd arg).0.state ≡ true
      → DataLine s.uid cmd arg × ((dispatch_challenge s cmd arg).1 ≡ reply s.ok_response)
  unfolding dispatch_challenge
  dispatch_challenge_accepts cmd arg n h =
      ground (arith, bytes_eq_sound cmd (codes "DATA"), handle_data_accepts arg)

  dispatch_state_accepts :
      (st : ServerState) (cmd arg : Bytes)
      → s.state ≡ st
      → is_accepted st ≡ false
      → is_accepted (dispatch_state st s cmd arg).0.state ≡ true
      → Credentials s.uid st (cmd, arg) × ((dispatch_state st s cmd arg).1 ≡ reply s.ok_response)
  unfolding dispatch_state
  dispatch_state_accepts init cmd arg e n h = dispatch_init_accepts cmd arg (rw e) h
  dispatch_state_accepts auth cmd arg e n h = dispatch_auth_accepts cmd arg (rw e) h
  dispatch_state_accepts challenge cmd arg e n h = dispatch_challenge_accepts cmd arg (rw e) h
  dispatch_state_accepts authenticated cmd arg e n h = absurd (cc)
  dispatch_state_accepts negotiated_fds cmd arg e n h = absurd (cc)
  dispatch_state_accepts done cmd arg e n h = absurd (cc)

-- From a state that is not accepted, one line leads to an accepted state only if it carries the
-- credentials that the state asks for, and the answer is then the OK response.
pub dispatch_accepts :
    (s : SaslServer) (line : Bytes)
    → is_accepted s.state ≡ false
    → is_accepted (sasl_server_dispatch s line).0.state ≡ true
    → Credentials s.uid s.state (sasl_split line)
      × ((sasl_server_dispatch s line).1 ≡ reply s.ok_response)
unfolding sasl_server_dispatch
dispatch_accepts s line n h =
    dispatch_state_accepts s s.state (sasl_split line).0 (sasl_split line).1 refl n h

handle_auth-uid : (s : SaslServer) (arg : Bytes) → (sasl_server_handle_auth s arg).0.uid ≡ s.uid
unfolding sasl_server_handle_auth sasl_server_handle_data
handle_auth-uid s arg = ground arith

dispatch_auth-uid : (s : SaslServer) (cmd arg : Bytes) → (dispatch_auth s cmd arg).0.uid ≡ s.uid
unfolding dispatch_auth
dispatch_auth-uid s cmd arg = ground (arith, handle_auth-uid s arg)

dispatch_state-uid :
    (st : ServerState) (s : SaslServer) (cmd arg : Bytes)
    → (dispatch_state st s cmd arg).0.uid ≡ s.uid
unfolding dispatch_state dispatch_init dispatch_challenge dispatch_authenticated
    sasl_server_handle_data
dispatch_state-uid init s [] arg = refl
dispatch_state-uid init s (c ∷ cmd) arg = ground (arith, dispatch_auth-uid s cmd arg)
dispatch_state-uid auth s cmd arg = dispatch_auth-uid s cmd arg
dispatch_state-uid challenge s cmd arg = ground arith
dispatch_state-uid authenticated s cmd arg = ground arith
dispatch_state-uid negotiated_fds s cmd arg = ground arith
dispatch_state-uid done s cmd arg = refl

pub dispatch-uid : (s : SaslServer) (line : Bytes) → (sasl_server_dispatch s line).0.uid ≡ s.uid
unfolding sasl_server_dispatch
dispatch-uid s line = dispatch_state-uid s.state s (sasl_split line).0 (sasl_split line).1

-- A line of the sequence, which found the server in the state that the lines before it had led to,
-- carried the credentials that this state asks for.
abbrev pub Authenticated : SaslServer → List Bytes → Type 0
Authenticated s lines =
    (before : List Bytes) × (line : Bytes) × (after : List Bytes) × (lines ≡ before ++ line ∷ after)
    × Credentials s.uid (serve s before).0.state (sasl_split line)

serve_accepts :
    (s : SaslServer) (lines : List Bytes)
    → is_accepted s.state ≡ false
    → is_accepted (serve s lines).0.state ≡ true
    → Authenticated s lines
unfolding serve
serve_accepts s [] n h = absurd (cc)
serve_accepts s (line ∷ lines) n h =
    let next = (sasl_server_dispatch s line).0 in
    elim (Bool-cases (is_accepted next.state)) [
      | inl now ↦ ([], line, lines, refl, (dispatch_accepts s line n now).0)
      | inr later ↦
          let (before, l, after, e, c) = serve_accepts next lines later h in
          (
            line ∷ before,
            l,
            after,
            ap (λ ls. line ∷ ls) e,
            subst (λ u. Credentials u (serve next before).0.state (sasl_split l))
                (dispatch-uid s line) c,
          )
    ]

-- However many lines a client sends, the server ends in a state where the client is authenticated only
-- if one of the lines was what the server asked for when it came: AUTH EXTERNAL with the hex encoding
-- of the decimal user ID that the server was set up with (behind a zero byte, if it is the first line),
-- or, in reply to the server's challenge, DATA with that encoding or with nothing.
pub access_needs_credentials :
    (uid : ℕ) (guid : Bytes) (lines : List Bytes)
    → is_accepted (serve (sasl_server_init uid guid) lines).0.state ≡ true
    → Authenticated (sasl_server_init uid guid) lines
access_needs_credentials uid guid lines h =
    serve_accepts (sasl_server_init uid guid) lines (unfold sasl_server_init in refl) h
