-- ===== src/Dbus/Sasl/Descriptors.antt =====
-- When the server of src/dbus/sasl.c allows file descriptors: one line at a time, and a sequence.
use dbus_broker.Common.{
  Bytes, codes, Bool, true, false, List, [], ◌∷◌, ◌≡◌, refl, arith, bytes_eq_sound, ◌&&◌, bytes_eq,
  is_nil, ◌⊎◌, inl, inr, sym, ◌∙◌, Bool-cases,
}
use dbus_broker.Dbus.Sasl.Line.{sasl_split}
use dbus_broker.Dbus.Sasl.Server.{
  ServerState, init, done, auth, challenge, authenticated, negotiated_fds, SaslServer,
  sasl_server_handle_data, sasl_server_handle_auth, dispatch_auth, dispatch_init,
  dispatch_challenge, dispatch_authenticated, dispatch_state, sasl_server_dispatch, serve,
}
use dbus_broker.Dbus.Sasl.Access.{is_accepted}

-- The states in which descriptors can be negotiated.
abbrev pub takes_fds : ServerState → Bool
takes_fds init = false
takes_fds auth = false
takes_fds challenge = false
takes_fds authenticated = true
takes_fds negotiated_fds = true
takes_fds done = false

-- `NEGOTIATE_UNIX_FD`, from a client that is accepted and has not begun.
abbrev pub Negotiates : ServerState → Bytes × Bytes → Type 0
Negotiates st (cmd, arg) = (takes_fds st ≡ true) × (cmd ≡ codes "NEGOTIATE_UNIX_FD") × (arg ≡ [])

-- The client is accepted, and stays so from line to line.
abbrev pub StaysAccepted : SaslServer → List Bytes → Type 0
StaysAccepted s [] = is_accepted s.state ≡ true
StaysAccepted s (line ∷ lines) =
    (is_accepted s.state ≡ true) × StaysAccepted (sasl_server_dispatch s line).0 lines

-- One of the lines negotiates descriptors, and the client stays accepted from there on.
abbrev pub FdsNegotiated : SaslServer → List Bytes → Type 0
FdsNegotiated s [] = ⊥
FdsNegotiated s (line ∷ lines) =
    let next = (sasl_server_dispatch s line).0 in
    (Negotiates s.state (sasl_split line) × StaysAccepted next lines) ⊎ FdsNegotiated next lines

-- Descriptors are allowed to accepted clients only.
abbrev pub AllowsAccepted : SaslServer → Type 0
AllowsAccepted s = s.fds_allowed ≡ true → is_accepted s.state ≡ true

-- How one line bears on the descriptors.
record FdsStep (s : SaslServer) (st : ServerState) (line : Bytes × Bytes) (t : SaslServer)
    : Type 0 where
  gained : t.fds_allowed ≡ true → (s.fds_allowed ≡ true) ⊎ Negotiates st line
  allows : AllowsAccepted t
  kept : s.fds_allowed ≡ true → is_accepted t.state ≡ true → t.fds_allowed ≡ true
  given : Negotiates st line → t.fds_allowed ≡ true

negotiates_test :
    (cmd arg : Bytes)
    → (bytes_eq cmd (codes "NEGOTIATE_UNIX_FD") && is_nil arg) ≡ true
    → (cmd ≡ codes "NEGOTIATE_UNIX_FD") × (arg ≡ [])
negotiates_test cmd [] h = (bytes_eq_sound cmd (codes "NEGOTIATE_UNIX_FD") (ground arith), refl)
negotiates_test cmd (c ∷ arg) h = absurd (ground arith)

module _ (s : SaslServer) where
  unchanged-FdsStep :
      (st : ServerState) (line : Bytes × Bytes) (t : SaslServer)
      → takes_fds st ≡ false
      → s.fds_allowed ≡ false
      → t.fds_allowed ≡ s.fds_allowed
      → FdsStep s st line t
  unchanged-FdsStep st line t n f e = record {
    gained = λ h. inl (sym e ∙ h);
    allows = λ h. absurd (ground arith);
    kept = λ h a. e ∙ h;
    given = λ g. absurd (ground (arith, g.0));
  }

  handle_auth-fds : (arg : Bytes) → (sasl_server_handle_auth s arg).0.fds_allowed ≡ s.fds_allowed
  unfolding sasl_server_handle_auth sasl_server_handle_data
  handle_auth-fds arg = ground arith

  dispatch_auth-fds : (cmd arg : Bytes) → (dispatch_auth s cmd arg).0.fds_allowed ≡ s.fds_allowed
  unfolding dispatch_auth
  dispatch_auth-fds cmd arg = ground (arith, handle_auth-fds arg)

  dispatch_init-fds : (cmd arg : Bytes) → (dispatch_init s cmd arg).0.fds_allowed ≡ s.fds_allowed
  unfolding dispatch_init
  dispatch_init-fds [] arg = refl
  dispatch_init-fds (c ∷ cmd) arg = ground (arith, dispatch_auth-fds cmd arg)

  dispatch_challenge-fds :
      (cmd arg : Bytes) → (dispatch_challenge s cmd arg).0.fds_allowed ≡ s.fds_allowed
  unfolding dispatch_challenge sasl_server_handle_data
  dispatch_challenge-fds cmd arg = ground arith

  dispatch_authenticated-FdsStep :
      (st : ServerState) (cmd arg : Bytes)
      → takes_fds st ≡ true
      → is_accepted s.state ≡ true
      → FdsStep s st (cmd, arg) (dispatch_authenticated s cmd arg).0
  unfolding dispatch_authenticated
  dispatch_authenticated-FdsStep st cmd arg takes a = record {
    gained = λ h. elim (Bool-cases (bytes_eq cmd (codes "NEGOTIATE_UNIX_FD") && is_nil arg)) [
      | inl asked ↦
          inr (takes, (negotiates_test cmd arg asked).0, (negotiates_test cmd arg asked).1)
      | inr other ↦ inl (ground arith)
    ];
    allows = λ h. ground arith;
    kept = λ h b. ground arith;
    given = λ (g0, cmd_is, arg_is). rw (cmd_is, arg_is) (unfold bytes_eq in refl);
  }

  dispatch_state-FdsStep :
      (st : ServerState) (cmd arg : Bytes)
      → s.state ≡ st
      → AllowsAccepted s
      → FdsStep s st (cmd, arg) (dispatch_state st s cmd arg).0
  unfolding dispatch_state
  dispatch_state-FdsStep init cmd arg e m =
      unchanged-FdsStep init (cmd, arg) _ refl (ground arith) (dispatch_init-fds cmd arg)
  dispatch_state-FdsStep auth cmd arg e m =
      unchanged-FdsStep auth (cmd, arg) _ refl (ground arith) (dispatch_auth-fds cmd arg)
  dispatch_state-FdsStep challenge cmd arg e m =
      unchanged-FdsStep challenge (cmd, arg) _ refl (ground arith) (dispatch_challenge-fds cmd arg)
  dispatch_state-FdsStep authenticated cmd arg e m =
      dispatch_authenticated-FdsStep authenticated cmd arg refl (rw e refl)
  dispatch_state-FdsStep negotiated_fds cmd arg e m =
      dispatch_authenticated-FdsStep negotiated_fds cmd arg refl (rw e refl)
  dispatch_state-FdsStep done cmd arg e m = record {
    gained = λ h. inl h;
    allows = m;
    kept = λ h a. h;
    given = λ g. absurd (ground (arith, g.0));
  }

  dispatch-FdsStep :
      (line : Bytes)
      → AllowsAccepted s
      → FdsStep s s.state (sasl_split line) (sasl_server_dispatch s line).0
  unfolding sasl_server_dispatch
  dispatch-FdsStep line m =
      dispatch_state-FdsStep s.state (sasl_split line).0 (sasl_split line).1 refl m

pub serve_gained :
    (s : SaslServer) (lines : List Bytes)
    → AllowsAccepted s
    → (serve s lines).0.fds_allowed ≡ true
    → ((s.fds_allowed ≡ true) × StaysAccepted s lines) ⊎ FdsNegotiated s lines
unfolding serve
serve_gained s [] m h = inl (h, m h)
serve_gained s (line ∷ lines) m h =
    let next = (sasl_server_dispatch s line).0 in
    let step = dispatch-FdsStep s line m in
    elim (serve_gained next lines step.allows h) [
      | inr later ↦ inr (inr later)
      | inl (now, stays) ↦ elim (step.gained now) [
        | inl before ↦ inl (before, (m before, stays))
        | inr here ↦ inr (inl (here, stays))
      ]
    ]

StaysAccepted-now :
    (s : SaslServer) (lines : List Bytes) → StaysAccepted s lines → is_accepted s.state ≡ true
StaysAccepted-now s [] stays = stays
StaysAccepted-now s (line ∷ lines) stays = stays.0

serve_kept :
    (s : SaslServer) (lines : List Bytes)
    → AllowsAccepted s
    → s.fds_allowed ≡ true
    → StaysAccepted s lines
    → (serve s lines).0.fds_allowed ≡ true
unfolding serve
serve_kept s [] m h stays = h
serve_kept s (line ∷ lines) m h (a, stays) =
    let step = dispatch-FdsStep s line m in
    let next = (sasl_server_dispatch s line).0 in
    serve_kept next lines step.allows (step.kept h (StaysAccepted-now next lines stays)) stays

pub serve_given :
    (s : SaslServer) (lines : List Bytes)
    → AllowsAccepted s
    → FdsNegotiated s lines
    → (serve s lines).0.fds_allowed ≡ true
unfolding serve
serve_given s [] m n = absurd n
serve_given s (line ∷ lines) m n =
    let step = dispatch-FdsStep s line m in
    let next = (sasl_server_dispatch s line).0 in
    elim n [
      | inl (here, stays) ↦ serve_kept next lines step.allows (step.given here) stays
      | inr later ↦ serve_given next lines step.allows later
    ]
