-- ===== src/Bus/Activation/Accounting.antt =====
-- The charges of what waits for an activation in src/bus/activation.c, on the books of its user.
use dbus_broker.Common.{
  ℕ, ◌+◌, ◌<◌, Bool, true, false, Option, List, [], ◌∷◌, ◌++◌, ◌==◌, ◌≡◌, refl, ap, arith,
  Bool-cases, inl, inr,
}
use dbus_broker.Util.Decimal.{u32_limit}
use dbus_broker.Util.User
use dbus_broker.Util.User.{User, Charge, user_charge, user_charge_deinit, user_charge_init}
use dbus_broker.Util.User.Balance.Ledger.{Books, Books-unused, user_charge-Books, held, pins}
use dbus_broker.Util.User.Pairs.{
  release_two, release_two-Books, release_one-Books, charge_two, charge_two-Books, Books-ext,
}
use dbus_broker.Bus.Activation.{
  ActivationMessage, ActivationRequest, Activation, Code, assertion, slot_bytes, slot_fds,
  activation_request, queue_charged, queue_request_charged, activation_queue_message,
  activation_queue_request, free_messages, free_requests, activation_deinit,
}

abbrev pub message_charges : List ActivationMessage → List Charge
message_charges [] = []
message_charges (m ∷ ms) = m.bytes ∷ m.fds ∷ message_charges ms

abbrev pub request_charges : List ActivationRequest → List Charge
request_charges [] = []
request_charges (r ∷ rs) = r.charge ∷ request_charges rs

-- The charges of all that waits, and others.
abbrev pub charges : Activation → List Charge → List Charge
charges a others = message_charges a.messages ++ (request_charges a.requests ++ others)

held-append : (cs ds : List Charge) (k s : ℕ) → held (cs ++ ds) k s ≡ held cs k s + held ds k s
held-append [] ds k s = omega arith
held-append (c ∷ cs) ds k s = omega (arith, held-append cs ds k s)

pins-append : (cs ds : List Charge) (k : ℕ) → pins (cs ++ ds) k ≡ pins cs k + pins ds k
pins-append [] ds k = omega arith
pins-append (c ∷ cs) ds k = omega (arith, pins-append cs ds k)

more_messages :
    (ms : List ActivationMessage) (m : ActivationMessage)
    → message_charges (ms ++ m ∷ []) ≡ message_charges ms ++ m.bytes ∷ m.fds ∷ []
more_messages [] m = refl
more_messages (n ∷ ms) m = ap (λ cs. n.bytes ∷ n.fds ∷ cs) (more_messages ms m)

more_requests :
    (rs : List ActivationRequest) (r : ActivationRequest)
    → request_charges (rs ++ r ∷ []) ≡ request_charges rs ++ r.charge ∷ []
more_requests [] r = refl
more_requests (q ∷ rs) r = ap (λ cs. q.charge ∷ cs) (more_requests rs r)

queued-Books :
    (a : Activation) (m : ActivationMessage) (others : List Charge) (u : User)
    → Books u (m.bytes ∷ m.fds ∷ charges a others)
    → Books u (charges (record a { messages = a.messages ++ m ∷ [] }) others)
queued-Books a m others u b =
    let ms = message_charges a.messages in
    let rest = request_charges a.requests ++ others in
    rw (more_messages a.messages m) (
      Books-ext u (m.bytes ∷ m.fds ∷ ms ++ rest) ((ms ++ m.bytes ∷ m.fds ∷ []) ++ rest)
        (λ k s. omega (
          arith,
          held-append ms rest k s,
          held-append (ms ++ m.bytes ∷ m.fds ∷ []) rest k s,
          held-append ms (m.bytes ∷ m.fds ∷ []) k s,
        ))
        (λ k. omega (
          arith,
          pins-append ms rest k,
          pins-append (ms ++ m.bytes ∷ m.fds ∷ []) rest k,
          pins-append ms (m.bytes ∷ m.fds ∷ []) k,
        ))
        b)

queued_request-Books :
    (a : Activation) (r : ActivationRequest) (others : List Charge) (u : User)
    → Books u (r.charge ∷ charges a others)
    → Books u (charges (record a { requests = a.requests ++ r ∷ [] }) others)
queued_request-Books a r others u b =
    let ms = message_charges a.messages in
    let rs = request_charges a.requests in
    rw (more_requests a.requests r) (
      Books-ext u (r.charge ∷ ms ++ (rs ++ others)) (ms ++ ((rs ++ r.charge ∷ []) ++ others))
        (λ k s. omega (
          arith,
          held-append ms (rs ++ others) k s,
          held-append rs others k s,
          held-append ms ((rs ++ r.charge ∷ []) ++ others) k s,
          held-append (rs ++ r.charge ∷ []) others k s,
          held-append rs (r.charge ∷ []) k s,
        ))
        (λ k. omega (
          arith,
          pins-append ms (rs ++ others) k,
          pins-append rs others k,
          pins-append ms ((rs ++ r.charge ∷ []) ++ others) k,
          pins-append (rs ++ r.charge ∷ []) others k,
          pins-append rs (r.charge ∷ []) k,
        ))
        b)

-- The books agree with what waits then, unless an assertion failed.
abbrev pub QueueBooks : List Charge → Activation × User × Code → Type 0
QueueBooks others (a, u, assertion) = Unit {0}
QueueBooks others (a, u, _) = Books u (charges a others)

queue_charged-Books :
    (copied : Bool) (sender_id : ℕ) (a : Activation) (charged : User × Charge × Charge × User.Code)
    (others : List Charge)
    → Books charged.0 (charged.1 ∷ charged.2 ∷ charges a others)
    → QueueBooks others (queue_charged copied sender_id a charged)
unfolding queue_charged
queue_charged-Books true id a (u, bytes, fds, User.success) others b =
    queued-Books a (record { sender_id = id; bytes = bytes; fds = fds }) others u b
queue_charged-Books false id a (u, bytes, fds, User.success) others b =
    release_two-Books u bytes fds (charges a others) b
queue_charged-Books copied id a (u, bytes, fds, User.quota) others b =
    release_two-Books u bytes fds (charges a others) b
queue_charged-Books copied id a (u, bytes, fds, User.error) others b =
    release_two-Books u bytes fds (charges a others) b
queue_charged-Books copied id a (u, bytes, fds, User.assertion) others b = tt

queue_request_charged-Books :
    (sender_id serial : ℕ) (a : Activation) (charged : User × Charge × User.Code)
    (others : List Charge)
    → Books charged.0 (charged.1 ∷ charges a others)
    → QueueBooks others (queue_request_charged sender_id serial a charged)
unfolding queue_request_charged
queue_request_charged-Books id serial a (u, c, User.success) others b =
    queued_request-Books a (record { sender_id = id; serial = serial; charge = c }) others u b
queue_request_charged-Books id serial a (u, c, User.quota) others b =
    release_one-Books u c (charges a others) b
queue_request_charged-Books id serial a (u, c, User.error) others b =
    release_one-Books u c (charges a others) b
queue_request_charged-Books id serial a (u, c, User.assertion) others b = tt

free_messages-Books :
    (ms : List ActivationMessage) (u : User) (cs : List Charge)
    → Books u (message_charges ms ++ cs)
    → Books (free_messages ms u) cs
unfolding free_messages
free_messages-Books [] u cs b = b
free_messages-Books (m ∷ ms) u cs b =
    free_messages-Books ms (release_two u m.bytes m.fds) cs
      (release_two-Books u m.bytes m.fds (message_charges ms ++ cs) b)

free_requests-Books :
    (rs : List ActivationRequest) (u : User) (cs : List Charge)
    → Books u (request_charges rs ++ cs)
    → Books (free_requests rs u) cs
unfolding free_requests
free_requests-Books [] u cs b = b
free_requests-Books (r ∷ rs) u cs b =
    free_requests-Books rs (user_charge_deinit u r.charge).0 cs
      (release_one-Books u r.charge (request_charges rs ++ cs) b)

activation_request-Books :
    (told : Bool) (a : Activation) (others : List Charge) (u : User)
    → Books u (charges a others)
    → Books u (charges (activation_request told a).0 others)
unfolding activation_request
activation_request-Books told a others u b = elim (Bool-cases (a.pending == 0)) [
  | inr e ↦ rw e b
  | inl e ↦ elim (Bool-cases told) [ inl f ↦ rw (e, f) b | inr f ↦ rw (e, f) b ]
]

module _ (told memory usage_memory : Bool) (log : Option Bool) (a : Activation) (u : User)
    (actor sender_id : ℕ) (others : List Charge) (few : u.n_usages + 3 < u32_limit)
    (b : Books u (charges a others)) where
  queue_message-Books :
      (copied : Bool) (n_bytes n_fds : ℕ)
      → QueueBooks others (
          activation_queue_message told memory usage_memory log copied n_bytes n_fds a u actor
            sender_id)
  unfolding activation_queue_message
  queue_message-Books copied n_bytes n_fds =
      let a' = (activation_request told a).0 in
      let b' = activation_request-Books told a others u b in
      let charged = charge_two usage_memory log u actor (slot_bytes, n_bytes) (slot_fds, n_fds) in
      let queued = queue_charged-Books copied sender_id a' charged others (
        charge_two-Books usage_memory log u actor slot_bytes n_bytes slot_fds n_fds
          (charges a' others) b' few) in
      elim (Bool-cases (activation_request told a).1) [
        | inr e ↦ rw e b'
        | inl e ↦ elim (Bool-cases memory) [ inl f ↦ rw (e, f) queued | inr f ↦ rw (e, f) b' ]
      ]

  queue_request-Books :
      (size serial : ℕ)
      → QueueBooks others
          (activation_queue_request told memory usage_memory log size a u actor sender_id serial)
  unfolding activation_queue_request
  queue_request-Books size serial =
      let a' = (activation_request told a).0 in
      let b' = activation_request-Books told a others u b in
      let charged = user_charge usage_memory log u user_charge_init actor slot_bytes size in
      let queued = queue_request_charged-Books sender_id serial a' charged others (
        user_charge-Books usage_memory log u [] (charges a' others) user_charge_init actor
          slot_bytes size (Books-unused u (charges a' others) b') refl (omega arith)) in
      elim (Bool-cases (activation_request told a).1) [
        | inr e ↦ rw e b'
        | inl e ↦ elim (Bool-cases (serial == 0)) [
          | inl f ↦ rw (e, f) b'
          | inr f ↦ elim (Bool-cases memory) [
            | inl g ↦ rw (e, f, g) queued
            | inr g ↦ rw (e, f, g) b'
          ]
        ]
      ]

-- The books of an activation's user, which agree with the charges of all that waits and with others,
-- still do after a message or a request was to be queued, whether or not that succeeds, unless an
-- assertion of the accounting fails; and when the activation goes away, only the others are left.
pub activation-Books :
    (told memory usage_memory copied : Bool) (log : Option Bool) (a : Activation) (u : User)
    (actor sender_id n_bytes n_fds size serial : ℕ) (others : List Charge)
    → u.n_usages + 3 < u32_limit
    → Books u (charges a others)
    → QueueBooks others (
        activation_queue_message told memory usage_memory log copied n_bytes n_fds a u actor
          sender_id)
      × QueueBooks others
          (activation_queue_request told memory usage_memory log size a u actor sender_id serial)
      × Books (activation_deinit a u).1 others
unfolding activation_deinit
activation-Books told memory usage_memory copied log a u actor sender_id n_bytes n_fds size serial
      others few b =
    (
      queue_message-Books told memory usage_memory log a u actor sender_id others few b copied
          n_bytes n_fds,
      queue_request-Books told memory usage_memory log a u actor sender_id others few b size serial,
      free_requests-Books a.requests (free_messages a.messages u) others
          (free_messages-Books a.messages u (request_charges a.requests ++ others) b),
    )
