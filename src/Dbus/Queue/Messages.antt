-- ===== src/Dbus/Queue/Messages.antt =====
-- What iqueue_pop_data() of src/dbus/queue.c makes of the bytes, and of the charges on the user.
use dbus_broker.Common.{
  Option-cases, ◌∙◌, inl, inr, Bool-cases, &&_split, ◌==◌, ℕ, zero, suc, ◌+◌, ◌-◌, ◌≤◌, Bytes, Bool,
  true, false, ◌&&◌, Option, none, some, List, [], ◌∷◌, ◌++◌, ltb, if◌then◌else◌, length, take,
  drop, ◌≡◌, refl, arith, min, ◌<◌, sym, length-append, ltb→lt, ap, length-take, append-nil,
  length-drop, ◌∙◌, append_assoc, take-append-drop,
}
use dbus_broker.Util.User.Balance.Ledger.{Books, AllClean, IsClean, user_charge_deinit-success}
use dbus_broker.Util.User.Pairs.{Books-ext, release_one-Books}
use dbus_broker.Util.User.{Charge, user_charge_deinit}
use mathlib.Core.Path.{subst}
use dbus_broker.Dbus.Queue.{IQueue, Target, is_some}
use dbus_broker.Dbus.Queue.Pop.{
  Popped, complete, pending, violation, assertion, copy, move_fds, hand_over, hand_over_holds,
  finish, pop_into, iqueue_pop_data,
}

abbrev nothing : Bytes
nothing = []

drop_nil : (n : ℕ) → drop n nothing ≡ nothing
drop_nil zero = refl
drop_nil (suc n) = refl

drop_add : (a b : ℕ) (s : Bytes) → drop (a + b) s ≡ drop b (drop a s)
drop_add zero b s = ap (λ n. drop n s) (omega arith)
drop_add (suc a) b [] = drop_nil (suc a + b) ∙ sym (drop_nil b)
drop_add (suc a) b (c ∷ s) =
    let shifted : suc a + b ≡ suc (a + b) = omega arith in
    ap (λ n. drop n (c ∷ s)) shifted ∙ drop_add a b s

-- What a pop does: a message has all the bytes that were announced, and together with what is left in
-- the buffer it is all that was received; without a message, all bytes have moved to the pending
-- buffer, which is not full; a violation is a second list of descriptors.
abbrev pub Moves : IQueue → Target → IQueue × Popped → Type 0
Moves iq t (iq', complete message fds) =
    (length message ≡ t.n_data)
    × (message ++ drop iq'.data_start iq'.buffer ≡ t.copied ++ drop iq.data_start iq.buffer)
    × (iq'.pending ≡ none)
Moves iq t (iq', pending) =
    (t' : Target) × (iq'.pending ≡ some t')
    × (t'.n_data ≡ t.n_data)
    × (length t'.copied < t.n_data)
    × (t'.copied ≡ t.copied ++ drop iq.data_start iq.buffer)
    × (iq'.data_start ≡ length iq'.buffer)
Moves iq t (iq', violation) = (is_some iq.fds ≡ true) × (is_some iq.pending_fds ≡ true)
Moves iq t (iq', assertion) = ⊥

copy_lem :
    (iq : IQueue) (t : Target)
    → length t.copied ≤ t.n_data
    → iq.data_start ≤ length iq.buffer
    → let (iq', t') = copy iq t in
      (t'.copied ++ drop iq'.data_start iq'.buffer ≡ t.copied ++ drop iq.data_start iq.buffer)
      × (length t'.copied ≡ min t.n_data (length t.copied + (length iq.buffer - iq.data_start)))
      × (iq'.data_start + length t.copied ≡ iq.data_start + length t'.copied)
unfolding copy
copy_lem iq t fits inside =
    let unread = drop iq.data_start iq.buffer in
    let n = min (length iq.buffer - iq.data_start) (t.n_data - length t.copied) in
    let moved : length (copy iq t).1.copied ≡ length t.copied + length (take n unread) =
      length-append t.copied (take n unread) in
    let begin : (copy iq t).0.data_start ≡ iq.data_start + n = refl in
    let took = length-take n unread in
    let left = length-drop iq.data_start iq.buffer in
    (
      ap (λ r. (t.copied ++ take n unread) ++ r) (drop_add iq.data_start n iq.buffer)
          ∙ append_assoc t.copied (take n unread) (drop n unread)
          ∙ ap (λ r. t.copied ++ r) (take-append-drop n unread),
      omega (arith, moved, took, left, begin),
      omega (arith, moved, took, left, begin),
    )

drop_all : (s : Bytes) → drop (length s) s ≡ []
drop_all [] = refl
drop_all (c ∷ s) = drop_all s

-- The books of the queue's user agree with the charges that the next message may release, and with
-- others; a charge without a usage holds nothing.
abbrev pub QueueBooks : IQueue → List Charge → Type 0
QueueBooks iq others =
    Books iq.user (iq.pending_charge_fds ∷ iq.pending_charge_data ∷ iq.charge_fds ∷ others)
    × AllClean (iq.pending_charge_fds ∷ iq.pending_charge_data ∷ iq.charge_fds ∷ [])

-- The same of the charges that are released with a message.
record Releasable (iq : IQueue) : Type 0 where
  others : List Charge
  books : Books iq.user (iq.pending_charge_fds ∷ iq.pending_charge_data ∷ others)
  clean_fds : IsClean iq.pending_charge_fds
  clean_data : IsClean iq.pending_charge_data

abbrev ReleasableAfter : Option IQueue → Type 0
ReleasableAfter none = Unit {0}
ReleasableAfter (some iq) = Releasable iq

move_fds-Releasable :
    (iq : IQueue) (others : List Charge) → QueueBooks iq others → ReleasableAfter (move_fds iq)
unfolding move_fds
move_fds-Releasable iq others (b, (clean_fds, (clean_data, (clean_new, last)))) =
    elim (Bool-cases ((length iq.buffer == iq.data_start) && is_some iq.fds)) [
      | inr stay ↦ rw stay (record {
        others = iq.charge_fds ∷ others;
        books = b;
        clean_fds = clean_fds;
        clean_data = clean_data;
      })
      | inl move ↦ elim (Bool-cases (is_some iq.pending_fds)) [
        | inl two ↦ rw (move, two) tt
        | inr one ↦
            rw (move, one)
              (record {
                others = iq.pending_charge_fds ∷ others;
                books =
                    Books-ext iq.user
                      (iq.pending_charge_fds ∷ iq.pending_charge_data ∷ iq.charge_fds ∷ others)
                      (iq.charge_fds ∷ iq.pending_charge_data ∷ iq.pending_charge_fds ∷ others)
                      (λ k s. omega arith) (λ k. omega arith) b;
                clean_fds = clean_new;
                clean_data = clean_data;
              })
      ]
    ]

hand_over_holds-true :
    (wanted : Bool) (iq : IQueue) → Releasable iq → hand_over_holds wanted iq ≡ true
unfolding hand_over_holds
hand_over_holds-true true iq r =
    let fds = iq.pending_charge_fds in
    let bytes = iq.pending_charge_data in
    let user = (user_charge_deinit iq.user fds).0 in
    rw
      (
        user_charge_deinit-success iq.user [] (bytes ∷ r.others) fds r.books r.clean_fds,
        user_charge_deinit-success user [] r.others bytes
            (release_one-Books iq.user fds (bytes ∷ r.others) r.books) r.clean_data,
      )
      refl
hand_over_holds-true false iq r =
    rw
      (user_charge_deinit-success iq.user (iq.pending_charge_fds ∷ []) r.others
        iq.pending_charge_data r.books r.clean_data)
      refl

-- What the move of the descriptors leaves alone, or why it is refused.
abbrev Keeps : IQueue → Option IQueue → Type 0
Keeps iq none = (is_some iq.fds ≡ true) × (is_some iq.pending_fds ≡ true)
Keeps iq (some iq') =
    (iq'.buffer ≡ iq.buffer) × (iq'.data_start ≡ iq.data_start) × (iq'.pending ≡ iq.pending)

move_fds-Keeps : (iq : IQueue) → Keeps iq (move_fds iq)
unfolding move_fds
move_fds-Keeps iq = elim (Bool-cases ((length iq.buffer == iq.data_start) && is_some iq.fds)) [
  | inr stay ↦ rw stay (refl, refl, refl)
  | inl move ↦ elim (Bool-cases (is_some iq.pending_fds)) [
    | inl two ↦ rw (move, two) ((&&_split _ (is_some iq.fds) move).1, two)
    | inr one ↦ rw (move, one) (refl, refl, refl)
  ]
]

module _ (wanted : Bool) (iq : IQueue) (t : Target) (start : iq.data_start ≤ length iq.buffer)
    (fits : length t.copied ≤ t.n_data) where
  finish-Moves :
      (t' : Target) (held : IQueue)
      → Releasable held
      → t'.n_data ≡ t.n_data
      → held.pending ≡ some t'
      → held.buffer ≡ iq.buffer
      → t'.copied ++ drop held.data_start held.buffer ≡ t.copied ++ drop iq.data_start iq.buffer
      → length t'.copied ≡ min t.n_data (length t.copied + (length iq.buffer - iq.data_start))
      → held.data_start + length t.copied ≡ iq.data_start + length t'.copied
      → Moves iq t (finish wanted t' held)
  unfolding finish hand_over
  finish-Moves t' held r same here buffer bytes copied moved =
      elim (Bool-cases (ltb (length t'.copied) t'.n_data)) [
        | inr all ↦
            rw (all, hand_over_holds-true wanted held r)
              (ground (arith, same, copied, fits), bytes, refl)
        | inl short ↦
            let used : held.data_start ≡ length held.buffer =
              omega (arith, ltb→lt _ _ short, same, copied, moved, start, ap length buffer) in
            rw short (
              t',
              here,
              same,
              omega (arith, ltb→lt _ _ short, same),
              sym (append-nil t'.copied)
                  ∙ ap (λ r. t'.copied ++ r)
                      (sym (ap (λ n. drop n held.buffer) used ∙ drop_all held.buffer))
                  ∙ bytes,
              used,
            )
      ]

  pop_into-Moves : (others : List Charge) → QueueBooks iq others → Moves iq t (pop_into wanted iq t)
  unfolding pop_into copy
  pop_into-Moves others q =
      let t' = (copy iq t).1 in
      let held = record (copy iq t).0 { pending = some t' } in
      let after = λ (m : Option IQueue).
        Moves iq t (elim m [ none ↦ (held, violation) | some iq' ↦ finish wanted t' iq' ]) in
      let (bytes, copied, moved) = copy_lem iq t fits start in
      elim (Option-cases (move_fds held)) [
        | inl e ↦ subst after (sym e) (subst (Keeps held) e (move_fds-Keeps held))
        | inr (iq', e) ↦
            let (buffer, same_start, here) = subst (Keeps held) e (move_fds-Keeps held) in
            subst after (sym e) (
              finish-Moves t' iq' (subst ReleasableAfter e (move_fds-Releasable held others q)) refl
                here buffer
                (ap (λ n. t'.copied ++ drop n iq'.buffer) same_start
                  ∙ ap (λ s. t'.copied ++ drop held.data_start s) buffer
                  ∙ bytes)
                copied (omega (arith, same_start, moved)))
      ]

-- A pop with a pending buffer that is not overfull, on a user whose books agree with the charges of the
-- queue's buffers and with others, where a charge without a usage holds nothing, never fails an
-- assertion, neither its own nor one of the accounting when the charges are released. It gives the message when
-- all announced bytes are there; the message and what the buffer then still holds are the bytes that
-- were received, in their order. If bytes are missing, all that were received have moved to the pending
-- buffer. It is a violation only where the buffer and the message both have descriptors.
pub iqueue_pop_data_lem :
    (wanted : Bool) (iq : IQueue) (t : Target)
    → iq.pending ≡ some t
    → length t.copied ≤ t.n_data
    → iq.data_start ≤ length iq.buffer
    → (others : List Charge) → QueueBooks iq others
    → Moves iq t (iqueue_pop_data wanted iq)
unfolding iqueue_pop_data
iqueue_pop_data_lem wanted iq t here fits start others q =
    let enough : ltb t.n_data (length t.copied) ≡ false = ground arith in
    let popped : iqueue_pop_data wanted iq ≡ pop_into wanted iq t =
      ap
        (λ p. elim p [
          | none ↦ (iq, assertion)
          | some t ↦
              if ltb t.n_data (length t.copied) then (iq, assertion) else pop_into wanted iq t
        ])
        here
      ∙ ap (λ b. if b then (iq, assertion) else pop_into wanted iq t) enough in
    subst (Moves iq t) (sym popped) (pop_into-Moves wanted iq t start fits others q)
