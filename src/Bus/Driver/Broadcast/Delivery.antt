-- ===== src/Bus/Driver/Broadcast/Delivery.antt =====
-- To whom driver_forward_broadcast() of src/bus/driver.c delivers.
use mathlib.Core.Path.{subst}
use dbus_broker.Common.{
  &&_split, ℕ, Bool, true, false, ◌&&◌, ◌||◌, ◌↔◌, inl, inr, some, List, [], ◌∷◌, ◌==◌,
  if◌then◌else◌, ◌≡◌, ◌≢◌, refl, arith, ap, sym, ◌∙◌, Bool-cases,
}
use dbus_broker.Bus.Name.{name_registry_init}
use dbus_broker.Bus.Name.Requests.{Call, run}
use dbus_broker.Bus.Match.Keys.{MatchKeys}
use dbus_broker.Bus.Match.Keys.Sender.{SenderDerived}
use dbus_broker.Bus.Match.Matching.{Metadata}
use dbus_broker.Bus.Match.Index.{member_of}
use dbus_broker.Bus.Policy.Snapshot
use dbus_broker.Bus.Peer.Matches.{Matches, matches_init, from_peer, bus_get_broadcast_destinations}
use dbus_broker.Bus.Peer.Matches.Steps.{Step, run_matches}
use dbus_broker.Bus.Peer.Matches.Broadcast.{Subscribed, bus_get_broadcast_destinations_lem}
use dbus_broker.Bus.Driver.Broadcast.{
  Queued, accepted, over_quota, unexpected_fds, failed, Event, delivered, shut_down, if_permitted,
  when_queued, World, may_send, may_receive, send_to_all, driver_forward_broadcast,
}

-- Whether the signal is delivered to a peer.
unfoldable pub gets : ℕ → List Event → Bool
gets o [] = false
gets o (delivered p ∷ es) = (p == o) || gets o es
gets o (shut_down p ∷ es) = gets o es

-- Nothing that the receivers' connections, the modules or the log answer is an error.
abbrev pub NoFault : World → ℕ → Metadata → ℕ → Type 0
NoFault w s m n_fds =
    (o : ℕ)
    → (may_send w s m n_fds o ≢ Snapshot.failed)
      × (may_receive w s m n_fds o ≢ Snapshot.failed)
      × (w.queue o ≢ failed)
      × (w.logged o ≡ true)

-- The policies of both peers allow it, and the receiver's connection takes it.
abbrev pub Accepts : World → ℕ → Metadata → ℕ → ℕ → Type 0
Accepts w s m n_fds o =
    (may_send w s m n_fds o ≡ Snapshot.success)
    × (may_receive w s m n_fds o ≡ Snapshot.success)
    × (w.queue o ≡ accepted)

abbrev is_granted : Snapshot.Code → Bool
is_granted Snapshot.success = true
is_granted code = false

abbrev is_accepted : Queued → Bool
is_accepted accepted = true
is_accepted q = false

granted_sound : (code : Snapshot.Code) → is_granted code ≡ true → code ≡ Snapshot.success
granted_sound Snapshot.success h = refl
granted_sound Snapshot.access_denied h = absurd (ground arith)
granted_sound Snapshot.selinux_access_denied h = absurd (ground arith)
granted_sound Snapshot.apparmor_access_denied h = absurd (ground arith)
granted_sound Snapshot.failed h = absurd (ground arith)

accepted_sound : (q : Queued) → is_accepted q ≡ true → q ≡ accepted
accepted_sound accepted h = refl
accepted_sound over_quota h = absurd (ground arith)
accepted_sound unexpected_fds h = absurd (ground arith)
accepted_sound failed h = absurd (ground arith)

both : {a b : Bool} → a ≡ true → b ≡ true → (a && b) ≡ true
both h k = ground arith

gets-when_queued :
    (o p : ℕ) (q : Queued) (logged : Bool) (rest : List Event × Bool)
    → q ≢ failed
    → logged ≡ true
    → (gets o (when_queued q logged p rest).0 ≡ ((is_accepted q && (p == o)) || gets o rest.0))
      × ((when_queued q logged p rest).1 ≡ rest.1)
unfolding gets when_queued
gets-when_queued o p accepted logged rest fine ok = (refl, refl)
gets-when_queued o p over_quota logged rest fine ok = rw ok (refl, refl)
gets-when_queued o p unexpected_fds logged rest fine ok = rw ok (refl, refl)
gets-when_queued o p failed logged rest fine ok = absurd (fine refl)

gets-if_permitted :
    (o : ℕ) (code : Snapshot.Code) (next rest : List Event × Bool)
    → code ≢ Snapshot.failed
    → (gets o (if_permitted code next rest).0
        ≡ (if is_granted code then gets o next.0 else gets o rest.0))
      × ((if_permitted code next rest).1 ≡ (if is_granted code then next.1 else rest.1))
unfolding if_permitted
gets-if_permitted o Snapshot.success next rest fine = (refl, refl)
gets-if_permitted o Snapshot.access_denied next rest fine = (refl, refl)
gets-if_permitted o Snapshot.selinux_access_denied next rest fine = (refl, refl)
gets-if_permitted o Snapshot.apparmor_access_denied next rest fine = (refl, refl)
gets-if_permitted o Snapshot.failed next rest fine = absurd (fine refl)

module _ (w : World) (s : ℕ) (m : Metadata) (n_fds : ℕ) (fine : NoFault w s m n_fds) where
  abbrev takes : ℕ → Bool
  takes o =
      is_granted (may_send w s m n_fds o)
      && is_granted (may_receive w s m n_fds o)
      && is_accepted (w.queue o)

  -- One receiver more, if its answers are those of the rest of the peers.
  taken :
      (a b c : Bool) (o p : ℕ) (os : List ℕ) (x y z : Bool)
      → x ≡ (if b then y else z)
      → y ≡ (c && (p == o) || z)
      → z ≡ (takes o && member_of o os)
      → ((p == o) ≡ true → takes o ≡ (a && b && c))
      → (if a then x else z) ≡ (takes o && member_of o (p ∷ os))
  unfolding member_of
  taken a b c o p os x y z r q later same = elim (Bool-cases (p == o)) [
    | inl e ↦ ground (arith, same e)
    | inr e ↦ ground arith
  ]

  gets-send_to_all :
      (o : ℕ) (os : List ℕ)
      → (gets o (send_to_all w s m n_fds os).0 ≡ (takes o && member_of o os))
        × ((send_to_all w s m n_fds os).1 ≡ true)
  unfolding send_to_all gets member_of
  gets-send_to_all o [] = (ground arith, refl)
  gets-send_to_all o (p ∷ os) =
      let rest = send_to_all w s m n_fds os in
      let (sends, receives, queues, logs) = fine p in
      let next = when_queued (w.queue p) (w.logged p) p rest in
      let step = if_permitted (may_receive w s m n_fds p) next rest in
      let (later, ok) = gets-send_to_all o os in
      let (q, q') = gets-when_queued o p (w.queue p) (w.logged p) rest queues logs in
      let (r, r') = gets-if_permitted o (may_receive w s m n_fds p) next rest receives in
      let (t, t') = gets-if_permitted o (may_send w s m n_fds p) step rest sends in
      (
        t
            ∙ taken (is_granted (may_send w s m n_fds p)) (is_granted (may_receive w s m n_fds p))
                (is_accepted (w.queue p)) o p os _ _ _ r q later
                (λ e. ap takes (sym (ground arith))),
        t' ∙ ground (arith, r', q', ok),
      )

  takes_sound : (o : ℕ) → takes o ≡ true → Accepts w s m n_fds o
  takes_sound o h = (
    granted_sound (may_send w s m n_fds o) (ground arith),
    granted_sound (may_receive w s m n_fds o) (ground arith),
    accepted_sound (w.queue o) (ground arith),
  )

  takes_complete : (o : ℕ) → Accepts w s m n_fds o → takes o ≡ true
  takes_complete o (a, b, c) =
      let x = ap is_granted a in let y = ap is_granted b in let z = ap is_accepted c in ground arith

-- After any additions and removals of rules whose sender IDs are those of their senders, any flushes of
-- registries, and any requests and releases of names, and if no error occurs but that connections are
-- over their quota or take no descriptors: the broadcast of a signal ends without an error, and a
-- peer gets it exactly if it owns a linked subscription that fits the signal and that is true of the
-- sender, the policies of both let the signal pass, and its connection takes it.
pub driver_forward_broadcast_lem :
    (owner : ℕ → ℕ) (keys : ℕ → MatchKeys) (derived : (r : ℕ) → SenderDerived (keys r))
    (steps : List Step) (matches : Matches) (calls : List Call) (w : World) (s o : ℕ) (m : Metadata)
    (n_fds : ℕ)
    → run_matches owner keys steps matches_init ≡ some matches
    → w.names ≡ (run name_registry_init calls).names
    → m.sender_id ≡ s
    → NoFault w s m n_fds
    → ((driver_forward_broadcast owner matches w s m n_fds).1 ≡ true)
      × ((gets o (driver_forward_broadcast owner matches w s m n_fds).0 ≡ true)
          ↔ (Subscribed owner keys matches m w.names s o × Accepts w s m n_fds o))
unfolding driver_forward_broadcast
driver_forward_broadcast_lem owner keys derived steps matches calls w s o m n_fds ran names sent
      fine =
    let found =
      bus_get_broadcast_destinations owner matches w.names (some (from_peer s)) (some s) m in
    let (got, ok) = gets-send_to_all w s m n_fds fine o found in
    let (there, back) =
      subst
        (λ ns.
          (member_of o
              (bus_get_broadcast_destinations owner matches ns (some (from_peer s)) (some s) m)
            ≡ true)
          ↔ Subscribed owner keys matches m ns s o)
        (sym names)
        (bus_get_broadcast_destinations_lem owner keys derived steps matches calls s o m ran
          sent) in
    (
      ok,
      (
        (λ h.
            let (takes_it, listed) =
              &&_split (takes w s m n_fds fine o) (member_of o found) (sym got ∙ h) in
            (there listed, takes_sound w s m n_fds fine o takes_it)),
        (λ h.
            let (subscribed, accepts) = h in
            got ∙ both (takes_complete w s m n_fds fine o accepts) (back subscribed)),
      ),
    )
