-- ===== src/Bus/Driver/Dispatch/Registration.antt =====
-- What a peer that has not called Hello() can do through driver_dispatch() of src/bus/driver.c.
use dbus_broker.Common.{
  drop, Bytes, codes, bytes_eq, Bool, true, false, ◌&&◌, ◌||◌, not, ◌⊎◌, inl, inr, Option, none,
  some, List, [], ◌∷◌, ◌==◌, ◌≡◌, refl, arith, ap, sym, ◌∙◌, Bool-cases,
}
use dbus_broker.Bus.Peer.Names.{driver_name}
use dbus_broker.Bus.Driver.Codes.{Code, unexpected_method}
use dbus_broker.Bus.Driver.Dispatch.{
  DriverMethod, Message, Actions, driver_methods, peer_methods, interfaces, path_fits, is_success,
  is_unexpected_method, is_unexpected_interface, peer_interface, method, in_unit,
  driver_dvar_verify_signature_in, driver_handle_method, driver_dispatch_method, dispatch_named,
  dispatch_any, driver_dispatch_interface, not_yet, dispatch_to_none, dispatch_by_destination,
  unless_unexpected, driver_dispatch_internal, driver_dispatch,
}

-- Whether every method of a table needs a registered peer.
abbrev all_need : List DriverMethod → Bool
all_need [] = true
all_need (m ∷ ms) = m.needs_registration && all_need ms

abbrev all_tables_need : List (Bytes × List DriverMethod) → Bool
all_tables_need [] = true
all_tables_need ((name, methods) ∷ is) = all_need methods && all_tables_need is

abbrev hello : Bytes
hello = codes "Hello"

abbrev hello_method : DriverMethod
hello_method = method hello false none in_unit

abbrev other_methods : List DriverMethod
other_methods = drop 1 driver_methods

abbrev other_interfaces : List (Bytes × List DriverMethod)
other_interfaces = drop 1 interfaces

module _ {S : Type 0} (act : Actions S) (message : Message) where
  refused :
      (ms : List DriverMethod) (s : S)
      → all_need ms ≡ true
      → driver_dispatch_method act false ms message s ≡ (s, unexpected_method)
  unfolding driver_dispatch_method
  refused [] s h = refl
  refused (m ∷ ms) s h =
      let needs : m.needs_registration ≡ true = ground arith in
      elim (Bool-cases (bytes_eq m.name message.member)) [
        | inl e ↦ rw (e, needs) (refused ms s (ground arith))
        | inr e ↦ rw e (refused ms s (ground arith))
      ]

  -- The state is as it was, or Hello() has been called.
  abbrev OnlyHello : S → S × Code → Type 0
  OnlyHello s r =
      (r.0 ≡ s)
      ⊎ ((bytes_eq hello message.member ≡ true) × (r.0 ≡ (act.method_fn hello message s).0))

  kept : (s : S) (r : S × Code) (code : Code) → r ≡ (s, code) → OnlyHello s r
  kept s r code e = inl (ap (λ x. x.0) e)

  handle_hello :
      (m : DriverMethod) (s : S)
      → m.name ≡ hello
      → bytes_eq hello message.member ≡ true
      → OnlyHello s (driver_handle_method act m message s)
  unfolding driver_handle_method
  handle_hello m s e h = elim (Bool-cases (path_fits m.path message.path)) [
    | inr p ↦ rw p (inl refl)
    | inl p ↦ elim (Bool-cases (driver_dvar_verify_signature_in m.in_type message.signature)) [
      | inr q ↦ rw (p, q) (inl refl)
      | inl q ↦ rw (p, q) (inr (h, ap (λ n. (act.method_fn n message s).0) e))
    ]
  ]

  first_hello :
      (m : DriverMethod) (ms : List DriverMethod) (s : S)
      → m.name ≡ hello
      → all_need ms ≡ true
      → OnlyHello s (driver_dispatch_method act false (m ∷ ms) message s)
  unfolding driver_dispatch_method
  first_hello m ms s e h =
      elim (Bool-cases (bytes_eq m.name message.member && (false || not m.needs_registration))) [
        | inr f ↦ rw f (kept s _ unexpected_method (refused ms s h))
        | inl f ↦
            rw f (handle_hello m s e (sym (ap (λ n. bytes_eq n message.member) e) ∙ ground arith))
      ]

  named_refused :
      (is : List (Bytes × List DriverMethod)) (i : Bytes) (s : S)
      → all_tables_need is ≡ true
      → (dispatch_named act false is i message s).0 ≡ s
  unfolding dispatch_named
  named_refused [] i s h = refl
  named_refused ((name, ms) ∷ is) i s h = elim (Bool-cases (bytes_eq name i)) [
    | inl e ↦ rw e (ap (λ x. x.0) (refused ms s (ground arith)))
    | inr e ↦ rw e (named_refused is i s (ground arith))
  ]

  any_refused :
      (is : List (Bytes × List DriverMethod)) (s : S)
      → all_tables_need is ≡ true
      → (dispatch_any act false is message s).0 ≡ s
  unfolding dispatch_any
  any_refused [] s h = refl
  any_refused ((name, ms) ∷ is) s h =
      ap (λ (x : S × Code). (unless_unexpected x (dispatch_any act false is message x.0)).0)
        (refused ms s (ground arith))
      ∙ any_refused is s (ground arith)

  goes_on :
      (s : S) (r rest : S × Code)
      → rest.0 ≡ r.0
      → OnlyHello s r
      → OnlyHello s (unless_unexpected r rest)
  goes_on s r rest e only = elim (Bool-cases (is_unexpected_method r.1)) [
    | inr f ↦ rw f only
    | inl f ↦ rw f (elim only [ inl k ↦ inl (e ∙ k) | inr k ↦ inr (k.0, e ∙ k.1) ])
  ]

  of_interface :
      (i : Option Bytes) (s : S) → OnlyHello s (driver_dispatch_interface act false i message s)
  unfolding driver_dispatch_interface dispatch_any dispatch_named
  of_interface none s = elim (Bool-cases (message.type == 1)) [
    | inr e ↦ rw e (inl refl)
    | inl e ↦ rw e (
        goes_on s (driver_dispatch_method act false driver_methods message s)
          (dispatch_any act false other_interfaces message
            (driver_dispatch_method act false driver_methods message s).0)
          (any_refused other_interfaces
            (driver_dispatch_method act false driver_methods message s).0 refl)
          (first_hello hello_method other_methods s refl refl))
  ]
  of_interface (some i) s = elim (Bool-cases (message.type == 1)) [
    | inr e ↦ rw e (inl refl)
    | inl e ↦ elim (Bool-cases (bytes_eq driver_name i)) [
      | inl f ↦ rw (e, f) (first_hello hello_method other_methods s refl refl)
      | inr f ↦ rw (e, f) (inl (named_refused other_interfaces i s refl))
    ]
  ]

  not_yet_only : (s : S) (r : S × Code) → OnlyHello s r → OnlyHello s (not_yet false r)
  not_yet_only s r only =
      elim (Bool-cases (is_unexpected_interface r.1 || is_unexpected_method r.1)) [
        | inl e ↦ rw e only
        | inr e ↦ rw e only
      ]

  to_none : (i : Option Bytes) (s : S) → (dispatch_to_none act false i message s).0 ≡ s
  unfolding dispatch_to_none
  to_none none s = ap (λ x. x.0) (refused peer_methods s refl)
  to_none (some i) s = elim (Bool-cases (bytes_eq i peer_interface)) [
    | inl e ↦ rw e (ap (λ x. x.0) (refused peer_methods s refl))
    | inr e ↦ rw e refl
  ]

  to_destination :
      (d : Option Bytes) (s : S) → OnlyHello s (dispatch_by_destination act false d message s)
  unfolding dispatch_by_destination
  to_destination none s = elim (Bool-cases (message.type == 1)) [
    | inl e ↦ rw e (inl (to_none message.interface s))
    | inr e ↦ rw e (inl refl)
  ]
  to_destination (some d) s = elim (Bool-cases (bytes_eq d driver_name)) [
    | inl e ↦ rw e (not_yet_only s _ (of_interface message.interface s))
    | inr e ↦ rw e (inl refl)
  ]

  -- Whatever a peer sends before it has called Hello(), all that happens, once the monitors have been
  -- served, is that Hello() is called, and only if the member of the message is Hello: no other method
  -- of the driver runs, and nothing is forwarded.
  pub unregistered_only_hello :
      (s : S)
      → let served = (act.driver_monitor message s).0 in
        let after = (driver_dispatch act false false message s).0 in
        (after ≡ served)
        ⊎ ((bytes_eq (codes "Hello") message.member ≡ true)
            × (after ≡ (act.method_fn (codes "Hello") message served).0))
  unfolding driver_dispatch driver_dispatch_internal
  unregistered_only_hello s = elim (Bool-cases (is_success (act.driver_monitor message s).1)) [
    | inl e ↦ rw e (to_destination message.destination (act.driver_monitor message s).0)
    | inr e ↦ rw e (inl refl)
  ]
