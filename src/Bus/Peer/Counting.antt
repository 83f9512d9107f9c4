-- ===== src/Bus/Peer/Counting.antt =====
-- Lists of the peers of src/bus/peer.c: what reading, writing and removing one does to counts.
use dbus_broker.Common.{
  ℕ, ◌+◌, ◌<◌, Bool, false, ◌&&◌, none, some, List, [], ◌∷◌, ◌==◌, if◌then◌else◌, ◌≡◌, refl, arith,
  length, Bool-cases, inl, inr, ap, ◌∙◌,
}
use dbus_broker.Bus.Peer.{Peer, find_entry, remove_entry, write_entry}

-- How many peers satisfy a test.
unfoldable pub count : (Peer → Bool) → List Peer → ℕ
count test [] = 0
count test (p ∷ ps) = if test p then count test ps + 1 else count test ps

abbrev pub is_registered : Peer → Bool
is_registered p = p.registered

abbrev pub is_monitor : Peer → Bool
is_monitor p = p.monitor

-- No two peers have the same ID, all IDs are below a bound, and no monitor is registered.
abbrev pub AllPeers : ℕ → List Peer → Type 0
AllPeers n [] = Unit {0}
AllPeers n (p ∷ ps) =
    (find_entry p.id ps ≡ none) × (p.id < n) × ((p.registered && p.monitor) ≡ false) × AllPeers n ps

pub find-write_entry :
    (k id : ℕ) (f : Peer → Peer) (ps : List Peer)
    → ((p : Peer) → (f p).id ≡ p.id)
    → find_entry k ps ≡ none
    → find_entry k (write_entry id f ps) ≡ none
unfolding find_entry write_entry
find-write_entry k id f [] same h = refl
find-write_entry k id f (p ∷ ps) same h = ground (arith, same p, find-write_entry k id f ps same)

pub find-remove_entry :
    (k id : ℕ) (ps : List Peer) → find_entry k ps ≡ none → find_entry k (remove_entry id ps) ≡ none
unfolding find_entry remove_entry
find-remove_entry k id [] h = refl
find-remove_entry k id (p ∷ ps) h = ground (arith, find-remove_entry k id ps)

-- A write that keeps IDs, to a peer of which it makes no registered monitor.
pub write_entry-AllPeers :
    (n id : ℕ) (f : Peer → Peer) (p : Peer) (ps : List Peer)
    → ((q : Peer) → (f q).id ≡ q.id)
    → find_entry id ps ≡ some p
    → ((f p).registered && (f p).monitor) ≡ false
    → AllPeers n ps
    → AllPeers n (write_entry id f ps)
unfolding find_entry write_entry
write_entry-AllPeers n id f p [] same h ok w = tt
write_entry-AllPeers n id f p (q ∷ ps) same h ok (unique, below, apart, w) =
    elim (Bool-cases (q.id == id)) [
      | inl e ↦
          let here : q ≡ p = ground arith in
          rw e (
            ap (λ k. find_entry k ps) (same q) ∙ unique,
            omega (arith, same q, below),
            ap (λ x. (f x).registered && (f x).monitor) here ∙ ok,
            w,
          )
      | inr e ↦ rw e (
        find-write_entry q.id id f ps same unique,
        below,
        apart,
        write_entry-AllPeers n id f p ps same (ground arith) ok w,
      )
    ]

pub remove_entry-AllPeers :
    (n id : ℕ) (ps : List Peer) → AllPeers n ps → AllPeers n (remove_entry id ps)
unfolding remove_entry
remove_entry-AllPeers n id [] w = tt
remove_entry-AllPeers n id (p ∷ ps) (unique, below, apart, w) = elim (Bool-cases (p.id == id)) [
  | inl e ↦ rw e w
  | inr e ↦
      rw e (find-remove_entry p.id id ps unique, below, apart, remove_entry-AllPeers n id ps w)
]

abbrev pub one_if : Bool → ℕ
one_if b = if b then 1 else 0

pub count-write_entry :
    (test : Peer → Bool) (id : ℕ) (f : Peer → Peer) (p : Peer) (ps : List Peer)
    → find_entry id ps ≡ some p
    → count test (write_entry id f ps) + one_if (test p) ≡ count test ps + one_if (test (f p))
unfolding find_entry write_entry count
count-write_entry test id f p [] h = absurd (ground arith)
count-write_entry test id f p (q ∷ ps) h = elim (Bool-cases (q.id == id)) [
  | inl e ↦
      let here : q ≡ p = ground arith in
      rw e (ground (arith, ap test here, ap (λ x. test (f x)) here))
  | inr e ↦ rw e (ground (arith, count-write_entry test id f p ps (ground arith)))
]

pub count-remove_entry :
    (test : Peer → Bool) (id : ℕ) (p : Peer) (ps : List Peer)
    → find_entry id ps ≡ some p
    → count test (remove_entry id ps) + one_if (test p) ≡ count test ps
unfolding find_entry remove_entry count
count-remove_entry test id p [] h = absurd (ground arith)
count-remove_entry test id p (q ∷ ps) h = elim (Bool-cases (q.id == id)) [
  | inl e ↦ let here : q ≡ p = ground arith in rw e (ground (arith, ap test here))
  | inr e ↦ rw e (ground (arith, count-remove_entry test id p ps (ground arith)))
]

pub length-write_entry :
    (id : ℕ) (f : Peer → Peer) (ps : List Peer) → length (write_entry id f ps) ≡ length ps
unfolding write_entry
length-write_entry id f [] = refl
length-write_entry id f (p ∷ ps) = ground (arith, length-write_entry id f ps)

pub length-remove_entry :
    (id : ℕ) (p : Peer) (ps : List Peer)
    → find_entry id ps ≡ some p
    → length (remove_entry id ps) + 1 ≡ length ps
unfolding find_entry remove_entry
length-remove_entry id p [] h = absurd (ground arith)
length-remove_entry id p (q ∷ ps) h = ground (arith, length-remove_entry id p ps)

pub find_written :
    (id : ℕ) (f : Peer → Peer) (p : Peer) (ps : List Peer)
    → ((q : Peer) → (f q).id ≡ q.id)
    → find_entry id ps ≡ some p
    → find_entry id (write_entry id f ps) ≡ some (f p)
unfolding find_entry write_entry
find_written id f p [] same h = absurd (ground arith)
find_written id f p (q ∷ ps) same h = elim (Bool-cases (q.id == id)) [
  | inl e ↦ let here : q ≡ p = ground arith in rw e (ground (arith, same q, ap f here))
  | inr e ↦ rw (e, e) (find_written id f p ps same (ground arith))
]

pub found_apart :
    (n id : ℕ) (p : Peer) (ps : List Peer)
    → find_entry id ps ≡ some p
    → AllPeers n ps
    → (p.registered && p.monitor) ≡ false
unfolding find_entry
found_apart n id p [] h w = absurd (ground arith)
found_apart n id p (q ∷ ps) h (unique, below, apart, w) = elim (Bool-cases (q.id == id)) [
  | inl e ↦ let here : p ≡ q = ground arith in ap (λ x. x.registered && x.monitor) here ∙ apart
  | inr e ↦ found_apart n id p ps (ground arith) w
]
