-- ===== src/Bus/Name/Counting.antt =====
-- The counters of src/bus/name.c against what they count.
use dbus_broker.Common.{ℕ, ◌+◌, ◌≤◌, Bytes, List, [], ◌∷◌, ◌==◌, if◌then◌else◌, ◌≡◌, arith}
use dbus_broker.Bus.Name.{
  NameOwnership, Counters, name_ownership_release, name_ownership_update, queue_of, set_queue,
}

-- Whether a queue has a primary owner, and whether that is `o`.
abbrev pub owned : List NameOwnership → ℕ
owned [] = 0
owned (p ∷ q) = 1

abbrev pub owned_by : ℕ → List NameOwnership → ℕ
owned_by o [] = 0
owned_by o (p ∷ q) = if o == p.owner then 1 else 0

-- How many names have a primary owner, and how many have `o`.
abbrev pub primaries : List (Bytes × List NameOwnership) → ℕ
primaries [] = 0
primaries ((k, q) ∷ names) = owned q + primaries names

abbrev pub primaries_of : ℕ → List (Bytes × List NameOwnership) → ℕ
primaries_of o [] = 0
primaries_of o ((k, q) ∷ names) = owned_by o q + primaries_of o names

-- The counters count other names' primaries, `others` and `others_of`, and those of one queue.
pub record Counted (c : Counters) (others : ℕ) (others_of : ℕ → ℕ) (q : List NameOwnership)
    : Type 0 where
  pub all : c.n_primaries ≡ others + owned q
  pub each : (o : ℕ) → c.n_owner_primaries o ≡ others_of o + owned_by o q
  pub peak : c.n_primaries ≤ c.n_primaries_peak
  pub owner_peak : (o : ℕ) → c.n_owner_primaries o ≤ c.n_owner_primaries_peak

module _ (c : Counters) (others : ℕ) (others_of : ℕ → ℕ) where
  update_empty-Counted :
      (own : NameOwnership)
      → Counted c others others_of []
      → Counted
          (name_ownership_update c [] own).0
          others
          others_of
          (name_ownership_update c [] own).1
  unfolding name_ownership_update
  update_empty-Counted own k = record {
    all = omega (arith, k.all);
    each = λ o. ground (arith, k.each o);
    peak = ground arith;
    owner_peak = λ o. ground (arith, k.owner_peak o, k.owner_peak own.owner);
  }

  update_next-Counted :
      (p : NameOwnership) (q : List NameOwnership) (own : NameOwnership)
      → Counted c others others_of (p ∷ q)
      → Counted
          (name_ownership_update c (p ∷ q) own).0
          others
          others_of
          (name_ownership_update c (p ∷ q) own).1
  unfolding name_ownership_update
  update_next-Counted p q own k = record {
    all = ground (arith, k.all);
    each = λ o. ground (arith, k.each o);
    peak = ground (arith, k.peak);
    owner_peak = λ o. ground (arith, k.owner_peak o, k.owner_peak own.owner);
  }

  pub update-Counted :
      (q : List NameOwnership) (own : NameOwnership)
      → Counted c others others_of q
      → Counted (name_ownership_update c q own).0 others others_of (name_ownership_update c q own).1
  update-Counted [] own k = update_empty-Counted own k
  update-Counted (p ∷ q) own k = update_next-Counted p q own k

  pub release-Counted :
      (q : List NameOwnership) (owner : ℕ)
      → Counted c others others_of q
      → Counted
          (name_ownership_release c q owner).0
          others
          others_of
          (name_ownership_release c q owner).1
  unfolding name_ownership_release
  release-Counted [] owner k = k
  release-Counted (p ∷ []) owner k = record {
    all = ground (arith, k.all);
    each = λ o. ground (arith, k.each o);
    peak = ground (arith, k.peak);
    owner_peak = λ o. ground (arith, k.owner_peak o);
  }
  release-Counted (p ∷ n ∷ q) owner k = record {
    all = ground (arith, k.all);
    each = λ o. ground (arith, k.each o);
    peak = ground (arith, k.all, k.peak);
    owner_peak = λ o. ground (arith, k.owner_peak o, k.owner_peak n.owner);
  }

-- Writing the queue of one name.
pub primaries-set_queue :
    (name : Bytes) (new : List NameOwnership) (names : List (Bytes × List NameOwnership))
    → primaries (set_queue name new names) + owned (queue_of name names)
      ≡ primaries names + owned new
unfolding set_queue queue_of
primaries-set_queue name new [] = omega arith
primaries-set_queue name new ((k, q) ∷ names) = ground (arith, primaries-set_queue name new names)

pub primaries_of-set_queue :
    (o : ℕ) (name : Bytes) (new : List NameOwnership) (names : List (Bytes × List NameOwnership))
    → primaries_of o (set_queue name new names) + owned_by o (queue_of name names)
      ≡ primaries_of o names + owned_by o new
unfolding set_queue queue_of
primaries_of-set_queue o name new [] = omega arith
primaries_of-set_queue o name new ((k, q) ∷ names) =
    ground (arith, primaries_of-set_queue o name new names)

pub owned-le-primaries :
    (name : Bytes) (names : List (Bytes × List NameOwnership))
    → owned (queue_of name names) ≤ primaries names
unfolding queue_of
owned-le-primaries name [] = omega arith
owned-le-primaries name ((k, q) ∷ names) = ground (arith, owned-le-primaries name names)

pub owned_by-le-primaries_of :
    (o : ℕ) (name : Bytes) (names : List (Bytes × List NameOwnership))
    → owned_by o (queue_of name names) ≤ primaries_of o names
unfolding queue_of
owned_by-le-primaries_of o name [] = omega arith
owned_by-le-primaries_of o name ((k, q) ∷ names) =
    ground (arith, owned_by-le-primaries_of o name names)
