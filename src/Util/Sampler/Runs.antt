-- ===== src/Util/Sampler/Runs.antt =====
-- Sequences of samples of src/util/sampler.c.
use native.Mathlib.Nat.{add-mod, div-le_self, le-div_iff_mul-le, div-le_of_le-mul}
use dbus_broker.Common.{
  ℕ, ◌+◌, ◌-◌, ◌*◌, ◌/◌, ◌%◌, ◌≤◌, ◌<◌, List, [], ◌∷◌, length, leb, ◌==◌, ◌≡◌, refl, sym, ap, ◌∙◌,
  arith, false, inl, inr, Bool-cases, ◌⊎◌, Option, none, some,
}
use dbus_broker.Util.Decimal.{u64_limit}
use dbus_broker.Util.Sampler.{
  Sampler, sampler_init, sampler_timestamp_invalid, sub64, add_sample, sampler_sample_add,
  sampler_sample_start, sampler_sample_end,
}
use dbus_broker.Util.Sampler.Sums.{
  total, least, greatest, mean, distance, squares, mean_above, mean_below, sub64_product,
  sub64_above,
}

-- What a sampler shows of its samples, the last of which comes first.
abbrev pub Summary : List ℕ → Sampler → Type 0
Summary ds s =
    (s.count ≡ length ds)
    × (s.sum ≡ total ds)
    × (s.minimum ≡ least ds)
    × (s.maximum ≡ greatest ds)
    × (s.average ≡ mean ds)
    × (s.sum_of_squares ≡ squares ds % u64_limit)

sides :
    (d : ℕ) (ds : List ℕ)
    → ((mean ds ≤ d) × (mean (d ∷ ds) ≤ d)) ⊎ ((d < mean ds) × (d ≤ mean (d ∷ ds)))
sides d ds = elim (Bool-cases (leb (mean ds) d)) [
  | inl e ↦ let over : mean ds ≤ d = ground arith in inl (over, mean_above d ds over)
  | inr e ↦ let under : d < mean ds = ground arith in inr (under, mean_below d ds under)
]

add_squares :
    (d : ℕ) (ds : List ℕ)
    → total (d ∷ ds) < u64_limit
    → (squares ds % u64_limit + sub64 d (mean ds) * sub64 d (mean (d ∷ ds)) % u64_limit) % u64_limit
      ≡ squares (d ∷ ds) % u64_limit
unfolding squares total
add_squares d ds small =
    let product =
      sub64_product d (mean ds) (mean (d ∷ ds)) (omega arith)
        (omega (arith, div-le_self (total ds) (length ds)))
        (omega (arith, div-le_self (total (d ∷ ds)) (length (d ∷ ds)))) (sides d ds) in
    ap (λ x. (squares ds % u64_limit + x) % u64_limit) product
    ∙ sym (add-mod (squares ds) (distance d (mean ds) * distance d (mean (d ∷ ds))) u64_limit)

add_sample-Summary :
    (d : ℕ) (ds : List ℕ) (s : Sampler)
    → total (d ∷ ds) < u64_limit
    → length (d ∷ ds) < u64_limit
    → Summary ds s
    → Summary (d ∷ ds) (add_sample d s)
unfolding add_sample total least greatest
add_sample-Summary d ds s small few (count, sum, minimum, maximum, average, squared) =
    let count' : (s.count + 1) % u64_limit ≡ length (d ∷ ds) = rw count (omega arith) in
    let sum' : (s.sum + d) % u64_limit ≡ total (d ∷ ds) = rw sum (omega arith) in
    let average' : (s.sum + d) % u64_limit / ((s.count + 1) % u64_limit) ≡ mean (d ∷ ds) =
      rw (count', sum') refl in
    (
      count',
      sum',
      rw minimum (ground arith),
      rw maximum (ground arith),
      average',
      rw (average', average, squared) (add_squares d ds small),
    )

-- The samples from one time to another, the last first.
unfoldable ended : ℕ → Option Sampler → Option Sampler
unfolding sampler_sample_end
ended to none = none
ended to (some s) = sampler_sample_end to s

unfoldable take_sample : ℕ → ℕ → Option Sampler → Option Sampler
unfolding sampler_sample_start ended
take_sample from to none = none
take_sample from to (some s) = ended to (sampler_sample_start from s)

unfoldable pub take_samples : List (ℕ × ℕ) → Option Sampler
unfolding take_sample
take_samples [] = some sampler_init
take_samples ((from, to) ∷ ts) = take_sample from to (take_samples ts)

abbrev pub durations : List (ℕ × ℕ) → List ℕ
durations [] = []
durations ((from, to) ∷ ts) = (to - from) ∷ durations ts

abbrev pub Forward : List (ℕ × ℕ) → Type 0
Forward [] = Unit {0}
Forward ((from, to) ∷ ts) = (from ≤ to) × (to < sampler_timestamp_invalid) × Forward ts

-- A sampler without a running sample.
abbrev pub Idle : List ℕ → Option Sampler → Type 0
Idle ds o = (s : Sampler) × (o ≡ some s) × (s.timestamp ≡ sampler_timestamp_invalid) × Summary ds s

take_sample-Idle :
    (from to : ℕ) (ds : List ℕ) (s : Sampler)
    → from ≤ to
    → to < sampler_timestamp_invalid
    → total ((to - from) ∷ ds) < u64_limit
    → length ((to - from) ∷ ds) < u64_limit
    → s.timestamp ≡ sampler_timestamp_invalid
    → Summary ds s
    → Idle ((to - from) ∷ ds) (take_sample from to (some s))
unfolding take_sample ended sampler_sample_start sampler_sample_end sampler_sample_add
take_sample-Idle from to ds s forward short small few idle summary =
    let span : sub64 to from ≡ to - from = sub64_above to from (ground arith) forward in
    let running : (from == sampler_timestamp_invalid) ≡ false = ground arith in
    (
      record (add_sample (to - from) s) { timestamp = sampler_timestamp_invalid },
      rw idle (rw running (rw span refl)),
      refl,
      add_sample-Summary (to - from) ds s small few summary,
    )

take_samples-Idle :
    (ts : List (ℕ × ℕ))
    → Forward ts
    → total (durations ts) < u64_limit
    → length (durations ts) < u64_limit
    → Idle (durations ts) (take_samples ts)
unfolding take_samples total least greatest squares
take_samples-Idle [] forward small few =
    (sampler_init, refl, refl, (refl, refl, refl, refl, refl, refl))
take_samples-Idle ((from, to) ∷ ts) (ahead, short, forward) small few =
    let (s, e, idle, summary) = take_samples-Idle ts forward (omega arith) (omega arith) in
    rw e (take_sample-Idle from to (durations ts) s ahead short small few idle summary)

-- After any samples whose times go forward, whose durations sum up to less than 2^64 and whose number is
-- less than that, no sample is running, and the count, the sum, the least and the greatest sample and
-- the whole part of the mean are those of the durations; the sum of squares is that of Welford's method
-- modulo 2^64, though its differences are taken in unsigned integers.
pub take_samples_lem :
    (ts : List (ℕ × ℕ))
    → Forward ts
    → total (durations ts) < u64_limit
    → length (durations ts) < u64_limit
    → Idle (durations ts) (take_samples ts)
take_samples_lem ts forward small few = take_samples-Idle ts forward small few

below_total : (m : ℕ) (ds : List ℕ) → m ≤ least ds → m * length ds ≤ total ds
unfolding least total
below_total m [] h = grind arith
below_total m (d ∷ ds) h = grind (arith, below_total m ds (omega arith))

above_total : (m : ℕ) (ds : List ℕ) → greatest ds ≤ m → total ds ≤ length ds * m
unfolding greatest total
above_total m [] h = grind arith
above_total m (d ∷ ds) h = grind (arith, above_total m ds (omega arith))

-- Under the same conditions, once there is a sample the average lies between the minimum and the
-- maximum.
pub average_bounds :
    (from to : ℕ) (ts : List (ℕ × ℕ))
    → Forward ((from, to) ∷ ts)
    → total (durations ((from, to) ∷ ts)) < u64_limit
    → length (durations ((from, to) ∷ ts)) < u64_limit
    → (s : Sampler) × (take_samples ((from, to) ∷ ts) ≡ some s)
      × (s.minimum ≤ s.average)
      × (s.average ≤ s.maximum)
average_bounds from to ts forward small few =
    let ds = durations ((from, to) ∷ ts) in
    let (s, e, idle, (count, sum, minimum, maximum, average, squared)) =
      take_samples-Idle ((from, to) ∷ ts) forward small few in
    let low : least ds ≤ mean ds =
      (le-div_iff_mul-le (omega arith)).1 (below_total (least ds) ds (omega arith)) in
    let high : mean ds ≤ greatest ds =
      div-le_of_le-mul (length ds) (above_total (greatest ds) ds (omega arith)) in
    (s, e, rw (minimum, average) low, rw (average, maximum) high)
