-- ===== src/Util/Sampler/Tests.antt =====
-- Runs of the sampler of src/util/sampler.c.
use dbus_broker.Common.{ℕ, ◌<◌, ◌≤◌, List, [], ◌∷◌, ◌≡◌, arith, some}
use dbus_broker.Util.Decimal.{u64_limit}
use dbus_broker.Util.Sampler.{Sampler}
use dbus_broker.Util.Sampler.Sums.{total}
use dbus_broker.Util.Sampler.Runs.{
  Idle, take_samples, durations, Forward, take_samples_lem, average_bounds,
}

-- 10 ns, then 4 ns: the mean goes down from 10 to 7.
abbrev times : List (ℕ × ℕ)
times = (20, 24) ∷ (5, 15) ∷ []

times-Forward : Forward times
times-Forward = (omega arith, omega arith, (omega arith, omega arith, tt))

times_small : total (durations times) < u64_limit
unfolding total
times_small = omega arith

take_samples_example : Idle (durations times) (take_samples times)
take_samples_example = take_samples_lem times times-Forward times_small (omega arith)

average_bounds_example :
    (s : Sampler) × (take_samples times ≡ some s)
    × (s.minimum ≤ s.average)
    × (s.average ≤ s.maximum)
average_bounds_example = average_bounds 20 24 ((5, 15) ∷ []) times-Forward times_small (omega arith)
