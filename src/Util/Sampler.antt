-- ===== src/Util/Sampler.antt =====
-- src/util/sampler.c: the statistics of samples of CPU time. The time that the clock shows is an
-- argument, in nanoseconds; a failed assertion is `none`.
pub mod Sums
pub mod Runs
pub mod Tests
use dbus_broker.Common.{
  ℕ, ◌+◌, ◌-◌, ◌*◌, ◌/◌, ◌%◌, Bool, true, false, Option, none, some, ltb, ◌==◌, if◌then◌else◌,
}
use dbus_broker.Util.Decimal.{u64_limit}

-- SAMPLER_TIMESTAMP_INVALID
abbrev pub sampler_timestamp_invalid : ℕ
sampler_timestamp_invalid = 18446744073709551615

pub record Sampler : Type 0 where
  pub count : ℕ
  pub sum : ℕ
  pub minimum : ℕ
  pub maximum : ℕ
  pub average : ℕ
  pub timestamp : ℕ
  pub sum_of_squares : ℕ

abbrev pub sampler_init : Sampler
sampler_init = record {
  count = 0;
  sum = 0;
  minimum = 18446744073709551615;
  maximum = 0;
  average = 0;
  timestamp = sampler_timestamp_invalid;
  sum_of_squares = 0;
}

-- A difference of two 64-bit integers
unfoldable pub sub64 : ℕ → ℕ → ℕ
sub64 a b = (a + u64_limit - b) % u64_limit

-- The rest of sampler_sample_add(), from the duration of the sample.
unfoldable pub add_sample : ℕ → Sampler → Sampler
unfolding sub64
add_sample sample s =
    let count = (s.count + 1) % u64_limit in
    let sum = (s.sum + sample) % u64_limit in
    let average = sum / count in
    record s {
      count = count;
      sum = sum;
      average = average;
      sum_of_squares =
          (s.sum_of_squares + sub64 sample s.average * sub64 sample average % u64_limit)
          % u64_limit;
      minimum = if ltb sample s.minimum then sample else s.minimum;
      maximum = if ltb s.maximum sample then sample else s.maximum;
    }

unfoldable pub sampler_sample_add : ℕ → ℕ → Sampler → Sampler
unfolding add_sample sub64
sampler_sample_add now timestamp s = add_sample (sub64 now timestamp) s

unfoldable pub sampler_sample_start : ℕ → Sampler → Option Sampler
sampler_sample_start now s =
    if s.timestamp == sampler_timestamp_invalid then some (record s { timestamp = now }) else none

unfoldable pub sampler_sample_end : ℕ → Sampler → Option Sampler
unfolding sampler_sample_add
sampler_sample_end now s =
    if s.timestamp == sampler_timestamp_invalid
    then none
    else some
        (record (sampler_sample_add now s.timestamp s) { timestamp = sampler_timestamp_invalid })

unfoldable pub sampler_deinit : Sampler → Option Sampler
sampler_deinit s = if s.timestamp == sampler_timestamp_invalid then some sampler_init else none
