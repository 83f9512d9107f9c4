-- ===== src/Util/Sampler/Sums.antt =====
-- Sums, means and extremes of the samples of src/util/sampler.c, and the laws on 64-bit integers that
-- its sum of squares needs.
use native.Mathlib.Nat.{le-div_iff_mul-le, div-lt_iff_lt-mul, add-mul-mod_self_right}
use dbus_broker.Common.{
  ℕ, ◌+◌, ◌-◌, ◌*◌, ◌/◌, ◌%◌, ◌≤◌, ◌<◌, List, [], ◌∷◌, length, min, max, ltb, ◌≡◌, refl, sym, ap,
  ◌∙◌, arith, inl, inr, Bool-cases, ◌⊎◌,
}
use dbus_broker.Util.Decimal.{u64_limit}
use dbus_broker.Util.Sampler.{sub64}

unfoldable pub total : List ℕ → ℕ
total [] = 0
total (d ∷ ds) = d + total ds

unfoldable pub least : List ℕ → ℕ
least [] = 18446744073709551615
least (d ∷ ds) = min d (least ds)

unfoldable pub greatest : List ℕ → ℕ
greatest [] = 0
greatest (d ∷ ds) = max d (greatest ds)

-- The whole part of the mean; 0 of no samples.
abbrev pub mean : List ℕ → ℕ
mean ds = total ds / length ds

abbrev pub distance : ℕ → ℕ → ℕ
distance a b = (a - b) + (b - a)

-- The sum of squares of Welford's method: each sample, times its distances from the mean before it and
-- from the mean with it. The last sample comes first.
unfoldable pub squares : List ℕ → ℕ
unfolding total
squares [] = 0
squares (d ∷ ds) = squares ds + distance d (mean ds) * distance d (mean (d ∷ ds))

-- A sample that is not below the mean is not below the new mean, and one below it is not above that.
pub mean_above : (d : ℕ) (ds : List ℕ) → mean ds ≤ d → mean (d ∷ ds) ≤ d
unfolding total
mean_above d [] h = ground arith
mean_above d (e ∷ ds) h =
    let small : total (e ∷ ds) < (d + 1) * length (e ∷ ds) =
      (div-lt_iff_lt-mul (ground arith)).0 (ground arith) in
    let goal : total (d ∷ e ∷ ds) / length (d ∷ e ∷ ds) < d + 1 =
      (div-lt_iff_lt-mul (ground arith)).1 (grind arith) in
    ground arith

pub mean_below : (d : ℕ) (ds : List ℕ) → d < mean ds → d ≤ mean (d ∷ ds)
unfolding total
mean_below d [] h = absurd (ground arith)
mean_below d (e ∷ ds) h =
    let large : (d + 1) * length (e ∷ ds) ≤ total (e ∷ ds) =
      (le-div_iff_mul-le (ground arith)).0 (ground arith) in
    (le-div_iff_mul-le (ground arith)).1 (grind arith)

swap : (a a' b b' : ℕ) → a + a' ≡ b + b' → a' * b' + b * (a + a') ≡ a * b + a' * (a + a')
swap a a' b b' e = grind (arith, ap (λ x. a' * x) e)

-- The product of two differences that both wrapped is that of the distances.
wrapped : (m a a' b b' : ℕ) → m ≡ a + a' → m ≡ b + b' → a' * b' % m ≡ a * b % m
wrapped m a a' b b' e f =
    sym (add-mul-mod_self_right (a' * b') b m)
    ∙ ap (λ x. x % m) (grind (arith, swap a a' b b' (sym e ∙ f)))
    ∙ add-mul-mod_self_right (a * b) a' m

pub sub64_above : (d a : ℕ) → d < u64_limit → a ≤ d → sub64 d a ≡ d - a
unfolding sub64
sub64_above d a small h = omega arith

sub64_below : (d a : ℕ) → a < u64_limit → d < a → sub64 d a ≡ u64_limit - (a - d)
unfolding sub64
sub64_below d a small h = omega arith

-- The differences to two means on the same side of a sample.
pub sub64_product :
    (d a b : ℕ)
    → d < u64_limit
    → a < u64_limit
    → b < u64_limit
    → ((a ≤ d) × (b ≤ d)) ⊎ ((d < a) × (d ≤ b))
    → sub64 d a * sub64 d b % u64_limit ≡ distance d a * distance d b % u64_limit
sub64_product d a b small_d small_a small_b (inl (over_a, over_b)) =
    let to_a : distance d a ≡ d - a = omega arith in
    let to_b : distance d b ≡ d - b = omega arith in
    rw (sub64_above d a small_d over_a, sub64_above d b small_d over_b, to_a, to_b) refl
sub64_product d a b small_d small_a small_b (inr (under_a, under_b)) = elim (Bool-cases (ltb d b)) [
  | inl e ↦
      let to_a : distance d a ≡ a - d = omega arith in
      let to_b : distance d b ≡ b - d = ground arith in
      rw (sub64_below d a small_a under_a, sub64_below d b small_b (ground arith), to_a, to_b)
        (wrapped u64_limit (a - d) (u64_limit - (a - d)) (b - d) (u64_limit - (b - d)) (omega arith)
          (omega arith))
  | inr e ↦
      let none_left : sub64 d b ≡ 0 = sub64_above d b small_d (ground arith) ∙ ground arith in
      let nothing : distance d b ≡ 0 = ground arith in rw (none_left, nothing) (omega arith)
]
