-- ===== src/Echo.antt =====
-- examples/echo_server.cpp: the window of samples, the task that watches the counters, and the task of
-- one client. What a socket answers, and floating-point numbers, are parameters.
pub mod Window
pub mod Percentiles
mod Examples
pub mod Server
use mathlib.Core.List.{Pairwise, Perm}
use coasio.Common.{
  ℕ, zero, suc, ◌+◌, ◌-◌, ◌%◌, ◌^◌, ◌≡◌, Bool, true, false, List, [], ◌∷◌, ◌++◌, Option, none, some,
  length, ltb, if◌then◌else◌,
}
use coasio.Async.{Outcome, value, failed, bad_access}

-- `double` with `std::sort` on it, which leaves the entries in ascending order; `rank` is
-- `static_cast<size_t>(std::ceil(p * n))` for a percentage.
pub record Doubles (D : Type 0) : Type 0 where
  pub le : D → D → Bool
  pub le_refl : (a : D) → le a a ≡ true
  pub le_antisymm : (a b : D) → le a b ≡ true → le b a ≡ true → a ≡ b
  pub sort : List D → List D
  pub sort-Pairwise : (xs : List D) → Pairwise (λ a b. le a b ≡ true) (sort xs)
  pub sort-Perm : (xs : List D) → Perm (sort xs) xs
  pub zero_double : D
  pub rank : ℕ → ℕ → ℕ

-- `RollingMetrics`
pub record Metrics (D : Type 0) : Type 0 where
  pub samples : List D
  pub max_size : ℕ
  pub head : ℕ

module _ {D : Type 0} where
  abbrev pub metrics : ℕ → Metrics D
  metrics window_size = record { samples = []; max_size = window_size; head = 0 }

  -- `samples[i] = v`; `none` where there is no such entry.
  unfoldable pub write_at : List D → ℕ → D → Option (List D)
  write_at [] i v = none
  write_at (x ∷ xs) zero v = some (v ∷ xs)
  write_at (x ∷ xs) (suc i) v = elim (write_at xs i v) [ none ↦ none | some ys ↦ some (x ∷ ys) ]

  unfoldable pub add_sample : D → Metrics D → Option (Metrics D)
  add_sample v m =
      if ltb (length m.samples) m.max_size
      then some (record m { samples = m.samples ++ v ∷ [] })
      else elim (write_at m.samples m.head v) [
        | none ↦ none
        | some xs ↦ some (record m { samples = xs; head = (m.head + 1) % m.max_size })
      ]

  -- `v[i]`
  unfoldable pub get_elem? : List D → ℕ → Option D
  get_elem? [] i = none
  get_elem? (x ∷ xs) zero = some x
  get_elem? (x ∷ xs) (suc i) = get_elem? xs i

-- `std::clamp(idx, size_t(0), hi)`
abbrev pub clamp : ℕ → ℕ → ℕ
clamp i hi = if ltb hi i then hi else i

module _ {D : Type 0} (d : Doubles D) where
  unfoldable pub get_percentile_value : List D → ℕ → Option D
  get_percentile_value sorted percent =
      let n = length sorted in
      let idx = (d.rank percent n + (2 ^ 64 - 1)) % 2 ^ 64 in get_elem? sorted (clamp idx (n - 1))

  unfoldable pub get_percentiles : List D → Option D × Option D × Option D
  get_percentiles [] = (some d.zero_double, some d.zero_double, some d.zero_double)
  get_percentiles (x ∷ xs) =
      let sorted = d.sort (x ∷ xs) in
      (
        get_percentile_value sorted 50,
        get_percentile_value sorted 90,
        get_percentile_value sorted 99,
      )
