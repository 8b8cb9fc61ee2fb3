-- ===== src/Words.antt =====
-- `ptrdiff_t` and `size_t` on a 64-bit target, as the bit patterns below 2 ^ 64: a cast between the
-- two leaves the pattern alone, sums and differences wrap, and the signed order flips the top bit.
use coasio.Common.{ℕ, ◌+◌, ◌-◌, ◌%◌, ◌^◌, ◌≤◌, ◌≡◌, Bool, arith, ltb}

unfoldable pub add64 : ℕ → ℕ → ℕ
add64 a b = (a + b) % 2 ^ 64

unfoldable pub sub64 : ℕ → ℕ → ℕ
sub64 a b = (a + 2 ^ 64 - b) % 2 ^ 64

unfoldable pub signed_lt : ℕ → ℕ → Bool
signed_lt a b = ltb ((a + 2 ^ 63) % 2 ^ 64) ((b + 2 ^ 63) % 2 ^ 64)

-- `std::numeric_limits<ptrdiff_t>::max()`
abbrev pub max_permits : ℕ
max_permits = 2 ^ 63 - 1

pub add64_small : (a b : ℕ) → a + b ≤ max_permits → add64 a b ≡ a + b
unfolding add64
add64_small a b h = omega arith

pub sub64_small : (a b : ℕ) → b ≤ a → a ≤ max_permits → sub64 a b ≡ a - b
unfolding sub64
sub64_small a b h k = omega arith

pub signed_lt_small : (a b : ℕ) → a ≤ max_permits → b ≤ max_permits → signed_lt a b ≡ ltb a b
unfolding signed_lt
signed_lt_small a b h k = ground arith
