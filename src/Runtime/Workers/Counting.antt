-- ===== src/Runtime/Workers/Counting.antt =====
-- How many workers sleep, are awake, or have left, and how far they are from leaving.
use coasio.Common.{
  tally, ℕ, zero, suc, ◌+◌, ◌*◌, ◌≤◌, ◌≡◌, refl, ap, List, [], ◌∷◌, map, arith, length,
}
use coasio.Runtime.Workers.{Pc, testing, fetching, asleep, resuming, left, awoken, idle_workers}

abbrev pub asleep_bit : Pc → ℕ
asleep_bit asleep = 1
asleep_bit _ = 0

abbrev pub left_bit : Pc → ℕ
left_bit left = 1
left_bit _ = 0

abbrev pub awake_bit : Pc → ℕ
awake_bit asleep = 0
awake_bit left = 0
awake_bit _ = 1

-- The most steps that a worker still makes once a stop is requested.
abbrev pub rank : Pc → ℕ
rank left = 0
rank testing = 1
rank (resuming h) = 2
rank fetching = 3
rank asleep = 4

pub length-awoken : (ws : List Pc) → length (map awoken ws) ≡ length ws
length-awoken [] = refl
length-awoken (w ∷ ws) = ap suc (length-awoken ws)

pub tally-awoken : (ws : List Pc) → tally asleep_bit (map awoken ws) ≡ 0
unfolding tally
tally-awoken [] = refl
tally-awoken (testing ∷ ws) = omega (arith, tally-awoken ws)
tally-awoken (fetching ∷ ws) = omega (arith, tally-awoken ws)
tally-awoken (asleep ∷ ws) = omega (arith, tally-awoken ws)
tally-awoken (resuming h ∷ ws) = omega (arith, tally-awoken ws)
tally-awoken (left ∷ ws) = omega (arith, tally-awoken ws)

pub rank-awoken : (ws : List Pc) → tally rank (map awoken ws) ≤ tally rank ws
unfolding tally
rank-awoken [] = omega arith
rank-awoken (testing ∷ ws) = omega (arith, rank-awoken ws)
rank-awoken (fetching ∷ ws) = omega (arith, rank-awoken ws)
rank-awoken (asleep ∷ ws) = omega (arith, rank-awoken ws)
rank-awoken (resuming h ∷ ws) = omega (arith, rank-awoken ws)
rank-awoken (left ∷ ws) = omega (arith, rank-awoken ws)

pub rank-le : (ws : List Pc) → tally rank ws ≤ 4 * length ws
unfolding tally
rank-le [] = omega arith
rank-le (testing ∷ ws) = omega (arith, rank-le ws)
rank-le (fetching ∷ ws) = omega (arith, rank-le ws)
rank-le (asleep ∷ ws) = omega (arith, rank-le ws)
rank-le (resuming h ∷ ws) = omega (arith, rank-le ws)
rank-le (left ∷ ws) = omega (arith, rank-le ws)

-- Every worker sleeps, is awake, or has left.
pub tally_parts :
    (ws : List Pc) → tally asleep_bit ws + tally awake_bit ws + tally left_bit ws ≡ length ws
unfolding tally
tally_parts [] = omega arith
tally_parts (testing ∷ ws) = omega (arith, tally_parts ws)
tally_parts (fetching ∷ ws) = omega (arith, tally_parts ws)
tally_parts (asleep ∷ ws) = omega (arith, tally_parts ws)
tally_parts (resuming h ∷ ws) = omega (arith, tally_parts ws)
tally_parts (left ∷ ws) = omega (arith, tally_parts ws)

pub tally_idle : (n : ℕ) → tally left_bit (idle_workers n) ≡ 0
unfolding tally
tally_idle zero = refl
tally_idle (suc n) = omega (arith, tally_idle n)

pub tally_idle_asleep : (n : ℕ) → tally asleep_bit (idle_workers n) ≡ 0
unfolding tally
tally_idle_asleep zero = refl
tally_idle_asleep (suc n) = omega (arith, tally_idle_asleep n)

pub length_idle : (n : ℕ) → length (idle_workers n) ≡ n
length_idle zero = refl
length_idle (suc n) = ap suc (length_idle n)
