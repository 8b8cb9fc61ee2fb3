-- ===== src/Blocking/Pool/Threads/Leaving.antt =====
-- Once the flag is set, every step of a thread of the pool or of its destructor brings the end nearer,
-- and after `notify_all` nobody sleeps.
use coasio.Common.{
  ℕ, suc, ◌+◌, ◌-◌, ◌*◌, ◌≤◌, ◌<◌, ◌≡◌, refl, ap, ◌∙◌, Bool, true, false, List, [], ◌∷◌, map, arith,
  length, tally, tally-move, index-lt, length-erase,
}
use coasio.Blocking.Pool.{Pool, run_item, turn_of, worker_turn, enqueue, shut_down}
use coasio.Blocking.Pool.Threads.{
  Pc, fetching, asleep, executing, left, Phase, stop_set, joining, has_stopped, World, awoken,
  Notified, one, nobody, Round, sleeps, leaves, takes, executes, Work, rounds, notifies_all,
  joins_thread, Outside, enqueues, gives_up, wakes_unasked, stops,
}
use coasio.Blocking.Pool.Threads.Rounds.{Round-Kept, enqueue-taken, try_cancel-found, turn_of-again}
use coasio.Blocking.Pool.Threads.Leftovers.{Inv}

abbrev pub asleep_bit : Pc → ℕ
asleep_bit asleep = 1
asleep_bit _ = 0

abbrev pub rank : Pc → ℕ
rank left = 0
rank fetching = 1
rank asleep = 2
rank (executing item) = 2

abbrev pub phase_rank : Phase → ℕ
phase_rank stop_set = 1
phase_rank _ = 0

abbrev pub is_joining : Phase → Bool
is_joining joining = true
is_joining _ = false

pub rank-le : (ws : List Pc) → tally rank ws ≤ 2 * length ws
unfolding tally
rank-le [] = omega arith
rank-le (fetching ∷ ws) = omega (arith, rank-le ws)
rank-le (asleep ∷ ws) = omega (arith, rank-le ws)
rank-le (executing i ∷ ws) = omega (arith, rank-le ws)
rank-le (left ∷ ws) = omega (arith, rank-le ws)

awoken_lem :
    (ws : List Pc)
    → (tally rank (map awoken ws) ≤ tally rank ws) × (tally asleep_bit (map awoken ws) ≡ 0)
unfolding tally
awoken_lem [] = omega arith
awoken_lem (fetching ∷ ws) = omega (arith, awoken_lem ws)
awoken_lem (asleep ∷ ws) = omega (arith, awoken_lem ws)
awoken_lem (executing i ∷ ws) = omega (arith, awoken_lem ws)
awoken_lem (left ∷ ws) = omega (arith, awoken_lem ws)

turn_of-length :
    (stop : Bool) (q : List ℕ) (item : ℕ)
    → (turn_of stop q).0 ≡ run_item item
    → length q ≡ suc (length (turn_of stop q).1)
unfolding turn_of
turn_of-length true [] item e = cc
turn_of-length false [] item e = cc
turn_of-length stop (x ∷ q) item e = refl

turn_of-shorter : (stop : Bool) (q : List ℕ) → length (turn_of stop q).1 ≤ length q
unfolding turn_of
turn_of-shorter stop [] = omega arith
turn_of-shorter stop (x ∷ q) = omega arith

enqueue-stop : (p : Pool) (item : ℕ) → (enqueue p item).0.stop ≡ p.stop
unfolding enqueue
enqueue-stop p item = ground arith

-- With the flag set a round brings its thread nearer to leaving, or empties the queue by one.
Round-rank :
    {p r : Pool} {a b : Pc} {t : List ℕ}
    → Round p a b r t
    → p.stop ≡ true
    → (rank b + 2 * length r.queue < rank a + 2 * length p.queue) × (asleep_bit b ≤ asleep_bit a)
unfolding worker_turn
Round-rank {p} (sleeps e) off = let live = (turn_of-again p.stop p.queue e).2 in cc
Round-rank {p} (leaves e) off = omega (arith, turn_of-shorter p.stop p.queue)
Round-rank {p} (takes item e) off = omega (arith, turn_of-length p.stop p.queue item e)
Round-rank (executes item) off = omega arith

-- The flag and the phase; behind `notify_all` nobody sleeps.
pub record Calm (n : ℕ) (w : World) : Type 0 where
  pub flag : w.pool.stop ≡ has_stopped w.phase
  pub quiet : is_joining w.phase ≡ true → tally asleep_bit w.threads ≡ 0
  pub bounded : w.joined ≤ n

joining-stop : {n : ℕ} (w : World) → Calm n w → is_joining w.phase ≡ true → w.pool.stop ≡ true
joining-stop w c p = ground (arith, c.flag)

pub Work-Calm : {n : ℕ} {w w' : World} → Work w w' → Inv n w → Calm n w → Calm n w'
Work-Calm {w} (rounds xs ys p q r t at round) i c = record {
  flag = (Round-Kept (λ _. 0) round).stop ∙ c.flag;
  quiet = λ h. omega (
    arith,
    tally-move asleep_bit xs p q ys,
    c.quiet h,
    ap (tally asleep_bit) at,
    Round-rank round (joining-stop w c h),
  );
  bounded = c.bounded;
}
Work-Calm {w} (notifies_all p) i c = record {
  flag = ground (arith, c.flag, p);
  quiet = λ h. (awoken_lem w.threads).1;
  bounded = c.bounded;
}
Work-Calm {w} (joins_thread xs ys p at k) i c = record {
  flag = c.flag;
  quiet = c.quiet;
  bounded = omega (arith, i.sized, index-lt w.threads xs left ys at);
}

Notified-rank :
    (ws ws' : List Pc)
    → Notified ws ws'
    → (tally rank ws' ≤ tally rank ws) × (tally asleep_bit ws' ≤ tally asleep_bit ws)
Notified-rank ws _ (one xs ys e) = omega (
  arith,
  tally-move rank xs asleep fetching ys,
  ap (tally rank) e,
  tally-move asleep_bit xs asleep fetching ys,
  ap (tally asleep_bit) e,
)
Notified-rank ws _ (nobody e) = omega arith

pub Outside-Calm : {n : ℕ} {w w' : World} → Outside w w' → Calm n w → Calm n w'
unfolding shut_down
Outside-Calm {w} (enqueues item ws taken note) c = record {
  flag = enqueue-stop w.pool item ∙ c.flag;
  quiet = λ h. omega (arith, Notified-rank w.threads ws note, c.quiet h);
  bounded = c.bounded;
}
Outside-Calm {w} (gives_up item found) c = record {
  flag = (try_cancel-found w.pool item found).2 ∙ c.flag;
  quiet = c.quiet;
  bounded = c.bounded;
}
Outside-Calm {w} (wakes_unasked xs ys at) c = record {
  flag = c.flag;
  quiet = λ h. omega (arith, Notified-rank w.threads _ (one xs ys at), c.quiet h);
  bounded = c.bounded;
}
Outside-Calm (stops p) c = record { flag = refl; quiet = λ h. cc; bounded = c.bounded }

unfoldable pub measure : ℕ → World → ℕ
measure n w = 2 * length w.pool.queue + tally rank w.threads + phase_rank w.phase + (n - w.joined)

pub Work-measure :
    {n : ℕ} {w w' : World} → Work w w' → Inv n w → w.pool.stop ≡ true → measure n w' < measure n w
unfolding measure
Work-measure {w} (rounds xs ys p q r t at round) i off =
    omega (arith, tally-move rank xs p q ys, ap (tally rank) at, Round-rank round off)
Work-measure {w} (notifies_all p) i off = omega (arith, awoken_lem w.threads, ap phase_rank p)
Work-measure {w} (joins_thread xs ys p at k) i off =
    omega (arith, index-lt w.threads xs left ys at, i.sized)

pub Outside-measure :
    {n : ℕ} {w w' : World}
    → Outside w w'
    → Calm n w
    → w.pool.stop ≡ true
    → (measure n w' ≤ measure n w) × (w'.pool.stop ≡ true)
unfolding measure
Outside-measure {w} (enqueues item ws taken note) c off =
    let live = (enqueue-taken w.pool item taken).0 in cc
Outside-measure {w} (gives_up item found) c off =
    let (on, queue, stop) = try_cancel-found w.pool item found in
    (omega (arith, ap length queue, length-erase item w.pool.queue), stop ∙ off)
Outside-measure {w} (wakes_unasked xs ys at) c off =
    (omega (arith, Notified-rank w.threads _ (one xs ys at)), off)
Outside-measure {w} (stops p) c off = absurd (ground (arith, c.flag, p))
