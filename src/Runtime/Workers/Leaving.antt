-- ===== src/Runtime/Workers/Leaving.antt =====
-- Once a stop is requested, every step of a worker or of the destructor brings the end nearer, and
-- after `notify_all` nobody sleeps.
use coasio.Common.{
  tally, tally_here, tally-move, index-lt, ℕ, ◌+◌, ◌-◌, ◌≤◌, ◌<◌, ◌≡◌, ap, Bool, true, false, List,
  arith,
}
use coasio.Links.{Ptr}
use coasio.Runtime.{Runtime, get_next_task_from_queue}
use coasio.Runtime.Workers.{
  Pc, fetching, asleep, left, Phase, before_stop, stop_set, notified, guard_reset, polled, World,
  Notified, one, nobody, Turn, goes_on, leaves, sleeps, gets_nothing, takes, resumed, Work, turns,
  notifies_all, resets_guard, polls, io_returns, joins_io, joins_worker, Outside, schedules,
  wakes_unasked, stops, Step, works, happens, Reach, here, next,
}
use coasio.Runtime.Workers.Counting.{asleep_bit, rank, tally-awoken, rank-awoken}
use coasio.Runtime.Workers.Invariant.{Inv, Reach-Inv}
use coasio.Runtime.Workers.Turns.{next_of-waits}

abbrev pub is_past_notify : Phase → Bool
is_past_notify before_stop = false
is_past_notify stop_set = false
is_past_notify _ = true

abbrev pub phase_rank : Phase → ℕ
phase_rank stop_set = 4
phase_rank notified = 3
phase_rank guard_reset = 2
phase_rank polled = 1
phase_rank _ = 0

Notified-rank : (ws ws' : List Pc) → Notified ws ws' → tally rank ws' ≤ tally rank ws
Notified-rank ws _ (one xs ys e) =
    omega (arith, tally-move rank xs asleep fetching ys, ap (tally rank) e)
Notified-rank ws _ (nobody e) = omega arith

Notified-quiet :
    (ws ws' : List Pc) → Notified ws ws' → tally asleep_bit ws ≡ 0 → tally asleep_bit ws' ≡ 0
Notified-quiet ws _ (one xs ys e) q =
    absurd (omega (arith, tally_here asleep_bit ws xs asleep ys e))
Notified-quiet ws _ (nobody e) q = q

module _ {ℓ} {A : Type ℓ} where
  -- With a stop requested every turn brings its worker nearer to leaving.
  Turn-rank :
      {r r' : Runtime A} {p q : Pc} {t : List Ptr}
      → Turn r p q r' t
      → r.stop_requested ≡ true
      → (rank q < rank p) × (asleep_bit q ≤ asleep_bit p)
  unfolding get_next_task_from_queue
  Turn-rank (goes_on e) off = cc
  Turn-rank (leaves e) off = omega arith
  Turn-rank {r} (sleeps e) off = let e' = (next_of-waits r.stop_requested r.global_tasks e).0 in cc
  Turn-rank (gets_nothing e) off = omega arith
  Turn-rank (takes h e) off = omega arith
  Turn-rank (resumed h) off = omega arith

  abbrev pub Quiet : World A → Type 0
  Quiet w = is_past_notify w.phase ≡ true → tally asleep_bit w.workers ≡ 0

  stopped-past :
      {n : ℕ} (w : World A) → Inv n w → is_past_notify w.phase ≡ true → w.rt.stop_requested ≡ true
  stopped-past w i past = ground (arith, i.flag)

  pub Step-Quiet : {n : ℕ} {w w' : World A} → Step w w' → Inv n w → Quiet w → Quiet w'
  Step-Quiet {w} (works (turns xs ys p q r t at turn)) i quiet past = omega (
    arith,
    tally-move asleep_bit xs p q ys,
    quiet past,
    ap (tally asleep_bit) at,
    Turn-rank turn (stopped-past w i past),
  )
  Step-Quiet {w} (works (notifies_all p)) i quiet past = tally-awoken w.workers
  Step-Quiet {w} (works (resets_guard p)) i quiet past = quiet (ground (arith, p))
  Step-Quiet {w} (works (polls p)) i quiet past = quiet (ground (arith, p))
  Step-Quiet {w} (works (io_returns k late e)) i quiet past = quiet past
  Step-Quiet {w} (works (joins_io p e)) i quiet past = quiet (ground (arith, p))
  Step-Quiet (works (joins_worker xs ys p at k)) i quiet past = quiet past
  Step-Quiet {w} (happens (schedules h ws some_task woken)) i quiet past =
      Notified-quiet w.workers ws woken (quiet past)
  Step-Quiet {w} (happens (wakes_unasked xs ys at)) i quiet past =
      absurd (omega (arith, tally_here asleep_bit w.workers xs asleep ys at, quiet past))
  Step-Quiet (happens (stops p)) i quiet past = cc

  pub Reach-Quiet : {n : ℕ} {v : World A} (w : World A) → Inv n v → Quiet v → Reach v w → Quiet w
  Reach-Quiet w i q here = q
  Reach-Quiet w i q (next {w = u} r st) = Step-Quiet st (Reach-Inv u i r) (Reach-Quiet u i q r)

  unfoldable pub measure : ℕ → World A → ℕ
  measure n w = tally rank w.workers + phase_rank w.phase + w.io_running + (n - w.joined)

  pub Work-measure :
      {n : ℕ} {w w' : World A}
      → Work w w'
      → Inv n w
      → w.rt.stop_requested ≡ true
      → measure n w' < measure n w
  unfolding measure
  Work-measure {w} (turns xs ys p q r t at turn) i off =
      omega (arith, tally-move rank xs p q ys, ap (tally rank) at, Turn-rank turn off)
  Work-measure {w} (notifies_all p) i off = omega (arith, rank-awoken w.workers, ap phase_rank p)
  Work-measure {w} (resets_guard p) i off = omega (arith, ap phase_rank p)
  Work-measure {w} (polls p) i off = omega (arith, ap phase_rank p)
  Work-measure {w} (io_returns k late e) i off = omega (arith, e)
  Work-measure {w} (joins_io p e) i off = omega (arith, ap phase_rank p)
  Work-measure {w} (joins_worker xs ys p at k) i off =
      omega (arith, index-lt w.workers xs left ys at, i.sized)

  pub Outside-measure :
      {n : ℕ} {w w' : World A}
      → Outside w w'
      → Inv n w
      → w.rt.stop_requested ≡ true
      → measure n w' ≤ measure n w
  unfolding measure
  Outside-measure {w} (schedules h ws some_task woken) i off =
      omega (arith, Notified-rank w.workers ws woken)
  Outside-measure {w} (wakes_unasked xs ys at) i off =
      omega (arith, tally-move rank xs asleep fetching ys, ap (tally rank) at)
  Outside-measure {w} (stops p) i off = ground (arith, i.flag, p)
