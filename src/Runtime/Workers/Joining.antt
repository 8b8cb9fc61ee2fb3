-- ===== src/Runtime/Workers/Joining.antt =====
-- The end of `~runtime()`: with a stop requested the destructor has joined all workers after a
-- bounded number of steps, if the coroutines that are resumed come back.
use coasio.Common.{
  tally, tally_here, split_at, ℕ, zero, suc, ◌+◌, ◌*◌, ◌≤◌, ◌<◌, ◌≡◌, refl, ap, ◌∙◌, ◌⊎◌, inl, inr,
  true, false, List, [], ◌∷◌, ◌++◌, arith, length, dec_lt,
}
use coasio.Links.{Ptr}
use coasio.Runtime.{
  Runtime, nothing, next_task, next_of, get_next_task_from_queue, request_stop, schedule,
  put_task_in_queue,
}
use coasio.Runtime.Workers.{
  Pc, testing, fetching, asleep, resuming, left, Phase, before_stop, stop_set, notified,
  guard_reset, polled, is_guard_reset, joining, World, leaves, gets_nothing, takes, resumed, Work,
  turns, notifies_all, resets_guard, polls, io_returns, joins_io, joins_worker, Outside, stops,
  works, happens, Reach, here, next, Step, begin_world, schedules, wakes_unasked,
}
use coasio.Runtime.Workers.Counting.{asleep_bit, rank-le}
use coasio.Runtime.Workers.Invariant.{Inv, Step-Inv, Reach-Inv, begin-Inv}
use coasio.Runtime.Workers.Serving.{Work-stop_requested}
use coasio.Runtime.Workers.Leaving.{
  Quiet, Step-Quiet, Reach-Quiet, measure, Work-measure, Outside-measure, phase_rank,
}

phase_rank-le : (p : Phase) → phase_rank p ≤ 4
phase_rank-le before_stop = omega arith
phase_rank-le stop_set = omega arith
phase_rank-le notified = omega arith
phase_rank-le guard_reset = omega arith
phase_rank-le polled = omega arith
phase_rank-le joining = omega arith

module _ {ℓ} {A : Type ℓ} where
  -- So many steps of workers and of the destructor, whatever happens in between.
  pub data Run (v : World A) : ℕ → World A → Type ℓ where
    start : Run v 0 v
    work : {k : ℕ} {w w' : World A} → Run v k w → Work w w' → Run v (suc k) w'
    outside : {k : ℕ} {w w' : World A} → Run v k w → Outside w w' → Run v k w'

  -- The destructor has joined all `n` workers.
  abbrev pub Ended : ℕ → World A → Type 0
  Ended n w = (w.phase ≡ joining) × (w.joined ≡ n)

  get-empty :
      (r : Runtime A)
      → r.stop_requested ≡ true
      → r.global_tasks ≡ []
      → (get_next_task_from_queue r).0 ≡ nothing
  unfolding get_next_task_from_queue next_of
  get-empty r off e = ap (λ q. (next_of r.stop_requested q).0) e ∙ rw off refl

  get-head :
      (r : Runtime A) (h : Ptr) (rest : List Ptr)
      → r.global_tasks ≡ h ∷ rest
      → (get_next_task_from_queue r).0 ≡ next_task h
  unfolding get_next_task_from_queue next_of
  get-head r h rest e = ap (λ q. (next_of r.stop_requested q).0) e

  -- Somebody can go on.
  abbrev pub Goes : World A → Type ℓ
  Goes w = (w' : World A) × Work w w'

  fetching-Goes :
      (w : World A) (xs ys : List Pc) (q : List Ptr)
      → w.workers ≡ xs ++ fetching ∷ ys
      → w.rt.stop_requested ≡ true
      → w.rt.global_tasks ≡ q
      → Goes w
  fetching-Goes w xs ys [] at off e =
      (_, turns xs ys fetching testing _ [] at (gets_nothing (get-empty w.rt off e)))
  fetching-Goes w xs ys (h ∷ rest) at off e =
      (_, turns xs ys fetching (resuming h) _ (h ∷ []) at (takes h (get-head w.rt h rest e)))

  worker-Goes :
      (w : World A) (xs : List Pc) (p : Pc) (ys : List Pc)
      → w.workers ≡ xs ++ p ∷ ys
      → w.joined ≡ length xs
      → w.phase ≡ joining
      → w.rt.stop_requested ≡ true
      → tally asleep_bit w.workers ≡ 0
      → Goes w
  worker-Goes w xs testing ys at k p off q = (_, turns xs ys testing left w.rt [] at (leaves off))
  worker-Goes w xs fetching ys at k p off q = fetching-Goes w xs ys w.rt.global_tasks at off refl
  worker-Goes w xs (resuming h) ys at k p off q =
      (_, turns xs ys (resuming h) testing w.rt [] at (resumed h))
  worker-Goes w xs left ys at k p off q = (_, joins_worker xs ys p at k)
  worker-Goes w xs asleep ys at k p off q =
      absurd (omega (arith, tally_here asleep_bit w.workers xs asleep ys at))

  joining-Goes :
      (n : ℕ) (w : World A)
      → Inv n w
      → Quiet w
      → w.phase ≡ joining
      → w.rt.stop_requested ≡ true
      → w.joined < n
      → Goes w
  joining-Goes n w i quiet p off some =
      let (xs, pc, ys, at, k) = split_at w.workers w.joined (omega (arith, i.sized, some)) in
      worker-Goes w xs pc ys at k p off (quiet (ground (arith, p)))

  -- The io threads return before they are joined.
  polled-Goes : (w : World A) (k : ℕ) → w.phase ≡ polled → w.io_running ≡ k → Goes w
  polled-Goes w zero p e = (_, joins_io p e)
  polled-Goes w (suc k) p e = (_, io_returns k (ap is_guard_reset p) e)

  Ended-or-Goes :
      (n : ℕ) (w : World A) (ph : Phase)
      → w.phase ≡ ph
      → Inv n w
      → Quiet w
      → w.rt.stop_requested ≡ true
      → Ended n w ⊎ Goes w
  Ended-or-Goes n w before_stop p i quiet off = absurd (ground (arith, i.flag, p))
  Ended-or-Goes n w stop_set p i quiet off = inr (_, notifies_all p)
  Ended-or-Goes n w notified p i quiet off = inr (_, resets_guard p)
  Ended-or-Goes n w guard_reset p i quiet off = inr (_, polls p)
  Ended-or-Goes n w polled p i quiet off = inr (polled-Goes w w.io_running p refl)
  Ended-or-Goes n w joining p i quiet off = elim (dec_lt w.joined n) [
    | yes some ↦ inr (joining-Goes n w i quiet p off some)
    | no all ↦ inl (p, omega (arith, i.bounded, all))
  ]

  schedule-stop_requested :
      (r : Runtime A) (h : Ptr) → (schedule r h).stop_requested ≡ r.stop_requested
  unfolding schedule put_task_in_queue
  schedule-stop_requested r h = ground arith

  Outside-stop :
      {w w' : World A} → Outside w w' → w.rt.stop_requested ≡ true → w'.rt.stop_requested ≡ true
  unfolding request_stop
  Outside-stop {w} (schedules h ws some_task woken) off = schedule-stop_requested w.rt h ∙ off
  Outside-stop (wakes_unasked xs ys at) off = off
  Outside-stop (stops p) off = refl

  record Bounded (n m k : ℕ) (w : World A) : Type ℓ where
    pub inv : Inv n w
    pub quiet : Quiet w
    pub off : w.rt.stop_requested ≡ true
    pub nearer : measure n w + k ≤ m

  Run-Bounded :
      {n m : ℕ} {v : World A} {k : ℕ} (w : World A) → Bounded n m 0 v → Run v k w → Bounded n m k w
  Run-Bounded w b start = b
  Run-Bounded w b (work {w = u} r st) =
      let c = Run-Bounded u b r in
      record {
        inv = Step-Inv (works st) c.inv;
        quiet = Step-Quiet (works st) c.inv c.quiet;
        off = Work-stop_requested st ∙ c.off;
        nearer = omega (arith, c.nearer, Work-measure st c.inv c.off);
      }
  Run-Bounded w b (outside {w = u} r st) =
      let c = Run-Bounded u b r in
      record {
        inv = Step-Inv (happens st) c.inv;
        quiet = Step-Quiet (happens st) c.inv c.quiet;
        off = Outside-stop st c.off;
        nearer = omega (arith, c.nearer, Outside-measure st c.inv c.off);
      }

  -- Io threads return, and none is started.
  Step-io : {w w' : World A} → Step w w' → w'.io_running ≤ w.io_running
  Step-io (works (turns xs ys p q r t at turn)) = omega arith
  Step-io (works (notifies_all p)) = omega arith
  Step-io (works (resets_guard p)) = omega arith
  Step-io (works (polls p)) = omega arith
  Step-io (works (io_returns k late e)) = omega (arith, e)
  Step-io (works (joins_io p e)) = omega arith
  Step-io (works (joins_worker xs ys p at k)) = omega arith
  Step-io (happens (schedules h ws some_task woken)) = omega arith
  Step-io (happens (wakes_unasked xs ys at)) = omega arith
  Step-io (happens (stops p)) = omega arith

  Reach-io : {v : World A} (w : World A) → Reach v w → w.io_running ≤ v.io_running
  Reach-io w here = omega arith
  Reach-io w (next {w = u} r st) = omega (arith, Reach-io u r, Step-io st)

  measure-le : (n : ℕ) (w : World A) → Inv n w → measure n w ≤ 5 * n + w.io_running + 4
  unfolding measure
  measure-le n w i = omega (arith, rank-le w.workers, i.sized, phase_rank-le w.phase)

  -- From a runtime that was just made, with `n` workers and `io` io threads, when a stop has been
  -- requested in any interleaving: workers, io threads and destructor together make at most `5 *
  -- n + io + 4` more steps, whatever coroutines are scheduled in between; and after any number of
  -- them the destructor has joined all workers, behind the io threads, or another of these steps
  -- can be made, with no wake-up without a reason. A resumed coroutine that gives its thread
  -- back, and an io thread that leaves asio's loop behind the reset of the guard, count as such
  -- steps.
  pub joins_end :
      (r : Runtime A) (n io k : ℕ) (v w : World A)
      → r.global_tasks ≡ []
      → r.stop_requested ≡ false
      → Reach (begin_world r n io) v
      → v.rt.stop_requested ≡ true
      → Run v k w
      → (k ≤ 5 * n + io + 4) × (Ended n w ⊎ Goes w)
  joins_end r n io k v w empty live reach off run =
      let begun = begin-Inv r n io empty live in
      let i = Reach-Inv v begun reach in
      let b =
        Run-Bounded {m = 5 * n + io + 4} w
          (record {
            inv = i;
            quiet = Reach-Quiet v begun (λ past. cc) reach;
            off = off;
            nearer = omega (arith, measure-le n v i, Reach-io v reach);
          })
          run in
      (omega (arith, b.nearer), Ended-or-Goes n w w.phase refl b.inv b.quiet b.off)
