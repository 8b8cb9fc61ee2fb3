-- ===== src/Blocking/Examples.antt =====
-- Examples: runs of one blocking awaiter, and a small pool.
use coasio.Common.{ℕ, ◌≤◌, ◌≡◌, ◌⊎◌, refl, true, false, not, ◌&&◌, [], ◌∷◌, some, arith, ◌==◌}
use coasio.Error.{ok}
use coasio.Blocking.{returned, await_resume}
use coasio.Blocking.Pool.{
  Pool, enqueue, try_cancel, worker_loop, worker_loop-drains, enqueue-try_cancel,
}
use coasio.Blocking.Progress.{Later, GoesOn, never_stuck}
use coasio.Blocking.Race
use coasio.Blocking.Race.{
  World, start, Reach, here, next, returned_false, cb_of, scheduled_at_most_once,
  no_lost_cancellation, published_result,
}

-- The block is in the queue and not yet known to the awaiter.
abbrev in_queue : World
in_queue = record (start false false) { pc = Race.enqueued; queued = true }

in_queue-Reach : Reach false false in_queue
in_queue-Reach = next (next here (Race.arm refl refl)) (Race.enqueue refl refl)

-- The awaiter is suspended, and the function has run.
abbrev executed_world : World
executed_world = record in_queue {
  pc = Race.suspended;
  queued = false;
  published_cb = true;
  executed = true;
  scheduled = 1;
}

executed_world-Reach : Reach false false executed_world
executed_world-Reach =
    next
      (next (next (next in_queue-Reach (Race.publish refl)) (Race.see_live refl refl))
        (Race.worker_takes refl))
      (Race.worker_executes refl)

scheduled_at_most_once_example :
    (executed_world.scheduled ≤ 1)
    × ((executed_world.executed && executed_world.marked) ≡ false)
    × ((returned_false executed_world.pc && (0 == executed_world.scheduled))
        ≡ returned_false executed_world.pc)
scheduled_at_most_once_example =
    scheduled_at_most_once false false executed_world executed_world-Reach

published_result_example : await_resume {A = ℕ} (cb_of executed_world 7) ≡ returned (ok 7)
published_result_example =
    published_result 7 false false executed_world executed_world-Reach refl (ground arith)

-- The scope was cancelled before the block was known, and the awaiter gave it up itself.
abbrev given_up_world : World
given_up_world = record in_queue {
  pc = Race.suspended;
  queued = false;
  published_cb = true;
  off = true;
  firing = false;
  marked = true;
  scheduled = 1;
}

given_up_world-Reach : Reach false false given_up_world
given_up_world-Reach =
    next
      (next
        (next (next (next in_queue-Reach (Race.publish refl)) (Race.scope_off refl))
          (Race.see_cancelled refl refl))
        (Race.self_cancel refl refl))
      (Race.callback_late refl refl)

no_lost_cancellation_example :
    (given_up_world.queued ≡ false)
    × ((given_up_world.running ≡ true) ⊎ (given_up_world.scheduled ≡ 1))
no_lost_cancellation_example =
    no_lost_cancellation false false given_up_world given_up_world-Reach refl refl refl

worker_loop-drains_run :
    worker_loop 4 (record { queue = 5 ∷ 6 ∷ 7 ∷ []; stop = true }) ≡ some (5 ∷ 6 ∷ 7 ∷ [])
worker_loop-drains_run = worker_loop-drains 3 (5 ∷ 6 ∷ 7 ∷ []) (ground arith)

abbrev small_pool : Pool
small_pool = record { queue = 5 ∷ 6 ∷ []; stop = false }

enqueue-try_cancel_run :
    let (p', taken) = enqueue small_pool 7 in
    (taken ≡ not small_pool.stop) × (try_cancel p' 7 ≡ (small_pool, taken))
enqueue-try_cancel_run = enqueue-try_cancel small_pool 7 refl

never_stuck_example : (u : World) × Later in_queue u × GoesOn u
never_stuck_example = never_stuck false false in_queue in_queue-Reach
