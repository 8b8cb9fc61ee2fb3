-- ===== src/Blocking/Pool/Examples.antt =====
-- Examples: a pool of one thread, which is handed function 5 and destroyed.
use coasio.Common.{◌+◌, ◌*◌, ◌≤◌, ◌≡◌, refl, ◌⊎◌, true, [], ◌∷◌, arith, length, times}
use coasio.Blocking.Pool.{leave, run_item, turn_of, worker_turn, enqueue, shut_down, fresh_pool}
use coasio.Blocking.Pool.Threads.{
  fetching, executing, left, stop_set, joining, World, nobody, leaves, takes, executes, Work,
  rounds, notifies_all, joins_thread, enqueues, stops, works, happens, Reach, here, next,
  begin_world,
}
use coasio.Blocking.Pool.Threads.Leftovers.{nothing_left_behind}
use coasio.Blocking.Pool.Threads.Joining.{start, work, Ended, Goes, destructor_ends}

abbrev handed : World
handed = record (begin_world 1) { pool = (enqueue fresh_pool 5).0; accepted = 5 ∷ [] }

abbrev stopping : World
stopping = record handed { phase = stop_set; pool = shut_down handed.pool }

abbrev taken : World
taken = record stopping { pool = (worker_turn stopping.pool).1; threads = executing 5 ∷ [] }

abbrev executed : World
executed = record taken { threads = fetching ∷ []; finished = 5 ∷ [] }

abbrev ended : World
ended = record executed {
  pool = (worker_turn executed.pool).1;
  threads = left ∷ [];
  phase = joining;
  joined = 1;
}

enqueue_taken : (enqueue fresh_pool 5).1 ≡ true
unfolding enqueue fresh_pool
enqueue_taken = refl

stopping-Reach : Reach (begin_world 1) stopping
stopping-Reach =
    next (next here (happens (enqueues 5 (fetching ∷ []) enqueue_taken (nobody refl))))
      (happens (stops refl))

stopping_off : stopping.pool.stop ≡ true
unfolding shut_down
stopping_off = refl

stopping_head : (worker_turn stopping.pool).0 ≡ run_item 5
unfolding worker_turn turn_of shut_down enqueue fresh_pool
stopping_head = refl

executed_leave : (worker_turn executed.pool).0 ≡ leave
unfolding worker_turn turn_of shut_down enqueue fresh_pool
executed_leave = refl

takes_five : Work stopping taken
takes_five = rounds [] [] fetching (executing 5) taken.pool [] refl (takes 5 stopping_head)

executed-Reach : Reach (begin_world 1) executed
executed-Reach =
    next (next stopping-Reach (works takes_five))
      (works (rounds [] [] (executing 5) fetching taken.pool (5 ∷ []) refl (executes 5)))

ended-Reach : Reach (begin_world 1) ended
ended-Reach =
    next
      (next (next executed-Reach (works (notifies_all refl)))
        (works (rounds [] [] fetching left ended.pool [] refl (leaves executed_leave))))
      (works (joins_thread [] [] refl refl refl))

nothing_left_behind_example :
    (ended.pool.queue ≡ [])
    × (ended.pool.stop ≡ true)
    × (times 5 ended.accepted ≡ times 5 ended.finished + times 5 ended.given_up)
nothing_left_behind_example = nothing_left_behind 1 ended 5 (omega arith) ended-Reach refl

destructor_ends_example :
    (1 ≤ 2 * length stopping.pool.queue + 3 * 1 + 1) × (Ended 1 taken ⊎ Goes taken)
destructor_ends_example =
    destructor_ends 1 1 stopping taken stopping-Reach stopping_off (work start takes_five)
