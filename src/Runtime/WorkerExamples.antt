-- ===== src/Runtime/WorkerExamples.antt =====
-- Examples: two workers, of which one has fallen asleep when coroutine 5 is scheduled.
use coasio.Common.{tally, ℕ, ◌+◌, ◌*◌, ◌≤◌, ◌≡◌, refl, ◌⊎◌, true, false, [], ◌∷◌, ◌++◌, length}
use coasio.Links.{null}
use coasio.Oneshot.{fresh_state}
use coasio.Task.{Frame, fresh_promise}
use coasio.Runtime.{
  Runtime, waits, next_task, next_of, schedule, put_task_in_queue, get_next_task_from_queue,
  request_stop, start_threads,
}
use coasio.Runtime.Workers.{
  testing, fetching, asleep, resuming, before_stop, stop_set, World, one, goes_on, sleeps, takes,
  Work, turns, schedules, stops, works, happens, Reach, here, next, begin_world,
}
use coasio.Runtime.Workers.Counting.{asleep_bit, left_bit, awake_bit}
use coasio.Runtime.Workers.Invariant.{taken_in_order, enough_awake}
use coasio.Runtime.Workers.Serving.{Works, all_served}
use coasio.Runtime.Workers.Joining.{start, work, Ended, Goes, joins_end}

abbrev frame : Frame ℕ
frame = record { promise = fresh_promise; done = false; destroyed = false }

abbrev idle : Runtime ℕ
idle = record {
  global_tasks = [];
  stop_requested = false;
  links = record { next = λ a. null; prev = λ a. null };
  roots_head = null;
  live_roots = 0;
  frames = λ a. frame;
  channels = λ a. fresh_state;
}

abbrev waited : Runtime ℕ
waited = (get_next_task_from_queue idle).1

abbrev one_asleep : World ℕ
one_asleep = record {
  rt = waited;
  workers = asleep ∷ testing ∷ [];
  phase = before_stop;
  joined = 0;
  io_running = 1;
  scheduled = [];
  taken = [];
}

abbrev one_woken : World ℕ
one_woken = record one_asleep {
  rt = schedule waited 5;
  workers = fetching ∷ testing ∷ [];
  scheduled = 5 ∷ [];
}

idle_waits : (get_next_task_from_queue idle).0 ≡ waits
unfolding get_next_task_from_queue next_of
idle_waits = refl

woken-Reach : Reach (begin_world idle 2 1) one_woken
woken-Reach =
    next
      (next
        (next here (works (turns [] (testing ∷ []) testing fetching idle [] refl (goes_on refl))))
        (works (turns [] (testing ∷ []) fetching asleep waited [] refl (sleeps idle_waits))))
      (happens (schedules 5 (fetching ∷ testing ∷ []) refl (one [] (testing ∷ []) refl)))

woken_live : one_woken.rt.stop_requested ≡ false
unfolding schedule put_task_in_queue get_next_task_from_queue
woken_live = refl

taken_in_order_example :
    (one_woken.taken ++ one_woken.rt.global_tasks ≡ one_woken.scheduled)
    × (one_woken.rt.stop_requested ≡ false → tally left_bit one_woken.workers ≡ 0)
taken_in_order_example = taken_in_order idle 2 1 one_woken refl refl woken-Reach

enough_awake_example :
    (tally asleep_bit one_woken.workers ≡ 0)
    ⊎ (length one_woken.rt.global_tasks ≤ tally awake_bit one_woken.workers)
enough_awake_example = enough_awake idle 2 1 one_woken refl refl woken-Reach woken_live

two_workers :
    let t = start_threads 2 1 0 1 in Reach (begin_world idle t.workers t.io_workers) one_woken
unfolding start_threads
two_workers = woken-Reach

all_served_example :
    (w' : World ℕ) × Works one_woken w'
    × (w'.taken ≡ one_woken.taken ++ one_woken.rt.global_tasks)
    × (w'.rt.global_tasks ≡ [])
all_served_example = all_served idle 2 1 0 1 one_woken refl refl two_workers woken_live

-- A stop is requested, and the first worker takes coroutine 5.
abbrev stopping : World ℕ
stopping = record one_woken { phase = stop_set; rt = request_stop one_woken.rt }

abbrev taking : World ℕ
taking = record stopping {
  rt = (get_next_task_from_queue stopping.rt).1;
  workers = resuming 5 ∷ testing ∷ [];
  taken = 5 ∷ [];
}

stopping_off : stopping.rt.stop_requested ≡ true
unfolding request_stop
stopping_off = refl

stopping_head : (get_next_task_from_queue stopping.rt).0 ≡ next_task 5
unfolding schedule put_task_in_queue get_next_task_from_queue next_of request_stop
stopping_head = refl

taking_step : Work stopping taking
taking_step =
    turns [] (testing ∷ []) fetching (resuming 5) taking.rt (5 ∷ []) refl (takes 5 stopping_head)

joins_end_example : (1 ≤ 5 * 2 + 1 + 4) × (Ended 2 taking ⊎ Goes taking)
joins_end_example =
    joins_end idle 2 1 1 stopping taking refl refl (next woken-Reach (happens (stops refl)))
      stopping_off (work start taking_step)
