-- ===== src/Runtime/Workers.antt =====
-- Any number of worker threads, threads that schedule coroutines, and the last sections of the
-- destructor: `worker::run` and `~runtime()` of src/runtime.cpp, with the waiting and notifying of
-- include/coasio/runtime.hpp. A section under `global_tasks_queue_mutex_` is one step.
pub mod Counting
pub mod Turns
pub mod Invariant
pub mod Serving
pub mod Leaving
pub mod Joining
use coasio.Common.{ℕ, zero, suc, ◌≡◌, Bool, true, false, List, [], ◌∷◌, ◌++◌, map, ◌==◌, length}
use coasio.Links.{Ptr, null}
use coasio.Runtime.{
  Runtime, waits, nothing, next_task, schedule, get_next_task_from_queue, request_stop,
}

-- Where a worker stands.
pub data Pc : Type 0 where
  testing : Pc  -- before it reads `stop_requested_` in the loop's test
  fetching : Pc  -- before the predicate of `global_tasks_queue_cv_.wait`, without the mutex
  asleep : Pc  -- in `wait`
  resuming : Ptr → Pc  -- it resumes that coroutine, or skips a null one
  left : Pc  -- `run` has returned

-- Where the destructor stands behind `blocking_pool_.reset()`.
pub data Phase : Type 0 where
  before_stop : Phase
  stop_set : Phase  -- before `notify_all`
  notified : Phase  -- before `work_guard_.reset()`
  guard_reset : Phase  -- before `io_context_.poll()`
  polled : Phase  -- it joins the io threads
  joining : Phase  -- it joins the workers

abbrev pub has_stopped : Phase → Bool
has_stopped before_stop = false
has_stopped _ = true

abbrev pub is_guard_reset : Phase → Bool
is_guard_reset before_stop = false
is_guard_reset stop_set = false
is_guard_reset notified = false
is_guard_reset _ = true

-- `scheduled` and `taken` are all coroutines that were put into the queue, and that workers took
-- from it, in order. `joined` is how many workers the destructor has joined, and `io_running`
-- how many io threads are in `io_context_.run()`.
pub record World {ℓ} (A : Type ℓ) : Type ℓ where
  pub rt : Runtime A
  pub workers : List Pc
  pub phase : Phase
  pub joined : ℕ
  pub io_running : ℕ
  pub scheduled : List Ptr
  pub taken : List Ptr

abbrev pub idle_workers : ℕ → List Pc
idle_workers zero = []
idle_workers (suc n) = testing ∷ idle_workers n

-- `notify_all`.
abbrev pub awoken : Pc → Pc
awoken asleep = fetching
awoken p = p

-- `notify_one`: it wakes some worker that sleeps, if there is one.
pub data Notified (ws : List Pc) : List Pc → Type 0 where
  one : (xs ys : List Pc) → ws ≡ xs ++ asleep ∷ ys → Notified ws (xs ++ fetching ∷ ys)
  nobody : map awoken ws ≡ ws → Notified ws ws

module _ {ℓ} {A : Type ℓ} where
  -- A worker's step, with what it takes.
  pub data Turn (r : Runtime A) : Pc → Pc → Runtime A → List Ptr → Type ℓ where
    goes_on : r.stop_requested ≡ false → Turn r testing fetching r []
    leaves : r.stop_requested ≡ true → Turn r testing left r []
    sleeps :
        (get_next_task_from_queue r).0 ≡ waits
        → Turn r fetching asleep (get_next_task_from_queue r).1 []
    gets_nothing :
        (get_next_task_from_queue r).0 ≡ nothing
        → Turn r fetching testing (get_next_task_from_queue r).1 []
    takes :
        (h : Ptr)
        → (get_next_task_from_queue r).0 ≡ next_task h
        → Turn r fetching (resuming h) (get_next_task_from_queue r).1 (h ∷ [])
    resumed : (h : Ptr) → Turn r (resuming h) testing r []

  -- A step of a worker, of the destructor, or of an io thread, which leaves `run` some time after the
  -- guard was reset. `poll` runs what is ready and returns.
  pub data Work (w : World A) : World A → Type ℓ where
    turns :
        (xs ys : List Pc) (p q : Pc) (r : Runtime A) (t : List Ptr)
        → w.workers ≡ xs ++ p ∷ ys
        → Turn w.rt p q r t
        → Work w (record w { rt = r; workers = xs ++ q ∷ ys; taken = w.taken ++ t })
    notifies_all :
        w.phase ≡ stop_set → Work w (record w { phase = notified; workers = map awoken w.workers })
    resets_guard : w.phase ≡ notified → Work w (record w { phase = guard_reset })
    polls : w.phase ≡ guard_reset → Work w (record w { phase = polled })
    io_returns :
        (k : ℕ)
        → is_guard_reset w.phase ≡ true
        → w.io_running ≡ suc k
        → Work w (record w { io_running = k })
    joins_io : w.phase ≡ polled → w.io_running ≡ 0 → Work w (record w { phase = joining })
    joins_worker :
        (xs ys : List Pc)
        → w.phase ≡ joining
        → w.workers ≡ xs ++ left ∷ ys
        → w.joined ≡ length xs
        → Work w (record w { joined = suc w.joined })

  -- What other threads do, what the system does, and the destructor's earlier part: `stops` stands
  -- for that and may come at any time. A null coroutine is not scheduled. A wait may end without a
  -- notification.
  pub data Outside (w : World A) : World A → Type ℓ where
    schedules :
        (h : Ptr) (ws : List Pc)
        → (h == null) ≡ false
        → Notified w.workers ws
        → Outside w
            (record w { rt = schedule w.rt h; workers = ws; scheduled = w.scheduled ++ h ∷ [] })
    wakes_unasked :
        (xs ys : List Pc)
        → w.workers ≡ xs ++ asleep ∷ ys
        → Outside w (record w { workers = xs ++ fetching ∷ ys })
    stops :
        w.phase ≡ before_stop → Outside w (record w { phase = stop_set; rt = request_stop w.rt })

  pub data Step (w w' : World A) : Type ℓ where
    works : Work w w' → Step w w'
    happens : Outside w w' → Step w w'

  pub data Reach (v : World A) : World A → Type ℓ where
    here : Reach v v
    next : {w w' : World A} → Reach v w → Step w w' → Reach v w'

  -- A runtime that was just made, with so many workers and io threads.
  abbrev pub begin_world : Runtime A → ℕ → ℕ → World A
  begin_world r n io = record {
    rt = r;
    workers = idle_workers n;
    phase = before_stop;
    joined = 0;
    io_running = io;
    scheduled = [];
    taken = [];
  }
