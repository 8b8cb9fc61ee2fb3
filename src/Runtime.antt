-- ===== src/Runtime.antt =====
-- include/coasio/runtime.hpp and src/runtime.cpp: the queue of ready coroutines, the list of root
-- tasks, spawning and joining, and the destructor. The frames of all tasks live in the runtime of
-- the model, and so do the states of the channels; a scope and a channel are numbers.
pub mod Roots
pub mod Queue
pub mod Workers
pub mod Finishing
pub mod Spawn
pub mod BlockOn
pub mod OnDemand
pub mod Shutdown
pub mod Scopes
mod Examples
mod ShutdownExamples
mod WorkerExamples
use coasio.Common.{
  ℕ, zero, suc, ◌+◌, Bool, true, false, not, ◌&&◌, ◌||◌, List, [], ◌∷◌, ◌++◌, Option, none, some,
  ◌==◌, if◌then◌else◌,
}
use coasio.Links.{Ptr, null, Links, put, link_front, splice}
use coasio.Words.{add64, sub64}
use coasio.Error.{Expected, ok, err}
use coasio.Oneshot.{State, ToWake, fresh_state}
use coasio.Blocking.{Resumed, returned, rethrown, undefined}
use coasio.Task.{RootOutcome, Promise, Frame, detach, is_valid, final_suspend}

-- The members of `runtime` that its operations change.
pub record Runtime {ℓ} (A : Type ℓ) : Type ℓ where
  pub global_tasks : List Ptr
  pub stop_requested : Bool
  pub links : Links
  pub roots_head : Ptr
  pub live_roots : ℕ
  pub frames : Ptr → Frame A
  pub channels : ℕ → State (RootOutcome A)

-- `get_next_task_from_queue`: it waits, it gives nothing, or it gives a coroutine.
pub data Next : Type 0 where
  waits : Next
  nothing : Next
  next_task : Ptr → Next

-- `JoinHandle`: both members are null in one that was made from an invalid task.
pub record JoinHandle : Type 0 where
  pub scope : Option ℕ
  pub rx : Option ℕ

pub next_of : Bool → List Ptr → Next × List Ptr
next_of stop [] = (if stop then nothing else waits, [])
next_of stop (h ∷ rest) = (next_task h, rest)

module _ {ℓ} {A : Type ℓ} where
  pub put_task_in_queue : Runtime A → Ptr → Runtime A
  put_task_in_queue r h = record r { global_tasks = r.global_tasks ++ h ∷ [] }

  pub schedule : Runtime A → Ptr → Runtime A
  schedule r h = if h == null then r else put_task_in_queue r h

  pub get_next_task_from_queue : Runtime A → Next × Runtime A
  unfolding next_of
  get_next_task_from_queue r =
      let (n, rest) = next_of r.stop_requested r.global_tasks in
      (n, record r { global_tasks = rest })

  -- One round of `worker::run`; `none` says that the thread has left the loop.
  pub worker_round : Runtime A → Option Next × Runtime A
  worker_round r =
      if r.stop_requested
      then (none, r)
      else let (n, r') = get_next_task_from_queue r in (some n, r')

  pub register_root : Runtime A → Ptr → Runtime A
  register_root r n = record r {
    links = link_front r.links r.roots_head n;
    roots_head = n;
    live_roots = add64 r.live_roots 1;
  }

  -- The flag says that the destructor's wait is notified.
  pub unregister_root : Runtime A → Ptr → Runtime A × Bool
  unregister_root r n =
      let live = sub64 r.live_roots 1 in
      (
        record r {
          links = splice r.links n;
          roots_head = if r.links.prev n == null then r.links.next n else r.roots_head;
          live_roots = live;
        },
        live == 0,
      )

  abbrev pub set_frame : Runtime A → Ptr → Frame A → Runtime A
  set_frame r h f = record r { frames = put r.frames h f }

  -- What `_spawn` writes into the promise of a valid task, with `detach`.
  pub rooted : Frame A → ℕ → ℕ → Frame A
  rooted f scope channel = detach (record f {
    promise = record (f.promise) {
      owning_scope = some scope;
      result_sender = some channel;
      owned = true;
      scope_raw = some scope;
    };
  })

  -- `~task()` of a task that was not moved from.
  abbrev pub drop_task : Runtime A → Ptr → Runtime A
  drop_task r h = if h == null then r else set_frame r h (record (r.frames h) { destroyed = true })

  -- `_spawn`, with the scope and the channel that it makes. Its parameter is destroyed when it returns.
  unfoldable pub spawn : Runtime A → Ptr → ℕ → ℕ → Runtime A × JoinHandle
  spawn r h scope channel =
      if not (is_valid h (r.frames h))
      then (drop_task r h, record { scope = none; rx = none })
      else let r1 = record r { channels = put r.channels channel fresh_state } in
        let r2 = register_root (set_frame r1 h (rooted (r.frames h) scope channel)) h in
        (schedule r2 h, record { scope = some scope; rx = some channel })

  -- The end of a root task whose body has ended.
  pub sender_of : Runtime A → Ptr → Option (State (RootOutcome A))
  sender_of r h = elim (r.frames h).promise.result_sender [
    | none ↦ none
    | some c ↦ some (r.channels c)
  ]

  pub set_sender : Runtime A → Ptr → Option (State (RootOutcome A)) → Runtime A
  set_sender r h none = r
  set_sender r h (some st) = elim (r.frames h).promise.result_sender [
    | none ↦ r
    | some c ↦ record r { channels = put r.channels c st }
  ]

  pub finish : Runtime A → Ptr → Runtime A × List ToWake
  finish r h =
      let (f, sender, woken, gone, more) = final_suspend (r.frames h) (sender_of r h) in
      let r1 = set_sender r h sender in
      let r2 = if gone then (unregister_root r1 h).0 else r1 in (set_frame r2 h f, woken)

  -- The first section of `~runtime()`: the scopes that are cancelled, in order. `fuel` bounds the
  -- rounds of the loop.
  pub cancel_roots : ℕ → Runtime A → Ptr → List ℕ
  cancel_roots zero r n = []
  cancel_roots (suc fuel) r n =
      let rest = cancel_roots fuel r (r.links.next n) in
      if n == null
      then []
      else elim (r.frames n).promise.scope_raw [ none ↦ rest | some scope ↦ scope ∷ rest ]

  -- What the destructor waits for, and the flag that it sets.
  pub is_drained : Runtime A → Bool
  is_drained r = r.live_roots == 0

  pub request_stop : Runtime A → Runtime A
  request_stop r = record r { stop_requested = true }

  -- `JoinHandle::join`, once its receiver was awaited: what the receiver gave.
  pub join : Option (Expected (RootOutcome A)) → Resumed A
  join none = undefined
  join (some (err e)) = returned (err e)
  join (some (ok outcome)) = elim outcome.exception [
    | some e ↦ rethrown e
    | none ↦ elim outcome.value [ some v ↦ returned (ok v) | none ↦ undefined ]
  ]

-- The members of `runtime_builder`; `cores` is `std::thread::hardware_concurrency()`.
pub record RuntimeBuilder : Type 0 where
  pub io_worker_count : ℕ
  pub worker_count : ℕ
  pub blocking_pool_size : ℕ

pub fresh_builder : ℕ → RuntimeBuilder
fresh_builder cores = record {
  io_worker_count = 1;
  worker_count = if cores == 0 then 1 else cores;
  blocking_pool_size = 1;
}

pub set_io_worker_count : RuntimeBuilder → ℕ → RuntimeBuilder
set_io_worker_count b n = record b { io_worker_count = n }

pub set_worker_count : RuntimeBuilder → ℕ → RuntimeBuilder
set_worker_count b n = record b { worker_count = n }

pub set_blocking_pool_size : RuntimeBuilder → ℕ → RuntimeBuilder
set_blocking_pool_size b n = record b { blocking_pool_size = n }

-- How many workers, io workers and blocking threads the constructor starts.
pub record Threads : Type 0 where
  pub workers : ℕ
  pub io_workers : ℕ
  pub blocking : ℕ

pub start_threads : ℕ → ℕ → ℕ → ℕ → Threads
start_threads cores io_worker_count worker_count blocking_pool_size =
    let asked = if worker_count == 0 then (if cores == 0 then 1 else cores) else worker_count in
    record {
      workers = if asked == 0 then 1 else asked;
      io_workers = io_worker_count;
      blocking = blocking_pool_size;
    }

pub build : ℕ → RuntimeBuilder → Threads
build cores b = start_threads cores b.io_worker_count b.worker_count b.blocking_pool_size

-- `JoinHandle::abort`: the scope that it cancels, if there is one.
unfoldable pub abort : JoinHandle → Option ℕ
abort j = j.scope

-- `JoinHandle::cancelled`, with what the scopes say.
pub is_cancelled : (ℕ → Bool) → JoinHandle → Bool
is_cancelled off j = elim j.scope [ none ↦ false | some scope ↦ off scope ]

-- `context_guard`: the runtime of the thread while it lives and after it, and what it keeps.
unfoldable pub enter_context : Option ℕ → ℕ → Option ℕ × Option ℕ
enter_context current rt = (some rt, current)

unfoldable pub leave_context : Option ℕ → Option ℕ → Option ℕ
leave_context current prev = prev
