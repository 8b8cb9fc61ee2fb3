-- ===== src/Blocking/Race.antt =====
-- One `co_await` of a `blocking_awaiter` against the pool's threads and a thread that cancels the
-- scope, an access to shared memory at a time. `blocking_awaiter::await_suspend` is the thread that
-- `pc` follows; a worker of the pool takes the control block and executes it; a canceller sets the
-- scope's flag and then runs the guard's callback.
use coasio.Common.{
  ℕ, suc, ◌+◌, ◌≤◌, ◌<◌, ◌≡◌, refl, ◌⊎◌, Bool, true, false, not, ◌&&◌, Option, none, some, arith,
  ◌==◌, if◌then◌else◌,
}
use coasio.Error.{ok, err, cancelled}
use coasio.Blocking.{ControlBlock, returned, await_resume}

-- Where `await_suspend` stands.
pub data Pc : Type 0 where
  begin : Pc  -- before `guard_.arm`
  armed : Pc  -- before `pool_->enqueue(cb)`
  enqueued : Pc  -- before `cb_ = cb`
  published : Pc  -- before `already_cancelled(scope_)`
  cancelling : Pc  -- before its own `pool_->try_cancel(cb)`
  suspended : Pc  -- returned `true`
  refused : Pc  -- returned `false`, the guard was not armed
  turned_away : Pc  -- returned `false`, the pool took nothing

pub record World : Type 0 where
  pub pc : Pc
  pub stop : Bool  -- the pool has been shut down
  pub queued : Bool  -- `cb` is in the pool's queue
  pub running : Bool  -- a worker has taken `cb`
  pub executed : Bool
  pub marked : Bool  -- `cb->cancelled`
  pub published_cb : Bool  -- `cb_` is set
  pub off : Bool  -- the scope's flag
  pub firing : Bool  -- the guard has been taken off the scope's list, its callback is to run
  pub scheduled : ℕ  -- how often `h` was handed to the runtime

abbrev pub start : Bool → Bool → World
start stop off = record {
  pc = begin;
  stop = stop;
  queued = false;
  running = false;
  executed = false;
  marked = false;
  published_cb = false;
  off = off;
  firing = false;
  scheduled = 0;
}

-- The guard is armed between `guard_.arm` and the callback or `guard_.disarm` in `await_resume`.
abbrev pub is_armed : Pc → Bool
is_armed begin = false
is_armed refused = false
is_armed _ = true

abbrev pub behind_enqueue : Pc → Bool
behind_enqueue begin = false
behind_enqueue armed = false
behind_enqueue refused = false
behind_enqueue turned_away = false
behind_enqueue _ = true

pub data Step (w : World) : World → Type 0 where
  arm : w.pc ≡ begin → w.off ≡ false → Step w (record w { pc = armed })
  arm_refused : w.pc ≡ begin → w.off ≡ true → Step w (record w { pc = refused })
  enqueue : w.pc ≡ armed → w.stop ≡ false → Step w (record w { pc = enqueued; queued = true })
  enqueue_refused : w.pc ≡ armed → w.stop ≡ true → Step w (record w { pc = turned_away })
  publish : w.pc ≡ enqueued → Step w (record w { pc = published; published_cb = true })
  see_live : w.pc ≡ published → w.off ≡ false → Step w (record w { pc = suspended })
  see_cancelled : w.pc ≡ published → w.off ≡ true → Step w (record w { pc = cancelling })
  self_cancel :
      w.pc ≡ cancelling
      → w.queued ≡ true
      → Step w
          (record w { pc = suspended; queued = false; marked = true; scheduled = suc w.scheduled })
  self_cancel_late : w.pc ≡ cancelling → w.queued ≡ false → Step w (record w { pc = suspended })
  worker_takes : w.queued ≡ true → Step w (record w { queued = false; running = true })
  worker_executes :
      w.running ≡ true
      → Step w (record w { running = false; executed = true; scheduled = suc w.scheduled })
  scope_off : w.off ≡ false → Step w (record w { off = true; firing = is_armed w.pc })
  callback :
      w.firing ≡ true
      → w.queued ≡ true
      → Step w
          (record w { firing = false; queued = false; marked = true; scheduled = suc w.scheduled })
  callback_late : w.firing ≡ true → w.queued ≡ false → Step w (record w { firing = false })
  shut_down : Step w (record w { stop = true })

pub data Reach (stop off : Bool) : World → Type 0 where
  here : Reach stop off (start stop off)
  next : {w w' : World} → Reach stop off w → Step w w' → Reach stop off w'

abbrev pub bit : Bool → ℕ
bit true = 1
bit false = 0

abbrev pub is_suspended : Pc → Bool
is_suspended suspended = true
is_suspended _ = false

-- The control block is in one place, and the coroutine is scheduled by whoever finishes it. If the
-- coroutine is suspended while its block is queued and its scope is cancelled, the callback is on
-- its way.
pub record Inv (w : World) : Type 0 where
  pub place :
      bit w.queued + bit w.running + bit w.executed + bit w.marked ≡ bit (behind_enqueue w.pc)
  pub wakes : w.scheduled ≡ bit w.executed + bit w.marked
  pub kept : (is_suspended w.pc && w.queued && w.off && not w.firing) ≡ false

fires : (pc : Pc) (q : Bool) → (is_suspended pc && q && true && not (is_armed pc)) ≡ false
fires begin q = refl
fires suspended true = refl
fires suspended false = refl
fires _ q = refl

pub Step-Inv : {w w' : World} → Step w w' → Inv w → Inv w'
Step-Inv (arm p o) i = ground arith
Step-Inv (arm_refused p o) i = ground arith
Step-Inv (enqueue p o) i = ground arith
Step-Inv (enqueue_refused p o) i = ground arith
Step-Inv (publish p) i = ground arith
Step-Inv (see_live p o) i = ground arith
Step-Inv (see_cancelled p o) i = ground arith
Step-Inv (self_cancel p q) i = ground arith
Step-Inv (self_cancel_late p q) i = ground arith
Step-Inv (worker_takes q) i = ground arith
Step-Inv (worker_executes r) i = ground arith
Step-Inv {w} (scope_off o) i = record {
  place = i.place;
  wakes = i.wakes;
  kept = fires w.pc w.queued;
}
Step-Inv (callback f q) i = ground arith
Step-Inv (callback_late f q) i = ground arith
Step-Inv shut_down i = record { place = i.place; wakes = i.wakes; kept = i.kept }

start-Inv : (stop off : Bool) → Inv (start stop off)
start-Inv stop off = record { place = refl; wakes = refl; kept = refl }

pub Reach-Inv : (stop off : Bool) (w : World) → Reach stop off w → Inv w
Reach-Inv stop off w here = start-Inv stop off
Reach-Inv stop off w (next {w = v} r st) = Step-Inv st (Reach-Inv stop off v r)

abbrev pub returned_false : Pc → Bool
returned_false refused = true
returned_false turned_away = true
returned_false _ = false

-- In every interleaving of the awaiter, a worker of the pool and a canceller, the coroutine is
-- scheduled at most once, for the function's end or for the cancellation and never for both; and
-- not at all if `await_suspend` returned `false`.
pub scheduled_at_most_once :
    (stop off : Bool) (w : World)
    → Reach stop off w
    → (w.scheduled ≤ 1)
      × ((w.executed && w.marked) ≡ false)
      × ((returned_false w.pc && (0 == w.scheduled)) ≡ returned_false w.pc)
scheduled_at_most_once stop off w r =
    let i = Reach-Inv stop off w r in
    (ground (arith, i.place, i.wakes), ground (arith, i.place), ground (arith, i.place, i.wakes))

-- In every interleaving, once the scope is cancelled and its callback is done, the control block of
-- a suspended coroutine is not in the queue of the pool: it is running, or the coroutine has been
-- scheduled.
pub no_lost_cancellation :
    (stop off : Bool) (w : World)
    → Reach stop off w
    → w.pc ≡ suspended
    → w.off ≡ true
    → w.firing ≡ false
    → (w.queued ≡ false) × ((w.running ≡ true) ⊎ (w.scheduled ≡ 1))
no_lost_cancellation stop off w r p o f =
    let i = Reach-Inv stop off w r in
    (ground (arith, i.kept), ground (arith, i.kept, i.place, i.wakes))

-- What `await_resume` finds, if the function returns `v`.
abbrev pub cb_of {ℓ} : {A : Type ℓ} → World → A → Option (ControlBlock A)
cb_of w v =
    if w.published_cb
    then some (record {
      was_cancelled = w.marked;
      value = if w.executed then some v else none;
      exception = none;
    })
    else none

-- In every interleaving, a scheduled coroutine that finds `cb_` set gets the value of the function
-- if the function was executed, and `cancelled` if it was not.
pub published_result {ℓ} :
    {A : Type ℓ} (v : A) (stop off : Bool) (w : World)
    → Reach stop off w
    → w.published_cb ≡ true
    → 0 < w.scheduled
    → await_resume (cb_of w v) ≡ (if w.executed then returned (ok v) else returned (err cancelled))
unfolding await_resume
published_result v stop off w r p s =
    let i = Reach-Inv stop off w r in ground (arith, i.place, i.wakes)
