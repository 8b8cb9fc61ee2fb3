-- ===== src/Semaphore/World.antt =====
-- The semaphore under any number of tasks. The sections under `queue_mtx_` are atomic; a `release`
-- is not: it adds its permits first, reads `has_waiters_` then, and takes the lock to grant last,
-- and anything may happen in between. `queue` and `held` record what the pointers stand for and
-- how many permits are out; `pending` counts the releases that have added and are not done; `early`
-- says that `try_cancel_waiter` was called for a waiter that was not queued yet.
use coasio.Common.{
  ℕ, suc, ◌+◌, ◌-◌, ◌≤◌, ◌<◌, ◌≡◌, ◌≢◌, ◌⊎◌, Bool, true, false, not, ◌||◌, List, [], ◌∷◌, ◌++◌,
  if◌then◌else◌, has, erase, length,
}
use coasio.Links.{Ptr, null, Links}
use coasio.Words.{max_permits, add64}
use coasio.Semaphore.{
  Sem, Waiter, init, grant_locked, try_acquire, try_acquire_or_enqueue, try_cancel_waiter,
  dequeue_or_return,
}
use coasio.Semaphore.Fifo.{granted, rest, sum_needs, Blocked}
use coasio.Semaphore.Rep.{Waits, Rep}
use coasio.Semaphore.Operations.{need_of}

pub record World : Type 0 where
  pub sem : Sem
  pub queue : List Ptr
  pub held : ℕ
  pub pending : ℕ
  pub early : Bool

abbrev pub fuel_of : World → ℕ
fuel_of v = suc (length v.queue)

-- What is served when the queue is `xs`.
abbrev pub served_of : World → List Ptr → List Ptr
served_of v xs = granted (need_of v.sem) v.sem.permits xs

abbrev pub queue_after : World → List Ptr → List Ptr
queue_after v xs = rest (need_of v.sem) v.sem.permits xs

abbrev pub held_after : World → List Ptr → ℕ
held_after v xs = v.held + sum_needs (need_of v.sem) (served_of v xs)

abbrev pub take_step : World → ℕ → World
take_step v n =
    let (s, done) = try_acquire v.sem n in
    record v { sem = s; held = if done then v.held + n else v.held }

abbrev pub join_step : World → Ptr → World
join_step v w = record v {
  sem = (try_acquire_or_enqueue (fuel_of v) v.sem w).0;
  queue = queue_after v (v.queue ++ w ∷ []);
  held = held_after v (v.queue ++ w ∷ []);
}

-- `permits_.fetch_add(n)`
abbrev pub add_step : World → ℕ → World
add_step v n = record v {
  sem = record (v.sem) { permits = add64 v.sem.permits n };
  held = v.held - n;
  pending = suc v.pending;
}

-- The locked section of `release`.
abbrev pub grant_step : World → World
grant_step v = record v {
  sem = (grant_locked (fuel_of v) 16 null v.sem).sem;
  queue = queue_after v v.queue;
  held = held_after v v.queue;
  pending = v.pending - 1;
}

-- What `dequeue_or_return` does for a waiter that has been served, and for one that is queued.
abbrev pub give_back_step : World → Ptr → World
give_back_step v w =
    let back = v.sem.permits + need_of v.sem w in
    record v {
      sem = (dequeue_or_return (fuel_of v) v.sem w).0;
      queue = rest (need_of v.sem) back v.queue;
      held =
          v.held
          - need_of v.sem w
          + sum_needs (need_of v.sem) (granted (need_of v.sem) back v.queue);
    }

abbrev pub leave_step : World → Ptr → World
leave_step v w = record v {
  sem = (dequeue_or_return (fuel_of v) v.sem w).0;
  queue = erase w v.queue;
}

-- A waiter that is neither queued nor served nor cancelled is not queued yet.
abbrev pub is_new : World → Ptr → Bool
is_new v w = not (has w v.queue || (v.sem.waiters w).acquired || (v.sem.waiters w).cancelled)

abbrev pub cancel_step : World → Ptr → World
cancel_step v w = record v {
  sem = (try_cancel_waiter v.sem w).0;
  queue = erase w v.queue;
  early = v.early || is_new v w;
}

pub data Step (v : World) : World → Type 0 where
  take : (n : ℕ) → n ≤ max_permits → Step v (take_step v n)
  join : (w : Ptr) → w ≢ null → has w v.queue ≡ false → Waits v.sem w → Step v (join_step v w)
  add : (n : ℕ) → 0 < n → n ≤ v.held → Step v (add_step v n)
  see_idle :
      0 < v.pending → v.sem.has_waiters ≡ false → Step v (record v { pending = v.pending - 1 })
  grant : 0 < v.pending → Step v (grant_step v)
  give_back :
      (w : Ptr)
      → (v.sem.waiters w).acquired ≡ true
      → (v.sem.waiters w).cancelled ≡ false
      → need_of v.sem w ≤ v.held
      → Step v (give_back_step v w)

-- A waiter, queued or not, is given up by `try_cancel_waiter`, or leaves the queue by
-- `dequeue_or_return`.
pub data Cancel (v : World) : World → Type 0 where
  cancel : (w : Ptr) → Cancel v (cancel_step v w)
  leave : (w : Ptr) → has w v.queue ≡ true → Cancel v (leave_step v w)

abbrev pub start : ℕ → Links → (Ptr → Waiter) → World
start n l ws = record { sem = init n l ws; queue = []; held = 0; pending = 0; early = false }

-- The states that a semaphore of `n` permits reaches while no waiter is given up,
pub data Reach (n : ℕ) : World → Type 0 where
  fresh : (l : Links) (ws : Ptr → Waiter) → Reach n (start n l ws)
  next : {v v' : World} → Reach n v → Step v v' → Reach n v'

-- and those that it reaches at all.
pub data ReachAny (n : ℕ) : World → Type 0 where
  fresh : (l : Links) (ws : Ptr → Waiter) → ReachAny n (start n l ws)
  next : {v v' : World} → ReachAny n v → Step v v' → ReachAny n v'
  given_up : {v v' : World} → ReachAny n v → Cancel v v' → ReachAny n v'

-- The pointers stand for the queue, and no permit is lost or made up.
pub record Inv (n : ℕ) (v : World) : Type 0 where
  pub rep : Rep v.sem v.queue
  pub total : v.sem.permits + v.held ≡ n

-- The oldest waiter cannot be served, or a release is still on its way to the queue.
abbrev pub Settled : World → Type 0
Settled v = Blocked (need_of v.sem) v.sem.permits v.queue ⊎ (0 < v.pending)
