-- ===== src/Semaphore/Awaiter.antt =====
-- `semaphore::acquire_awaiter`, and its `await_suspend` against a thread that cancels the scope.
use coasio.Common.{
  ℕ, suc, ◌<◌, ◌≡◌, ◌≢◌, refl, ap, Bool, true, false, List, [], ◌∷◌, ◌++◌, some, arith,
  if◌then◌else◌, has, has-append, length,
}
use coasio.Links.{Ptr, null}
use coasio.CancelScope.{ArmResult}
use coasio.Error.{Expected, ok, err, cancelled}
use coasio.Semaphore.{
  Sem, Waiter, ToWake, set_acquired, try_acquire, try_acquire_or_enqueue, try_cancel_waiter,
  dequeue_or_return,
}
use coasio.Semaphore.Fifo.{granted, rest, granted-append-rest}
use coasio.Semaphore.Rep.{Waits, Rep}
use coasio.Semaphore.Operations.{need_of, try_acquire_or_enqueue-Joined}
use coasio.Semaphore.Leaving.{Enqueued, try_cancel_waiter_lem}
use coasio.Semaphore.Permit.{Permit}

-- `await_ready`, with what `already_cancelled(scope_)` says.
pub await_ready : Sem → Ptr → Bool → Sem × Bool
await_ready s w off =
    if off
    then (s, true)
    else let (s', done) = try_acquire s (s.waiters w).requested_permits in
      if done then (set_acquired s' w, true) else (s', false)

-- The state of the awaiter: `enqueued_`. The parts of `await_suspend` behind `guard_.arm`,
-- the first up to the end of `try_acquire_or_enqueue`,
pub join : ℕ → Sem → Ptr → Sem × List ToWake × Bool
join fuel s w = try_acquire_or_enqueue fuel s w

-- the second from its answer on: whether the coroutine stays suspended, and `enqueued_`.
pub stays_suspended : Sem → Ptr → Bool → Bool × Bool
stays_suspended s w acquired =
    if acquired
    then (false, false)
    else if (s.waiters w).cancelled
    then (false, false)
    else (true, true)

-- `await_suspend` with no interference in between.
pub await_suspend : ℕ → Sem → Ptr → ArmResult → Sem × List ToWake × Bool
await_suspend fuel s w ArmResult.already_cancelled = (s, [], false)
await_suspend fuel s w ArmResult.armed =
    let (s', out, acquired) = join fuel s w in (s', out, (stays_suspended s' w acquired).0)

-- `await_resume` on the semaphore number `k`.
unfoldable pub await_resume : ℕ → Sem → Ptr → Expected Permit
await_resume k s w =
    if (s.waiters w).acquired
    then ok (record { sem = some k; permits = (s.waiters w).requested_permits })
    else err cancelled

-- `~acquire_awaiter()`
pub destroy_awaiter : ℕ → Sem → Ptr → Bool → Sem × List ToWake
destroy_awaiter fuel s w enqueued = if enqueued then dequeue_or_return fuel s w else (s, [])

-- Where `await_suspend` of the waiter `w` stands.
pub data Pc : Type 0 where
  begin : Pc  -- before `guard_.arm`
  armed : Pc  -- before `try_acquire_or_enqueue`
  answered : Bool → Pc  -- before `w_.cancelled` is read
  left : Bool → Pc  -- it returned, `true` to stay suspended

-- `resumes` counts the calls of `runtime_schedule` for this coroutine by the guard's callback.
pub record World : Type 0 where
  pub sem : Sem
  pub pc : Pc
  pub off : Bool
  pub firing : Bool
  pub resumes : ℕ

abbrev pub is_armed : Pc → Bool
is_armed begin = false
is_armed _ = true

pub data Step (fuel : ℕ) (w : Ptr) (v : World) : World → Type 0 where
  arm : v.pc ≡ begin → v.off ≡ false → Step fuel w v (record v { pc = armed })
  arm_refused : v.pc ≡ begin → v.off ≡ true → Step fuel w v (record v { pc = left false })
  joins :
      v.pc ≡ armed
      → Step fuel w v
          (record v { sem = (join fuel v.sem w).0; pc = answered (join fuel v.sem w).2 })
  reads :
      (a : Bool)
      → v.pc ≡ answered a
      → Step fuel w v (record v { pc = left (stays_suspended v.sem w a).0 })
  scope_off : v.off ≡ false → Step fuel w v (record v { off = true; firing = is_armed v.pc })
  callback :
      v.firing ≡ true
      → Step fuel w v (record v {
        sem = (try_cancel_waiter v.sem w).0;
        firing = false;
        resumes = if (try_cancel_waiter v.sem w).1 then suc v.resumes else v.resumes;
      })

pub data Steps (fuel : ℕ) (w : Ptr) (v : World) : World → Type 0 where
  here : Steps fuel w v v
  next : {u u' : World} → Steps fuel w v u → Step fuel w u u' → Steps fuel w v u'

abbrev pub waiting_world : Sem → World
waiting_world s = record { sem = s; pc = begin; off = false; firing = false; resumes = 0 }

-- A new waiter that is not served at once can be resumed twice: `await_suspend` reaches a state in
-- which it has been queued and not served, `w_.cancelled` is not read yet, its scope is live and no
-- callback is on its way; and from that state, one is reached in which the scope was cancelled, the
-- callback has scheduled the coroutine, and `await_suspend` has returned `false`.
pub resumed_twice :
    (fuel : ℕ) (s : Sem) (xs : List Ptr) (w : Ptr)
    → Rep s xs
    → w ≢ null
    → has w xs ≡ false
    → Waits s w
    → length xs < fuel
    → has w (granted (need_of s) s.permits (xs ++ w ∷ [])) ≡ false
    → (u : World) × (v : World) × Steps fuel w (waiting_world s) u
      × (u.pc ≡ answered false)
      × (has w (rest (need_of s) s.permits (xs ++ w ∷ [])) ≡ true)
      × Rep u.sem (rest (need_of s) s.permits (xs ++ w ∷ []))
      × (u.off ≡ false)
      × (u.firing ≡ false)
      × (u.resumes ≡ 0)
      × Steps fuel w u v
      × (v.pc ≡ left false)
      × (v.off ≡ true)
      × (v.resumes ≡ 1)
unfolding join stays_suspended
resumed_twice fuel s xs w r h out waits en unserved =
    let j = try_acquire_or_enqueue-Joined fuel s xs w r h out waits en in
    let s₁ = (join fuel s w).0 in
    let all = xs ++ w ∷ [] in
    let behind = rest (need_of s) s.permits all in
    let split = ap (has w) (granted-append-rest (need_of s) s.permits all) in
    let queued : has w behind ≡ true = ground (
      arith,
      split,
      has-append w (granted (need_of s) s.permits all) behind,
      has-append w xs (w ∷ []),
      unserved,
    ) in
    let same = j.served.waiters w in
    let q : Enqueued s₁ behind w = ground (arith, queued, same, unserved, waits) in
    let (took, _, _, marks) = try_cancel_waiter_lem s₁ behind w j.served.rep q in
    let marked = ap (λ (f : Ptr → Waiter). f w) marks in
    (
      _,
      _,
      next (next here (arm refl refl)) (joins refl),
      ap answered (ground (arith, j.answer, unserved)),
      queued,
      j.served.rep,
      refl,
      refl,
      refl,
      next (next (next here (scope_off refl)) (callback refl)) (reads _ refl),
      ground (arith, j.answer, unserved, marked, queued),
      refl,
      ground (arith, took, queued),
    )
