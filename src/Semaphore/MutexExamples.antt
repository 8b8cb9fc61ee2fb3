-- ===== src/Semaphore/MutexExamples.antt =====
-- Examples: a mutex that is locked, and two tasks that wait for one.
use mathlib.Core.List.{Perm}
use coasio.Common.{some, ◌+◌, ◌≡◌, refl, false, [], ◌∷◌, arith, ◌==◌}
use coasio.Links.{Ptr, null, Links}
use coasio.Semaphore.{Sem, Waiter, wake_of, init, link_tail}
use coasio.Semaphore.Rep.{Rep, link_tail-Rep}
use coasio.Semaphore.Operations.{need_of, init-Rep}
use coasio.Semaphore.World.{World, start, take_step}
use coasio.Error.{ok}
use coasio.Semaphore.Awaiter.{await_resume}
use coasio.Semaphore.Mutex.{drop_guard, unlock_hands_over}

-- The waiter 9 has the permit.
abbrev waiter : Ptr → Waiter
waiter a = record {
  handle = 10 + a;
  rt = 0;
  requested_permits = 1;
  acquired = a == 9;
  cancelled = false;
}

abbrev bare : Links
bare = record { next = λ a. null; prev = λ a. null }

abbrev locked : World
locked = take_step (start 1 bare waiter) 1

-- No permit left, and the waiters 1 and 2 in the queue.
abbrev waiting : Sem
waiting = link_tail (link_tail (init 0 bare waiter) 1) 2

one-Rep : Rep (link_tail (init 0 bare waiter) 1) (1 ∷ [])
unfolding init
one-Rep =
    link_tail-Rep (init 0 bare waiter) [] 1 (init-Rep 0 bare waiter (ground arith)) (ground arith)
      refl (refl, refl, ground arith)

waiting-Rep : Rep waiting (1 ∷ 2 ∷ [])
unfolding init link_tail
waiting-Rep =
    link_tail-Rep (link_tail (init 0 bare waiter) 1) (1 ∷ []) 2 one-Rep (ground arith) refl
      (refl, refl, ground arith)

waiting-permits : waiting.permits ≡ 0
unfolding init link_tail
waiting-permits = refl

waiting-need : (a : Ptr) → need_of waiting a ≡ 1
unfolding init link_tail
waiting-need a = refl

waiting-owner : await_resume 7 waiting 9 ≡ ok (record { sem = some 7; permits = 1 })
unfolding init link_tail await_resume
waiting-owner = refl

unlock_hands_over_example :
    let (s', woken) =
      drop_guard 2 7 waiting (record { permit = record { sem = some 7; permits = 1 } }) in
    Rep s' (2 ∷ [])
    × (s'.permits ≡ 0)
    × Perm woken (wake_of waiting 1 ∷ [])
    × (await_resume 7 s' 1 ≡ ok (record { sem = some 7; permits = 1 }))
unlock_hands_over_example =
    unlock_hands_over 2 7 waiting 9 1 (2 ∷ []) (record { sem = some 7; permits = 1 }) waiting-Rep
      (ground arith) waiting-permits (waiting-need 1, (waiting-need 2, tt)) (waiting-need 9)
      waiting-owner
