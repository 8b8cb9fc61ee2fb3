-- ===== src/Semaphore/Examples.antt =====
-- Examples: the semaphore's theorems at concrete states.
use coasio.Common.{
  ◌+◌, ◌-◌, ◌≤◌, ◌≡◌, refl, ◌⊎◌, true, false, [], ◌∷◌, arith, if◌then◌else◌, leb, has, erase,
}
use coasio.Links.{Ptr, null, Links, put, link_back, splice, clear}
use coasio.Words.{max_permits, sub64, signed_lt}
use coasio.Semaphore.{
  Sem, Waiter, init, link_tail, unlink, set_acquired, hand_out, serve, give, grant_turn, grant_loop,
  grant_locked, try_acquire, try_acquire_or_enqueue, try_cancel_waiter, release, dequeue_or_return,
  available_permits,
}
use coasio.Semaphore.Fifo.{rest, Blocked}
use coasio.Semaphore.Rep.{Waits, Rep, link_tail-Rep}
use coasio.Semaphore.Operations.{
  need_of, init-Rep, Returned, Joined, release-Returned, try_acquire_lem,
  try_acquire_or_enqueue-Joined,
}
use coasio.Semaphore.Leaving.{Enqueued, dequeue_or_return_lem, try_cancel_waiter_lem}
use coasio.Semaphore.World.{World, start, join_step, join, Reach}
use coasio.Semaphore.Wakeups.{no_lost_wakeup}
use coasio.Semaphore.GivenUp.{
  cancel_leaves_servable_asleep, cancel_unqueued_drops_queue, release_overflow,
}

-- The waiter at address `a` asks for `a` permits.
abbrev waiter : Ptr → Waiter
waiter a = record {
  handle = 10 + a;
  rt = 0;
  requested_permits = a;
  acquired = false;
  cancelled = false;
}

abbrev bare : Links
bare = record { next = λ a. null; prev = λ a. null }

-- A semaphore of two permits; the waiter 1 is served at once, the waiter 2 waits.
abbrev world0 : World
world0 = start 2 bare waiter

abbrev world1 : World
world1 = join_step world0 1

abbrev world2 : World
world2 = join_step world1 2

world1-Waits : Waits world1.sem 2
unfolding init try_acquire_or_enqueue grant_locked grant_loop grant_turn give hand_out serve unlink
    set_acquired link_tail link_back splice clear signed_lt sub64
world1-Waits = (refl, refl, ground arith)

world0-Waits : Waits world0.sem 1
unfolding init
world0-Waits = (refl, refl, ground arith)

world1-fresh : has 2 world1.queue ≡ false
unfolding init rest
world1-fresh = refl

reach2 : Reach 2 world2
reach2 =
    Reach.next (Reach.next (Reach.fresh bare waiter) (join 1 (ground arith) refl world0-Waits))
      (join 2 (ground arith) world1-fresh world1-Waits)

no_lost_wakeup_example : Blocked (need_of world2.sem) world2.sem.permits world2.queue
no_lost_wakeup_example = no_lost_wakeup 2 world2 (ground arith) reach2 refl

-- One permit, and the queue of the waiters 2 and 1.
abbrev queued : Sem
queued = link_tail (link_tail (init 1 bare waiter) 2) 1

first-Rep : Rep (link_tail (init 1 bare waiter) 2) (2 ∷ [])
unfolding init
first-Rep =
    link_tail-Rep (init 1 bare waiter) [] 2 (init-Rep 1 bare waiter (ground arith)) (ground arith)
      refl (refl, refl, ground arith)

queued-Rep : Rep queued (2 ∷ 1 ∷ [])
unfolding init link_tail
queued-Rep =
    link_tail-Rep (link_tail (init 1 bare waiter) 2) (2 ∷ []) 1 first-Rep (ground arith) refl
      (refl, refl, ground arith)

queued-Enqueued : (w : Ptr) → has w (2 ∷ 1 ∷ []) ≡ true → Enqueued queued (2 ∷ 1 ∷ []) w
unfolding init link_tail
queued-Enqueued w m = m

queued-permits : queued.permits ≡ 1
unfolding init link_tail
queued-permits = refl

queued-need : (w : Ptr) → need_of queued w ≡ w
unfolding init link_tail
queued-need w = refl

queued-Waits : (w : Ptr) → w ≤ 10 → Waits queued w
unfolding init link_tail
queued-Waits w h = (refl, refl, ground arith)

release-Returned_example :
    Returned queued (2 ∷ 1 ∷ []) 2 (release 2 queued 2).0 (release 2 queued 2).1
release-Returned_example =
    release-Returned 2 queued (2 ∷ 1 ∷ []) 2 queued-Rep (ground arith) (ground arith)
      (ground (arith, queued-permits))

try_acquire_or_enqueue-Joined_example :
    Joined queued (2 ∷ 1 ∷ []) 3 (try_acquire_or_enqueue 3 queued 3)
try_acquire_or_enqueue-Joined_example =
    try_acquire_or_enqueue-Joined 3 queued (2 ∷ 1 ∷ []) 3 queued-Rep (ground arith) refl
      (queued-Waits 3 (ground arith)) (ground arith)

dequeue_or_return_lem_run :
    let r = dequeue_or_return 2 queued 2 in
    (((queued.waiters 2).cancelled ≡ true) × (r ≡ (queued, [])))
    ⊎ ((has 2 (2 ∷ 1 ∷ []) ≡ true)
        × Rep r.0 (erase 2 (2 ∷ 1 ∷ []))
        × (r.0.permits ≡ queued.permits)
        × (r.0.waiters ≡ queued.waiters)
        × (r.1 ≡ []))
    ⊎ (((queued.waiters 2).acquired ≡ true)
        × Returned queued (2 ∷ 1 ∷ []) (need_of queued 2) r.0 r.1)
dequeue_or_return_lem_run =
    dequeue_or_return_lem 2 queued (2 ∷ 1 ∷ []) 2 queued-Rep (queued-Enqueued 2 refl) (ground arith)
      (ground (arith, queued-permits, queued-need 2))

try_cancel_waiter_lem_run :
    let r = try_cancel_waiter queued 2 in
    (r.1 ≡ true)
    × Rep r.0 (1 ∷ [])
    × (r.0.permits ≡ queued.permits)
    × (r.0.waiters ≡ put queued.waiters 2 (record (queued.waiters 2) { cancelled = true }))
try_cancel_waiter_lem_run =
    try_cancel_waiter_lem queued (2 ∷ 1 ∷ []) 2 queued-Rep (queued-Enqueued 2 refl)

try_acquire_lem_run :
    ((try_acquire (init 5 bare waiter) 2).1 ≡ leb 2 (init 5 bare waiter).permits)
    × ((try_acquire (init 5 bare waiter) 2).0 ≡ (
        if leb 2 (init 5 bare waiter).permits
        then record (init 5 bare waiter) { permits = (init 5 bare waiter).permits - 2 }
        else init 5 bare waiter))
try_acquire_lem_run =
    try_acquire_lem (init 5 bare waiter) [] 2 (init-Rep 5 bare waiter (ground arith)) (ground arith)

cancel_leaves_servable_asleep_example :
    let s' = (try_cancel_waiter queued 2).0 in
    Rep s' (1 ∷ [])
    × (s'.head ≡ 1)
    × ((s'.waiters 1).acquired ≡ false)
    × (need_of s' 1 ≤ available_permits s')
cancel_leaves_servable_asleep_example =
    cancel_leaves_servable_asleep queued 2 1 [] queued-Rep
      (ground (arith, queued-permits, queued-need 1))

queued_apart : (queued.links.prev 3 ≡ null) × (queued.links.next 3 ≡ null)
unfolding init link_tail link_back
queued_apart = (refl, refl)

cancel_unqueued_drops_queue_run :
    ((try_cancel_waiter queued 3).1 ≡ true) × Rep (try_cancel_waiter queued 3).0 []
cancel_unqueued_drops_queue_run =
    cancel_unqueued_drops_queue queued 3 (2 ∷ 1 ∷ []) queued-Rep (queued-Waits 3 (ground arith))
      queued_apart.0 queued_apart.1

full-permits : (init max_permits bare waiter).permits ≡ max_permits
unfolding init
full-permits = refl

release_overflow_run : (try_acquire (release 1 (init max_permits bare waiter) 1).0 5).1 ≡ false
release_overflow_run =
    release_overflow 1 (init max_permits bare waiter) 1 5
      (init-Rep max_permits bare waiter (ground arith)) (ground arith)
      (ground (arith, full-permits)) (ground arith) (ground arith)
