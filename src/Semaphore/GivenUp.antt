-- ===== src/Semaphore/GivenUp.antt =====
-- What goes wrong around waiters that are given up, and on a release of too many permits.
use coasio.Common.{ℕ, ◌+◌, ◌≤◌, ◌<◌, ◌≡◌, refl, ap, true, false, List, [], ◌∷◌, arith, erase-head}
use coasio.Links.{Ptr, null}
use coasio.Words.{max_permits, add64, signed_lt}
use coasio.Semaphore.{
  Sem, Waiter, unlink, set_cancelled, try_cancel_waiter, release, try_acquire, available_permits,
}
use coasio.Semaphore.Rep.{Waits, Rep}
use coasio.Semaphore.Operations.{need_of}
use coasio.Semaphore.Leaving.{try_cancel_waiter_lem}

-- When the oldest waiter of a well-formed semaphore is given up and the one behind it asks for no
-- more than there is, that one stays unserved at the head of the queue.
pub cancel_leaves_servable_asleep :
    (s : Sem) (w v : Ptr) (xs : List Ptr)
    → Rep s (w ∷ v ∷ xs)
    → need_of s v ≤ s.permits
    → let s' = (try_cancel_waiter s w).0 in
      Rep s' (v ∷ xs)
      × (s'.head ≡ v)
      × ((s'.waiters v).acquired ≡ false)
      × (need_of s' v ≤ available_permits s')
unfolding available_permits
cancel_leaves_servable_asleep s w v xs r fits =
    let (_, rep, same, ws) = try_cancel_waiter_lem s (w ∷ v ∷ xs) w r (ground arith) in
    let queued : Rep (try_cancel_waiter s w).0 (v ∷ xs) = rw (erase-head w (v ∷ xs)) at rep in
    let asks = ap (λ (f : Ptr → Waiter). f v) ws in
    let apart = r.chain.2 in
    (queued, queued.chain.0, queued.waiting.0.0, ground (arith, asks, same))

-- When a waiter of a well-formed semaphore is given up while it is not queued and its two pointers
-- are null, the call succeeds and the queue is empty after it, whoever waited.
pub cancel_unqueued_drops_queue :
    (s : Sem) (w : Ptr) (xs : List Ptr)
    → Rep s xs
    → Waits s w
    → s.links.prev w ≡ null
    → s.links.next w ≡ null
    → ((try_cancel_waiter s w).1 ≡ true) × Rep (try_cancel_waiter s w).0 []
unfolding try_cancel_waiter set_cancelled unlink
cancel_unqueued_drops_queue s w xs r waits p n =
    let (idle, live, _) = waits in
    rw (idle, live)
      (
        refl,
        record {
          chain = ground arith;
          last = ground arith;
          flag = ground arith;
          nonneg = r.nonneg;
          waiting = tt;
        },
      )

-- A `release` that takes the counter of a well-formed semaphore without waiters past the greatest
-- count succeeds, and no request for a permit is served by `try_acquire` after it.
pub release_overflow :
    (fuel : ℕ) (s : Sem) (n m : ℕ)
    → Rep s []
    → n ≤ max_permits
    → max_permits < s.permits + n
    → 0 < m
    → m ≤ max_permits
    → (try_acquire (release fuel s n).0 m).1 ≡ false
unfolding try_acquire release add64 signed_lt
release_overflow fuel s n m r h over pos small = ground (arith, r.chain, r.flag, r.nonneg)
