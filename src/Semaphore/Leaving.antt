-- ===== src/Semaphore/Leaving.antt =====
-- Waiters that leave: given up, or destroyed when they are queued, served or given up.
use coasio.Common.{
  ℕ, ◌+◌, ◌≤◌, ◌≡◌, refl, ◌⊎◌, true, false, not, ◌||◌, List, [], arith, if◌then◌else◌, has, erase,
  erase_absent, length, inl, inr, Bool-cases,
}
use coasio.Links.{Ptr, null, put}
use coasio.Links.Chain.{not-has-erase_self}
use coasio.Words.{max_permits}
use coasio.Semaphore.{Sem, unlink, set_cancelled, try_cancel_waiter, dequeue_or_return}
use coasio.Semaphore.Rep.{Rep, unlink-Rep, update-Rep, has-Waits}
use coasio.Semaphore.Operations.{need_of, Returned, grants-Returned}

-- Of a waiter that has been passed to `try_acquire_or_enqueue`: it is queued until it is served or
-- cancelled.
abbrev pub Enqueued : Sem → List Ptr → Ptr → Type 0
Enqueued s xs w = has w xs ≡ not ((s.waiters w).acquired || (s.waiters w).cancelled)

pub dequeue_served :
    (fuel : ℕ) (s : Sem) (xs : List Ptr) (w : Ptr)
    → Rep s xs
    → length xs ≤ fuel
    → s.permits + need_of s w ≤ max_permits
    → (s.waiters w).acquired ≡ true
    → (s.waiters w).cancelled ≡ false
    → Returned s xs (need_of s w) (dequeue_or_return fuel s w).0 (dequeue_or_return fuel s w).1
unfolding dequeue_or_return
dequeue_served fuel s xs w r en fits served live =
    rw (live, served) (grants-Returned fuel s xs (need_of s w) r en fits)

pub dequeue_queued :
    (fuel : ℕ) (s : Sem) (xs : List Ptr) (w : Ptr)
    → Rep s xs
    → has w xs ≡ true
    → Rep (dequeue_or_return fuel s w).0 (erase w xs)
      × ((dequeue_or_return fuel s w).0.permits ≡ s.permits)
unfolding dequeue_or_return unlink
dequeue_queued fuel s xs w r m =
    let (idle, live, _) = has-Waits s w xs r m in rw (live, idle) (unlink-Rep s xs w r m, refl)

-- On a well-formed semaphore with room for the permits of the waiter, `dequeue_or_return` leaves
-- all as it is for a cancelled waiter, takes a waiter that is still queued off the queue, and gives
-- back the permits of one that has been served, as `release` does.
pub dequeue_or_return_lem :
    (fuel : ℕ) (s : Sem) (xs : List Ptr) (w : Ptr)
    → Rep s xs
    → Enqueued s xs w
    → length xs ≤ fuel
    → s.permits + need_of s w ≤ max_permits
    → let r = dequeue_or_return fuel s w in
      (((s.waiters w).cancelled ≡ true) × (r ≡ (s, [])))
      ⊎ ((has w xs ≡ true)
          × Rep r.0 (erase w xs)
          × (r.0.permits ≡ s.permits)
          × (r.0.waiters ≡ s.waiters)
          × (r.1 ≡ []))
      ⊎ (((s.waiters w).acquired ≡ true) × Returned s xs (need_of s w) r.0 r.1)
unfolding dequeue_or_return unlink
dequeue_or_return_lem fuel s xs w r q en fits = elim (Bool-cases (s.waiters w).cancelled) [
  | inl e ↦ inl (e, rw e)
  | inr live ↦ elim (Bool-cases (s.waiters w).acquired) [
    | inl e ↦ inr (inr (e, rw (live, e) (grants-Returned fuel s xs (need_of s w) r en fits)))
    | inr idle ↦
        let m : has w xs ≡ true = rw (idle, live) at q in
        rw (live, idle) (inr (inl (m, unlink-Rep s xs w r m, refl, refl, refl)))
  ]
]

-- On a well-formed semaphore, `try_cancel_waiter` of a waiter that was passed to it succeeds
-- exactly if the waiter is still queued; then it takes it off the queue and marks it, and otherwise
-- it changes nothing; neither the permits nor another waiter change.
pub try_cancel_waiter_lem :
    (s : Sem) (xs : List Ptr) (w : Ptr)
    → Rep s xs
    → Enqueued s xs w
    → let r = try_cancel_waiter s w in
      (r.1 ≡ has w xs)
      × Rep r.0 (erase w xs)
      × (r.0.permits ≡ s.permits)
      × (r.0.waiters ≡ (
          if has w xs
          then put s.waiters w (record (s.waiters w) { cancelled = true })
          else s.waiters))
unfolding try_cancel_waiter set_cancelled unlink
try_cancel_waiter_lem s xs w r q = elim (Bool-cases (has w xs)) [
  | inl m ↦
      let (idle, live, _) = has-Waits s w xs r m in
      let gone = not-has-erase_self s.links null s.head xs r.chain w in
      let step : try_cancel_waiter s w ≡ (set_cancelled (unlink s w) w, true) = rw (idle, live) in
      rw (step, m) (refl, update-Rep _ w _ (erase w xs) (unlink-Rep s xs w r m) gone, refl, refl)
  | inr out ↦
      let settled : (s.waiters w).acquired || (s.waiters w).cancelled ≡ true = ground (arith, q) in
      rw (out, settled, erase_absent w xs out) (refl, r, refl, refl)
]
