-- ===== src/Semaphore/Operations.antt =====
-- The operations of the semaphore's state, on well-formed states, against the queue that they
-- stand for.
use mathlib.Core.List.{Perm, perm_append_comm}
use mathlib.Core.List.Perm
use coasio.Common.{
  ℕ, ◌+◌, ◌-◌, ◌≤◌, ◌<◌, ◌≡◌, ◌≢◌, refl, ap, subst, ◌∙◌, Bool, true, false, ◌||◌, ◌&&◌, List, [],
  ◌∷◌, ◌++◌, arith, leb, leb→le, ltb-eq-not-leb, ◌==◌, if◌then◌else◌, has, is_empty, length,
  length-append, inl, inr, Bool-cases,
}
use coasio.Links.{Ptr, null, Links}
use coasio.Words.{max_permits, add64, add64_small, sub64_small, signed_lt_small}
use coasio.Semaphore.{
  Sem, Waiter, ToWake, wake_of, init, link_tail, grant_locked, scheduled, try_acquire,
  try_acquire_or_enqueue, release,
}
use coasio.Semaphore.Fifo.{granted, rest, left}
use coasio.Semaphore.Rep.{Waits, Rep, link_tail-Rep, more-Rep, head-is_empty}
use coasio.Semaphore.Serving.{Served}
use coasio.Semaphore.Granting.{Loop, wakes, grant_loop-Loop}

abbrev pub need_of : Sem → Ptr → ℕ
need_of s a = (s.waiters a).requested_permits

-- `init` of at most `max_permits` permits stands for the empty queue.
pub init-Rep : (n : ℕ) (l : Links) (ws : Ptr → Waiter) → n ≤ max_permits → Rep (init n l ws) []
unfolding init
init-Rep n l ws h = record { chain = refl; last = refl; flag = refl; nonneg = h; waiting = tt }

pub grant_locked-Loop :
    (fuel cap : ℕ) (self : Ptr) (s : Sem) (xs : List Ptr)
    → Rep s xs
    → length xs ≤ fuel
    → Loop cap self
        (need_of s)
        (wake_of s)
        (record { sem = s; buf = []; direct = [] })
        xs
        (grant_locked fuel cap self s)
unfolding grant_locked
grant_locked-Loop fuel cap self s xs r en =
    grant_loop-Loop cap self (need_of s) (wake_of s) fuel _ xs en r
      (record { request = λ a. refl; wake = λ a. refl }) (inl refl)

abbrev pub add_permits : Sem → ℕ → Sem
add_permits s n = record s { permits = s.permits + n }

-- What `release` and the second half of `dequeue_or_return` do: `n` permits come back, and the
-- oldest waiters that they serve are resumed, each once.
pub record Returned (s : Sem) (xs : List Ptr) (n : ℕ) (s' : Sem) (out : List ToWake) : Type 0 where
  pub served : Served (need_of s) (add_permits s n) xs s'
  pub resumed : Perm out (wakes (wake_of s) null (granted (need_of s) (s.permits + n) xs))

pub grants-Returned :
    (fuel : ℕ) (s : Sem) (xs : List Ptr) (n : ℕ)
    → Rep s xs
    → length xs ≤ fuel
    → s.permits + n ≤ max_permits
    → let g = grant_locked fuel 16 null (record s { permits = add64 s.permits n }) in
      Returned s xs n g.sem (scheduled g)
grants-Returned fuel s xs n r en fits =
    let loop = grant_locked-Loop fuel 16 null (add_permits s n) xs (more-Rep s _ xs r fits) en in
    let g = grant_locked fuel 16 null (add_permits s n) in
    rw (add64_small s.permits n fits) (record {
      served = loop.served;
      resumed = subst (Perm (scheduled g)) loop.woken (perm_append_comm g.direct g.buf);
    })

release_idle :
    (fuel : ℕ) (s : Sem) (n : ℕ)
    → (n == 0) ≡ false
    → s.has_waiters ≡ false
    → release fuel s n ≡ (record s { permits = add64 s.permits n }, [])
unfolding release
release_idle fuel s n e flag = rw (e, flag)

release_busy :
    (fuel : ℕ) (s : Sem) (n : ℕ)
    → (n == 0) ≡ false
    → s.has_waiters ≡ true
    → let g = grant_locked fuel 16 null (record s { permits = add64 s.permits n }) in
      release fuel s n ≡ (g.sem, scheduled g)
unfolding release
release_busy fuel s n e flag = rw (e, flag)

-- Nobody waits, so nobody is resumed.
idle-Returned :
    (s : Sem) (n : ℕ)
    → Rep s []
    → s.permits + n ≤ max_permits
    → Returned s [] n (add_permits s n) []
unfolding rest left granted wakes
idle-Returned s n r fits = record {
  served = record { rep = more-Rep s _ [] r fits; permits = refl; waiters = λ a. refl };
  resumed = Perm.refl [];
}

-- `release` of `n` permits, more than none and not past the greatest count, on a well-formed
-- semaphore: the permits come back, as many of the oldest waiters as they serve in order leave the
-- queue with their permits, and the coroutines of exactly these are scheduled, each once; it is
-- enough to allow one round of the loop for each waiter.
pub release-Returned :
    (fuel : ℕ) (s : Sem) (xs : List Ptr) (n : ℕ)
    → Rep s xs
    → length xs ≤ fuel
    → 0 < n
    → s.permits + n ≤ max_permits
    → Returned s xs n (release fuel s n).0 (release fuel s n).1
release-Returned fuel s [] n r en pos fits =
    rw (release_idle fuel s n (ground arith) r.flag, add64_small s.permits n fits)
      (idle-Returned s n r fits)
release-Returned fuel s (x ∷ xs) n r en pos fits =
    rw (release_busy fuel s n (ground arith) r.flag) (grants-Returned fuel s (x ∷ xs) n r en fits)

-- On a well-formed semaphore, `try_acquire` of at most the greatest count takes its permits if they
-- are there and nobody waits, or if it asks for none; otherwise it changes nothing.
pub try_acquire_lem :
    (s : Sem) (xs : List Ptr) (n : ℕ)
    → Rep s xs
    → n ≤ max_permits
    → let takes = (n == 0) || (is_empty xs && leb n s.permits) in
      ((try_acquire s n).1 ≡ takes)
      × ((try_acquire s n).0 ≡ (if takes then record s { permits = s.permits - n } else s))
unfolding try_acquire
try_acquire_lem s xs n r h =
    let with_permits = λ (k : ℕ). let t : Sem = record s { permits = k } in t in
    let test = signed_lt_small s.permits n r.nonneg h ∙ ltb-eq-not-leb s.permits n in
    elim (Bool-cases (n == 0)) [
      | inl e ↦
          let same : s.permits ≡ s.permits - n = ground arith in rw e (refl, ap with_permits same)
      | inr e ↦ elim (Bool-cases (is_empty xs)) [
        | inr queued ↦ rw (e, head-is_empty s xs r, queued) (refl, refl)
        | inl free ↦ elim (Bool-cases (leb n s.permits)) [
          | inr short ↦ rw (e, head-is_empty s xs r, free, test, short) (refl, refl)
          | inl fits ↦
              let less = sub64_small s.permits n (leb→le _ _ fits) r.nonneg in
              rw (e, head-is_empty s xs r, free, test, fits) (refl, ap with_permits less)
        ]
      ]
    ]

-- What `try_acquire_or_enqueue` does with the queue: the waiter joins it at the end, and then as
-- many are served as fit; it says whether the new waiter was among them, and resumes the others.
pub record Joined (s : Sem) (xs : List Ptr) (w : Ptr) (r : Sem × List ToWake × Bool) : Type 0 where
  pub served : Served (need_of s) s (xs ++ w ∷ []) r.0
  pub resumed : Perm r.1 (wakes (wake_of s) w (granted (need_of s) s.permits (xs ++ w ∷ [])))
  pub answer : r.2 ≡ has w (granted (need_of s) s.permits (xs ++ w ∷ []))

-- `try_acquire_or_enqueue` of a new waiter on a well-formed semaphore: the waiter joins the queue
-- at the end, as many of the oldest waiters as fit are served in order, it answers whether the new
-- waiter was among them, and it schedules each of the others once; it is enough to allow one round
-- of the loop more than there are waiters.
pub try_acquire_or_enqueue-Joined :
    (fuel : ℕ) (s : Sem) (xs : List Ptr) (w : Ptr)
    → Rep s xs
    → w ≢ null
    → has w xs ≡ false
    → Waits s w
    → length xs < fuel
    → Joined s xs w (try_acquire_or_enqueue fuel s w)
unfolding try_acquire_or_enqueue link_tail
try_acquire_or_enqueue-Joined fuel s xs w r h out waits en =
    let enough : length (xs ++ w ∷ []) ≤ fuel = omega (arith, length-append xs (w ∷ [])) in
    let loop =
      grant_locked-Loop fuel 16 w (link_tail s w) (xs ++ w ∷ [])
        (link_tail-Rep s xs w r h out waits) enough in
    let g = grant_locked fuel 16 w (link_tail s w) in
    let served : Served (need_of s) s (xs ++ w ∷ []) g.sem = record {
      rep = loop.served.rep;
      permits = loop.served.permits;
      waiters = loop.served.waiters;
    } in
    record {
      served = served;
      resumed = subst (Perm (scheduled g)) loop.woken (perm_append_comm g.direct g.buf);
      answer = ground (arith, waits.0, served.waiters w);
    }
