-- ===== src/Semaphore/Wakeups.antt =====
-- What holds of a semaphore in every state that its tasks reach: the pointers stand for a queue, no
-- permit is lost, and, while no waiter is given up, no waiter that could be served sleeps on.
use mathlib.Core.Path.{fun_ext}
use coasio.Common.{
  ℕ, ◌+◌, ◌≤◌, ◌≡◌, ◌≢◌, refl, sym, ◌∙◌, subst, true, false, ◌||◌, ◌&&◌, List, [], ◌∷◌, ◌++◌, arith,
  leb, ◌==◌, has, is_empty, inl, inr, Bool-cases,
}
use coasio.Links.{Ptr, null, Links}
use coasio.Words.{max_permits, add64_small}
use coasio.Semaphore.{Sem, Waiter, init}
use coasio.Semaphore.Fifo.{granted, rest, sum_needs, Blocked, left-conserved, rest-Blocked}
use coasio.Semaphore.Rep.{Waits, has-Waits, more-Rep}
use coasio.Semaphore.Serving.{Served}
use coasio.Semaphore.Operations.{
  need_of, add_permits, init-Rep, try_acquire_lem, try_acquire_or_enqueue-Joined, grant_locked-Loop,
}
use coasio.Semaphore.Leaving.{dequeue_served, dequeue_queued, Enqueued, try_cancel_waiter_lem}
use coasio.Semaphore.World.{
  World, take_step, join_step, grant_step, give_back_step, give_back, leave, Step, take, join, add,
  see_idle, grant, is_new, Cancel, cancel, Reach, ReachAny, Inv, Settled,
}

Served-total :
    (s s' : Sem) (xs : List Ptr)
    → Served (need_of s) s xs s'
    → s'.permits + sum_needs (need_of s) (granted (need_of s) s.permits xs) ≡ s.permits
Served-total s s' xs d = rw d.permits (left-conserved (need_of s) s.permits xs)

Served-need : (s s' : Sem) (xs : List Ptr) → Served (need_of s) s xs s' → need_of s ≡ need_of s'
Served-need s s' xs d = fun_ext λ a. ground (arith, d.waiters a)

-- After serving, the oldest waiter left does not fit.
pub Served-Blocked :
    (s s' : Sem) (xs : List Ptr)
    → Served (need_of s) s xs s'
    → Blocked (need_of s') s'.permits (rest (need_of s) s.permits xs)
Served-Blocked s s' xs d =
    subst (λ need. Blocked need s'.permits (rest (need_of s) s.permits xs)) (Served-need s s' xs d)
      (rw d.permits (rest-Blocked (need_of s) s.permits xs))

Blocked-mono :
    (need : Ptr → ℕ) (p q : ℕ) (xs : List Ptr) → q ≤ p → Blocked need p xs → Blocked need q xs
Blocked-mono need p q [] h b = tt
Blocked-mono need p q (x ∷ xs) h b = omega arith

Blocked-empty : (need : Ptr → ℕ) (p : ℕ) (xs : List Ptr) → is_empty xs ≡ true → Blocked need p xs
Blocked-empty need p [] e = tt
Blocked-empty need p (x ∷ xs) e = cc

module _ (k : ℕ) (small : k ≤ max_permits) (v : World) (i : Inv k v) where
  joined :
      (w : Ptr)
      → w ≢ null
      → has w v.queue ≡ false
      → Waits v.sem w
      → Served (need_of v.sem) v.sem (v.queue ++ w ∷ []) (join_step v w).sem
  joined w h out waits =
      (try_acquire_or_enqueue-Joined _ v.sem v.queue w i.rep h out waits (omega arith)).served

  granting : Served (need_of v.sem) v.sem v.queue (grant_step v).sem
  granting = (grant_locked-Loop _ 16 null v.sem v.queue i.rep (omega arith)).served

  giving :
      (w : Ptr)
      → (v.sem.waiters w).acquired ≡ true
      → (v.sem.waiters w).cancelled ≡ false
      → need_of v.sem w ≤ v.held
      → Served
          (need_of v.sem)
          (add_permits v.sem (need_of v.sem w))
          v.queue
          (give_back_step v w).sem
  giving w served live h =
      (dequeue_served _ v.sem v.queue w i.rep (omega arith) (omega (arith, i.total)) served
        live).served

  take-Inv : (n : ℕ) → n ≤ max_permits → Inv k (take_step v n)
  take-Inv n h =
      let (answer, state) = try_acquire_lem v.sem v.queue n i.rep h in
      elim (Bool-cases ((n == 0) || (is_empty v.queue && leb n v.sem.permits))) [
        | inl e ↦
            rw (answer, state, e)
              (let enough : n ≤ v.sem.permits = ground arith in
                record {
                  rep = more-Rep v.sem _ v.queue i.rep (omega (arith, i.rep.nonneg));
                  total = omega (arith, i.total);
                })
        | inr e ↦ rw (answer, state, e) (record { rep = i.rep; total = i.total })
      ]

  take-Settled : (n : ℕ) → n ≤ max_permits → Settled v → Settled (take_step v n)
  take-Settled n h q =
      let (_, state) = try_acquire_lem v.sem v.queue n i.rep h in
      elim (Bool-cases ((n == 0) || (is_empty v.queue && leb n v.sem.permits))) [
        | inl e ↦ elim q [
          | inl b ↦ rw (state, e) (inl (Blocked-mono _ _ _ v.queue (omega arith) b))
          | inr on ↦ inr on
        ]
        | inr e ↦ rw (state, e) q
      ]

  Step-Inv : {v' : World} → Step v v' → Inv k v'
  Step-Inv (take n h) = take-Inv n h
  Step-Inv (join w h out waits) = record {
    rep = (joined w h out waits).rep;
    total = omega (arith, Served-total _ _ _ (joined w h out waits), i.total);
  }
  Step-Inv (add n pos h) = record {
    rep = more-Rep v.sem _ v.queue i.rep (omega (arith, add64_small v.sem.permits n, i.total));
    total = omega (arith, add64_small v.sem.permits n, i.total);
  }
  Step-Inv (see_idle pos e) = record { rep = i.rep; total = i.total }
  Step-Inv (grant pos) = record {
    rep = granting.rep;
    total = omega (arith, Served-total _ _ _ granting, i.total);
  }
  Step-Inv (give_back w served live h) = record {
    rep = (giving w served live h).rep;
    total = omega (arith, Served-total _ _ _ (giving w served live h), i.total);
  }

  Step-Settled : {v' : World} → Step v v' → Settled v → Settled v'
  Step-Settled (take n h) q = take-Settled n h q
  Step-Settled (join w h out waits) q = inl (Served-Blocked _ _ _ (joined w h out waits))
  Step-Settled (add n pos h) q = inr (omega arith)
  Step-Settled (see_idle pos e) q = inl (Blocked-empty _ _ v.queue (ground (arith, i.rep.flag)))
  Step-Settled (grant pos) q = inl (Served-Blocked _ _ _ granting)
  Step-Settled (give_back w served live h) q = inl (Served-Blocked _ _ _ (giving w served live h))

  -- A waiter that is not new is queued until it is served or cancelled.
  old-Enqueued : (w : Ptr) → is_new v w ≡ false → Enqueued v.sem v.queue w
  old-Enqueued w old = elim (Bool-cases (has w v.queue)) [
    | inl m ↦ let (idle, live, _) = has-Waits v.sem w v.queue i.rep m in rw (m, idle, live) refl
    | inr out ↦ ground (arith, old, out)
  ]

  Cancel-Inv : {v' : World} → Cancel v v' → v'.early ≡ false → Inv k v'
  Cancel-Inv (cancel w) late =
      let q = old-Enqueued w (ground (arith, late)) in
      let (_, rep, same, _) = try_cancel_waiter_lem v.sem v.queue w i.rep q in
      record { rep = rep; total = omega (arith, same, i.total) }
  Cancel-Inv (leave w m) late =
      let (rep, same) = dequeue_queued _ v.sem v.queue w i.rep m in
      record { rep = rep; total = omega (arith, same, i.total) }

start-total : (n : ℕ) (l : Links) (ws : Ptr → Waiter) → (init n l ws).permits + 0 ≡ n
unfolding init
start-total n l ws = omega arith

-- Only `try_cancel_waiter` comes too early.
Step-early : {v v' : World} → Step v v' → v'.early ≡ v.early
Step-early (take n h) = refl
Step-early (join w h out waits) = refl
Step-early (add n pos h) = refl
Step-early (see_idle pos e) = refl
Step-early (grant pos) = refl
Step-early (give_back w served live h) = refl

Cancel-early : {v v' : World} → Cancel v v' → v'.early ≡ false → v.early ≡ false
Cancel-early (cancel w) late = ground (arith, late)
Cancel-early (leave w m) late = late

Reach-early : (n : ℕ) (v : World) → Reach n v → v.early ≡ false
Reach-early n v (Reach.fresh l ws) = refl
Reach-early n v (Reach.next {v = u} r st) = Step-early st ∙ Reach-early n u r

pub ReachAny-Inv : (n : ℕ) (v : World) → n ≤ max_permits → ReachAny n v → v.early ≡ false → Inv n v
ReachAny-Inv n v small (ReachAny.fresh l ws) late = record {
  rep = init-Rep n l ws small;
  total = start-total n l ws;
}
ReachAny-Inv n v small (ReachAny.next {v = u} r st) late =
    Step-Inv n small u (ReachAny-Inv n u small r (sym (Step-early st) ∙ late)) st
ReachAny-Inv n v small (ReachAny.given_up {v = u} r st) late =
    Cancel-Inv n small u (ReachAny-Inv n u small r (Cancel-early st late)) st late

Reach-any : (n : ℕ) (v : World) → Reach n v → ReachAny n v
Reach-any n v (Reach.fresh l ws) = ReachAny.fresh l ws
Reach-any n v (Reach.next {v = u} r st) = ReachAny.next (Reach-any n u r) st

Reach-Settled : (n : ℕ) (v : World) → n ≤ max_permits → Reach n v → Settled v
Reach-Settled n v small (Reach.fresh l ws) = inl tt
Reach-Settled n v small (Reach.next {v = u} r st) =
    Step-Settled n small u (ReachAny-Inv n u small (Reach-any n u r) (Reach-early n u r)) st
      (Reach-Settled n u small r)

-- No lost wakeup: in every state that a semaphore of `n` permits, at most the greatest count,
-- reaches by calls of `try_acquire`, of `try_acquire_or_enqueue`, of `release` for permits that
-- were handed out, and of `dequeue_or_return` for waiters that were served, in any interleaving and
-- while no waiter is given up, whenever no `release` is on its way, nobody waits or the oldest
-- waiter asks for more permits than there are.
pub no_lost_wakeup :
    (n : ℕ) (v : World)
    → n ≤ max_permits
    → Reach n v
    → v.pending ≡ 0
    → Blocked (need_of v.sem) v.sem.permits v.queue
no_lost_wakeup n v small r quiet = elim (Reach-Settled n v small r) [
  | inl b ↦ b
  | inr on ↦ absurd (omega arith)
]
