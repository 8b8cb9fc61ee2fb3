-- ===== src/Semaphore/PermitExamples.antt =====
-- Examples: permits and the awaiter of a permit, at concrete states.
use coasio.Common.{◌+◌, ◌≡◌, refl, true, false, [], ◌∷◌, none, some, arith, has}
use coasio.Links.{Ptr, null, Links}
use coasio.Semaphore.{Sem, Waiter, init, link_tail}
use coasio.Semaphore.Fifo.{granted, rest}
use coasio.Semaphore.Rep.{Waits, Rep, link_tail-Rep}
use coasio.Semaphore.Operations.{need_of, init-Rep}
use coasio.Semaphore.Permit.{
  Permit, release_if_held, assign, merge, count, total, semaphore_try_acquire, assign_total,
  merge_total, semaphore_try_acquire_total,
}
use coasio.Semaphore.Awaiter.{World, Steps, waiting_world, answered, left, resumed_twice}

abbrev two_of_seven : Permit
two_of_seven = record { sem = some 7; permits = 2 }

abbrev three_of_seven : Permit
three_of_seven = record { sem = some 7; permits = 3 }

assign_total_run :
    let (p', o', out) = assign two_of_seven three_of_seven in
    count p' + count o' + total out ≡ count two_of_seven + count three_of_seven
assign_total_run = assign_total two_of_seven three_of_seven (ground arith, refl)

merge_total_run :
    let (p', o') = merge two_of_seven three_of_seven in
    (count p' + count o' ≡ count two_of_seven + count three_of_seven)
    × (total (release_if_held o') ≡ 0)
merge_total_run = merge_total two_of_seven three_of_seven (ground arith)

abbrev waiter : Ptr → Waiter
waiter a = record {
  handle = 10 + a;
  rt = 0;
  requested_permits = a;
  acquired = false;
  cancelled = false;
}

abbrev bare : Links
bare = record { next = λ a. null; prev = λ a. null }

semaphore_try_acquire_total_run :
    let (s', p) = semaphore_try_acquire 7 (init 5 bare waiter) 2 in
    s'.permits + (elim p [ none ↦ 0 | some q ↦ total (release_if_held q) ])
    ≡ (init 5 bare waiter).permits
semaphore_try_acquire_total_run =
    semaphore_try_acquire_total 7 2 (init 5 bare waiter) [] (init-Rep 5 bare waiter (ground arith))

-- One permit, and a queue with the waiter 2 in it; the waiter 3 comes.
abbrev queued : Sem
queued = link_tail (init 1 bare waiter) 2

queued-Rep : Rep queued (2 ∷ [])
unfolding init
queued-Rep =
    link_tail-Rep (init 1 bare waiter) [] 2 (init-Rep 1 bare waiter (ground arith)) (ground arith)
      refl (refl, refl, ground arith)

queued-Waits : Waits queued 3
unfolding init link_tail
queued-Waits = (refl, refl, ground arith)

unserved : has 3 (granted (need_of queued) queued.permits (2 ∷ 3 ∷ [])) ≡ false
unfolding init link_tail granted
unserved = refl

resumed_twice_example :
    (u : World) × (v : World) × Steps 2 3 (waiting_world queued) u
    × (u.pc ≡ answered false)
    × (has 3 (rest (need_of queued) queued.permits (2 ∷ 3 ∷ [])) ≡ true)
    × Rep u.sem (rest (need_of queued) queued.permits (2 ∷ 3 ∷ []))
    × (u.off ≡ false)
    × (u.firing ≡ false)
    × (u.resumes ≡ 0)
    × Steps 2 3 u v
    × (v.pc ≡ left false)
    × (v.off ≡ true)
    × (v.resumes ≡ 1)
resumed_twice_example =
    resumed_twice 2 queued (2 ∷ []) 3 queued-Rep (ground arith) refl queued-Waits (ground arith)
      unserved
