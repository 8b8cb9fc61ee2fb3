-- ===== src/Blocking/Pool/Threads/Leftovers.antt =====
-- What the destructor of the pool leaves behind.
use coasio.Common.{
  ℕ, zero, suc, ◌+◌, ◌<◌, ◌≡◌, refl, ap, sym, subst, ◌∙◌, true, [], ◌∷◌, ◌++◌, arith, erase, length,
  tally, tally-append, tally-move, tally-erase, times, occurs, length-move, dec_lt,
}
use coasio.Blocking.Pool.{shut_down, fresh_pool}
use coasio.Blocking.Pool.Threads.{
  left, World, idle_threads, Work, rounds, notifies_all, joins_thread, Outside, enqueues, gives_up,
  wakes_unasked, stops, Step, works, happens, Reach, here, next, begin_world,
}
use coasio.Blocking.Pool.Threads.Rounds.{
  left_bit, in_hand, Gone, Gone-move, Gone-next, Gone-awoken, Gone-all, in_hand-awoken, left-awoken,
  length-awoken, Round-Kept, enqueue-taken, try_cancel-found, woken, Notified-Undisturbed,
}

pub record Inv (n : ℕ) (w : World) : Type 0 where
  pub counted :
      (f : ℕ → ℕ)
      → tally f w.accepted
        ≡ tally f w.finished
          + tally f w.given_up
          + tally (in_hand f) w.threads
          + tally f w.pool.queue
  pub sized : length w.threads ≡ n
  pub gone : Gone w.joined w.threads
  pub drained : 0 < tally left_bit w.threads → (w.pool.queue ≡ []) × (w.pool.stop ≡ true)

Work-Inv : {n : ℕ} {w w' : World} → Work w w' → Inv n w → Inv n w'
Work-Inv {w} (rounds xs ys p q r t at round) i =
    let k = Round-Kept (λ _. 0) round in
    record {
      counted = λ f. omega (
        arith,
        i.counted f,
        tally-append f t w.finished,
        (Round-Kept f round).weight,
        tally-move (in_hand f) xs p q ys,
        ap (tally (in_hand f)) at,
      );
      sized = length-move xs p q ys ∙ ap length (sym at) ∙ i.sized;
      gone = Gone-move w.joined xs p q ys k.stays (subst (Gone w.joined) at i.gone);
      drained = λ h. elim (dec_lt 0 (left_bit q)) [
        | yes leaving ↦ k.left_empty leaving
        | no other ↦
            let (empty, off) = i.drained (
              omega (
                arith,
                h,
                other,
                k.stays,
                tally-move left_bit xs p q ys,
                ap (tally left_bit) at,
              )) in
            (k.empty empty, k.stop ∙ off)
      ];
    }
Work-Inv {w} (notifies_all p) i = record {
  counted = λ f. omega (arith, i.counted f, in_hand-awoken f w.threads);
  sized = length-awoken w.threads ∙ i.sized;
  gone = Gone-awoken w.joined w.threads i.gone;
  drained = λ h. i.drained (omega (arith, h, left-awoken w.threads));
}
Work-Inv {w} (joins_thread xs ys p at k) i = record {
  counted = i.counted;
  sized = i.sized;
  gone =
      let here : Gone (length xs) (xs ++ left ∷ ys) =
        subst (λ m. Gone m (xs ++ left ∷ ys)) k (subst (Gone w.joined) at i.gone) in
      subst (λ m. Gone (suc m) w.threads) (sym k)
        (subst (Gone (suc (length xs))) (sym at) (Gone-next xs ys here));
  drained = i.drained;
}

Outside-Inv : {n : ℕ} {w w' : World} → Outside w w' → Inv n w → Inv n w'
unfolding tally shut_down
Outside-Inv {w} (enqueues item ws taken note) i =
    let (live, queue) = enqueue-taken w.pool item taken in
    let u = Notified-Undisturbed w.threads ws note in
    record {
      counted = λ f. omega (
        arith,
        i.counted f,
        u.hands f,
        ap (tally f) queue,
        tally-append f w.pool.queue (item ∷ []),
      );
      sized = u.size ∙ i.sized;
      gone = u.prefix w.joined i.gone;
      drained = λ h. let off = (i.drained (omega (arith, h, u.leavers))).1 in cc;
    }
Outside-Inv {w} (gives_up item found) i =
    let (on, queue, stop) = try_cancel-found w.pool item found in
    record {
      counted =
          λ f. omega (arith, i.counted f, ap (tally f) queue, tally-erase f item w.pool.queue on);
      sized = i.sized;
      gone = i.gone;
      drained = λ h. let (empty, off) = i.drained h in (queue ∙ ap (erase item) empty, stop ∙ off);
    }
Outside-Inv {w} (wakes_unasked xs ys at) i =
    let u = woken w.threads xs ys at in
    record {
      counted = λ f. omega (arith, i.counted f, u.hands f);
      sized = u.size ∙ i.sized;
      gone = u.prefix w.joined i.gone;
      drained = λ h. i.drained (omega (arith, h, u.leavers));
    }
Outside-Inv {w} (stops p) i = record {
  counted = i.counted;
  sized = i.sized;
  gone = i.gone;
  drained = λ h. ((i.drained h).0, refl);
}

pub Step-Inv : {n : ℕ} {w w' : World} → Step w w' → Inv n w → Inv n w'
Step-Inv (works st) i = Work-Inv st i
Step-Inv (happens st) i = Outside-Inv st i

pub Reach-Inv : {n : ℕ} {v : World} (w : World) → Inv n v → Reach v w → Inv n w
Reach-Inv w i here = i
Reach-Inv w i (next {w = u} r st) = Step-Inv st (Reach-Inv u i r)

idle_threads_lem :
    (f : ℕ → ℕ) (n : ℕ)
    → (tally (in_hand f) (idle_threads n) ≡ 0)
      × (tally left_bit (idle_threads n) ≡ 0)
      × (length (idle_threads n) ≡ n)
unfolding tally
idle_threads_lem f zero = (refl, refl, refl)
idle_threads_lem f (suc n) = omega (arith, idle_threads_lem f n)

pub begin-Inv : (n : ℕ) → Inv n (begin_world n)
unfolding fresh_pool tally
begin-Inv n = record {
  counted = λ f. omega (arith, idle_threads_lem f n);
  sized = (idle_threads_lem (λ _. 0) n).2;
  gone = tt;
  drained = λ h. absurd (omega (arith, h, idle_threads_lem (λ _. 0) n));
}

-- From a pool that was just made with at least one thread, in every interleaving of its threads, of
-- threads that hand it functions or give them up, of wake-ups without a reason, and of its
-- destructor: when the destructor has joined all threads, the queue is empty, the flag is set, and
-- every function was accepted as often as it was executed or given up.
pub nothing_left_behind :
    (n : ℕ) (w : World) (item : ℕ)
    → 0 < n
    → Reach (begin_world n) w
    → w.joined ≡ n
    → (w.pool.queue ≡ [])
      × (w.pool.stop ≡ true)
      × (times item w.accepted ≡ times item w.finished + times item w.given_up)
unfolding tally
nothing_left_behind n w item some reach all =
    let i = Reach-Inv w (begin-Inv n) reach in
    let all_gone = subst (λ m. Gone m w.threads) (all ∙ sym i.sized) i.gone in
    let (hands, leavers) = Gone-all (occurs item) w.threads all_gone in
    let (empty, off) = i.drained (omega (arith, leavers, i.sized, some)) in
    (empty, off, omega (arith, i.counted (occurs item), hands, ap (tally (occurs item)) empty))
