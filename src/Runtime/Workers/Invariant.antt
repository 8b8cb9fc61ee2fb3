-- ===== src/Runtime/Workers/Invariant.antt =====
-- What holds in every state of Runtime.Workers: the queue is a queue whatever threads use it, and
-- `notify_one` wakes enough workers.
use coasio.Common.{
  tally, tally-move, length-move, index-lt, ℕ, ◌≤◌, ◌≡◌, refl, ap, sym, subst, ◌∙◌, ◌⊎◌, inl, inr,
  false, [], ◌∷◌, ◌++◌, append_assoc, arith, ◌==◌, length,
}
use coasio.Links.{Ptr, null}
use coasio.Runtime.{Runtime, schedule, put_task_in_queue, request_stop}
use coasio.Runtime.Workers.{
  fetching, asleep, left, has_stopped, World, Work, turns, notifies_all, resets_guard, polls,
  io_returns, joins_io, joins_worker, Step, works, Outside, happens, schedules, wakes_unasked,
  stops, Reach, here, next, begin_world,
}
use coasio.Runtime.Workers.Counting.{
  asleep_bit, left_bit, awake_bit, length-awoken, tally-awoken, tally_idle, tally_idle_asleep,
  length_idle,
}
use coasio.Runtime.Workers.Turns.{
  attended_move, attended_notify, Notified-left, Notified-length, Turn-queue, Turn-awake,
}

module _ {ℓ} {A : Type ℓ} where
  -- Either nobody sleeps, or the workers that are awake are no fewer than the coroutines.
  abbrev pub Attended : World A → Type 0
  Attended w =
      (tally asleep_bit w.workers ≡ 0) ⊎ (length w.rt.global_tasks ≤ tally awake_bit w.workers)

  pub record Inv (n : ℕ) (w : World A) : Type ℓ where
    pub logged : w.taken ++ w.rt.global_tasks ≡ w.scheduled
    pub flag : w.rt.stop_requested ≡ has_stopped w.phase
    pub sized : length w.workers ≡ n
    pub bounded : w.joined ≤ n
    pub present : w.rt.stop_requested ≡ false → tally left_bit w.workers ≡ 0
    pub attended : w.rt.stop_requested ≡ false → Attended w

  Work-Inv : {n : ℕ} {w w' : World A} → Work w w' → Inv n w → Inv n w'
  Work-Inv {w} (turns xs ys p q r t at turn) i =
      let (rest, stop) = Turn-queue turn in
      record {
        logged = append_assoc w.taken t r.global_tasks ∙ ap (λ l. w.taken ++ l) rest ∙ i.logged;
        flag = stop ∙ i.flag;
        sized = length-move xs p q ys ∙ ap length (sym at) ∙ i.sized;
        bounded = i.bounded;
        present = λ live.
            let live' = sym stop ∙ live in
            let same = (Turn-awake turn live').0 in
            omega (arith, tally-move left_bit xs p q ys, i.present live', ap (tally left_bit) at);
        attended = λ live.
            let live' = sym stop ∙ live in
            attended_move xs ys p q w.rt.global_tasks r.global_tasks t rest
              (Turn-awake turn live').1
              (subst
                (λ ws. (tally asleep_bit ws ≡ 0) ⊎ (length w.rt.global_tasks ≤ tally awake_bit ws))
                at (i.attended live'));
      }
  Work-Inv {w} (notifies_all p) i = record {
    logged = i.logged;
    flag = ground (arith, i.flag, p);
    sized = length-awoken w.workers ∙ i.sized;
    bounded = i.bounded;
    present = λ live. ground (arith, i.flag, p);
    attended = λ live. inl (tally-awoken w.workers);
  }
  Work-Inv {w} (resets_guard p) i = record {
    logged = i.logged;
    flag = ground (arith, i.flag, p);
    sized = i.sized;
    bounded = i.bounded;
    present = i.present;
    attended = i.attended;
  }
  Work-Inv {w} (polls p) i = record {
    logged = i.logged;
    flag = ground (arith, i.flag, p);
    sized = i.sized;
    bounded = i.bounded;
    present = i.present;
    attended = i.attended;
  }
  Work-Inv {w} (io_returns k late e) i = record {
    logged = i.logged;
    flag = i.flag;
    sized = i.sized;
    bounded = i.bounded;
    present = i.present;
    attended = i.attended;
  }
  Work-Inv {w} (joins_io p e) i = record {
    logged = i.logged;
    flag = ground (arith, i.flag, p);
    sized = i.sized;
    bounded = i.bounded;
    present = i.present;
    attended = i.attended;
  }
  Work-Inv {w} (joins_worker xs ys p at k) i = record {
    logged = i.logged;
    flag = i.flag;
    sized = i.sized;
    bounded = omega (arith, i.sized, index-lt w.workers xs left ys at);
    present = i.present;
    attended = i.attended;
  }

  schedule-queue :
      (r : Runtime A) (h : Ptr)
      → (h == null) ≡ false
      → ((schedule r h).global_tasks ≡ r.global_tasks ++ h ∷ [])
        × ((schedule r h).stop_requested ≡ r.stop_requested)
  unfolding schedule put_task_in_queue
  schedule-queue r h some_task = rw some_task (refl, refl)

  Outside-Inv : {n : ℕ} {w w' : World A} → Outside w w' → Inv n w → Inv n w'
  unfolding request_stop
  Outside-Inv {w} (schedules h ws some_task woken) i =
      let (queue, stop) = schedule-queue w.rt h some_task in
      record {
        logged =
            ap (λ l. w.taken ++ l) queue
            ∙ sym (append_assoc w.taken w.rt.global_tasks (h ∷ []))
            ∙ ap (λ l. l ++ h ∷ []) i.logged;
        flag = stop ∙ i.flag;
        sized = Notified-length w.workers ws woken ∙ i.sized;
        bounded = i.bounded;
        present = λ live. Notified-left w.workers ws woken ∙ i.present (sym stop ∙ live);
        attended = λ live.
            rw queue (
              attended_notify w.workers ws w.rt.global_tasks h woken
                (i.attended (sym stop ∙ live)));
      }
  Outside-Inv {w} (wakes_unasked xs ys at) i = record {
    logged = i.logged;
    flag = i.flag;
    sized = length-move xs asleep fetching ys ∙ ap length (sym at) ∙ i.sized;
    bounded = i.bounded;
    present = λ live.
        omega (
          arith,
          tally-move left_bit xs asleep fetching ys,
          i.present live,
          ap (tally left_bit) at,
        );
    attended = λ live. attended_wake (i.attended live);
  }
    where
      attended_wake :
          Attended w
          → (tally asleep_bit (xs ++ fetching ∷ ys) ≡ 0)
            ⊎ (length w.rt.global_tasks ≤ tally awake_bit (xs ++ fetching ∷ ys))
      attended_wake (inl none_asleep) =
          inl (omega (arith, tally-move asleep_bit xs asleep fetching ys, ap (tally asleep_bit) at))
      attended_wake (inr enough) =
          inr (omega (arith, tally-move awake_bit xs asleep fetching ys, ap (tally awake_bit) at))
  Outside-Inv {w} (stops p) i = record {
    logged = i.logged;
    flag = refl;
    sized = i.sized;
    bounded = i.bounded;
    present = λ stopped. cc;
    attended = λ stopped. cc;
  }

  pub Step-Inv : {n : ℕ} {w w' : World A} → Step w w' → Inv n w → Inv n w'
  Step-Inv (works st) i = Work-Inv st i
  Step-Inv (happens st) i = Outside-Inv st i

  pub Reach-Inv : {n : ℕ} {v : World A} (w : World A) → Inv n v → Reach v w → Inv n w
  Reach-Inv w i here = i
  Reach-Inv w i (next {w = u} r st) = Step-Inv st (Reach-Inv u i r)

  pub begin-Inv :
      (r : Runtime A) (n io : ℕ)
      → r.global_tasks ≡ []
      → r.stop_requested ≡ false
      → Inv n (begin_world r n io)
  begin-Inv r n io empty live = record {
    logged = empty;
    flag = live;
    sized = length_idle n;
    bounded = omega arith;
    present = λ _. tally_idle n;
    attended = λ _. inl (tally_idle_asleep n);
  }

  -- From a runtime that was just made, whose queue is empty and whose stop was not requested,
  -- with any number of workers, in every interleaving of the workers, threads that schedule
  -- coroutines, wake-ups without a reason, and the destructor's stop, notification and joins: the
  -- coroutines that workers took, with those in the queue behind them, are those that were
  -- scheduled, in that order, each as often; and while no stop is requested, no worker has left.
  pub taken_in_order :
      (r : Runtime A) (n io : ℕ) (w : World A)
      → r.global_tasks ≡ []
      → r.stop_requested ≡ false
      → Reach (begin_world r n io) w
      → (w.taken ++ w.rt.global_tasks ≡ w.scheduled)
        × (w.rt.stop_requested ≡ false → tally left_bit w.workers ≡ 0)
  taken_in_order r n io w empty live reach =
      let i = Reach-Inv w (begin-Inv r n io empty live) reach in (i.logged, i.present)

  -- No lost notification: from such a runtime, in every state that is reached in any interleaving
  -- in which no stop is requested, no worker sleeps, or the coroutines in the queue are no more
  -- than the workers that are awake.
  pub enough_awake :
      (r : Runtime A) (n io : ℕ) (w : World A)
      → r.global_tasks ≡ []
      → r.stop_requested ≡ false
      → Reach (begin_world r n io) w
      → w.rt.stop_requested ≡ false
      → (tally asleep_bit w.workers ≡ 0) ⊎ (length w.rt.global_tasks ≤ tally awake_bit w.workers)
  enough_awake r n io w empty live reach =
      (Reach-Inv w (begin-Inv r n io empty live) reach).attended
