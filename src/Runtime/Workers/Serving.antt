-- ===== src/Runtime/Workers/Serving.antt =====
-- While no stop is requested, the workers of Runtime.Workers go on without help.
use coasio.Common.{
  tally, find, ℕ, ◌<◌, ◌≡◌, refl, ap, sym, append_assoc, ◌∙◌, inl, inr, false, List, [], ◌∷◌, ◌++◌,
  append-nil, arith, length,
}
use coasio.Links.{Ptr}
use coasio.Runtime.{Runtime, next_task, next_of, get_next_task_from_queue, start_threads}
use coasio.Runtime.Workers.{
  Pc, testing, fetching, asleep, resuming, left, World, goes_on, takes, resumed, Work, turns,
  notifies_all, resets_guard, polls, io_returns, joins_io, joins_worker, works, Reach, begin_world,
}
use coasio.Runtime.Workers.Counting.{awake_bit, tally_parts}
use coasio.Runtime.Workers.Turns.{Turn-queue}
use coasio.Runtime.Workers.Invariant.{Inv, Step-Inv, Reach-Inv, begin-Inv, Attended}

pub start_threads-pos :
    (cores io_workers workers blocking : ℕ)
    → 0 < (start_threads cores io_workers workers blocking).workers
unfolding start_threads
start_threads-pos cores io_workers workers blocking = ground arith

module _ {ℓ} {A : Type ℓ} where
  -- Steps of workers and of the destructor only.
  pub data Works : World A → World A → Type ℓ where
    done : {w : World A} → Works w w
    more : {w u v : World A} → Work w u → Works u v → Works w v

  get-cons :
      (r : Runtime A) (h : Ptr) (rest : List Ptr)
      → r.global_tasks ≡ h ∷ rest
      → ((get_next_task_from_queue r).0 ≡ next_task h)
        × ((get_next_task_from_queue r).1.global_tasks ≡ rest)
  unfolding get_next_task_from_queue next_of
  get-cons r h rest e =
      (ap (λ q. (next_of r.stop_requested q).0) e, ap (λ q. (next_of r.stop_requested q).1) e)

  -- The coroutine at the head of the queue is taken next.
  abbrev Serves : World A → Ptr → List Ptr → Type ℓ
  Serves w h rest =
      (w' : World A) × Works w w' × (w'.taken ≡ w.taken ++ h ∷ []) × (w'.rt.global_tasks ≡ rest)

  module _ (h : Ptr) (rest : List Ptr) where
    fetching_lem :
        (w : World A) (xs ys : List Pc)
        → w.workers ≡ xs ++ fetching ∷ ys
        → w.rt.global_tasks ≡ h ∷ rest
        → Serves w h rest
    fetching_lem w xs ys at e =
        let (head, tail) = get-cons w.rt h rest e in
        (_, more (turns xs ys fetching (resuming h) _ (h ∷ []) at (takes h head)) done, refl, tail)

    testing_lem :
        (w : World A) (xs ys : List Pc)
        → w.workers ≡ xs ++ testing ∷ ys
        → w.rt.stop_requested ≡ false
        → w.rt.global_tasks ≡ h ∷ rest
        → Serves w h rest
    testing_lem w xs ys at live e =
        let w1 : World A = record w { workers = xs ++ fetching ∷ ys; taken = w.taken ++ [] } in
        let (w', run, took, left_over) = fetching_lem w1 xs ys refl e in
        (
          w',
          more (turns xs ys testing fetching w.rt [] at (goes_on live)) run,
          took ∙ ap (λ l. l ++ h ∷ []) (append-nil w.taken),
          left_over,
        )

    awake_lem :
        (w : World A) (xs : List Pc) (p : Pc) (ys : List Pc)
        → w.workers ≡ xs ++ p ∷ ys
        → 0 < awake_bit p
        → w.rt.stop_requested ≡ false
        → w.rt.global_tasks ≡ h ∷ rest
        → Serves w h rest
    awake_lem w xs testing ys at awake live e = testing_lem w xs ys at live e
    awake_lem w xs fetching ys at awake live e = fetching_lem w xs ys at e
    awake_lem w xs (resuming g) ys at awake live e =
        let w1 : World A = record w { workers = xs ++ testing ∷ ys; taken = w.taken ++ [] } in
        let (w', run, took, left_over) = testing_lem w1 xs ys refl live e in
        (
          w',
          more (turns xs ys (resuming g) testing w.rt [] at (resumed g)) run,
          took ∙ ap (λ l. l ++ h ∷ []) (append-nil w.taken),
          left_over,
        )
    awake_lem w xs asleep ys at awake live e = absurd (omega arith)
    awake_lem w xs left ys at awake live e = absurd (omega arith)

  someone_awake :
      (n : ℕ) (w : World A) (h : Ptr) (rest : List Ptr)
      → Inv n w
      → 0 < n
      → w.rt.stop_requested ≡ false
      → w.rt.global_tasks ≡ h ∷ rest
      → Attended w
      → 0 < tally awake_bit w.workers
  someone_awake n w h rest i some live e (inl none_asleep) =
      omega (arith, tally_parts w.workers, i.present live, i.sized)
  someone_awake n w h rest i some live e (inr enough) = omega (arith, ap length e)

  pub Work-stop_requested :
      {w w' : World A} → Work w w' → w'.rt.stop_requested ≡ w.rt.stop_requested
  Work-stop_requested (turns xs ys p q r t at turn) = (Turn-queue turn).1
  Work-stop_requested (notifies_all p) = refl
  Work-stop_requested (resets_guard p) = refl
  Work-stop_requested (polls p) = refl
  Work-stop_requested (io_returns k late e) = refl
  Work-stop_requested (joins_io p e) = refl
  Work-stop_requested (joins_worker xs ys p at k) = refl

  head_served :
      (n : ℕ) (w : World A) (h : Ptr) (rest : List Ptr)
      → Inv n w
      → 0 < n
      → w.rt.stop_requested ≡ false
      → w.rt.global_tasks ≡ h ∷ rest
      → Serves w h rest
  head_served n w h rest i some live e =
      let (xs, p, ys, at, awake) =
        find awake_bit w.workers (someone_awake n w h rest i some live e (i.attended live)) in
      awake_lem h rest w xs p ys at awake live e

  Works-trans : {u v w : World A} → Works u v → Works v w → Works u w
  Works-trans done r = r
  Works-trans (more st s) r = more st (Works-trans s r)

  Works-Inv :
      {n : ℕ} {w w' : World A}
      → Works w w'
      → Inv n w
      → Inv n w' × (w'.rt.stop_requested ≡ w.rt.stop_requested)
  Works-Inv done i = (i, refl)
  Works-Inv (more st s) i =
      let (j, same) = Works-Inv s (Step-Inv (works st) i) in (j, same ∙ Work-stop_requested st)

  -- The whole queue, a coroutine at a time.
  queue_served :
      (n : ℕ) (q : List Ptr) (w : World A)
      → Inv n w
      → 0 < n
      → w.rt.stop_requested ≡ false
      → w.rt.global_tasks ≡ q
      → (w' : World A) × Works w w' × (w'.taken ≡ w.taken ++ q) × (w'.rt.global_tasks ≡ [])
  queue_served n [] w i some live e = (w, done, sym (append-nil w.taken), e)
  queue_served n (h ∷ rest) w i some live e =
      let (v, run, took, left_over) = head_served n w h rest i some live e in
      let (j, same) = Works-Inv run i in
      let (u, later, took', none_left) = queue_served n rest v j some (same ∙ live) left_over in
      (
        u,
        Works-trans run later,
        took' ∙ ap (λ l. l ++ rest) took ∙ append_assoc w.taken (h ∷ []) rest,
        none_left,
      )

  -- From a runtime with an empty queue, of which no stop was requested, with as many workers as
  -- the constructor starts, whatever counts it is given, from every state that is reached in any
  -- interleaving in which no stop is requested: steps of the workers alone, with no wake-up
  -- without a reason, reach a state in which all coroutines of the queue have been taken in
  -- order, and the queue is empty.
  pub all_served :
      (r : Runtime A) (cores io_workers workers blocking : ℕ) (w : World A)
      → r.global_tasks ≡ []
      → r.stop_requested ≡ false
      → let t = start_threads cores io_workers workers blocking in
        Reach (begin_world r t.workers t.io_workers) w
        → w.rt.stop_requested ≡ false
        → (w' : World A) × Works w w'
          × (w'.taken ≡ w.taken ++ w.rt.global_tasks)
          × (w'.rt.global_tasks ≡ [])
  all_served r cores io_workers workers blocking w empty quiet reach live =
      let i = Reach-Inv w (begin-Inv r _ _ empty quiet) reach in
      queue_served _ w.rt.global_tasks w i (start_threads-pos cores io_workers workers blocking)
        live refl
