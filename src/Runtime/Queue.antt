-- ===== src/Runtime/Queue.antt =====
-- The queue of ready coroutines, and the loop of a worker.
use coasio.Common.{
  ℕ, zero, suc, ◌≡◌, ◌≢◌, refl, ap, ◌∙◌, sym, true, false, List, [], ◌∷◌, ◌++◌, Option, none, some,
  arith, ◌==◌, length, append-nil, append_assoc, All,
}
use coasio.Links.{Ptr, null}
use coasio.Runtime.{
  Runtime, Next, next_task, put_task_in_queue, schedule, next_of, get_next_task_from_queue,
  worker_round,
}

-- Several schedules, in order.
pub schedule_all {ℓ} : {A : Type ℓ} → Runtime A → List Ptr → Runtime A
schedule_all r [] = r
schedule_all r (h ∷ hs) = schedule_all (schedule r h) hs

-- What a worker takes in so many rounds, when nothing else happens in between.
pub rounds {ℓ} : {A : Type ℓ} → ℕ → Runtime A → List (Option Next) × Runtime A
rounds zero r = ([], r)
rounds (suc k) r = let (n, r') = worker_round r in let (ns, r'') = rounds k r' in (n ∷ ns, r'')

pub tasks_of : List Ptr → List (Option Next)
tasks_of [] = []
tasks_of (h ∷ hs) = some (next_task h) ∷ tasks_of hs

schedule_all-tasks {ℓ} :
    {A : Type ℓ} (r : Runtime A) (hs : List Ptr)
    → All (λ h. h ≢ null) hs
    → schedule_all r hs ≡ record r { global_tasks = r.global_tasks ++ hs }
unfolding schedule_all schedule put_task_in_queue
schedule_all-tasks r [] h =
    ap (λ ts. record r { global_tasks = ts }) (sym (append-nil r.global_tasks))
schedule_all-tasks r (x ∷ hs) (ne, h) =
    let some_task : (x == null) ≡ false = ground arith in
    ap (λ r'. schedule_all r' hs) (rw some_task refl)
    ∙ schedule_all-tasks (put_task_in_queue r x) hs h
    ∙ ap (λ ts. record r { global_tasks = ts }) (append_assoc r.global_tasks (x ∷ []) hs)

rounds-tasks {ℓ} :
    {A : Type ℓ} (r : Runtime A) (hs rest : List Ptr)
    → r.stop_requested ≡ false
    → rounds (length hs) (record r { global_tasks = hs ++ rest })
      ≡ (tasks_of hs, record r { global_tasks = rest })
unfolding rounds worker_round get_next_task_from_queue next_of tasks_of
rounds-tasks r [] rest live = refl
rounds-tasks r (x ∷ hs) rest live =
    let first : worker_round (record r { global_tasks = x ∷ (hs ++ rest) })
        ≡ (some (next_task x), record r { global_tasks = hs ++ rest }) =
      rw live refl in
    rw first (ap (λ z. (some (next_task x) ∷ z.0, z.1)) (rounds-tasks r hs rest live))

-- While no stop is requested, coroutines that are scheduled, none of them null, are taken in that
-- order, behind those that were in the queue before them, by as many rounds of a worker as there
-- are coroutines.
pub scheduled_in_order {ℓ} :
    {A : Type ℓ} (r : Runtime A) (hs : List Ptr)
    → r.stop_requested ≡ false
    → All (λ h. h ≢ null) hs
    → rounds (length (r.global_tasks ++ hs)) (schedule_all r hs)
      ≡ (tasks_of (r.global_tasks ++ hs), record r { global_tasks = [] })
scheduled_in_order r hs live h =
    ap (rounds (length (r.global_tasks ++ hs))) (
      schedule_all-tasks r hs h
      ∙ ap (λ ts. record r { global_tasks = ts }) (sym (append-nil (r.global_tasks ++ hs))))
    ∙ rounds-tasks r (r.global_tasks ++ hs) [] live

-- Once a stop is requested, a worker leaves the runtime as it is, whatever the number of its
-- rounds, although the queue would still give the coroutine at its head.
pub stop_leaves_tasks {ℓ} :
    {A : Type ℓ} (r : Runtime A) (h : Ptr) (hs : List Ptr) (k : ℕ)
    → r.stop_requested ≡ true
    → r.global_tasks ≡ h ∷ hs
    → ((rounds k r).1 ≡ r) × ((get_next_task_from_queue r).0 ≡ next_task h)
unfolding rounds worker_round get_next_task_from_queue next_of
stop_leaves_tasks r h hs zero off full = (refl, rw full refl)
stop_leaves_tasks r h hs (suc k) off full =
    let here : worker_round r ≡ (none, r) = rw off refl in
    let rest = stop_leaves_tasks r h hs k off full in (rw here rest.0, rest.1)
