-- ===== src/Blocking/Pool/Threads.antt =====
-- The pool with any number of threads, the threads that hand it functions or give them up, and its
-- destructor. A section under `mtx_` is one step.
pub mod Rounds
pub mod Leftovers
pub mod Leaving
pub mod Joining
use coasio.Common.{ℕ, zero, suc, ◌≡◌, Bool, true, false, List, [], ◌∷◌, ◌++◌, map, length}
use coasio.Blocking.Pool.{
  Pool, again, leave, run_item, worker_turn, enqueue, try_cancel, shut_down, fresh_pool,
}

-- Where a thread of the pool stands.
pub data Pc : Type 0 where
  fetching : Pc  -- before the predicate of `cv_.wait`, without the mutex
  asleep : Pc  -- in `wait`
  executing : ℕ → Pc
  left : Pc  -- `worker_loop` has returned

-- Where the destructor stands.
pub data Phase : Type 0 where
  before_stop : Phase
  stop_set : Phase  -- before `notify_all`
  joining : Phase

abbrev pub has_stopped : Phase → Bool
has_stopped before_stop = false
has_stopped _ = true

-- `accepted` are the functions that `enqueue` took, `finished` those that were executed, and
-- `given_up` those that `try_cancel` found.
pub record World : Type 0 where
  pub pool : Pool
  pub threads : List Pc
  pub phase : Phase
  pub joined : ℕ
  pub accepted : List ℕ
  pub finished : List ℕ
  pub given_up : List ℕ

abbrev pub idle_threads : ℕ → List Pc
idle_threads zero = []
idle_threads (suc n) = fetching ∷ idle_threads n

-- `notify_all`.
abbrev pub awoken : Pc → Pc
awoken asleep = fetching
awoken p = p

-- `notify_one`: it wakes some thread that sleeps, if there is one.
pub data Notified (ws : List Pc) : List Pc → Type 0 where
  one : (xs ys : List Pc) → ws ≡ xs ++ asleep ∷ ys → Notified ws (xs ++ fetching ∷ ys)
  nobody : map awoken ws ≡ ws → Notified ws ws

-- A round of `worker_loop`, with what it has executed.
pub data Round (p : Pool) : Pc → Pc → Pool → List ℕ → Type 0 where
  sleeps : (worker_turn p).0 ≡ again → Round p fetching asleep (worker_turn p).1 []
  leaves : (worker_turn p).0 ≡ leave → Round p fetching left (worker_turn p).1 []
  takes :
      (item : ℕ)
      → (worker_turn p).0 ≡ run_item item
      → Round p fetching (executing item) (worker_turn p).1 []
  executes : (item : ℕ) → Round p (executing item) fetching p (item ∷ [])

-- A step of a thread of the pool or of the destructor.
pub data Work (w : World) : World → Type 0 where
  rounds :
      (xs ys : List Pc) (p q : Pc) (r : Pool) (t : List ℕ)
      → w.threads ≡ xs ++ p ∷ ys
      → Round w.pool p q r t
      → Work w (record w { pool = r; threads = xs ++ q ∷ ys; finished = t ++ w.finished })
  notifies_all :
      w.phase ≡ stop_set → Work w (record w { phase = joining; threads = map awoken w.threads })
  joins_thread :
      (xs ys : List Pc)
      → w.phase ≡ joining
      → w.threads ≡ xs ++ left ∷ ys
      → w.joined ≡ length xs
      → Work w (record w { joined = suc w.joined })

-- What other threads and the system do, and the beginning of the destructor. An `enqueue` or a
-- `try_cancel` that answers `false` changes nothing.
pub data Outside (w : World) : World → Type 0 where
  enqueues :
      (item : ℕ) (ws : List Pc)
      → (enqueue w.pool item).1 ≡ true
      → Notified w.threads ws
      → Outside w
          (record w { pool = (enqueue w.pool item).0; threads = ws; accepted = item ∷ w.accepted })
  gives_up :
      (item : ℕ)
      → (try_cancel w.pool item).1 ≡ true
      → Outside w (record w { pool = (try_cancel w.pool item).0; given_up = item ∷ w.given_up })
  wakes_unasked :
      (xs ys : List Pc)
      → w.threads ≡ xs ++ asleep ∷ ys
      → Outside w (record w { threads = xs ++ fetching ∷ ys })
  stops : w.phase ≡ before_stop → Outside w (record w { phase = stop_set; pool = shut_down w.pool })

pub data Step (w w' : World) : Type 0 where
  works : Work w w' → Step w w'
  happens : Outside w w' → Step w w'

pub data Reach (v : World) : World → Type 0 where
  here : Reach v v
  next : {w w' : World} → Reach v w → Step w w' → Reach v w'

-- A pool that was just made, with so many threads.
abbrev pub begin_world : ℕ → World
begin_world n = record {
  pool = fresh_pool;
  threads = idle_threads n;
  phase = before_stop;
  joined = 0;
  accepted = [];
  finished = [];
  given_up = [];
}
