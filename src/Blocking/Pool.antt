-- ===== src/Blocking/Pool.antt =====
-- include/coasio/detail/blocking/pool.hpp: a queue of control blocks under a mutex, and a flag.
pub mod Threads
mod Examples
use coasio.Common.{
  ℕ, zero, suc, ◌≤◌, ◌≡◌, refl, Bool, true, false, not, List, [], ◌∷◌, ◌++◌, Option, none, some,
  arith, if◌then◌else◌, has, erase, length, has-append, erase-snoc, inl, inr, Bool-cases,
}

pub record Pool : Type 0 where
  pub queue : List ℕ
  pub stop : Bool

unfoldable pub fresh_pool : Pool
fresh_pool = record { queue = []; stop = false }

-- The first section of `~pool()`.
pub shut_down : Pool → Pool
shut_down p = record p { stop = true }

pub enqueue : Pool → ℕ → Pool × Bool
enqueue p item = if p.stop then (p, false) else (record p { queue = p.queue ++ item ∷ [] }, true)

pub try_cancel : Pool → ℕ → Pool × Bool
try_cancel p item =
    if has item p.queue then (record p { queue = erase item p.queue }, true) else (p, false)

-- What a worker does when `wait` returns.
pub data Turn : Type 0 where
  leave : Turn
  again : Turn
  run_item : ℕ → Turn

pub turn_of : Bool → List ℕ → Turn × List ℕ
turn_of stop [] = (if stop then leave else again, [])
turn_of stop (item ∷ rest) = (run_item item, rest)

pub worker_turn : Pool → Turn × Pool
unfolding turn_of
worker_turn p = let (t, rest) = turn_of p.stop p.queue in (t, record p { queue = rest })

-- `worker_loop` of a single thread, for so many returns of `wait`; `none` if it has not left.
pub worker_loop : ℕ → Pool → Option (List ℕ)
worker_loop zero p = none
worker_loop (suc fuel) p =
    let rest = worker_loop fuel (worker_turn p).1 in
    elim (worker_turn p).0 [
      | leave ↦ some []
      | again ↦ rest
      | run_item item ↦ elim rest [ none ↦ none | some items ↦ some (item ∷ items) ]
    ]

-- A worker leaves a pool that is shut down when it has run everything that was queued, in order; it
-- needs one turn for each item and one to leave.
pub worker_loop-drains :
    (fuel : ℕ) (queue : List ℕ)
    → length queue ≤ fuel
    → worker_loop (suc fuel) (record { queue = queue; stop = true }) ≡ some queue
unfolding worker_loop worker_turn
worker_loop-drains fuel [] h = refl
worker_loop-drains zero (x ∷ queue) h = absurd (omega arith)
worker_loop-drains (suc fuel) (x ∷ queue) h = ground (arith, worker_loop-drains fuel queue)

-- `enqueue` takes an item exactly when the pool is not shut down, and `try_cancel` of an item that
-- was not queued before then finds it exactly if it was taken, and puts the pool back as it was.
pub enqueue-try_cancel :
    (p : Pool) (item : ℕ)
    → has item p.queue ≡ false
    → let (p', taken) = enqueue p item in (taken ≡ not p.stop) × (try_cancel p' item ≡ (p, taken))
unfolding enqueue try_cancel
enqueue-try_cancel p item fresh = elim (Bool-cases p.stop) [
  | inl e ↦ rw (e, fresh) (refl, refl)
  | inr e ↦
      let found : has item (p.queue ++ item ∷ []) ≡ true =
        ground (arith, has-append item p.queue (item ∷ [])) in
      rw (e, found, erase-snoc item p.queue fresh) (refl, refl)
]
