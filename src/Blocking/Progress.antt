-- ===== src/Blocking/Progress.antt =====
-- No interleaving of Blocking.Race is stuck before the coroutine goes on.
use coasio.Common.{◌≡◌, refl, ◌⊎◌, inl, inr, Bool, true, arith, Bool-cases}
use coasio.Blocking.Race.{
  Pc, begin, armed, enqueued, published, cancelling, suspended, refused, turned_away, World, Step,
  arm, arm_refused, enqueue, enqueue_refused, publish, see_live, see_cancelled, self_cancel,
  self_cancel_late, worker_takes, worker_executes, Reach, Inv, Step-Inv, Reach-Inv, returned_false,
}

-- A later state.
pub data Later : World → World → Type 0 where
  now : {w : World} → Later w w
  step : {w u v : World} → Step w u → Later u v → Later w v

-- `await_suspend` has returned, and the coroutine was scheduled once or goes on at once.
abbrev pub GoesOn : World → Type 0
GoesOn u = ((u.pc ≡ suspended) × (u.scheduled ≡ 1)) ⊎ (returned_false u.pc ≡ true)

abbrev Resumable : World → Type 0
Resumable w = (u : World) × Later w u × GoesOn u

after : {w u : World} → Step w u → Resumable u → Resumable w
after st (v, later, end) = (v, step st later, end)

suspended_lem : (w : World) → Inv w → w.pc ≡ suspended → Resumable w
suspended_lem w i p = elim (Bool-cases w.queued) [
  | inl q ↦ (
    _,
    step (worker_takes q) (step (worker_executes refl) now),
    inl (p, ground (arith, i.place, i.wakes, p, q)),
  )
  | inr nq ↦ elim (Bool-cases w.running) [
    | inl r ↦ (_, step (worker_executes r) now, inl (p, ground (arith, i.place, i.wakes, p, r)))
    | inr nr ↦ (w, now, inl (p, ground (arith, i.place, i.wakes, p, nq, nr)))
  ]
]

-- A step to a state from which the coroutine goes on.
onward : {w u : World} → Step w u → Inv w → (Inv u → Resumable u) → Resumable w
onward st i k = after st (k (Step-Inv st i))

cancelling_lem : (w : World) → Inv w → w.pc ≡ cancelling → Resumable w
cancelling_lem w i p = elim (Bool-cases w.queued) [
  | inl q ↦ onward (self_cancel p q) i (λ j. suspended_lem _ j refl)
  | inr q ↦ onward (self_cancel_late p q) i (λ j. suspended_lem _ j refl)
]

published_lem : (w : World) → Inv w → w.pc ≡ published → Resumable w
published_lem w i p = elim (Bool-cases w.off) [
  | inl o ↦ onward (see_cancelled p o) i (λ j. cancelling_lem _ j refl)
  | inr o ↦ onward (see_live p o) i (λ j. suspended_lem _ j refl)
]

enqueued_lem : (w : World) → Inv w → w.pc ≡ enqueued → Resumable w
enqueued_lem w i p = onward (publish p) i (λ j. published_lem _ j refl)

armed_lem : (w : World) → Inv w → w.pc ≡ armed → Resumable w
armed_lem w i p = elim (Bool-cases w.stop) [
  | inl s ↦ (_, step (enqueue_refused p s) now, inr refl)
  | inr s ↦ onward (enqueue p s) i (λ j. enqueued_lem _ j refl)
]

begin_lem : (w : World) → Inv w → w.pc ≡ begin → Resumable w
begin_lem w i p = elim (Bool-cases w.off) [
  | inl o ↦ (_, step (arm_refused p o) now, inr refl)
  | inr o ↦ onward (arm p o) i (λ j. armed_lem _ j refl)
]

any_lem : (w : World) (pc : Pc) → w.pc ≡ pc → Inv w → Resumable w
any_lem w begin p i = begin_lem w i p
any_lem w armed p i = armed_lem w i p
any_lem w enqueued p i = enqueued_lem w i p
any_lem w published p i = published_lem w i p
any_lem w cancelling p i = cancelling_lem w i p
any_lem w suspended p i = suspended_lem w i p
any_lem w refused p i = (w, now, inr (ground (arith, p)))
any_lem w turned_away p i = (w, now, inr (ground (arith, p)))

-- From every state that the awaiter, a worker of the pool and a canceller reach in any
-- interleaving, a state can be reached in which `await_suspend` has returned and the coroutine goes
-- on: it suspended and was scheduled once, or `await_suspend` returned `false`.
pub never_stuck :
    (stop off : Bool) (w : World) → Reach stop off w → (u : World) × Later w u × GoesOn u
never_stuck stop off w r = any_lem w w.pc refl (Reach-Inv stop off w r)
