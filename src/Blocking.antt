-- ===== src/Blocking.antt =====
-- include/coasio/detail/blocking: the pool of threads that run blocking functions (pool.hpp), and
-- the awaiter that hands a function to it (spawn_blocking.hpp). A control block is an address; what
-- the function of a block does, a value or an exception, is an argument of `execute`.
pub mod Pool
pub mod Race
pub mod Progress
mod Examples
use coasio.Common.{
  ℕ, ◌≡◌, refl, Bool, true, false, Option, none, some, ◌⊎◌, inl, inr, if◌then◌else◌,
}
use coasio.Error.{Expected, ok, err, cancelled}

-- `control_block<T, F>`, with its `root_outcome<T>`.
pub record ControlBlock {ℓ} (A : Type ℓ) : Type ℓ where
  pub was_cancelled : Bool
  pub value : Option A
  pub exception : Option ℕ

-- How a coroutine goes on: with a result, by an exception, or by reading an empty `optional`.
pub data Resumed {ℓ} (A : Type ℓ) : Type ℓ where
  returned : Expected A → Resumed A
  rethrown : ℕ → Resumed A
  undefined : Resumed A

module _ {ℓ} {A : Type ℓ} where
  unfoldable pub fresh_block : ControlBlock A
  fresh_block = record { was_cancelled = false; value = none; exception = none }

  -- `execute`; the coroutine is scheduled after it. `fn` is what the function does.
  unfoldable pub execute : A ⊎ ℕ → ControlBlock A → ControlBlock A
  execute (inl v) cb = record cb { value = some v }
  execute (inr e) cb = record cb { exception = some e }

  -- `mark_cancelled_and_schedule`
  unfoldable pub mark_cancelled : ControlBlock A → ControlBlock A
  mark_cancelled cb = record cb { was_cancelled = true }

  -- `await_resume`, with `cb_`.
  unfoldable pub await_resume : Option (ControlBlock A) → Resumed A
  await_resume none = returned (err cancelled)
  await_resume (some cb) =
      if cb.was_cancelled then returned (err cancelled) else elim cb.exception [
        | some e ↦ rethrown e
        | none ↦ elim cb.value [ some v ↦ returned (ok v) | none ↦ undefined ]
      ]

-- A resumed awaiter reports what the function did.
pub await_resume-execute {ℓ} :
    {A : Type ℓ} (fn : A ⊎ ℕ)
    → await_resume (some (execute fn fresh_block))
      ≡ elim fn [ inl v ↦ returned (ok v) | inr e ↦ rethrown e ]
unfolding await_resume execute fresh_block
await_resume-execute (inl v) = refl
await_resume-execute (inr e) = refl

-- The members of `blocking_awaiter` before it is awaited: its scope, the scope of its guard, and `cb_`.
pub record BlockingAwaiter {ℓ} (A : Type ℓ) : Type ℓ where
  pub scope : Option ℕ
  pub guard_scope : Option ℕ
  pub cb : Option (ControlBlock A)

module _ {ℓ} {A : Type ℓ} where
  abbrev pub blocking_awaiter : BlockingAwaiter A
  blocking_awaiter = record { scope = none; guard_scope = none; cb = none }

  unfoldable pub set_cancel_scope : Option ℕ → BlockingAwaiter A → BlockingAwaiter A
  set_cancel_scope s a = record a { scope = s; guard_scope = s }

  -- `await_ready`, with what the scopes say.
  pub await_ready : (ℕ → Bool) → BlockingAwaiter A → Bool
  await_ready off a = elim a.scope [ none ↦ false | some s ↦ off s ]
