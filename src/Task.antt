-- ===== src/Task.antt =====
-- include/coasio/task.hpp and include/coasio/detail/root_outcome.hpp: the promise of a task, its end,
-- and the awaiter of a child task. A coroutine is an address; its frame holds its promise, the
-- `root_node` base included, and what the language keeps of it: whether it is done, whether it was
-- destroyed. A channel is a number, its state is an argument. `task<void>` is the case of a result that says nothing.
pub mod Void
pub mod Ownership
mod Examples
use coasio.Common.{
  ℕ, ◌≡◌, refl, ◌⊎◌, inl, inr, Bool, true, false, not, ◌&&◌, ◌||◌, List, [], ◌++◌, Option, none,
  some, ◌==◌, if◌then◌else◌,
}
use coasio.Links.{Ptr, null}
use coasio.Oneshot.{State, ToWake, send, drop_sender}
use coasio.Blocking.{Resumed, returned, rethrown, undefined}
use coasio.Error.{ok}

pub record RootOutcome {ℓ} (A : Type ℓ) : Type ℓ where
  pub value : Option A
  pub exception : Option ℕ

-- `owned` says that `owner_rt_` points to the runtime.
pub record Promise {ℓ} (A : Type ℓ) : Type ℓ where
  pub scope_raw : Option ℕ
  pub owned : Bool
  pub result : Option A
  pub exception : Option ℕ
  pub owning_scope : Option ℕ
  pub result_sender : Option ℕ
  pub continuation : Option Ptr
  pub detached : Bool

pub record Frame {ℓ} (A : Type ℓ) : Type ℓ where
  pub promise : Promise A
  pub done : Bool
  pub destroyed : Bool

module _ {ℓ} {A : Type ℓ} where
  unfoldable pub fresh_promise : Promise A
  fresh_promise = record {
    scope_raw = none;
    owned = false;
    result = none;
    exception = none;
    owning_scope = none;
    result_sender = none;
    continuation = none;
    detached = false;
  }

  -- `return_value` and `unhandled_exception`
  unfoldable pub return_value : Promise A → A → Promise A
  return_value p v = record p { result = some v }

  unfoldable pub unhandled_exception : Promise A → ℕ → Promise A
  unhandled_exception p e = record p { exception = some e }

  -- `await_transform` of a child task: what its promise becomes.
  unfoldable pub adopt : Promise A → Promise A → Promise A
  adopt p child = record child { owning_scope = p.owning_scope }

  -- `await_transform` of any other awaitable, with its `set_cancel_scope`.
  unfoldable pub transform_leaf {κ} : {B : Type κ} → (Option ℕ → B → B) → Promise A → B → B
  transform_leaf set_cancel_scope p a = set_cancel_scope p.owning_scope a

  -- `set_owning_scope`
  unfoldable pub set_owning_scope : Option ℕ → Frame A → Frame A
  set_owning_scope s f = record f { promise = record (f.promise) { owning_scope = s } }

  unfoldable pub outcome_of : Promise A → RootOutcome A
  outcome_of p = elim p.exception [
    | some e ↦ record { value = none; exception = some e }
    | none ↦ record { value = p.result; exception = none }
  ]

  -- `await_suspend` of the final awaiter, with the state of the channel of `result_sender_`: the frame
  -- and the channel after it, the coroutines that are scheduled, whether the root is unregistered,
  -- and the coroutine that goes on; `none` is the one that does nothing. Destroying the frame drops
  -- the sender.
  unfoldable pub final_suspend :
      Frame A
      → Option (State (RootOutcome A))
      → Frame A × Option (State (RootOutcome A)) × List ToWake × Bool × Option Ptr
  final_suspend f sender =
      let p = f.promise in
      if p.detached
      then (let (sent, back, woken) = send sender (outcome_of p) in
          let (dropped, more) = drop_sender sent in
          (
            record { promise = p; done = true; destroyed = true },
            dropped,
            woken ++ more,
            p.owned,
            none,
          ))
      else (record f { done = true }, sender, [], false, p.continuation)

  -- The awaiter of `operator co_await() &&`; its handle may be null, and its caller is suspended when
  -- `await_ready` says no.
  unfoldable pub await_ready : Ptr → Frame A → Bool
  await_ready h f = h == null || f.done

  pub await_suspend : Frame A → Ptr → Frame A
  await_suspend f caller = record f { promise = record (f.promise) { continuation = some caller } }

  unfoldable pub await_resume : Frame A → Resumed A
  await_resume f = elim f.promise.exception [
    | some e ↦ rethrown e
    | none ↦ elim f.promise.result [ some v ↦ returned (ok v) | none ↦ undefined ]
  ]

  -- `detach()`: of a handle that is not null, the frame after it.
  unfoldable pub detach : Frame A → Frame A
  detach f = record f { promise = record (f.promise) { detached = true } }

  -- `operator bool`
  unfoldable pub is_valid : Ptr → Frame A → Bool
  is_valid h f = not (h == null) && not f.done

  -- The end of a body: its value or its exception.
  abbrev pub complete : A ⊎ ℕ → Frame A → Frame A
  complete (inl v) f = record f { promise = return_value (f.promise) v }
  complete (inr e) f = record f { promise = unhandled_exception (f.promise) e }

-- A child task that is awaited, is not detached and holds no exception resumes its caller when its
-- body ends, and the caller gets the value or the exception of the body.
pub awaited_child {ℓ} :
    {A : Type ℓ} (end : A ⊎ ℕ) (f : Frame A) (caller : Ptr)
    → f.promise.detached ≡ false
    → f.promise.exception ≡ none
    → ((final_suspend (complete end (await_suspend f caller)) none).4 ≡ some caller)
      × (await_resume (final_suspend (complete end (await_suspend f caller)) none).0
          ≡ elim end [ inl v ↦ returned (ok v) | inr e ↦ rethrown e ])
unfolding final_suspend await_suspend await_resume return_value unhandled_exception
awaited_child (inl v) f caller child clean = rw child (refl, rw clean refl)
awaited_child (inr e) f caller child clean = rw child (refl, refl)
