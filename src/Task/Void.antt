-- ===== src/Task/Void.antt =====
-- include/coasio/task.hpp: `task<void>`, a class of its own, whose promise has no result, with
-- `root_outcome<void>`; and that it does what `task` does at a type with one value.
use coasio.Common.{
  ◌≡◌, refl, ℕ, is_some, Bool, true, false, not, ◌&&◌, ◌||◌, List, [], ◌++◌, Option, none, some,
  ◌==◌, arith, if◌then◌else◌,
}
use coasio.Links.{Ptr, null}
use coasio.Oneshot.{State, ToWake, set_value, mark_sender_dropped, send, drop_sender}
use coasio.Blocking.{Resumed, returned, rethrown, undefined}
use coasio.Error.{ok}
use coasio.Task.{RootOutcome, Promise, Frame, outcome_of, final_suspend, await_resume}
use coasio.Task as Task

pub record VoidOutcome : Type 0 where
  pub exception : Option ℕ

pub record VoidPromise : Type 0 where
  pub scope_raw : Option ℕ
  pub owned : Bool
  pub exception : Option ℕ
  pub owning_scope : Option ℕ
  pub result_sender : Option ℕ
  pub continuation : Option Ptr
  pub detached : Bool

pub record VoidFrame : Type 0 where
  pub promise : VoidPromise
  pub done : Bool
  pub destroyed : Bool

abbrev pub fresh_void_promise : VoidPromise
fresh_void_promise = record {
  scope_raw = none;
  owned = false;
  exception = none;
  owning_scope = none;
  result_sender = none;
  continuation = none;
  detached = false;
}

-- `return_void` and `unhandled_exception`
unfoldable pub return_void : VoidPromise → VoidPromise
return_void p = p

unfoldable pub void_unhandled_exception : VoidPromise → ℕ → VoidPromise
void_unhandled_exception p e = record p { exception = some e }

unfoldable pub void_adopt : VoidPromise → VoidPromise → VoidPromise
void_adopt p child = record child { owning_scope = p.owning_scope }

unfoldable pub void_transform_leaf {κ} : {B : Type κ} → (Option ℕ → B → B) → VoidPromise → B → B
void_transform_leaf set_cancel_scope p a = set_cancel_scope p.owning_scope a

unfoldable pub void_set_owning_scope : Option ℕ → VoidFrame → VoidFrame
void_set_owning_scope s f = record f { promise = record (f.promise) { owning_scope = s } }

unfoldable pub void_outcome_of : VoidPromise → VoidOutcome
void_outcome_of p = record { exception = p.exception }

-- `await_suspend` of the final awaiter; the parts of the result are those of Task.final_suspend.
unfoldable pub void_final_suspend :
    VoidFrame
    → Option (State VoidOutcome)
    → VoidFrame × Option (State VoidOutcome) × List ToWake × Bool × Option Ptr
void_final_suspend f sender =
    let p = f.promise in
    if p.detached
    then (let (sent, back, woken) = send sender (void_outcome_of p) in
        let (dropped, more) = drop_sender sent in
        (
          record { promise = p; done = true; destroyed = true },
          dropped,
          woken ++ more,
          p.owned,
          none,
        ))
    else (record f { done = true }, sender, [], false, p.continuation)

unfoldable pub void_await_ready : Ptr → VoidFrame → Bool
void_await_ready h f = h == null || f.done

unfoldable pub void_await_suspend : VoidFrame → Ptr → VoidFrame
void_await_suspend f caller = record f {
  promise = record (f.promise) { continuation = some caller };
}

unfoldable pub void_await_resume : VoidFrame → Resumed (Unit {0})
void_await_resume f = elim f.promise.exception [ some e ↦ rethrown e | none ↦ returned (ok tt) ]

unfoldable pub void_detach : VoidFrame → VoidFrame
void_detach f = record f { promise = record (f.promise) { detached = true } }

unfoldable pub void_is_valid : Ptr → VoidFrame → Bool
void_is_valid h f = not (h == null) && not f.done

-- A promise without its result, and a channel whose value says no more than whether it failed.
abbrev pub forget : Promise (Unit {0}) → VoidPromise
forget p = record {
  scope_raw = p.scope_raw;
  owned = p.owned;
  exception = p.exception;
  owning_scope = p.owning_scope;
  result_sender = p.result_sender;
  continuation = p.continuation;
  detached = p.detached;
}

abbrev pub forget_frame : Frame (Unit {0}) → VoidFrame
forget_frame f = record { promise = forget f.promise; done = f.done; destroyed = f.destroyed }

abbrev pub forget_value : Option (RootOutcome (Unit {0})) → Option VoidOutcome
forget_value none = none
forget_value (some o) = some (record { exception = o.exception })

abbrev pub forget_channel : State (RootOutcome (Unit {0})) → State VoidOutcome
forget_channel s = record {
  value = forget_value s.value;
  ready = s.ready;
  sender_dropped = s.sender_dropped;
  receiver_dropped = s.receiver_dropped;
  was_cancelled = s.was_cancelled;
  waiter = s.waiter;
  rt = s.rt;
}

abbrev pub forget_sender : Option (State (RootOutcome (Unit {0}))) → Option (State VoidOutcome)
forget_sender none = none
forget_sender (some s) = some (forget_channel s)

-- At its end `task<void>`, a class of its own, does what `task` does at a type with one value: the
-- frame, the channel, the coroutines that are scheduled, the unregistering and the coroutine that
-- goes on are the same but for the value that it does not have.
pub final_suspend-forget :
    (f : Frame (Unit {0})) (sender : Option (State (RootOutcome (Unit {0}))))
    → void_final_suspend (forget_frame f) (forget_sender sender) ≡ (
        let (g, s, woken, gone, more) = final_suspend f sender in
        (forget_frame g, forget_sender s, woken, gone, more))
unfolding final_suspend void_final_suspend void_outcome_of outcome_of send drop_sender set_value
    mark_sender_dropped
final_suspend-forget f none = ground arith
final_suspend-forget f (some s) = ground arith

resumed_same :
    (e : Option ℕ) (r : Option (Unit {0}))
    → (is_some e || is_some r) ≡ true
    → ◌≡◌ {A = Resumed (Unit {0})}
        (elim e [ some x ↦ rethrown x | none ↦ returned (ok tt) ])
        (elim e [
          | some x ↦ rethrown x
          | none ↦ elim r [ some v ↦ returned (ok v) | none ↦ undefined ]
        ])
resumed_same (some x) r h = refl
resumed_same none (some v) h = refl
resumed_same none none h = cc

-- A child whose body has ended gives its caller the same.
pub await_resume-forget :
    (f : Frame (Unit {0}))
    → (is_some f.promise.exception || is_some f.promise.result) ≡ true
    → void_await_resume (forget_frame f) ≡ Task.await_resume f
unfolding void_await_resume Task.await_resume
await_resume-forget f h = resumed_same f.promise.exception f.promise.result h
