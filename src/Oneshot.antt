-- ===== src/Oneshot.antt =====
-- include/coasio/sync/oneshot.hpp: the shared state of a channel for one value, the sender, and the
-- receiver's awaiter. A coroutine handle that may be null is an `Option`; the coroutines that an
-- operation hands to `runtime_schedule` are part of its result.
pub mod Operations
pub mod Receive
mod Examples
use coasio.Common.{
  ℕ, Bool, true, false, not, ◌&&◌, ◌||◌, List, [], ◌∷◌, Option, none, some, if◌then◌else◌,
}
use coasio.Error.{Error, cancelled, channel_closed, Expected, ok, err}
use coasio.CancelScope.{ArmResult}

pub record State {ℓ} (A : Type ℓ) : Type ℓ where
  pub value : Option A
  pub ready : Bool
  pub sender_dropped : Bool
  pub receiver_dropped : Bool
  pub was_cancelled : Bool
  pub waiter : Option ℕ
  pub rt : ℕ

pub record ToWake : Type 0 where
  pub rt : ℕ
  pub handle : ℕ

abbrev pub schedule_if : ℕ → Option ℕ → List ToWake
schedule_if rt none = []
schedule_if rt (some h) = record { rt = rt; handle = h } ∷ []

module _ {ℓ} {A : Type ℓ} where
  unfoldable pub fresh_state : State A
  fresh_state = record {
    value = none;
    ready = false;
    sender_dropped = false;
    receiver_dropped = false;
    was_cancelled = false;
    waiter = none;
    rt = 0;
  }

  -- The result is `none` on success, and the value itself when it is refused.
  unfoldable pub set_value : State A → A → State A × Option A × List ToWake
  set_value s v = if s.ready || s.receiver_dropped || s.was_cancelled then (s, some v, []) else (
    record s { value = some v; ready = true; waiter = none },
    none,
    schedule_if s.rt s.waiter,
  )

  unfoldable pub mark_sender_dropped : State A → State A × List ToWake
  mark_sender_dropped s =
      if s.ready || s.sender_dropped || s.was_cancelled
      then (s, [])
      else (record s { sender_dropped = true; waiter = none }, schedule_if s.rt s.waiter)

  unfoldable pub mark_receiver_dropped : State A → State A
  mark_receiver_dropped s = record s { receiver_dropped = true }

  pub is_closed : State A → Bool
  is_closed s = s.receiver_dropped || s.was_cancelled

  unfoldable pub cancel_and_take_waiter : State A → State A × Bool
  cancel_and_take_waiter s =
      if s.ready || s.sender_dropped || s.was_cancelled then (s, false) else (
        record s { was_cancelled = true; waiter = none },
        (elim s.waiter [ none ↦ false | some _ ↦ true ]),
      )

  -- `sender::send` and `sender::is_closed`; a sender that was moved from has no state.
  unfoldable pub send : Option (State A) → A → Option (State A) × Option A × List ToWake
  send none v = (none, some v, [])
  send (some s) v = let (s', back, out) = set_value s v in (some s', back, out)

  pub sender_is_closed : Option (State A) → Bool
  sender_is_closed none = true
  sender_is_closed (some s) = is_closed s

  -- `~sender()`
  unfoldable pub drop_sender : Option (State A) → Option (State A) × List ToWake
  drop_sender none = (none, [])
  drop_sender (some s) = let (s', out) = mark_sender_dropped s in (some s', out)

  -- `~receiver()` and `~awaiter()`.
  unfoldable pub drop_receiver : Option (State A) → Option (State A)
  drop_receiver none = none
  drop_receiver (some s) = some (mark_receiver_dropped s)

  -- `sender::operator=` from another object: the state of this, the state that is let go, and the
  -- coroutines that are scheduled; the other object has no state afterwards.
  pub assign_sender :
      Option (State A) → Option (State A) → Option (State A) × Option (State A) × List ToWake
  assign_sender this o = let (dropped, out) = drop_sender this in (o, dropped, out)

  -- `receiver::operator=`
  pub assign_receiver : Option (State A) → Option (State A) → Option (State A) × Option (State A)
  assign_receiver this o = (o, drop_receiver this)

  -- `operator co_await`: the runtime of the thread is noted.
  unfoldable pub begin_await : State A → ℕ → State A
  begin_await s rt = record s { rt = rt }

  -- `await_ready`, with what `already_cancelled(scope_)` says.
  pub await_ready : State A → Bool → Bool
  await_ready s off = if off then true else s.ready || s.sender_dropped

  -- `await_suspend`, with what `guard_.arm` answered.
  pub await_suspend : State A → ArmResult → ℕ → State A × Bool
  await_suspend s ArmResult.already_cancelled h = (s, false)
  await_suspend s ArmResult.armed h =
      if s.ready || s.sender_dropped || s.was_cancelled
      then (s, false)
      else (record s { waiter = some h }, true)

  -- `await_resume`; `value_` is there when `ready_` is, and is read through `*value_`.
  unfoldable pub await_resume : State A → Bool → Option (Expected A)
  await_resume s off =
      if s.ready
      then elim s.value [ none ↦ none | some v ↦ some (ok v) ]
      else if s.was_cancelled || off
      then some (err cancelled)
      else some (err channel_closed)

-- `awaiter`, with the scope that its guard is bound to.
pub record Awaiter {ℓ} (A : Type ℓ) : Type ℓ where
  pub state : Option (State A)
  pub scope : Option ℕ
  pub guard_scope : Option ℕ

-- `receiver`, with the scope that its awaiter will be bound to.
pub record Receiver {ℓ} (A : Type ℓ) : Type ℓ where
  pub state : Option (State A)
  pub scope : Option ℕ

module _ {ℓ} {A : Type ℓ} where
  -- `make_oneshot`: both ends refer to one new state.
  unfoldable pub make_oneshot : Option (State A) × Receiver A
  make_oneshot = (some fresh_state, record { state = some fresh_state; scope = none })

  unfoldable pub set_cancel_scope : Option ℕ → Receiver A → Receiver A
  set_cancel_scope s r = record r { scope = s }

  pub receiver_is_closed : Receiver A → Bool
  receiver_is_closed r = sender_is_closed r.state

  -- `operator co_await` of a receiver, on a thread of the runtime `rt`: the receiver after it has no
  -- state and no scope, and the awaiter has them.
  unfoldable pub co_await : Receiver A → ℕ → Receiver A × Awaiter A
  co_await r rt = (
    record { state = none; scope = none },
    record {
      state = elim r.state [ none ↦ none | some s ↦ some (begin_await s rt) ];
      scope = r.scope;
      guard_scope = r.scope;
    },
  )

  -- `~awaiter()`
  unfoldable pub destroy_awaiter : Awaiter A → Option (State A)
  destroy_awaiter a = drop_receiver a.state
