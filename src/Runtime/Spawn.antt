-- ===== src/Runtime/Spawn.antt =====
-- `_spawn`, the end of a root task, and `JoinHandle::join`.
use coasio.Common.{
  ℕ, suc, ◌<◌, ◌^◌, ◌≡◌, ◌⊎◌, refl, ap, ◌∙◌, true, false, List, [], ◌∷◌, ◌++◌, append-nil, none,
  some, arith, ◌==◌, if◌then◌else◌, has, erase, length, inl, inr, Bool-cases,
}
use coasio.Links.{Ptr, null, put}
use coasio.Error.{ok}
use coasio.Oneshot.{
  State, ToWake, schedule_if, fresh_state, set_value, mark_sender_dropped, send, drop_sender,
}
use coasio.Blocking.{returned, rethrown}
use coasio.Task.{Frame, is_valid, complete, detach}
use coasio.Runtime.{
  Runtime, put_task_in_queue, schedule, register_root, rooted, drop_task, spawn, finish, join,
}
use coasio.Runtime.Roots.{Rep, register_root-Rep, unregister_root-Rep}
use coasio.Runtime.Finishing.{sent_state, finished, joined, kept_channel, found}

valid_some {ℓ} : {A : Type ℓ} (h : Ptr) (f : Frame A) → is_valid h f ≡ true → (h == null) ≡ false
unfolding is_valid
valid_some h f valid = ground arith

-- The frame of a task that has become a root.
abbrev pub root_frame {ℓ} : {A : Type ℓ} → Frame A → ℕ → ℕ → Frame A
root_frame f scope channel = record {
  promise = record {
    scope_raw = some scope;
    owned = true;
    result = f.promise.result;
    exception = f.promise.exception;
    owning_scope = some scope;
    result_sender = some channel;
    continuation = f.promise.continuation;
    detached = true;
  };
  done = f.done;
  destroyed = f.destroyed;
}

module _ {ℓ} {A : Type ℓ} (r : Runtime A) (h : Ptr) (scope channel : ℕ) where
  -- The runtime before the new task is a root.
  prepared : Runtime A
  prepared = record r {
    channels = put r.channels channel fresh_state;
    frames = put r.frames h (rooted (r.frames h) scope channel);
  }

  spawn_valid :
      is_valid h (r.frames h) ≡ true
      → spawn r h scope channel ≡ (
        put_task_in_queue (register_root prepared h) h,
        record { scope = some scope; rx = some channel },
      )
  unfolding spawn schedule prepared
  spawn_valid valid = rw valid (rw (valid_some h (r.frames h) valid) refl)

  spawn_invalid :
      is_valid h (r.frames h) ≡ false
      → spawn r h scope channel ≡ (drop_task r h, record { scope = none; rx = none })
  unfolding spawn
  spawn_invalid invalid = rw invalid refl

  dropped-Rep : (xs : List Ptr) → Rep r xs → Rep (drop_task r h) xs
  dropped-Rep xs rep = elim (Bool-cases (h == null)) [
    | inl e ↦ rw e rep
    | inr e ↦ rw e (record { chain = rep.chain; counted = rep.counted; bounded = rep.bounded })
  ]

  -- All that spawning a valid task changes besides the list of roots.
  queued-fields :
      let r' = put_task_in_queue (register_root prepared h) h in
      (r'.frames ≡ put r.frames h (root_frame (r.frames h) scope channel))
      × (r'.channels ≡ put r.channels channel fresh_state)
      × (r'.stop_requested ≡ r.stop_requested)
  unfolding put_task_in_queue register_root prepared rooted detach
  queued-fields = (refl, refl, refl)

  dropped-fields :
      ((drop_task r h).frames ≡ (
        if h == null then r.frames else put r.frames h (record (r.frames h) { destroyed = true })))
      × ((drop_task r h).channels ≡ r.channels)
      × ((drop_task r h).global_tasks ≡ r.global_tasks)
      × ((drop_task r h).stop_requested ≡ r.stop_requested)
  dropped-fields = elim (Bool-cases (h == null)) [
    | inl e ↦ rw e (refl, refl, refl, refl)
    | inr e ↦ rw e (refl, refl, refl, refl)
  ]

  queued-Rep :
      (xs : List Ptr)
      → Rep r xs
      → has h xs ≡ false
      → suc (length xs) < 2 ^ 64
      → (h == null) ≡ false
      → Rep (put_task_in_queue (register_root prepared h) h) (h ∷ xs)
        × ((put_task_in_queue (register_root prepared h) h).global_tasks ≡ r.global_tasks ++ h ∷ [])
  unfolding put_task_in_queue register_root prepared
  queued-Rep xs rep out room some_task =
      let rep1 : Rep prepared xs = record {
        chain = rep.chain;
        counted = rep.counted;
        bounded = rep.bounded;
      } in
      let added = register_root-Rep prepared xs rep1 h (ground arith) out room in
      (record { chain = added.chain; counted = added.counted; bounded = added.bounded }, refl)

-- Spawning on a runtime whose list of roots is well-formed, with a coroutine that is not a root and
-- with room in the count. A valid task is registered as a root in front of the others and scheduled
-- last; its promise gets the scope, the sender of the new channel and the runtime, and is detached;
-- and the handle has its scope and its channel. A task that is null or done is not registered and
-- not scheduled, its coroutine, if there is one, is destroyed, and the handle is empty. Nothing
-- else changes in the frames and the channels.
pub spawn-Rep {ℓ} :
    {A : Type ℓ} (r : Runtime A) (xs : List Ptr) (h : Ptr) (scope channel : ℕ)
    → Rep r xs
    → has h xs ≡ false
    → suc (length xs) < 2 ^ 64
    → let valid = is_valid h (r.frames h) in
      let (r', handle) = spawn r h scope channel in
      Rep r' (if valid then h ∷ xs else xs)
      × (r'.global_tasks ≡ (if valid then r.global_tasks ++ h ∷ [] else r.global_tasks))
      × (handle ≡ (
          if valid
          then record { scope = some scope; rx = some channel }
          else record { scope = none; rx = none }))
      × (r'.frames ≡ (
          if valid
          then put r.frames h (root_frame (r.frames h) scope channel)
          else if h == null
          then r.frames
          else put r.frames h (record (r.frames h) { destroyed = true })))
      × (r'.channels ≡ (if valid then put r.channels channel fresh_state else r.channels))
      × (r'.stop_requested ≡ r.stop_requested)
spawn-Rep r xs h scope channel rep out room = elim (Bool-cases (is_valid h (r.frames h))) [
  | inl valid ↦
      let (listed, queue) =
        queued-Rep r h scope channel xs rep out room (valid_some h (r.frames h) valid) in
      let (frames, channels, stop) = queued-fields r h scope channel in
      rw valid
        (rw (spawn_valid r h scope channel valid) (listed, queue, refl, frames, channels, stop))
  | inr invalid ↦
      let (frames, channels, queue, stop) = dropped-fields r h scope channel in
      rw invalid (
        rw (spawn_invalid r h scope channel invalid)
          (dropped-Rep r h scope channel xs rep, queue, refl, frames, channels, stop))
]

-- When the body of a registered root task ends with a value or an exception, and its channel can
-- still be sent to, the task is taken off the list of roots, a coroutine that waits at the channel
-- is scheduled, and who joins the task without being cancelled gets that value or that exception.
pub finish-join {ℓ} :
    {A : Type ℓ} (r : Runtime A) (xs : List Ptr) (h : Ptr) (scope channel : ℕ) (f : Frame A)
    (end : A ⊎ ℕ)
    → Rep r xs
    → has h xs ≡ true
    → r.frames h ≡ complete end (rooted f scope channel)
    → f.promise.exception ≡ none
    → (r.channels channel).ready ≡ false
    → (r.channels channel).receiver_dropped ≡ false
    → (r.channels channel).was_cancelled ≡ false
    → Rep (finish r h).0 (erase h xs)
      × ((finish r h).1 ≡ schedule_if (r.channels channel).rt (r.channels channel).waiter)
      × (join (coasio.Oneshot.await_resume ((finish r h).0.channels channel) false)
          ≡ elim end [ inl v ↦ returned (ok v) | inr e ↦ rethrown e ])
finish-join r xs h scope channel f end rep m here clean unsent kept live =
    let r1 = record r { channels = put r.channels channel (sent_state (r.channels channel) end) } in
    let rep1 : Rep r1 xs = record {
      chain = rep.chain;
      counted = rep.counted;
      bounded = rep.bounded;
    } in
    let off = (unregister_root-Rep r1 xs rep1 h m).0 in
    rw (finished r h scope channel f end here clean unsent kept live) (
      record { chain = off.chain; counted = off.counted; bounded = off.bounded },
      append-nil _,
      ap (λ c. join (coasio.Oneshot.await_resume (c channel) false)) (kept_channel r h channel r1)
          ∙ ap (λ c. join (coasio.Oneshot.await_resume c false)) (found r h channel _)
          ∙ joined (r.channels channel) end,
    )
