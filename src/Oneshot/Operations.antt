-- ===== src/Oneshot/Operations.antt =====
-- The operations on the channel's state.
use coasio.Common.{
  ◌≡◌, refl, Bool, true, false, ◌&&◌, ◌||◌, List, [], ◌∷◌, ◌++◌, Option, ℕ, none, some, arith,
  if◌then◌else◌, is_some,
}
use coasio.Error.{ok}
use coasio.Oneshot.{
  State, ToWake, schedule_if, fresh_state, set_value, mark_sender_dropped, mark_receiver_dropped,
  is_closed, cancel_and_take_waiter, await_resume, co_await, destroy_awaiter, drop_receiver,
  begin_await,
}

abbrev pub resolved {ℓ} : {A : Type ℓ} → State A → Bool
resolved s = s.ready || s.sender_dropped || s.was_cancelled

-- A channel is resolved at most once, by a value, by the sender's end or by cancellation; the value
-- is there exactly when it was sent; and nobody waits on a resolved channel.
pub record Inv {ℓ} {A : Type ℓ} (s : State A) : Type ℓ where
  pub full : is_some s.value ≡ s.ready
  pub once : (s.ready && s.was_cancelled) ≡ false
  pub ended : (s.sender_dropped && s.was_cancelled) ≡ false
  pub waits : (is_some s.waiter && resolved s) ≡ false

-- What the other side of the channel may call while the receiver is anywhere.
pub data Op {ℓ} (A : Type ℓ) : Type ℓ where
  sends : A → Op A
  drops_sender : Op A
  drops_receiver : Op A
  cancels : Op A

module _ {ℓ} {A : Type ℓ} where
  -- The state after a call, and the coroutines that it resumes. After `cancel_and_take_waiter` the
  -- caller schedules the coroutine that waited.
  unfoldable pub step : State A → Op A → State A × List ToWake
  step s (sends v) = let (s', _, out) = set_value s v in (s', out)
  step s drops_sender = mark_sender_dropped s
  step s drops_receiver = (mark_receiver_dropped s, [])
  step s cancels =
      let (s', took) = cancel_and_take_waiter s in
      (s', if took then schedule_if s.rt s.waiter else [])

  unfoldable pub run : State A → List (Op A) → State A × List ToWake
  run s [] = (s, [])
  run s (o ∷ ops) = let (s', out) = step s o in let (s'', more) = run s' ops in (s'', out ++ more)

  pub fresh_state-Inv : Inv (fresh_state {A = A})
  unfolding fresh_state
  fresh_state-Inv = record { full = refl; once = refl; ended = refl; waits = refl }

  pub step-Inv : (s : State A) (o : Op A) → Inv s → Inv (step s o).0
  unfolding step set_value mark_sender_dropped mark_receiver_dropped cancel_and_take_waiter
  step-Inv s (sends v) i = ground arith
  step-Inv s drops_sender i = ground arith
  step-Inv s drops_receiver i = ground arith
  step-Inv s cancels i = ground arith

  pub run-Inv : (s : State A) (ops : List (Op A)) → Inv s → Inv (run s ops).0
  unfolding run
  run-Inv s [] i = i
  run-Inv s (o ∷ ops) i = run-Inv (step s o).0 ops (step-Inv s o i)

  -- `set_value` refuses exactly when the channel is closed or already holds a value; then it
  -- gives the value back, and the receiver gets what it would have got before. Otherwise the
  -- value is what the receiver gets, and the coroutine that waits is resumed.
  pub set_value_lem :
      (s : State A) (v : A) (off : Bool)
      → let refused = s.ready || is_closed s in
        let r = set_value s v in
        (r.1 ≡ (if refused then some v else none))
        × (await_resume r.0 off ≡ (if refused then await_resume s off else some (ok v)))
        × (r.2 ≡ (if refused then [] else schedule_if s.rt s.waiter))
  unfolding set_value is_closed await_resume
  set_value_lem s v off = ground arith

  ready-step :
      (s : State A) (v : A) (o : Op A)
      → s.ready ≡ true
      → s.value ≡ some v
      → ((step s o).0.ready ≡ true) × ((step s o).0.value ≡ some v) × ((step s o).1 ≡ [])
  unfolding step set_value mark_sender_dropped mark_receiver_dropped cancel_and_take_waiter
  ready-step s v (sends w) h e = ground arith
  ready-step s v drops_sender h e = ground arith
  ready-step s v drops_receiver h e = ground arith
  ready-step s v cancels h e = ground arith

  ready-run :
      (s : State A) (v : A) (ops : List (Op A))
      → s.ready ≡ true
      → s.value ≡ some v
      → ((run s ops).0.ready ≡ true) × ((run s ops).0.value ≡ some v) × ((run s ops).1 ≡ [])
  unfolding run
  ready-run s v [] h e = (h, e, refl)
  ready-run s v (o ∷ ops) h e =
      let (h', e', quiet) = ready-step s v o h e in
      let (h'', e'', later) = ready-run (step s o).0 v ops h' e' in
      (h'', e'', ground (arith, quiet, later))

  sent-ready :
      (s : State A) (v : A)
      → (set_value s v).1 ≡ none
      → ((set_value s v).0.ready ≡ true) × ((set_value s v).0.value ≡ some v)
  unfolding set_value
  sent-ready s v h = ground arith

  -- A value that `set_value` accepts is what `await_resume` returns, whatever is called on the
  -- channel in between, further sends, drops of both ends and cancellation included; and none of
  -- those calls resumes anybody.
  pub sent_is_received :
      (s : State A) (v : A) (ops : List (Op A)) (off : Bool)
      → (set_value s v).1 ≡ none
      → let r = run (set_value s v).0 ops in (await_resume r.0 off ≡ some (ok v)) × (r.1 ≡ [])
  unfolding await_resume
  sent_is_received s v ops off h =
      let (ready, full) = sent-ready s v h in
      let (ready', full', quiet) = ready-run (set_value s v).0 v ops ready full in
      (rw (ready', full'), quiet)

-- A receiver that is awaited lets go of its channel: its destructor drops nothing, and that of the
-- awaiter marks the receiver as dropped, once.
pub awaited_receiver {ℓ} :
    {A : Type ℓ} (s : State A) (scope : Option ℕ) (rt : ℕ)
    → let (r, a) = co_await (record { state = some s; scope = scope }) rt in
      (drop_receiver r.state ≡ none)
      × (destroy_awaiter a ≡ some (mark_receiver_dropped (begin_await s rt)))
      × (a.guard_scope ≡ scope)
unfolding co_await destroy_awaiter drop_receiver
awaited_receiver s scope rt = (refl, refl, refl)
