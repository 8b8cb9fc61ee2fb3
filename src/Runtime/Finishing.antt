-- ===== src/Runtime/Finishing.antt =====
-- The end of a root task: what its last suspension leaves behind, and what is joined.
use coasio.Common.{ℕ, ◌≡◌, ◌⊎◌, refl, ap, ◌∙◌, true, false, [], ◌++◌, none, some, arith, inl, inr}
use coasio.Links.{Ptr, put}
use coasio.Error.{ok}
use coasio.Oneshot.{
  State, ToWake, schedule_if, fresh_state, set_value, mark_sender_dropped, send, drop_sender,
}
use coasio.Blocking.{returned, rethrown}
use coasio.Task.{
  RootOutcome, Frame, complete, outcome_of, final_suspend, return_value, unhandled_exception,
  detach,
}
use coasio.Runtime.{
  Runtime, unregister_root, rooted, sender_of, set_sender, finish, join, set_frame,
}

abbrev pub ended {ℓ} : {A : Type ℓ} → A ⊎ ℕ → RootOutcome A
ended (inl v) = record { value = some v; exception = none }
ended (inr e) = record { value = none; exception = some e }

outcome_of-complete {ℓ} :
    {A : Type ℓ} (f : Frame A) (scope channel : ℕ) (end : A ⊎ ℕ)
    → f.promise.exception ≡ none
    → outcome_of (complete end (rooted f scope channel)).promise ≡ ended end
unfolding rooted detach return_value unhandled_exception outcome_of
outcome_of-complete f scope channel (inl v) clean = rw clean refl
outcome_of-complete f scope channel (inr e) clean = refl

pub detached-complete {ℓ} :
    {A : Type ℓ} (f : Frame A) (scope channel : ℕ) (end : A ⊎ ℕ)
    → let p = (complete end (rooted f scope channel)).promise in
      (p.detached ≡ true) × (p.owned ≡ true) × (p.result_sender ≡ some channel)
unfolding rooted detach return_value unhandled_exception
detached-complete f scope channel (inl v) = (refl, refl, refl)
detached-complete f scope channel (inr e) = (refl, refl, refl)

sent {ℓ} :
    {A : Type ℓ} (st : State A) (v : A)
    → st.ready ≡ false
    → st.receiver_dropped ≡ false
    → st.was_cancelled ≡ false
    → set_value st v ≡ (
      record st { value = some v; ready = true; waiter = none },
      none,
      schedule_if st.rt st.waiter,
    )
unfolding set_value
sent st v unsent kept live = rw (unsent, kept, live) refl

-- What the final awaiter of a root task does with a channel that can still be sent to.
final_rooted {ℓ} :
    {A : Type ℓ} (f : Frame A) (scope channel : ℕ) (end : A ⊎ ℕ) (st : State (RootOutcome A))
    → f.promise.exception ≡ none
    → st.ready ≡ false
    → st.receiver_dropped ≡ false
    → st.was_cancelled ≡ false
    → final_suspend (complete end (rooted f scope channel)) (some st) ≡ (
      record {
        promise = (complete end (rooted f scope channel)).promise;
        done = true;
        destroyed = true;
      },
      some (record st { value = some (ended end); ready = true; waiter = none }),
      schedule_if st.rt st.waiter ++ [],
      true,
      none,
    )
unfolding final_suspend send drop_sender mark_sender_dropped
final_rooted f scope channel end st clean unsent kept live =
    let p = detached-complete f scope channel end in
    let out = outcome_of-complete f scope channel end clean in
    rw p.0 (rw p.1 (rw out (rw (sent st (ended end) unsent kept live) refl)))

abbrev pub sent_state {ℓ} : {A : Type ℓ} → State (RootOutcome A) → A ⊎ ℕ → State (RootOutcome A)
sent_state st end = record st { value = some (ended end); ready = true; waiter = none }

module _ {ℓ} {A : Type ℓ} (r : Runtime A) (h : Ptr) (channel : ℕ) where
  sender_known :
      (r.frames h).promise.result_sender ≡ some channel → sender_of r h ≡ some (r.channels channel)
  unfolding sender_of
  sender_known e = rw (sender_of, e) refl

  set_sender_known :
      (st : State (RootOutcome A))
      → (r.frames h).promise.result_sender ≡ some channel
      → set_sender r h (some st) ≡ record r { channels = put r.channels channel st }
  unfolding set_sender
  set_sender_known st e = rw (set_sender, e) refl

  pub kept_channel : (r1 : Runtime A) → (unregister_root r1 h).0.channels ≡ r1.channels
  unfolding unregister_root
  kept_channel r1 = refl

  pub found : (st : State (RootOutcome A)) → put r.channels channel st channel ≡ st
  found st = ground arith

pub finished {ℓ} :
    {A : Type ℓ} (r : Runtime A) (h : Ptr) (scope channel : ℕ) (f : Frame A) (end : A ⊎ ℕ)
    → r.frames h ≡ complete end (rooted f scope channel)
    → f.promise.exception ≡ none
    → (r.channels channel).ready ≡ false
    → (r.channels channel).receiver_dropped ≡ false
    → (r.channels channel).was_cancelled ≡ false
    → finish r h ≡ (
      set_frame
          (unregister_root
            (record r { channels = put r.channels channel (sent_state (r.channels channel) end) })
            h).0
          h
          (record {
            promise = (complete end (rooted f scope channel)).promise;
            done = true;
            destroyed = true;
          }),
      schedule_if (r.channels channel).rt (r.channels channel).waiter ++ [],
    )
unfolding finish
finished r h scope channel f end here clean unsent kept live =
    let p = detached-complete f scope channel end in
    let sender = ap (λ g. g.promise.result_sender) here ∙ p.2 in
    rw (sender_known r h channel sender) (
      rw here (
        rw (final_rooted f scope channel end (r.channels channel) clean unsent kept live)
          (rw (set_sender_known r h channel _ sender) refl)))

pub joined {ℓ} :
    {A : Type ℓ} (st : State (RootOutcome A)) (end : A ⊎ ℕ)
    → join (coasio.Oneshot.await_resume (sent_state st end) false)
      ≡ elim end [ inl v ↦ returned (ok v) | inr e ↦ rethrown e ]
unfolding join coasio.Oneshot.await_resume
joined st (inl v) = refl
joined st (inr e) = refl
