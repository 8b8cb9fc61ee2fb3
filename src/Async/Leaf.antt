-- ===== src/Async/Leaf.antt =====
-- What the three awaitables have in common, and what each of them fills in.
pub mod Race
use coasio.Common.{ℕ, ◌≡◌, refl, Bool, true, false, Option, none, some}
use coasio.Error.{cancelled}
use coasio.CancelScope.{ArmResult}
use coasio.Async.{
  Code, operation_aborted, coasio_error, Outcome, value, failed, Suspended, resumed_at_once,
  started, Awaitable, Completion, await_suspend, on_complete, await_resume, SleepAwaiter,
  sleep_await_suspend, sleep_on_complete, sleep_await_resume, ListenAwaiter, accept_await_suspend,
  accept_on_complete, accept_await_resume,
}

-- `S` is the awaiter, `C` a completion, `R` what `co_await` gives. The laws say what is given when the
-- guard is not armed, that arming changes nothing, and what is given after a completion.
pub record Leaf {ℓ} (S C R : Type ℓ) : Type ℓ where
  pub suspend : S → ArmResult → S × Suspended
  pub complete : C → S → S
  pub resume : S → R
  pub aborted : R
  pub meaning : C → S → R
  pub suspend-armed : (s : S) → suspend s ArmResult.armed ≡ (s, started)
  pub suspend-refused :
      (s : S)
      → ((suspend s ArmResult.already_cancelled).1 ≡ resumed_at_once)
        × (resume (suspend s ArmResult.already_cancelled).0 ≡ aborted)
  pub resume-complete : (c : C) (s : S) → resume (complete c s) ≡ meaning c s

abbrev pub op_meaning {ℓ} : {A : Type ℓ} → Completion A → Awaitable A → Outcome A
op_meaning c s = elim c.ec [
  | some e ↦ failed e
  | none ↦ elim c.result [ some v ↦ value v | none ↦ value s.store ]
]

module _ {ℓ} {A : Type ℓ} where
  pub op_refused :
      (s : Awaitable A)
      → ((await_suspend s ArmResult.already_cancelled).1 ≡ resumed_at_once)
        × (await_resume (await_suspend s ArmResult.already_cancelled).0
            ≡ failed (coasio_error cancelled))
  unfolding await_suspend await_resume
  op_refused s = (refl, refl)

  pub op_armed : (s : Awaitable A) → await_suspend s ArmResult.armed ≡ (s, started)
  unfolding await_suspend
  op_armed s = refl

  pub op_complete :
      (ec : Option Code) (r : Option A) (s : Awaitable A)
      → await_resume (on_complete (record { ec = ec; result = r }) s)
        ≡ op_meaning (record { ec = ec; result = r }) s
  unfolding await_resume on_complete
  op_complete none none s = refl
  op_complete none (some v) s = refl
  op_complete (some e) r s = refl

  abbrev pub op_leaf : Leaf (Awaitable A) (Completion A) (Outcome A)
  op_leaf = record {
    suspend = await_suspend;
    complete = on_complete;
    resume = await_resume;
    aborted = failed (coasio_error cancelled);
    meaning = op_meaning;
    suspend-armed = op_armed;
    suspend-refused = op_refused;
    resume-complete = λ c s. op_complete c.ec c.result s;
  }

pub sleep_refused :
    (s : SleepAwaiter)
    → ((sleep_await_suspend s ArmResult.already_cancelled).1 ≡ resumed_at_once)
      × (sleep_await_resume (sleep_await_suspend s ArmResult.already_cancelled).0
          ≡ failed (coasio_error cancelled))
unfolding sleep_await_suspend sleep_await_resume
sleep_refused s = (refl, refl)

pub sleep_armed : (s : SleepAwaiter) → sleep_await_suspend s ArmResult.armed ≡ (s, started)
unfolding sleep_await_suspend
sleep_armed s = refl

abbrev pub sleep_meaning : Option Code → SleepAwaiter → Outcome (Unit {0})
sleep_meaning none s = value tt
sleep_meaning (some e) s = failed e

pub sleep_complete :
    (ec : Option Code) (s : SleepAwaiter)
    → sleep_await_resume (sleep_on_complete ec s) ≡ sleep_meaning ec s
unfolding sleep_await_resume sleep_on_complete
sleep_complete none s = refl
sleep_complete (some e) s = refl

abbrev pub sleep_leaf : Leaf SleepAwaiter (Option Code) (Outcome (Unit {0}))
sleep_leaf = record {
  suspend = sleep_await_suspend;
  complete = sleep_on_complete;
  resume = sleep_await_resume;
  aborted = failed (coasio_error cancelled);
  meaning = sleep_meaning;
  suspend-armed = sleep_armed;
  suspend-refused = sleep_refused;
  resume-complete = sleep_complete;
}

module _ {ℓ} {S : Type ℓ} where
  pub accept_refused :
      (s : ListenAwaiter S)
      → ((accept_await_suspend s ArmResult.already_cancelled).1 ≡ resumed_at_once)
        × (accept_await_resume (accept_await_suspend s ArmResult.already_cancelled).0
            ≡ failed operation_aborted)
  unfolding accept_await_suspend accept_await_resume
  accept_refused s = (refl, refl)

  pub accept_armed : (s : ListenAwaiter S) → accept_await_suspend s ArmResult.armed ≡ (s, started)
  unfolding accept_await_suspend
  accept_armed s = refl

  abbrev pub accept_meaning : Option Code × S → ListenAwaiter S → Outcome S
  accept_meaning (none, sock) s = value sock
  accept_meaning (some e, sock) s = failed e

  pub accept_complete :
      (c : Option Code × S) (s : ListenAwaiter S)
      → accept_await_resume (accept_on_complete c s) ≡ accept_meaning c s
  unfolding accept_await_resume accept_on_complete
  accept_complete (none, sock) s = refl
  accept_complete (some e, sock) s = refl

  abbrev pub accept_leaf : Leaf (ListenAwaiter S) (Option Code × S) (Outcome S)
  accept_leaf = record {
    suspend = accept_await_suspend;
    complete = accept_on_complete;
    resume = accept_await_resume;
    aborted = failed operation_aborted;
    meaning = accept_meaning;
    suspend-armed = accept_armed;
    suspend-refused = accept_refused;
    resume-complete = accept_complete;
  }
