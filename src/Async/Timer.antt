-- ===== src/Async/Timer.antt =====
-- The class `timer` of include/coasio/time.hpp, over asio's timers, and the scopes that the awaitables on
-- asio are given.
use coasio.Common.{ℕ, ◌≡◌, refl, true, Option, none}
use coasio.Error.{cancelled}
use coasio.Runtime.BlockOn.{Ran, ran, terminated, get_current_io_context}
use coasio.Async.{coasio_error, Outcome, failed, Completion, async_op}
use coasio.Async.CoAwait.{Turns, co_await, co_await-off}

-- The scope of an awaitable and that of its guard.
pub record Binding : Type 0 where
  pub scope : Option ℕ
  pub guard_scope : Option ℕ

-- `guard_.bind(scope_ = std::move(scope))`, in each of the three awaitables.
unfoldable pub op_set_cancel_scope : Option ℕ → Binding → Binding
op_set_cancel_scope s b = record b { scope = s; guard_scope = s }

unfoldable pub sleep_set_cancel_scope : Option ℕ → Binding → Binding
sleep_set_cancel_scope s b = record b { scope = s; guard_scope = s }

unfoldable pub accept_set_cancel_scope : Option ℕ → Binding → Binding
accept_set_cancel_scope s b = record b { scope = s; guard_scope = s }

-- `asio::basic_waitable_timer<Clock>`; `T` is a timer, `D` a duration, `P` a point in time, and `W` the
-- program around it. The operations that change a timer say how many waits they cancelled.
pub record AsioTimer (T D P W : Type 0) : Type 0 where
  pub idle : ℕ → T
  pub at : ℕ → P → T
  pub after : ℕ → D → T
  pub cancel : T → T × ℕ
  pub cancel_one : T → T × ℕ
  pub expires_after : T → D → T × ℕ
  pub expires_at : T → P → T × ℕ
  pub expiry : T → P
  pub async_wait : T → W → W × Completion (Unit {0})

module _ {T D P W : Type 0} (asio : AsioTimer T D P W) where
  -- What is made for the context of the thread's runtime.
  unfoldable pub on_context : (ℕ → T) → (ℕ → ℕ) → Option ℕ → Ran T
  on_context make context current = elim (get_current_io_context context current) [
    | terminated ↦ terminated
    | ran c ↦ ran (make c)
  ]

  unfoldable pub create : (ℕ → ℕ) → Option ℕ → Ran T
  create context current = on_context asio.idle context current

  unfoldable pub create_at : P → (ℕ → ℕ) → Option ℕ → Ran T
  create_at expiry_time context current = on_context (λ c. asio.at c expiry_time) context current

  unfoldable pub create_after : D → (ℕ → ℕ) → Option ℕ → Ran T
  create_after expiry_time context current =
      on_context (λ c. asio.after c expiry_time) context current

  pub timer_cancel : T → T × ℕ
  timer_cancel t = asio.cancel t

  pub timer_cancel_one : T → T × ℕ
  timer_cancel_one t = asio.cancel_one t

  pub expires_after : T → D → T × ℕ
  expires_after t expiry_time = asio.expires_after t expiry_time

  pub expires_at : T → P → T × ℕ
  expires_at t expiry_time = asio.expires_at t expiry_time

  pub expiry : T → P
  expiry t = asio.expiry t

  unfoldable pub wait : Turns W → T → W → W × Outcome (Unit {0})
  wait turns t = co_await turns (async_op tt) (asio.async_wait t)

  -- Outside a runtime no timer is made.
  pub create_outside :
      (context : ℕ → ℕ) (p : P) (d : D)
      → (create context none ≡ terminated)
        × (create_at p context none ≡ terminated)
        × (create_after d context none ≡ terminated)
  unfolding create create_at create_after on_context get_current_io_context
  create_outside context p d = (refl, refl, refl)

  -- Under a cancelled scope a wait starts nothing, whatever the timer.
  pub wait_cancelled :
      (turns : Turns W) (t : T) (w : W)
      → turns.is_off w ≡ true
      → wait turns t w ≡ (w, failed (coasio_error cancelled))
  unfolding wait
  wait_cancelled turns t w off = co_await-off turns (async_op tt) (asio.async_wait t) w off
