-- ===== src/Async.antt =====
-- The awaitables on top of asio: include/coasio/detail/async_op.hpp, `sleep` of include/coasio/time.hpp
-- and `listener::accept` of include/coasio/net/tcp/listener.hpp. What asio does with an operation that
-- was started is not in this code: a completion is an argument, an error code and maybe a result.
pub mod Leaf
pub mod CoAwait
pub mod Timer
mod Examples
use coasio.Common.{ℕ, zero, suc, Bool, true, false, Option, none, some, if◌then◌else◌}
use coasio.Error.{Error, cancelled}
use coasio.HostPort.{Errc}
use coasio.CancelScope.{ArmResult}

-- A `std::error_code` that is set: one of asio or the system, asio's `operation_aborted`, one of ours,
-- or one made of a `std::errc`.
pub data Code : Type 0 where
  asio_error : ℕ → Code
  operation_aborted : Code
  coasio_error : Error → Code
  posix_error : Errc → Code

-- `std::expected<A, std::error_code>`; `bad_access` is reading what is not there: an
-- `optional` without a value, a text past its end.
pub data Outcome {ℓ} (A : Type ℓ) : Type ℓ where
  value : A → Outcome A
  failed : Code → Outcome A
  bad_access : Outcome A

-- What `await_suspend` leaves behind: the coroutine is scheduled, or asio has the operation.
pub data Suspended : Type 0 where
  resumed_at_once started : Suspended

-- `asio_awaitable`: `ec_` and `store_`; the latter begins with a default value.
pub record Awaitable {ℓ} (A : Type ℓ) : Type ℓ where
  pub ec : Option Code
  pub store : A

-- What asio calls the handler with; the result may be missing.
pub record Completion {ℓ} (A : Type ℓ) : Type ℓ where
  pub ec : Option Code
  pub result : Option A

module _ {ℓ} {A : Type ℓ} where
  pub async_op : A → Awaitable A
  async_op default = record { ec = none; store = default }

  -- `await_ready`, with what `already_cancelled(scope_)` says.
  unfoldable pub await_ready : Awaitable A → Bool → Awaitable A × Bool
  await_ready a off =
      if off then (record a { ec = some (coasio_error cancelled) }, true) else (a, false)

  -- `await_suspend`, with what `guard_.arm` answered.
  unfoldable pub await_suspend : Awaitable A → ArmResult → Awaitable A × Suspended
  await_suspend a ArmResult.already_cancelled =
      (record a { ec = some (coasio_error cancelled) }, resumed_at_once)
  await_suspend a ArmResult.armed = (a, started)

  -- The completion handler, behind `guard_.disarm`; the coroutine is scheduled after it.
  unfoldable pub on_complete : Completion A → Awaitable A → Awaitable A
  on_complete c a = record { ec = c.ec; store = elim c.result [ none ↦ a.store | some v ↦ v ] }

  unfoldable pub await_resume : Awaitable A → Outcome A
  await_resume a = elim a.ec [ some e ↦ failed e | none ↦ value a.store ]

-- `sleep_awaiter`. A duration in milliseconds; `negsuc n` is -(n + 1).
pub data ℤ : Type 0 where
  pos : ℕ → ℤ
  negsuc : ℕ → ℤ

pub record SleepAwaiter : Type 0 where
  pub ec : Option Code
  pub duration : ℤ

abbrev pub is_positive : ℤ → Bool
is_positive (pos zero) = false
is_positive (pos (suc n)) = true
is_positive (negsuc n) = false

pub sleep : ℤ → SleepAwaiter
sleep ms = record { ec = none; duration = ms }

unfoldable pub sleep_await_ready : SleepAwaiter → Bool → SleepAwaiter × Bool
sleep_await_ready a off =
    if is_positive a.duration
    then (if off then (record a { ec = some (coasio_error cancelled) }, true) else (a, false))
    else (a, true)

unfoldable pub sleep_await_suspend : SleepAwaiter → ArmResult → SleepAwaiter × Suspended
sleep_await_suspend a ArmResult.already_cancelled =
    (record a { ec = some (coasio_error cancelled) }, resumed_at_once)
sleep_await_suspend a ArmResult.armed = (a, started)

unfoldable pub sleep_on_complete : Option Code → SleepAwaiter → SleepAwaiter
sleep_on_complete ec a = record a { ec = ec }

unfoldable pub sleep_await_resume : SleepAwaiter → Outcome (Unit {0})
sleep_await_resume a = elim a.ec [ some e ↦ failed e | none ↦ value tt ]

-- `listen_awaiter`; a socket of asio is an argument.
pub record ListenAwaiter {ℓ} (S : Type ℓ) : Type ℓ where
  pub ec : Option Code
  pub socket : Option S

module _ {ℓ} {S : Type ℓ} where
  pub accept : ListenAwaiter S
  accept = record { ec = none; socket = none }

  pub accept_await_ready : ListenAwaiter S → Bool → ListenAwaiter S × Bool
  accept_await_ready a off =
      if off then (record a { ec = some operation_aborted }, true) else (a, false)

  unfoldable pub accept_await_suspend : ListenAwaiter S → ArmResult → ListenAwaiter S × Suspended
  accept_await_suspend a ArmResult.already_cancelled =
      (record a { ec = some operation_aborted }, resumed_at_once)
  accept_await_suspend a ArmResult.armed = (a, started)

  -- The handler has a socket in any case, and takes it if there is no error.
  unfoldable pub accept_on_complete : Option Code × S → ListenAwaiter S → ListenAwaiter S
  accept_on_complete (none, sock) a = record a { ec = none; socket = some sock }
  accept_on_complete (some e, sock) a = record a { ec = some e }

  unfoldable pub accept_await_resume : ListenAwaiter S → Outcome S
  accept_await_resume a = elim a.ec [
    | some e ↦ failed e
    | none ↦ elim a.socket [ some s ↦ value s | none ↦ bad_access ]
  ]
