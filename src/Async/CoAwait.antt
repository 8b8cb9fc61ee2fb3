-- ===== src/Async/CoAwait.antt =====
-- `co_await` of an `asio_awaitable`, with what runs in between: its three parts in order, and which of
-- them decides.
use coasio.Common.{◌≡◌, Bool, true, false, arith, if◌then◌else◌}
use coasio.Error.{cancelled}
use coasio.CancelScope.{ArmResult}
use coasio.Async.{
  coasio_error, Outcome, failed, Suspended, Awaitable, Completion, await_ready, await_suspend,
  on_complete, await_resume,
}

-- `W` is the program with the scope of the coroutine; `others` is what runs between `await_ready` and
-- `guard_.arm`.
pub record Turns (W : Type 0) : Type 0 where
  pub is_off : W → Bool
  pub others : W → W

module _ {W : Type 0} (turns : Turns W) where
  abbrev pub arm_of : W → ArmResult
  arm_of w = if turns.is_off w then ArmResult.already_cancelled else ArmResult.armed

  -- `init` is what asio does from the start of the operation to its completion.
  unfoldable pub co_await : {A : Type 0} → Awaitable A → (W → W × Completion A) → W → W × Outcome A
  co_await a init w =
      let (a₁, ready) = await_ready a (turns.is_off w) in
      if ready
      then (w, await_resume a₁)
      else (let v = turns.others w in
          let (a₂, left) = await_suspend a₁ (arm_of v) in
          elim left [
            | Suspended.resumed_at_once ↦ (v, await_resume a₂)
            | Suspended.started ↦ (let (u, c) = init v in (u, await_resume (on_complete c a₂)))
          ])

  -- A scope that is live at both tests.
  abbrev pub Live : W → Type 0
  Live w = (turns.is_off w ≡ false) × (turns.is_off (turns.others w) ≡ false)

  pub co_await-Live :
      {A : Type 0} (a : Awaitable A) (init : W → W × Completion A) (w : W)
      → Live w
      → co_await a init w
        ≡ ((init (turns.others w)).0, await_resume (on_complete (init (turns.others w)).1 a))
  unfolding co_await await_ready await_suspend
  co_await-Live a init w (off, late) = ground (arith, off, late)

  pub co_await-off :
      {A : Type 0} (a : Awaitable A) (init : W → W × Completion A) (w : W)
      → turns.is_off w ≡ true
      → co_await a init w ≡ (w, failed (coasio_error cancelled))
  unfolding co_await await_ready await_resume
  co_await-off a init w off = ground (arith, off)

  pub co_await-late :
      {A : Type 0} (a : Awaitable A) (init : W → W × Completion A) (w : W)
      → turns.is_off w ≡ false
      → turns.is_off (turns.others w) ≡ true
      → co_await a init w ≡ (turns.others w, failed (coasio_error cancelled))
  unfolding co_await await_ready await_suspend await_resume
  co_await-late a init w off late = ground (arith, off, late)
