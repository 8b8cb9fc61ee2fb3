-- ===== src/Async/Examples.antt =====
-- Runs of Async.Leaf.Race: a read that completes, and a sleep whose scope is cancelled.
use coasio.Common.{ℕ, ◌+◌, ◌≤◌, ◌≡◌, refl, true, false, none, some}
use coasio.CancelScope.{ArmResult}
use coasio.Async.{Outcome, value, Completion, Awaitable, async_op, pos, sleep}
use coasio.Async.Leaf.{Leaf, op_leaf, sleep_leaf}
use coasio.Async.Leaf.Race.{
  waiting, armed, World, begin_world, Reach, here, next, arm, initiate, complete, scope_off,
  callback,
}
use coasio.Async.Leaf.Race.Progress.{always_resumable}
use coasio.Async.Leaf.Race.Safety.{
  bit, resumed_with, scheduled_once, cancellation_delivered, unheard, cancellation_lost,
}

abbrev read_leaf : Leaf (Awaitable ℕ) (Completion ℕ) (Outcome ℕ)
read_leaf = op_leaf

-- A read of five bytes.
abbrev five_bytes : Completion ℕ
five_bytes = record { ec = none; result = some 5 }

abbrev read_world : World read_leaf
read_world = begin_world read_leaf (async_op 0) false

abbrev armed_read : World read_leaf
armed_read = record read_world {
  pc = armed;
  awaiter = (read_leaf.suspend (async_op 0) ArmResult.armed).0;
}

abbrev waiting_read : World read_leaf
waiting_read = record armed_read { pc = waiting }

abbrev read_done : World read_leaf
read_done = record waiting_read {
  completion = some five_bytes;
  scheduled = 1;
  awaiter = read_leaf.complete five_bytes waiting_read.awaiter;
}

armed_read_lem : Reach read_leaf read_world armed_read
armed_read_lem = next here (arm refl refl)

read_done_lem : Reach read_leaf read_world read_done
read_done_lem = next (next armed_read_lem (initiate refl)) (complete five_bytes refl refl refl)

scheduled_once_example :
    (1 ≡ bit false + bit true) × (1 ≤ 1) × (resumed_with read_leaf read_done ≡ some (value 5))
scheduled_once_example = scheduled_once read_leaf (async_op 0) false read_done read_done_lem

abbrev cancelled_read : World read_leaf
cancelled_read = record waiting_read { off = true; signalled = true }

cancelled_read_lem : Reach read_leaf waiting_read cancelled_read
cancelled_read_lem = next (next here (scope_off refl)) (callback refl)

cancellation_delivered_example : cancelled_read.signalled ≡ true
cancellation_delivered_example =
    cancellation_delivered read_leaf waiting_read cancelled_read refl refl cancelled_read_lem refl
      refl refl

-- A sleep of a minute.
abbrev minute : World sleep_leaf
minute = begin_world sleep_leaf (sleep (pos 60000)) false

abbrev armed_sleep : World sleep_leaf
armed_sleep = record minute {
  pc = armed;
  awaiter = (sleep_leaf.suspend (sleep (pos 60000)) ArmResult.armed).0;
}

-- It is cancelled, and sleeps for its minute.
abbrev slept : World sleep_leaf
slept = record (unheard sleep_leaf armed_sleep) {
  completion = some none;
  scheduled = 1;
  awaiter = sleep_leaf.complete none armed_sleep.awaiter;
}

cancellation_lost_example :
    Reach sleep_leaf minute (unheard sleep_leaf armed_sleep)
    × (true ≡ true)
    × (false ≡ false)
    × (slept.signalled ≡ false)
cancellation_lost_example =
    cancellation_lost sleep_leaf (sleep (pos 60000)) false armed_sleep slept
      (next here (arm refl refl)) refl refl refl (next here (complete none refl refl refl))

always_resumable_example : (u : World read_leaf) × Reach read_leaf armed_read u × (u.scheduled ≡ 1)
always_resumable_example =
    always_resumable read_leaf five_bytes (async_op 0) false armed_read armed_read_lem
