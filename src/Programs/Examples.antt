-- ===== src/Programs/Examples.antt =====
-- Examples: the work of cancel_that.cpp, whose sleep is cancelled while asio has it.
use coasio.Common.{◌≡◌, refl, true, false, [], ◌∷◌, none, some, inl, arith, if◌then◌else◌, ◌==◌}
use coasio.Links.{null}
use coasio.Error.{ok}
use coasio.Oneshot
use coasio.Oneshot.{fresh_state}
use coasio.Blocking.{returned}
use coasio.Task
use coasio.Task.{Frame, fresh_promise, complete}
use coasio.CancelScope.{ArmResult}
use coasio.Async.{
  operation_aborted, failed, ℤ, pos, negsuc, sleep, sleep_await_resume, sleep_on_complete,
  sleep_await_suspend,
}
use coasio.Async.Leaf.{sleep_leaf}
use coasio.Async.Leaf.Race.Safety.{resumed_with}
use coasio.Async.Leaf.Race.{
  waiting, World, begin_world, Reach, here, next, arm, initiate, complete as completes, scope_off,
  callback,
}
use coasio.Runtime.{Runtime, rooted, finish, join}
use coasio.Runtime.Roots.{Rep}
use coasio.Programs.{long_running_work}
use coasio.Programs.Work.{joined_work}

abbrev frame : Frame ℤ
frame = record { promise = fresh_promise; done = false; destroyed = false }

frame-exception : frame.promise.exception ≡ none
unfolding fresh_promise
frame-exception = refl

-- The root 1 has ended, with what the work returns.
abbrev ended : Runtime ℤ
ended = record {
  global_tasks = [];
  stop_requested = false;
  links = record { next = λ a. null; prev = λ a. null };
  roots_head = 1;
  live_roots = 1;
  frames = λ a.
      if a == 1
      then complete (inl (long_running_work (failed operation_aborted))) (rooted frame 100 200)
      else frame;
  channels = λ a. fresh_state;
}

ended-Rep : Rep ended (1 ∷ [])
ended-Rep = record {
  chain = (refl, ground arith, refl, refl, refl);
  counted = refl;
  bounded = ground arith;
}

-- The sleep was cancelled while asio had it, and asio completed it with its error.
abbrev cancelled_sleep : World sleep_leaf
cancelled_sleep = record {
  pc = waiting;
  off = true;
  firing = false;
  signalled = true;
  completion = some (some operation_aborted);
  scheduled = 1;
  awaiter =
      sleep_leaf.complete (some operation_aborted)
        (sleep_leaf.suspend (sleep (pos 5000)) ArmResult.armed).0;
}

cancelled_sleep-Reach :
    Reach sleep_leaf (begin_world sleep_leaf (sleep (pos 5000)) false) cancelled_sleep
cancelled_sleep-Reach =
    next
      (next (next (next (next here (arm refl refl)) (initiate refl)) (scope_off refl))
        (callback refl))
      (completes (some operation_aborted) refl refl refl)

cancelled_sleep-resumed : resumed_with sleep_leaf cancelled_sleep ≡ some (failed operation_aborted)
unfolding sleep_await_resume sleep_on_complete sleep_await_suspend
cancelled_sleep-resumed = refl

channel_open : (fresh_state {A = Task.RootOutcome ℤ}).ready ≡ false
unfolding fresh_state
channel_open = refl

channel_kept : (fresh_state {A = Task.RootOutcome ℤ}).receiver_dropped ≡ false
unfolding fresh_state
channel_kept = refl

channel_live : (fresh_state {A = Task.RootOutcome ℤ}).was_cancelled ≡ false
unfolding fresh_state
channel_live = refl

joined_work_example :
    join (Oneshot.await_resume ((finish ended 1).0.channels 200) false) ≡ returned (ok (negsuc 0))
joined_work_example =
    joined_work ended (1 ∷ []) 1 100 200 frame false cancelled_sleep (failed operation_aborted)
      ended-Rep refl cancelled_sleep-Reach cancelled_sleep-resumed refl frame-exception channel_open
      channel_kept channel_live
