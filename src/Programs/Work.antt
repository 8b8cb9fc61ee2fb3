-- ===== src/Programs/Work.antt =====
-- examples/cancel_that.cpp from end to end: a root that sleeps, is aborted or not, and is joined.
use coasio.Common.{
  ℕ, ◌≡◌, refl, ap, sym, ◌∙◌, Bool, true, false, List, Option, none, some, inl, arith, has,
}
use coasio.Links.{Ptr}
use coasio.Error.{ok}
use coasio.Oneshot
use coasio.Blocking.{returned}
use coasio.Task.{Frame, complete, is_valid}
use coasio.Async.{Code, Outcome, ℤ, pos, negsuc, sleep}
use coasio.Async.Leaf.{sleep_leaf}
use coasio.Async.Leaf.Race.{World, begin_world, Reach}
use coasio.Async.Leaf.Race.Safety.{resumed_with, decided, scheduled_once}
use coasio.Runtime.{Runtime, rooted, spawn, finish, join, abort}
use coasio.Runtime.Roots.{Rep}
use coasio.Runtime.Spawn.{finish-join}
use coasio.Programs.{long_running_work}

-- `main` of cancel_that.cpp: the root `h` is spawned and its handle aborted; the results of the two
-- sleeps in between are not looked at. The runtime, the scope that is cancelled, and the exit code.
pub cancel_that : Runtime ℤ → Ptr → ℕ → ℕ → Runtime ℤ × Option ℕ × ℤ
cancel_that r h scope channel =
    let (r', handle) = spawn r h scope channel in (r', abort handle, pos 0)

-- What the work returns: 42 if its timer went off, and else -1.
abbrev pub verdict : Option (Option Code) → ℤ
verdict (some none) = pos 42
verdict (some (some e)) = negsuc 0
verdict none = negsuc 0

-- What the scope of the work is: the one that `main` cancels.
pub cancel_that-scope :
    (r : Runtime ℤ) (h : Ptr) (scope channel : ℕ)
    → is_valid h (r.frames h) ≡ true
    → (cancel_that r h scope channel).1 ≡ some scope
unfolding cancel_that spawn abort
cancel_that-scope r h scope channel valid = rw valid refl

decided-verdict :
    (w : World sleep_leaf) (o : Outcome (Unit {0}))
    → decided sleep_leaf (sleep (pos 5000)) w ≡ some o
    → long_running_work o ≡ verdict w.completion
unfolding long_running_work
decided-verdict w o d = ground (arith, d)

-- The work of cancel_that.cpp from end to end: when it was resumed from its sleep of five seconds
-- in any interleaving of its `await_suspend`, the timer, and a thread that cancels its scope, and
-- has ended as a registered root whose channel can still be sent to, then who joins it without
-- being cancelled gets 42 if the timer completed without an error, and -1 if it completed with one
-- or the guard was refused.
pub joined_work :
    (r : Runtime ℤ) (xs : List Ptr) (h : Ptr) (scope channel : ℕ) (f : Frame ℤ) (off : Bool)
    (w : World sleep_leaf) (o : Outcome (Unit {0}))
    → Rep r xs
    → has h xs ≡ true
    → Reach sleep_leaf (begin_world sleep_leaf (sleep (pos 5000)) off) w
    → resumed_with sleep_leaf w ≡ some o
    → r.frames h ≡ complete (inl (long_running_work o)) (rooted f scope channel)
    → f.promise.exception ≡ none
    → (r.channels channel).ready ≡ false
    → (r.channels channel).receiver_dropped ≡ false
    → (r.channels channel).was_cancelled ≡ false
    → join (Oneshot.await_resume ((finish r h).0.channels channel) false)
      ≡ returned (ok (verdict w.completion))
joined_work r xs h scope channel f off w o rep m reach told here clean unsent kept live =
    let (_, _, means) = scheduled_once sleep_leaf (sleep (pos 5000)) off w reach in
    (finish-join r xs h scope channel f (inl (long_running_work o)) rep m here clean unsent kept
      live).2
    ∙ ap (λ v. returned (ok v)) (decided-verdict w o (sym means ∙ told))
