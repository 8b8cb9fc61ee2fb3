-- ===== src/Task/Examples.antt =====
-- Examples: a root of type `task<void>`, and two tasks that are moved.
use coasio.Common.{ℕ, ◌≤◌, ◌≡◌, refl, true, false, none, some, arith}
use coasio.Oneshot.{fresh_state}
use coasio.Task.{Frame, final_suspend}
use coasio.Task.Void.{forget_frame, forget_sender, void_final_suspend, final_suspend-forget}
use coasio.Task.Ownership.{
  Handles, no_handles, make_task, assign_task, move_task, release, destroy_frame, Reach, here, next,
  make, assign, destroyed_once,
}

abbrev root : Frame (Unit {0})
root = record {
  promise = record {
    scope_raw = some 100;
    owned = true;
    result = some tt;
    exception = none;
    owning_scope = some 100;
    result_sender = some 200;
    continuation = none;
    detached = true;
  };
  done = false;
  destroyed = false;
}

final_suspend-forget_example :
    void_final_suspend (forget_frame root) (forget_sender (some fresh_state)) ≡ (
      let (g, s, woken, gone, more) = final_suspend root (some fresh_state) in
      (forget_frame g, forget_sender s, woken, gone, more))
final_suspend-forget_example = final_suspend-forget root (some fresh_state)

-- The tasks 1 and 2 hold the frames 10 and 20; the first is assigned to the second.
abbrev two_tasks : Handles
two_tasks = make_task 2 20 (make_task 1 10 no_handles)

abbrev assigned : Handles
assigned = assign_task 2 1 two_tasks

assigned_lem : Reach assigned
unfolding make_task
assigned_lem =
    next
      (next (next here (make 1 10 refl (λ u. refl) refl)) (make 2 20 refl (λ u. ground arith) refl))
      (assign 2 1)

holds_ten : assigned.holds 2 ≡ 10
unfolding assign_task make_task move_task release destroy_frame
holds_ten = refl

destroyed_once_example :
    (assigned.destroyed 20 ≤ 1) × (assigned.destroyed (assigned.holds 2) ≡ 0) × (◌≡◌ {A = ℕ} 2 2)
destroyed_once_example =
    destroyed_once assigned 20 2 2 assigned_lem (ground (arith, holds_ten)) refl
