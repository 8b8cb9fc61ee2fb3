-- ===== src/Runtime/Examples.antt =====
-- Examples: a runtime with one root.
use coasio.Common.{ℕ, ◌≡◌, refl, true, false, [], ◌∷◌, none, some, inl, arith, if◌then◌else◌, ◌==◌}
use coasio.Links.{null, Links, put}
use coasio.Error.{ok}
use coasio.Oneshot.{fresh_state, schedule_if, await_resume}
use coasio.Blocking.{returned, blocking_awaiter, set_cancel_scope}
use coasio.Runtime.Scopes.{descend, scope_inherited}
use coasio.Task
use coasio.Task.{Frame, fresh_promise, complete, awaited_child, transform_leaf}
use coasio.Runtime.{
  Runtime, next_task, get_next_task_from_queue, unregister_root, rooted, spawn, finish,
  cancel_roots, join,
}
use coasio.Runtime.BlockOn.{block_on, block_on_lem}
use coasio.Runtime.Roots.{Rep, unregister_root-Rep, scopes_of, cancel_roots_all}
use coasio.Runtime.Queue.{schedule_all, rounds, tasks_of, scheduled_in_order, stop_leaves_tasks}
use coasio.Runtime.Spawn.{root_frame, spawn-Rep, finish-join}

abbrev fresh_frame : Frame ℕ
fresh_frame = record { promise = fresh_promise; done = false; destroyed = false }

fresh_frame-exception : fresh_frame.promise.exception ≡ none
unfolding fresh_promise
fresh_frame-exception = refl

abbrev bare : Links
bare = record { next = λ a. null; prev = λ a. null }

-- The root 1, whose body has ended with 7, and the ready coroutine 1.
abbrev one_root : Runtime ℕ
one_root = record {
  global_tasks = 1 ∷ [];
  stop_requested = false;
  links = bare;
  roots_head = 1;
  live_roots = 1;
  frames = λ a. if a == 1 then complete (inl 7) (rooted fresh_frame 100 200) else fresh_frame;
  channels = λ a. fresh_state;
}

one_root-Rep : Rep one_root (1 ∷ [])
one_root-Rep = record {
  chain = (refl, ground arith, refl, refl, refl);
  counted = refl;
  bounded = ground arith;
}

channel_open : (fresh_state {A = Task.RootOutcome ℕ}).ready ≡ false
unfolding fresh_state
channel_open = refl

channel_kept : (fresh_state {A = Task.RootOutcome ℕ}).receiver_dropped ≡ false
unfolding fresh_state
channel_kept = refl

channel_live : (fresh_state {A = Task.RootOutcome ℕ}).was_cancelled ≡ false
unfolding fresh_state
channel_live = refl

finish-join_example :
    Rep (finish one_root 1).0 []
    × ((finish one_root 1).1
        ≡ schedule_if (one_root.channels 200).rt (one_root.channels 200).waiter)
    × (join (await_resume ((finish one_root 1).0.channels 200) false) ≡ returned (ok 7))
finish-join_example =
    finish-join one_root (1 ∷ []) 1 100 200 fresh_frame (inl 7) one_root-Rep refl refl
      fresh_frame-exception channel_open channel_kept channel_live

spawn-Rep_example :
    let valid = Task.is_valid 2 fresh_frame in
    let (r', handle) = spawn one_root 2 101 201 in
    Rep r' (if valid then 2 ∷ 1 ∷ [] else 1 ∷ [])
    × (r'.global_tasks ≡ (if valid then 1 ∷ 2 ∷ [] else 1 ∷ []))
    × (handle ≡ (
        if valid
        then record { scope = some 101; rx = some 201 }
        else record { scope = none; rx = none }))
    × (r'.frames ≡ (
        if valid
        then put one_root.frames 2 (root_frame fresh_frame 101 201)
        else put one_root.frames 2 (record fresh_frame { destroyed = true })))
    × (r'.channels ≡ (if valid then put one_root.channels 201 fresh_state else one_root.channels))
    × (r'.stop_requested ≡ false)
spawn-Rep_example = spawn-Rep one_root (1 ∷ []) 2 101 201 one_root-Rep refl (ground arith)

unregister_root-Rep_run :
    Rep (unregister_root one_root 1).0 [] × ((unregister_root one_root 1).1 ≡ true)
unregister_root-Rep_run = unregister_root-Rep one_root (1 ∷ []) one_root-Rep 1 refl

cancel_roots_all_example : cancel_roots 2 one_root 1 ≡ scopes_of one_root (1 ∷ [])
cancel_roots_all_example = cancel_roots_all one_root 2 (1 ∷ []) one_root-Rep (ground arith)

scheduled_in_order_run :
    rounds 3 (schedule_all one_root (5 ∷ 6 ∷ []))
    ≡ (tasks_of (1 ∷ 5 ∷ 6 ∷ []), record one_root { global_tasks = [] })
scheduled_in_order_run =
    scheduled_in_order one_root (5 ∷ 6 ∷ []) refl (ground arith, (ground arith, tt))

abbrev stopped : Runtime ℕ
stopped = record one_root { stop_requested = true }

stop_leaves_tasks_example :
    ((rounds 4 stopped).1 ≡ stopped) × ((get_next_task_from_queue stopped).0 ≡ next_task 1)
stop_leaves_tasks_example = stop_leaves_tasks stopped 1 [] 4 refl refl

fresh_frame-detached : fresh_frame.promise.detached ≡ false
unfolding fresh_promise
fresh_frame-detached = refl

awaited_child_run :
    ((Task.final_suspend (complete (inl 7) (Task.await_suspend fresh_frame 4)) none).4 ≡ some 4)
    × (Task.await_resume
          (Task.final_suspend (complete (inl 7) (Task.await_suspend fresh_frame 4)) none).0
        ≡ returned (ok 7))
awaited_child_run = awaited_child (inl 7) fresh_frame 4 fresh_frame-detached fresh_frame-exception

root_valid : Task.is_valid 2 fresh_frame ≡ true
unfolding Task.is_valid
root_valid = refl

task_valid : Task.is_valid 4 fresh_frame ≡ true
unfolding Task.is_valid
task_valid = refl

-- `block_on` of the task 4, from a thread with the runtime 8, with the root 2.
block_on_lem_example :
    let b = block_on (some 8) 3 one_root 2 101 201 4 fresh_frame (inl 7) in
    (b.result ≡ some (returned (ok 7)))
    × Rep b.rt (2 ∷ 1 ∷ [])
    × (b.rt.global_tasks ≡ 1 ∷ 2 ∷ [])
    × (b.task_scope ≡ some 101)
    × (b.current ≡ some 8)
block_on_lem_example =
    block_on_lem (some 8) 3 one_root (1 ∷ []) 2 101 201 4 fresh_frame (inl 7) one_root-Rep refl
      (ground arith) root_valid task_valid fresh_frame-detached fresh_frame-exception

-- A blocking function, called by a child of a child of a root with the scope 100.
scope_inherited_run :
    transform_leaf set_cancel_scope
      (descend (rooted fresh_frame 100 200).promise (fresh_promise ∷ fresh_promise ∷ []))
      (blocking_awaiter {A = ℕ})
    ≡ set_cancel_scope (some 100) blocking_awaiter
scope_inherited_run =
    scope_inherited set_cancel_scope fresh_frame 100 200 (fresh_promise ∷ fresh_promise ∷ [])
      blocking_awaiter
