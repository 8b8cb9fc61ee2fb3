-- ===== src/Runtime/ShutdownExamples.antt =====
-- Examples: a runtime that is destroyed while its root 1 spawns the root 2.
use coasio.Common.{is_some, ℕ, ◌≡◌, refl, true, false, not, ◌&&◌, [], arith, has, is_empty}
use coasio.Links.{null, Links, link_front}
use coasio.Oneshot.{fresh_state}
use coasio.Task.{Frame, fresh_promise, is_valid, detach}
use coasio.Runtime.{
  Runtime, spawn, register_root, schedule, put_task_in_queue, rooted, cancel_roots, is_drained,
}
use coasio.Runtime.Roots.{Rep}
use coasio.Runtime.Shutdown.{
  swept, is_past_wait, is_pool_gone, is_stopped, World, begin_world, spawn_step, pool_step, Reach,
  here, next, spawns, asks_pool, sweeps,
}
use coasio.Runtime.Shutdown.Ordered.{shutdown_in_order}
use coasio.Runtime.Shutdown.Late.{late_root}

abbrev frame : Frame ℕ
frame = record { promise = fresh_promise; done = false; destroyed = false }

abbrev bare : Links
bare = record { next = λ a. null; prev = λ a. null }

abbrev idle : Runtime ℕ
idle = record {
  global_tasks = [];
  stop_requested = false;
  links = bare;
  roots_head = null;
  live_roots = 0;
  frames = λ a. frame;
  channels = λ a. fresh_state;
}

idle-Rep : Rep idle []
idle-Rep = record { chain = refl; counted = refl; bounded = ground arith }

abbrev busy : World ℕ
busy = spawn_step (begin_world idle) 1 100 200

abbrev cancelling : World ℕ
cancelling = record busy { phase = swept; cancelled = cancel_roots 2 busy.rt busy.rt.roots_head }

frame_valid : is_valid 1 frame ≡ true
unfolding is_valid
frame_valid = refl

cancelling_lem : Reach (begin_world idle) cancelling
cancelling_lem = next (next here (spawns 1 100 200 frame_valid refl (ground arith))) (sweeps refl)

abbrev late : World ℕ
late = spawn_step cancelling 2 101 201

other_valid : is_valid 2 (cancelling.rt.frames 2) ≡ true
unfolding spawn register_root schedule put_task_in_queue is_valid
other_valid = refl

other_live : has 101 cancelling.cancelled ≡ false
unfolding spawn register_root schedule put_task_in_queue is_valid cancel_roots rooted detach
    link_front
other_live = refl

-- The root uses the pool while the destructor waits.
abbrev using : World ℕ
using = pool_step cancelling

shutdown_in_order_example :
    ((is_past_wait using.phase && not (is_empty using.roots)) ≡ false)
    × (is_some using.pool.pool ≡ (using.pool.once && not (is_pool_gone using.phase)))
    × (is_empty using.roots ≡ false → is_some using.pool.pool ≡ using.pool.once)
    × (using.rt.stop_requested ≡ is_stopped using.phase)
    × (is_drained using.rt ≡ is_empty using.roots)
shutdown_in_order_example =
    shutdown_in_order idle using idle-Rep refl (next cancelling_lem asks_pool) refl

late_root_example :
    Reach (begin_world idle) late
    × (late.phase ≡ swept)
    × (is_drained late.rt ≡ false)
    × (has 101 late.cancelled ≡ false)
late_root_example =
    late_root idle cancelling late 2 101 201 idle-Rep refl cancelling_lem refl refl other_valid refl
      (ground arith) other_live here refl refl
