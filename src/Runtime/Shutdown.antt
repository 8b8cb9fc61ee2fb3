-- ===== src/Runtime/Shutdown.antt =====
-- `~runtime()` of src/runtime.cpp against the tasks that are still running: its sections in order, roots
-- that are spawned, roots that end, and the pool that is made on demand. `roots` records what the
-- pointers stand for.
pub mod Ordered
pub mod Late
use coasio.Common.{
  ℕ, suc, ◌<◌, ◌^◌, ◌≡◌, Bool, true, false, not, ◌&&◌, ◌||◌, List, [], ◌∷◌, has, erase, is_empty,
  length, none,
}
use coasio.Links.{Ptr}
use coasio.Task.{is_valid}
use coasio.Runtime.{Runtime, spawn, unregister_root, cancel_roots, is_drained, request_stop}
use coasio.Runtime.OnDemand.{OnDemand, blocking_pool, reset_pool}

-- Where the destructor stands: it has not begun, it has cancelled the roots, it has waited for them, it
-- has let the pool go, it has requested the stop.
pub data Phase : Type 0 where
  running swept drained pool_gone stopped : Phase

abbrev pub is_past_wait : Phase → Bool
is_past_wait running = false
is_past_wait swept = false
is_past_wait _ = true

abbrev pub is_running : Phase → Bool
is_running running = true
is_running _ = false

abbrev pub is_pool_gone : Phase → Bool
is_pool_gone pool_gone = true
is_pool_gone stopped = true
is_pool_gone _ = false

abbrev pub is_stopped : Phase → Bool
is_stopped stopped = true
is_stopped _ = false

-- `cancelled` are the scopes that the destructor has cancelled. `deserted` says that the runtime was
-- used when its destructor had begun and no root was left.
pub record World {ℓ} (A : Type ℓ) : Type ℓ where
  pub rt : Runtime A
  pub roots : List Ptr
  pub phase : Phase
  pub cancelled : List ℕ
  pub pool : OnDemand
  pub deserted : Bool

module _ {ℓ} {A : Type ℓ} where
  abbrev pub begin_world : Runtime A → World A
  begin_world r = record {
    rt = r;
    roots = [];
    phase = running;
    cancelled = [];
    pool = record { once = false; pool = none };
    deserted = false;
  }

  -- Who uses the runtime now is none of its roots, and comes when the destructor has begun.
  abbrev pub is_late : World A → Bool
  is_late v = not (is_running v.phase) && is_empty v.roots

  abbrev pub spawn_step : World A → Ptr → ℕ → ℕ → World A
  spawn_step v h scope channel = record v {
    rt = (spawn v.rt h scope channel).0;
    roots = h ∷ v.roots;
    deserted = v.deserted || is_late v;
  }

  abbrev pub pool_step : World A → World A
  pool_step v = record v { pool = (blocking_pool v.pool).0; deserted = v.deserted || is_late v }

  -- The sweep is under the mutex that a root needs to end.
  pub data Step (v : World A) : World A → Type ℓ where
    spawns :
        (h : Ptr) (scope channel : ℕ)
        → is_valid h (v.rt.frames h) ≡ true
        → has h v.roots ≡ false
        → suc (length v.roots) < 2 ^ 64
        → Step v (spawn_step v h scope channel)
    asks_pool : Step v (pool_step v)
    ends :
        (h : Ptr)
        → has h v.roots ≡ true
        → Step v (record v { rt = (unregister_root v.rt h).0; roots = erase h v.roots })
    sweeps :
        v.phase ≡ running
        → Step v (record v {
          phase = swept;
          cancelled = cancel_roots (suc (length v.roots)) v.rt v.rt.roots_head;
        })
    waited : v.phase ≡ swept → is_drained v.rt ≡ true → Step v (record v { phase = drained })
    lets_pool_go :
        v.phase ≡ drained → Step v (record v { phase = pool_gone; pool = reset_pool v.pool })
    stops : v.phase ≡ pool_gone → Step v (record v { phase = stopped; rt = request_stop v.rt })

  pub data Reach (v : World A) : World A → Type ℓ where
    here : Reach v v
    next : {w w' : World A} → Reach v w → Step w w' → Reach v w'
