-- ===== src/Runtime/OnDemand.antt =====
-- include/coasio/runtime.hpp and include/coasio.hpp: the pool that is made on demand, and
-- `spawn_blocking`.
use coasio.Common.{◌≡◌, refl, Bool, true, false, Option, none, some, if◌then◌else◌}
use coasio.Blocking.{BlockingAwaiter, blocking_awaiter}
use coasio.Blocking.Pool.{Pool, fresh_pool}
use coasio.Runtime.BlockOn.{Ran, ran, terminated}

-- `blocking_pool_once_` and `blocking_pool_`.
pub record OnDemand : Type 0 where
  pub once : Bool
  pub pool : Option Pool

abbrev pub fresh_on_demand : OnDemand
fresh_on_demand = record { once = false; pool = none }

-- `blocking_pool()`: the pool that it refers to; `none` is a null pointer that is read.
unfoldable pub blocking_pool : OnDemand → OnDemand × Option Pool
blocking_pool d =
    let made : OnDemand = record { once = true; pool = some fresh_pool } in
    if d.once then (d, d.pool) else (made, made.pool)

-- `blocking_pool_.reset()` in `~runtime()`.
unfoldable pub reset_pool : OnDemand → OnDemand
reset_pool d = record d { pool = none }

-- `runtime::spawn_blocking`: the pool that its awaiter refers to, and the awaiter.
unfoldable pub spawn_blocking {ℓ} :
    {A : Type ℓ} → OnDemand → OnDemand × Option Pool × BlockingAwaiter A
spawn_blocking d = let (d', p) = blocking_pool d in (d', p, blocking_awaiter)

-- `coasio::spawn_blocking`, up to the pool that its awaiter refers to.
unfoldable pub spawn_blocking_current : Option OnDemand → Ran (OnDemand × Option Pool)
spawn_blocking_current none = terminated
spawn_blocking_current (some d) = ran (blocking_pool d)

-- Every call gives the pool that the first one made, until the runtime's destructor takes it away.
pub blocking_pool_once :
    (blocking_pool (blocking_pool fresh_on_demand).0
      ≡ (record { once = true; pool = some fresh_pool }, some fresh_pool))
    × ((blocking_pool (reset_pool (blocking_pool fresh_on_demand).0)).1 ≡ none)
unfolding blocking_pool reset_pool
blocking_pool_once = (refl, refl)
