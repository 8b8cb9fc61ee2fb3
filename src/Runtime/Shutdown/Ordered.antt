-- ===== src/Runtime/Shutdown/Ordered.antt =====
-- The order of the sections of `~runtime()` against the roots that are left and the pool.
use coasio.Common.{
  ◌≡◌, refl, ◌∙◌, true, false, not, ◌&&◌, ◌||◌, [], ◌∷◌, arith, if◌then◌else◌, is_empty,
  has-is_empty, subst, is_some,
}
use coasio.Links.{Ptr}
use coasio.Runtime.{Runtime, spawn, unregister_root, is_drained, request_stop}
use coasio.Runtime.Roots.{Rep, unregister_root-Rep, is_drained-is_empty}
use coasio.Runtime.Spawn.{spawn-Rep}
use coasio.Runtime.OnDemand.{blocking_pool, reset_pool}
use coasio.Runtime.Shutdown.{
  Phase, running, swept, drained, pool_gone, stopped, is_past_wait, is_running, is_pool_gone,
  is_stopped, World, begin_world, is_late, Step, spawns, asks_pool, ends, sweeps, waited,
  lets_pool_go, stops, Reach, here, next,
}

past-running : (p : Phase) → is_running p ≡ true → is_past_wait p ≡ false
past-running running e = refl
past-running swept e = cc
past-running drained e = cc
past-running pool_gone e = cc
past-running stopped e = cc

gone-past : (p : Phase) → is_past_wait p ≡ false → is_pool_gone p ≡ false
gone-past running e = refl
gone-past swept e = refl
gone-past drained e = cc
gone-past pool_gone e = cc
gone-past stopped e = cc

module _ {ℓ} {A : Type ℓ} where
  pub record Inv (v : World A) : Type ℓ where
    pub rep : Rep v.rt v.roots
    pub over : v.deserted ≡ false → (is_past_wait v.phase && not (is_empty v.roots)) ≡ false
    pub made :
        v.deserted ≡ false → is_some v.pool.pool ≡ (v.pool.once && not (is_pool_gone v.phase))
    pub flag : v.rt.stop_requested ≡ is_stopped v.phase

  unregister_root-stop_requested :
      (r : Runtime A) (h : Ptr) → (unregister_root r h).0.stop_requested ≡ r.stop_requested
  unfolding unregister_root
  unregister_root-stop_requested r h = refl

  -- A use that is not late comes before the end of the wait.
  early_use :
      (v : World A)
      → Inv v
      → (v.deserted || is_late v) ≡ false
      → (v.deserted ≡ false) × (is_past_wait v.phase ≡ false)
  early_use v i fair =
      let live : v.deserted ≡ false = ground (arith, fair) in
      (live, ground (arith, fair, i.over live, past-running v.phase))

  Step-Inv : {v v' : World A} → Step v v' → Inv v → Inv v'
  unfolding request_stop blocking_pool reset_pool
  Step-Inv {v} (spawns h scope channel valid out room) i =
      let (rep, _, _, _, _, stop) = spawn-Rep v.rt v.roots h scope channel i.rep out room in
      record {
        rep =
            subst (λ b. Rep (spawn v.rt h scope channel).0 (if b then h ∷ v.roots else v.roots))
              valid rep;
        over = λ fair. rw (early_use v i fair).1 refl;
        made = λ fair. i.made (early_use v i fair).0;
        flag = stop ∙ i.flag;
      }
  Step-Inv {v} asks_pool i = record {
    rep = i.rep;
    over = λ fair. i.over (early_use v i fair).0;
    made = λ fair.
        let (live, before) = early_use v i fair in
        ground (arith, i.made live, gone-past v.phase before);
    flag = i.flag;
  }
  Step-Inv {v} (ends h m) i = record {
    rep = (unregister_root-Rep v.rt v.roots i.rep h m).0;
    over = λ fair. ground (arith, i.over fair, has-is_empty h v.roots m);
    made = i.made;
    flag = unregister_root-stop_requested v.rt h ∙ i.flag;
  }
  Step-Inv {v} (sweeps p) i = record {
    rep = i.rep;
    over = λ fair. refl;
    made = λ fair. ground (arith, i.made fair, p);
    flag = ground (arith, i.flag, p);
  }
  Step-Inv {v} (waited p d) i = record {
    rep = i.rep;
    over = λ fair. ground (arith, d, is_drained-is_empty v.rt v.roots i.rep);
    made = λ fair. ground (arith, i.made fair, p);
    flag = ground (arith, i.flag, p);
  }
  Step-Inv {v} (lets_pool_go p) i = record {
    rep = i.rep;
    over = λ fair. ground (arith, i.over fair, p);
    made = λ fair. ground arith;
    flag = ground (arith, i.flag, p);
  }
  Step-Inv {v} (stops p) i = record {
    rep = record { chain = i.rep.chain; counted = i.rep.counted; bounded = i.rep.bounded };
    over = λ fair. ground (arith, i.over fair, p);
    made = λ fair. ground (arith, i.made fair, p);
    flag = refl;
  }

  pub Reach-Inv : {w : World A} (v : World A) → Reach w v → Inv w → Inv v
  Reach-Inv v here i = i
  Reach-Inv v (next {w = u} r st) i = Step-Inv st (Reach-Inv u r i)

  -- A runtime that was just made.
  pub begin-Inv : (r : Runtime A) → Rep r [] → r.stop_requested ≡ false → Inv (begin_world r)
  begin-Inv r rep live = record { rep = rep; over = λ fair. refl; made = λ fair. refl; flag = live }

  -- From a runtime that was just made, in every interleaving of roots that are spawned, roots
  -- that end, uses of its pool, and the sections of its destructor, in which nobody spawns or
  -- asks for the pool once the destructor has begun and no root is left: the destructor is past
  -- its wait, lets the pool go and requests the stop only when no root is left; the pool is there
  -- from its first use on until it is let go, so that it is there as long as a root is left that
  -- may use it; the stop is requested exactly at the end; and what the destructor waits for holds
  -- exactly when the list of roots is empty.
  pub shutdown_in_order :
      (r : Runtime A) (v : World A)
      → Rep r []
      → r.stop_requested ≡ false
      → Reach (begin_world r) v
      → v.deserted ≡ false
      → ((is_past_wait v.phase && not (is_empty v.roots)) ≡ false)
        × (is_some v.pool.pool ≡ (v.pool.once && not (is_pool_gone v.phase)))
        × (is_empty v.roots ≡ false → is_some v.pool.pool ≡ v.pool.once)
        × (v.rt.stop_requested ≡ is_stopped v.phase)
        × (is_drained v.rt ≡ is_empty v.roots)
  shutdown_in_order r v rep live reach fair =
      let i = Reach-Inv v reach (begin-Inv r rep live) in
      (
        i.over fair,
        i.made fair,
        λ left_over.
            let before : is_past_wait v.phase ≡ false = ground (arith, i.over fair, left_over) in
            ground (arith, i.made fair, gone-past v.phase before),
        i.flag,
        is_drained-is_empty v.rt v.roots i.rep,
      )
