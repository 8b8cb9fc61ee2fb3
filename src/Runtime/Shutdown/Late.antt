-- ===== src/Runtime/Shutdown/Late.antt =====
-- Roots that are spawned when `~runtime()` has cancelled the others.
use coasio.Common.{
  ℕ, suc, ◌<◌, ◌^◌, ◌≡◌, refl, ap, ◌∙◌, true, false, List, [], arith, has, is_empty, length,
  has-is_empty,
}
use coasio.Links.{Ptr}
use coasio.Task.{is_valid}
use coasio.Runtime.{Runtime, is_drained}
use coasio.Runtime.Roots.{Rep, is_drained-is_empty}
use coasio.Runtime.Shutdown.{
  Phase, running, swept, drained, pool_gone, stopped, is_past_wait, is_running, World, begin_world,
  spawn_step, Step, spawns, asks_pool, ends, sweeps, waited, lets_pool_go, stops, Reach, here, next,
}
use coasio.Runtime.Shutdown.Ordered.{Reach-Inv, begin-Inv}

waits_still : (p : Phase) → is_running p ≡ false → is_past_wait p ≡ false → p ≡ swept
waits_still running a b = cc
waits_still swept a b = refl
waits_still drained a b = cc
waits_still pool_gone a b = cc
waits_still stopped a b = cc

module _ {ℓ} {A : Type ℓ} where
  -- Behind the sweep nothing more is cancelled.
  record Swept (scopes : List ℕ) (v : World A) : Type 0 where
    pub after : is_running v.phase ≡ false
    pub same : v.cancelled ≡ scopes

  Step-Swept : {scopes : List ℕ} {v v' : World A} → Step v v' → Swept scopes v → Swept scopes v'
  Step-Swept (spawns h scope channel valid out room) s = record { after = s.after; same = s.same }
  Step-Swept asks_pool s = record { after = s.after; same = s.same }
  Step-Swept (ends h m) s = record { after = s.after; same = s.same }
  Step-Swept (sweeps p) s = ground (arith, s.after, p)
  Step-Swept (waited p d) s = record { after = refl; same = s.same }
  Step-Swept (lets_pool_go p) s = record { after = refl; same = s.same }
  Step-Swept (stops p) s = record { after = refl; same = s.same }

  Reach-Swept :
      {scopes : List ℕ} {w : World A} (v : World A) → Reach w v → Swept scopes w → Swept scopes v
  Reach-Swept v here s = s
  Reach-Swept v (next {w = u} r st) s = Step-Swept st (Reach-Swept u r s)

  -- From a runtime that was just made, in every state that is reached in which the destructor has
  -- cancelled the roots and some are left, a valid task that is not a root, with a scope that was
  -- not cancelled and room in the count, can still be spawned; and in every state that is reached
  -- from there while that root lives, and with no use of the runtime in between that came when no
  -- root was left, the destructor is still waiting, and that scope was not cancelled.
  pub late_root :
      (r : Runtime A) (v u : World A) (h : Ptr) (scope channel : ℕ)
      → Rep r []
      → r.stop_requested ≡ false
      → Reach (begin_world r) v
      → v.phase ≡ swept
      → is_empty v.roots ≡ false
      → is_valid h (v.rt.frames h) ≡ true
      → has h v.roots ≡ false
      → suc (length v.roots) < 2 ^ 64
      → has scope v.cancelled ≡ false
      → Reach (spawn_step v h scope channel) u
      → u.deserted ≡ false
      → has h u.roots ≡ true
      → Reach (begin_world r) (spawn_step v h scope channel)
        × (u.phase ≡ swept)
        × (is_drained u.rt ≡ false)
        × (has scope u.cancelled ≡ false)
  late_root r v u h scope channel rep live reach at some valid out room new later fair on =
      let spawned = next reach (spawns h scope channel valid out room) in
      let i = Reach-Inv u later (Reach-Inv _ spawned (begin-Inv r rep live)) in
      let begun : Swept v.cancelled (spawn_step v h scope channel) = record {
        after = ground (arith, at);
        same = refl;
      } in
      let s = Reach-Swept u later begun in
      let busy = has-is_empty h u.roots on in
      (
        spawned,
        waits_still u.phase s.after (ground (arith, i.over fair, busy)),
        is_drained-is_empty u.rt u.roots i.rep ∙ busy,
        ap (has scope) s.same ∙ new,
      )
