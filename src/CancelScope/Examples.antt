-- ===== src/CancelScope/Examples.antt =====
-- Examples: a scope with two armed guards.
use coasio.Common.{
  ◌≡◌, refl, true, false, [], ◌∷◌, ◌++◌, map, none, some, arith, if◌then◌else◌, has,
}
use coasio.Links.{Ptr, null, link_front, clear, splice}
use coasio.CancelScope.{
  GuardState, ArmResult, Scope, is_armed, fresh_scope, link_locked, enlist, arm, disarm, cancel,
  unlink_locked, fire_loop, fire,
}
use coasio.CancelScope.Rep.{Inv, arm-Inv, disarm-Inv}
use mathlib.Core.List.{Perm}
use coasio.CancelScope.History.{
  World, after_arm, after_disarm, Reach, here, next, arms, disarms, cancels, begin_world,
}
use coasio.CancelScope.History.Accounting.{callbacks_accounted}
use coasio.CancelScope.Firing.{cbs_of, after_firing, cancel-Fired}

abbrev scope0 : Scope
scope0 =
    fresh_scope (record { next = λ a. null; prev = λ a. null })
      (λ a. record { bound = true; state = GuardState.idle; cb = none })

scope0-Inv : Inv scope0 []
unfolding fresh_scope
scope0-Inv = record { rep = record { chain = refl; listed = λ a. refl }; closed = refl }

abbrev scope1 : Scope
scope1 = (arm scope0 1 100).0

arm-Inv_run :
    Inv scope1 (1 ∷ [])
    × ((arm scope0 1 100).1 ≡ ArmResult.armed)
    × (is_armed (scope1.guards 1).state ≡ true)
unfolding fresh_scope
arm-Inv_run = arm-Inv scope0 [] 1 100 scope0-Inv (ground arith) refl

scope1-Inv : Inv scope1 (1 ∷ [])
unfolding fresh_scope
scope1-Inv = (arm-Inv scope0 [] 1 100 scope0-Inv (ground arith) refl).0

abbrev scope2 : Scope
scope2 = (arm scope1 2 200).0

scope2-Inv : Inv scope2 (2 ∷ 1 ∷ [])
unfolding fresh_scope arm enlist link_locked
scope2-Inv = (arm-Inv scope1 (1 ∷ []) 2 200 scope1-Inv (ground arith) refl).0

disarm-Inv_run :
    Inv (disarm scope2 1).0 (2 ∷ [])
    × ((disarm scope2 1).1 ≡ is_armed (scope2.guards 1).state)
    × (is_armed ((disarm scope2 1).0.guards 1).state ≡ false)
disarm-Inv_run = disarm-Inv scope2 (2 ∷ 1 ∷ []) 1 scope2-Inv

cancel-Fired_example :
    let r = cancel 2 scope2 in
    Inv r.0 []
    × (r.0.cancelled ≡ true)
    × (r.1 ≡ (if scope2.cancelled then [] else cbs_of scope2 (2 ∷ 1 ∷ [])))
    × ((a : Ptr)
        → r.0.guards a
          ≡ (if has a (2 ∷ 1 ∷ []) then after_firing (scope2.guards a) else scope2.guards a))
cancel-Fired_example = cancel-Fired 2 scope2 (2 ∷ 1 ∷ []) scope2-Inv (ground arith)

-- Two guards are armed, one is disarmed, and the scope is cancelled.
abbrev lived : World
lived =
    let w1 = after_arm (begin_world scope0) 1 100 (arm scope0 1 100) in
    let w2 = after_arm w1 2 200 (arm w1.scope 2 200) in
    let w3 = after_disarm w2 1 (disarm w2.scope 1) in
    record w3 { scope = (cancel 2 w3.scope).0; list = []; ran = w3.ran ++ (cancel 2 w3.scope).1 }

lived-Reach : Reach (begin_world scope0) lived
unfolding fresh_scope arm enlist link_locked disarm unlink_locked
lived-Reach =
    next
      (next
        (next (next here (arms 1 100 (ground arith) refl refl))
          (arms 2 200 (ground arith) refl refl))
        (disarms 1 refl))
      (cancels 2 (ground arith))

callbacks_accounted_example :
    Inv lived.scope lived.list
    × Perm (map some lived.armed) (lived.ran ++ (lived.dropped ++ cbs_of lived.scope lived.list))
callbacks_accounted_example = callbacks_accounted scope0 lived scope0-Inv lived-Reach

lived_run : (lived.armed ≡ 200 ∷ 100 ∷ []) × (lived.ran ≡ some 200 ∷ [])
unfolding fresh_scope arm enlist link_locked disarm unlink_locked cancel fire_loop fire link_front
    clear splice
lived_run = (refl, refl)
