-- ===== src/CancelScope/History.antt =====
-- The life of a scope: any sequence of operations on it and its guards, with the callbacks.
pub mod Accounting
use coasio.Common.{
  ℕ, suc, ◌≤◌, Bool, erase_absent, not-has-erase, ◌≡◌, ◌≢◌, refl, sym, ap, subst, ◌∙◌, true, false,
  not, ◌&&◌, List, [], ◌∷◌, ◌++◌, map, Option, none, some, arith, ◌==◌, if◌then◌else◌, has, erase,
  is_empty, length, inl, inr, Bool-cases, append_assoc, ==→eq,
}
use mathlib.Core.List.{Perm, perm_middle, perm_append_comm, append-nil}
use mathlib.Core.List.Perm
use coasio.Links.{Ptr, null}
use coasio.CancelScope.{
  GuardState, ArmResult, Guard, Scope, is_armed, set_guard, link_locked, unlink_locked, enlist, arm,
  disarm, cancel, move_guard,
}
use coasio.Links.Chain.{not-has-erase_self}
use coasio.CancelScope.Rep.{Rep, Inv, arm-Inv, disarm-Inv, arm_linked, arm_refused, enlist-Inv}
use coasio.CancelScope.Moves.{move_guard-Inv, disarm_other}
use coasio.CancelScope.Firing.{cbs_of, cancel-Fired}

-- `list` is what the scope's pointers stand for. `armed` are the callbacks of the guards that were
-- armed on the scope, `ran` those that `cancel` ran, and `dropped` those of the guards for which
-- `disarm` answered that they were armed.
pub record World : Type 0 where
  pub scope : Scope
  pub list : List Ptr
  pub armed : List ℕ
  pub ran : List (Option ℕ)
  pub dropped : List (Option ℕ)

-- What an operation on the guard `g` leaves behind, by what it answers.
abbrev pub after_arm : World → Ptr → ℕ → Scope × ArmResult → World
after_arm w g f (s, ArmResult.armed) = record w {
  scope = s;
  list = g ∷ w.list;
  armed = f ∷ w.armed;
}
after_arm w g f (s, ArmResult.already_cancelled) = record w { scope = s }

abbrev pub after_disarm : World → Ptr → Scope × Bool → World
after_disarm w g r = record w {
  scope = r.0;
  list = erase g w.list;
  dropped = if r.1 then (w.scope.guards g).cb ∷ w.dropped else w.dropped;
}

-- A guard is armed once it is idle, as the code asserts. `disarms` is also `~cancel_guard()`.
pub data Step (w : World) : World → Type 0 where
  arms :
      (g : Ptr) (f : ℕ)
      → g ≢ null
      → (w.scope.guards g).bound ≡ true
      → (w.scope.guards g).state ≡ GuardState.idle
      → Step w (after_arm w g f (arm w.scope g f))
  disarms :
      (g : Ptr) → (w.scope.guards g).bound ≡ true → Step w (after_disarm w g (disarm w.scope g))
  cancels :
      (fuel : ℕ)
      → length w.list ≤ fuel
      → Step w (record w {
        scope = (cancel fuel w.scope).0;
        list = [];
        ran = w.ran ++ (cancel fuel w.scope).1;
      })
  moves :
      (g o : Ptr)
      → is_armed (w.scope.guards g).state ≡ false
      → is_armed (w.scope.guards o).state ≡ false
      → Step w (record w { scope = move_guard w.scope g o })

pub data Reach (v : World) : World → Type 0 where
  here : Reach v v
  next : {w w' : World} → Reach v w → Step w w' → Reach v w'

abbrev pub begin_world : Scope → World
begin_world s = record { scope = s; list = []; armed = []; ran = []; dropped = [] }
