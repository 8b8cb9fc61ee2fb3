-- ===== src/CancelScope.antt =====
-- include/coasio/cancel_scope.hpp: a scope, the guards that are armed on it, and cancellation. The
-- members of a guard are split as those of a waiter are: `prev_` and `next_` live in `links`, the
-- others in `guards`. All guards of the model are guards of the one scope or of none. A callback is
-- a number; running it is part of an operation's result.
pub mod Rep
pub mod Moves
pub mod Firing
pub mod History
mod Examples
use coasio.Common.{
  ℕ, zero, suc, Bool, true, false, not, List, [], ◌∷◌, Option, none, some, ◌==◌, if◌then◌else◌,
}
use coasio.Links.{Ptr, null, Links, put, splice, clear, link_front}

pub data GuardState : Type 0 where
  idle armed fired disarmed : GuardState

pub data ArmResult : Type 0 where
  armed already_cancelled : ArmResult

-- `bound` says that `scope_` points to the scope; otherwise it is null.
pub record Guard : Type 0 where
  pub bound : Bool
  pub state : GuardState
  pub cb : Option ℕ

pub record Scope : Type 0 where
  pub cancelled : Bool
  pub head : Ptr
  pub links : Links
  pub guards : Ptr → Guard

abbrev pub is_armed : GuardState → Bool
is_armed GuardState.armed = true
is_armed _ = false

abbrev pub is_fired : GuardState → Bool
is_fired GuardState.fired = true
is_fired _ = false

pub fresh_scope : Links → (Ptr → Guard) → Scope
fresh_scope l gs = record { cancelled = false; head = null; links = l; guards = gs }

abbrev pub set_guard : Scope → Ptr → Guard → Scope
set_guard s g v = record s { guards = put s.guards g v }

pub link_locked : Scope → Ptr → Scope
link_locked s g = record s { links = link_front s.links s.head g; head = g }

pub unlink_locked : Scope → Ptr → Scope
unlink_locked s g = record s {
  links = clear (splice s.links g) g;
  head = if s.links.prev g == null then s.links.next g else s.head;
}

-- `bind(s)`, with a scope or with a null pointer.
pub bind : Scope → Ptr → Bool → Scope
bind s g b = set_guard s g (record (s.guards g) { bound = b })

-- The part of `arm` behind its tests.
pub enlist : Scope → Ptr → ℕ → Scope
enlist s g f =
    let s' = link_locked (set_guard s g (record (s.guards g) { cb = some f })) g in
    set_guard s' g (record (s'.guards g) { state = GuardState.armed })

-- The code asserts that the guard is idle.
pub arm : Scope → Ptr → ℕ → Scope × ArmResult
arm s g f =
    let v = s.guards g in
    if not v.bound
    then (set_guard s g (record v { state = GuardState.armed }), ArmResult.armed)
    else if s.cancelled
    then (s, ArmResult.already_cancelled)
    else (enlist s g f, ArmResult.armed)

pub disarm : Scope → Ptr → Scope × Bool
disarm s g =
    let v = s.guards g in
    if not v.bound
    then (set_guard s g (record v { state = disarmed }), is_armed v.state)
    else if not (is_armed v.state)
    then (s, false)
    else let s' = unlink_locked s g in
      (set_guard s' g (record v { cb = none; state = disarmed }), true)

-- `~cancel_guard()`
pub destroy_guard : Scope → Ptr → Scope
destroy_guard s g = (disarm s g).0

-- The move constructor `g(std::move(o))`; the callback and the links are not moved.
pub move_guard : Scope → Ptr → Ptr → Scope
move_guard s g o =
    let v = s.guards o in
    let s' = set_guard s g (record { bound = v.bound; state = v.state; cb = none }) in
    set_guard s' o (record v { bound = false })

-- `g = std::move(o)`; the code asserts that `o` is not armed.
pub assign_guard : Scope → Ptr → Ptr → Scope
assign_guard s g o =
    let d = (disarm s g).0 in
    let v = d.guards o in
    let took = set_guard d g (record (d.guards g) { bound = v.bound; state = v.state }) in
    if g == o then s else set_guard took o (record v { bound = false })

pub fired_now : Scope → Ptr → Bool
fired_now s g = is_fired (s.guards g).state

-- One round of the loop in `cancel`: the scope after it, and the callback that it runs.
pub fire : Scope → Ptr → Scope
fire s g =
    let s' = unlink_locked s g in
    set_guard s' g (record (s.guards g) { state = GuardState.fired; cb = none })

pub fire_loop : ℕ → Scope → Scope × List (Option ℕ)
fire_loop zero s = (s, [])
fire_loop (suc fuel) s = elim (s.head == null) [
  | true ↦ (s, [])
  | false ↦ let (s', cbs) = fire_loop fuel (fire s s.head) in (s', (s.guards s.head).cb ∷ cbs)
]

pub cancel : ℕ → Scope → Scope × List (Option ℕ)
cancel fuel s = if s.cancelled then (s, []) else fire_loop fuel (record s { cancelled = true })

-- `detail::already_cancelled`, of a `shared_ptr` that may be null.
abbrev pub is_already_cancelled : Option Scope → Bool
is_already_cancelled none = false
is_already_cancelled (some s) = s.cancelled
