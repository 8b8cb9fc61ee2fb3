-- ===== src/CancelScope/Moves.antt =====
-- Moving guards: the guard that is moved from is not armed, as the code asserts.
use coasio.Common.{◌≡◌, false, ◌==◌, List, arith, has, erase}
use coasio.Links.{Ptr}
use coasio.CancelScope.{
  Guard, Scope, is_armed, set_guard, disarm, unlink_locked, move_guard, assign_guard,
}
use coasio.CancelScope.Rep.{Inv, set_guard-Rep, disarm-Inv}

-- A guard of `s` that is not armed and becomes another one that is not.
quiet-Inv :
    (s : Scope) (xs : List Ptr) (g : Ptr) (v : Guard)
    → Inv s xs
    → has g xs ≡ false
    → is_armed v.state ≡ false
    → Inv (set_guard s g v) xs
quiet-Inv s xs g v i out off = record {
  rep = set_guard-Rep s xs g v i.rep out (ground (arith, off));
  closed = i.closed;
}

-- A new guard takes over a guard that is not armed, and the list stays as it is.
pub move_guard-Inv :
    (s : Scope) (xs : List Ptr) (g o : Ptr)
    → Inv s xs
    → has g xs ≡ false
    → is_armed (s.guards o).state ≡ false
    → Inv (move_guard s g o) xs
unfolding move_guard
move_guard-Inv s xs g o i out off =
    let took =
      quiet-Inv s xs g (record { bound = (s.guards o).bound; state = (s.guards o).state; cb = _ }) i
        out off in
    quiet-Inv _ xs o _ took (ground (arith, i.rep.listed o, off)) off

pub disarm_other : (s : Scope) (g o : Ptr) → (g == o) ≡ false → (disarm s g).0.guards o ≡ s.guards o
unfolding disarm unlink_locked
disarm_other s g o e = ground (arith, e)

-- Assigning a guard that is not armed to another takes the other off the list, and gives it its state.
pub assign_guard-Inv :
    (s : Scope) (xs : List Ptr) (g o : Ptr)
    → Inv s xs
    → (g == o) ≡ false
    → is_armed (s.guards o).state ≡ false
    → Inv (assign_guard s g o) (erase g xs)
      × ((assign_guard s g o).guards g).state ≡ (s.guards o).state
unfolding assign_guard
assign_guard-Inv s xs g o i e off =
    let (d, _, quiet) = disarm-Inv s xs g i in
    let kept = disarm_other s g o e in
    let still : is_armed ((disarm s g).0.guards o).state ≡ false = ground (arith, kept, off) in
    let v : Guard = record ((disarm s g).0.guards g) {
      bound = ((disarm s g).0.guards o).bound;
      state = ((disarm s g).0.guards o).state;
    } in
    let took =
      quiet-Inv (disarm s g).0 (erase g xs) g v d (ground (arith, d.rep.listed g, quiet)) still in
    let left = quiet-Inv _ (erase g xs) o _ took (ground (arith, d.rep.listed o, still)) still in
    rw e (left, ground (arith, e, kept))
