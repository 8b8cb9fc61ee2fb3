-- ===== src/CancelScope/Firing.antt =====
-- Cancellation: every armed guard fires once, the one armed last first, and none fires later.
use coasio.Common.{
  ℕ, zero, suc, ◌≤◌, ◌≡◌, refl, sym, ap, subst, ◌∙◌, true, false, List, [], ◌∷◌, map, Option, none,
  arith, ◌==◌, if◌then◌else◌, has, erase-head, length, inl, inr, Bool-cases,
}
use coasio.Links.{Ptr, null}
use coasio.CancelScope.{GuardState, Guard, Scope, unlink_locked, fire, fire_loop, cancel}
use coasio.CancelScope.Rep.{Rep, Inv, unlink-Rep}

abbrev pub cbs_of : Scope → List Ptr → List (Option ℕ)
cbs_of s = map λ a. (s.guards a).cb

abbrev pub after_firing : Guard → Guard
after_firing v = record v { state = GuardState.fired; cb = none }

-- What firing the guards `xs` does.
pub record Fired (s : Scope) (xs : List Ptr) (r : Scope × List (Option ℕ)) : Type 0 where
  pub rep : Rep r.0 []
  pub ran : r.1 ≡ cbs_of s xs
  pub guards :
      (a : Ptr) → r.0.guards a ≡ (if has a xs then after_firing (s.guards a) else s.guards a)
  pub cancelled : r.0.cancelled ≡ s.cancelled

fire-Rep : (s : Scope) (x : Ptr) (xs : List Ptr) → Rep s (x ∷ xs) → Rep (fire s x) xs
unfolding fire
fire-Rep s x xs r =
    let taken = unlink-Rep s (x ∷ xs) x (after_firing (s.guards x)) r (ground arith) refl in
    rw (erase-head x xs) at taken

fire-cbs :
    (s : Scope) (x : Ptr) (xs : List Ptr) → has x xs ≡ false → cbs_of (fire s x) xs ≡ cbs_of s xs
unfolding fire unlink_locked
fire-cbs s x [] h = refl
fire-cbs s x (y ∷ xs) h = ground (arith, fire-cbs s x xs)

fire_loop_stop : (fuel : ℕ) (s : Scope) → (s.head == null) ≡ true → fire_loop fuel s ≡ (s, [])
unfolding fire_loop
fire_loop_stop zero s e = refl
fire_loop_stop (suc fuel) s e = rw (e, fire_loop)

fire_loop_turn :
    (fuel : ℕ) (s : Scope)
    → (s.head == null) ≡ false
    → let r = fire_loop fuel (fire s s.head) in
      fire_loop (suc fuel) s ≡ (r.0, (s.guards s.head).cb ∷ r.1)
unfolding fire_loop
fire_loop_turn fuel s e = rw (e, fire_loop)

fire-Fired :
    (s : Scope) (x : Ptr) (xs : List Ptr) (r : Scope × List (Option ℕ))
    → has x xs ≡ false
    → Fired (fire s x) xs r
    → Fired s (x ∷ xs) (r.0, (s.guards x).cb ∷ r.1)
unfolding fire unlink_locked
fire-Fired s x xs r out f = record {
  rep = f.rep;
  ran = ap (λ (cbs : List (Option ℕ)). (s.guards x).cb ∷ cbs) (f.ran ∙ fire-cbs s x xs out);
  guards = λ a. ground (arith, f.guards a, out);
  cancelled = f.cancelled;
}

pub fire_loop-Fired :
    (fuel : ℕ) (s : Scope) (xs : List Ptr)
    → Rep s xs
    → length xs ≤ fuel
    → Fired s xs (fire_loop fuel s)
fire_loop-Fired fuel s [] r en =
    rw (fire_loop_stop fuel s (ground (arith, r.chain)))
      (record { rep = r; ran = refl; guards = λ a. refl; cancelled = refl })
fire_loop-Fired zero s (x ∷ xs) r en = absurd (omega arith)
fire_loop-Fired (suc fuel) s (x ∷ xs) r en =
    let rest = fire_loop-Fired fuel (fire s x) xs (fire-Rep s x xs r) (omega arith) in
    let fired = fire-Fired s x xs _ r.chain.2 rest in
    rw (fire_loop_turn fuel s (ground (arith, r.chain))) (
      subst
        (λ h. let q = fire_loop fuel (fire s h) in Fired s (x ∷ xs) (q.0, (s.guards h).cb ∷ q.1))
        (sym r.chain.0) fired)

cancel_again : (fuel : ℕ) (s : Scope) → s.cancelled ≡ true → cancel fuel s ≡ (s, [])
unfolding cancel
cancel_again fuel s off = rw off

-- On a well-formed scope the first `cancel` fires every armed guard once, the one armed last first,
-- runs their callbacks in that order, and leaves the scope cancelled with no guard armed; guards
-- that were not armed keep their state. A `cancel` of a cancelled scope does nothing. It is enough
-- to allow one round of the loop for each armed guard.
pub cancel-Fired :
    (fuel : ℕ) (s : Scope) (xs : List Ptr)
    → Inv s xs
    → length xs ≤ fuel
    → let r = cancel fuel s in
      Inv r.0 []
      × (r.0.cancelled ≡ true)
      × (r.1 ≡ (if s.cancelled then [] else cbs_of s xs))
      × ((a : Ptr) → r.0.guards a ≡ (if has a xs then after_firing (s.guards a) else s.guards a))
unfolding cancel
cancel-Fired fuel s xs i en = elim (Bool-cases s.cancelled) [
  | inl off ↦
      let none_left : xs ≡ [] = ground (arith, i.closed) in
      rw (cancel_again fuel s off)
        (subst (Inv s) none_left i, off, ground (arith, off), λ a. ground (arith, none_left))
  | inr live ↦
      let start : Rep (record s { cancelled = true }) xs = record {
        chain = i.rep.chain;
        listed = i.rep.listed;
      } in
      let f = fire_loop-Fired fuel _ xs start en in
      simp live (record { rep = f.rep; closed = simp f.cancelled }, f.cancelled, f.ran, f.guards)
]
