-- ===== src/CancelScope/History/Accounting.antt =====
-- Every callback that is armed on a scope is run, dropped, or still to come: once.
use coasio.Common.{
  ℕ, ◌≤◌, erase_absent, ◌≡◌, ◌≢◌, refl, sym, ap, subst, ◌∙◌, true, false, List, [], ◌∷◌, ◌++◌, map,
  some, arith, ◌==◌, if◌then◌else◌, has, erase, length, inl, inr, Bool-cases, append_assoc, ==→eq,
}
use mathlib.Core.List.{Perm, perm_middle, perm_append_comm, append-nil}
use mathlib.Core.List.Perm
use coasio.Links.{Ptr, null}
use coasio.CancelScope.{
  GuardState, Guard, Scope, is_armed, link_locked, enlist, arm, disarm, cancel, move_guard,
}
use coasio.Links.Chain.{not-has-erase_self}
use coasio.CancelScope.Rep.{Inv, disarm-Inv, arm_linked, arm_refused, enlist-Inv}
use coasio.CancelScope.Moves.{move_guard-Inv, disarm_other}
use coasio.CancelScope.Firing.{cbs_of, cancel-Fired}
use coasio.CancelScope.History.{
  World, after_arm, after_disarm, Step, arms, disarms, cancels, moves, Reach, here, next,
  begin_world,
}

cbs_of-agree :
    (s s' : Scope) (xs : List Ptr)
    → ((a : Ptr) → has a xs ≡ true → (s'.guards a).cb ≡ (s.guards a).cb)
    → cbs_of s' xs ≡ cbs_of s xs
cbs_of-agree s s' [] same = refl
cbs_of-agree s s' (x ∷ xs) same =
    let rest = cbs_of-agree s s' xs (λ a m. same a (ground (arith, m))) in
    rw (same x (ground arith), rest) refl

-- Taking one guard off.
cbs_of-erase :
    (s : Scope) (g : Ptr) (xs : List Ptr)
    → has g xs ≡ true
    → Perm (cbs_of s xs) ((s.guards g).cb ∷ cbs_of s (erase g xs))
cbs_of-erase s g [] m = absurd (ground arith)
cbs_of-erase s g (x ∷ xs) m = elim (Bool-cases (g == x)) [
  | inl e ↦ rw (e, ==→eq g x e) (Perm.refl _)
  | inr e ↦ rw e (
      Perm.trans (Perm.cons _ (cbs_of-erase s g xs (ground (arith, m))))
        (Perm.swap (s.guards g).cb (s.guards x).cb _))
]

module _ {ℓ} {A : Type ℓ} where
  perm_arm :
      (c : A) (all ran dropped cbs : List A)
      → Perm all (ran ++ (dropped ++ cbs))
      → Perm (c ∷ all) (ran ++ (dropped ++ (c ∷ cbs)))
  perm_arm c all ran dropped cbs p = Perm.trans (Perm.cons c p) (
      Perm.symm (
        Perm.trans (Perm.append_left ran (perm_middle dropped cbs))
          (perm_middle ran (dropped ++ cbs))))

  perm_drop :
      (c : A) (all ran dropped cbs cbs' : List A)
      → Perm all (ran ++ (dropped ++ cbs))
      → Perm cbs (c ∷ cbs')
      → Perm all (ran ++ (c ∷ (dropped ++ cbs')))
  perm_drop c all ran dropped cbs cbs' p q =
      Perm.trans p
        (Perm.append_left ran (Perm.trans (Perm.append_left dropped q) (perm_middle dropped cbs')))

  perm_run :
      (all ran dropped cbs : List A)
      → Perm all (ran ++ (dropped ++ cbs))
      → Perm all ((ran ++ cbs) ++ (dropped ++ []))
  perm_run all ran dropped cbs p =
      rw (append-nil dropped, append_assoc ran cbs dropped)
        (Perm.trans p (Perm.append_left ran (perm_append_comm dropped cbs)))

pub Accounted : World → Type 0
Accounted w = Perm (map some w.armed) (w.ran ++ (w.dropped ++ cbs_of w.scope w.list))

enlist-cb :
    (s : Scope) (g a : Ptr) (f : ℕ)
    → (g == a) ≡ false
    → ((enlist s g f).guards a).cb ≡ (s.guards a).cb
unfolding enlist link_locked
enlist-cb s g a f e = ground (arith, e)

enlist-cb_self : (s : Scope) (g : Ptr) (f : ℕ) → ((enlist s g f).guards g).cb ≡ some f
unfolding enlist link_locked
enlist-cb_self s g f = ground arith

record Valid (w : World) : Type 0 where
  pub inv : Inv w.scope w.list
  pub accounted : Accounted w

arm-Valid :
    (w : World) (g : Ptr) (f : ℕ)
    → Valid w
    → g ≢ null
    → (w.scope.guards g).bound ≡ true
    → (w.scope.guards g).state ≡ GuardState.idle
    → Valid (after_arm w g f (arm w.scope g f))
unfolding Accounted
arm-Valid w g f v h bound quiet = elim (Bool-cases w.scope.cancelled) [
  | inl off ↦
      rw (arm_refused w.scope g f bound off) (record { inv = v.inv; accounted = v.accounted })
  | inr live ↦
      let out : has g w.list ≡ false = ground (arith, v.inv.rep.listed g, quiet) in
      let same =
        cbs_of-agree w.scope (enlist w.scope g f) w.list
          (λ a m. enlist-cb w.scope g a f (ground (arith, m, out, ==→eq g a))) in
      rw (arm_linked w.scope g f bound live) (record {
        inv = (enlist-Inv w.scope w.list g f v.inv h out bound live).0;
        accounted =
            subst (λ l. Perm (some f ∷ map some w.armed) (w.ran ++ (w.dropped ++ l)))
              (sym (
                ap (λ c. c ∷ cbs_of (enlist w.scope g f) w.list) (enlist-cb_self w.scope g f)
                ∙ ap (λ l. some f ∷ l) same))
              (perm_arm (some f) _ w.ran w.dropped _ v.accounted);
      })
]

-- The guards that stay on the list keep their callbacks.
disarm-cbs :
    (w : World) (g : Ptr)
    → Inv w.scope w.list
    → cbs_of (disarm w.scope g).0 (erase g w.list) ≡ cbs_of w.scope (erase g w.list)
disarm-cbs w g i =
    let gone = not-has-erase_self w.scope.links null w.scope.head w.list i.rep.chain g in
    cbs_of-agree w.scope (disarm w.scope g).0 (erase g w.list) (λ a m.
      ap (λ (v : Guard). v.cb) (disarm_other w.scope g a (ground (arith, m, gone, ==→eq g a))))

disarm-Valid :
    (w : World) (g : Ptr)
    → Valid w
    → (w.scope.guards g).bound ≡ true
    → Valid (after_disarm w g (disarm w.scope g))
unfolding Accounted
disarm-Valid w g v bound =
    let (inv, answer, _) = disarm-Inv w.scope w.list g v.inv in
    let same = disarm-cbs w g v.inv in
    record {
      inv = inv;
      accounted = elim (Bool-cases (has g w.list)) [
        | inl on ↦
            let yes_armed : (disarm w.scope g).1 ≡ true =
              ground (arith, answer, v.inv.rep.listed g, on) in
            rw yes_armed (
              subst
                (λ l. Perm (map some w.armed) (w.ran ++ (((w.scope.guards g).cb ∷ w.dropped) ++ l)))
                (sym same)
                (perm_drop _ _ w.ran w.dropped _ _ v.accounted (cbs_of-erase w.scope g w.list on)))
        | inr off ↦
            let not_armed : (disarm w.scope g).1 ≡ false =
              ground (arith, answer, v.inv.rep.listed g, off, bound) in
            rw not_armed (
              subst (λ l. Perm (map some w.armed) (w.ran ++ (w.dropped ++ l)))
                (sym (same ∙ ap (cbs_of w.scope) (erase_absent g w.list off))) v.accounted)
      ];
    }

cancelled-cbs :
    (s : Scope) (xs : List Ptr) → Inv s xs → (if s.cancelled then [] else cbs_of s xs) ≡ cbs_of s xs
cancelled-cbs s [] i = ground arith
cancelled-cbs s (x ∷ xs) i = ground (arith, i.closed)

cancel-Valid :
    (w : World) (fuel : ℕ)
    → Valid w
    → length w.list ≤ fuel
    → Valid (record w {
      scope = (cancel fuel w.scope).0;
      list = [];
      ran = w.ran ++ (cancel fuel w.scope).1;
    })
unfolding Accounted
cancel-Valid w fuel v enough =
    let (inv, _, ran, _) = cancel-Fired fuel w.scope w.list v.inv enough in
    record {
      inv = inv;
      accounted =
          rw (ran ∙ cancelled-cbs w.scope w.list v.inv) (perm_run _ w.ran w.dropped _ v.accounted);
    }

move-Valid :
    (w : World) (g o : Ptr)
    → Valid w
    → is_armed (w.scope.guards g).state ≡ false
    → is_armed (w.scope.guards o).state ≡ false
    → Valid (record w { scope = move_guard w.scope g o })
unfolding Accounted move_guard
move-Valid w g o v off off' =
    let out : has g w.list ≡ false = ground (arith, v.inv.rep.listed g, off) in
    let out' : has o w.list ≡ false = ground (arith, v.inv.rep.listed o, off') in
    record {
      inv = move_guard-Inv w.scope w.list g o v.inv out off';
      accounted =
          subst (λ l. Perm (map some w.armed) (w.ran ++ (w.dropped ++ l)))
            (sym (
              cbs_of-agree w.scope (move_guard w.scope g o) w.list
                (λ a m. ground (arith, m, out, out', ==→eq g a, ==→eq o a))))
            v.accounted;
    }

Step-Valid : {w w' : World} → Step w w' → Valid w → Valid w'
Step-Valid {w} (arms g f h bound quiet) v = arm-Valid w g f v h bound quiet
Step-Valid {w} (disarms g bound) v = disarm-Valid w g v bound
Step-Valid {w} (cancels fuel enough) v = cancel-Valid w fuel v enough
Step-Valid {w} (moves g o off off') v = move-Valid w g o v off off'

Reach-Valid : {v : World} (w : World) → Valid v → Reach v w → Valid w
Reach-Valid w v here = v
Reach-Valid w v (next {w = u} r st) = Step-Valid st (Reach-Valid u v r)

-- From a scope with no guard armed, after any sequence of armings of idle guards of the scope,
-- disarmings, cancellations and moves of guards that are not armed: the scope is well-formed, and
-- the callbacks of all successful armings are, in some order and each as often, those that `cancel`
-- ran, those whose guard `disarm` found armed, and those of the guards that are armed still.
pub callbacks_accounted :
    (s : Scope) (w : World)
    → Inv s []
    → Reach (begin_world s) w
    → Inv w.scope w.list × Perm (map some w.armed) (w.ran ++ (w.dropped ++ cbs_of w.scope w.list))
unfolding Accounted
callbacks_accounted s w i r =
    let v = Reach-Valid w (record { inv = i; accounted = Perm.refl [] }) r in (v.inv, v.accounted)
