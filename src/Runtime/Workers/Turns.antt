-- ===== src/Runtime/Workers/Turns.antt =====
-- What a turn of a worker and a notification do to the queue and to the workers that are awake.
use coasio.Common.{
  tally, tally_here, tally-move, length-move, ◌≤◌, ◌≡◌, refl, ap, sym, ◌∙◌, ◌⊎◌, inl, inr, Bool,
  true, false, List, [], ◌∷◌, ◌++◌, arith, length, length-append,
}
use coasio.Links.{Ptr}
use coasio.Runtime.{Runtime, waits, nothing, next_task, next_of, get_next_task_from_queue}
use coasio.Runtime.Workers.{
  Pc, fetching, asleep, Notified, one, nobody, Turn, goes_on, leaves, sleeps, gets_nothing, takes,
  resumed,
}
use coasio.Runtime.Workers.Counting.{asleep_bit, left_bit, awake_bit, tally-awoken}

next_of-takes :
    (stop : Bool) (q : List Ptr) (h : Ptr)
    → (next_of stop q).0 ≡ next_task h
    → h ∷ (next_of stop q).1 ≡ q
unfolding next_of
next_of-takes true [] h e = cc
next_of-takes false [] h e = cc
next_of-takes stop (x ∷ q) h e = cc

pub next_of-waits :
    (stop : Bool) (q : List Ptr)
    → (next_of stop q).0 ≡ waits
    → (stop ≡ false) × (q ≡ []) × ((next_of stop q).1 ≡ [])
unfolding next_of
next_of-waits true [] e = cc
next_of-waits false [] e = (refl, refl, refl)
next_of-waits stop (x ∷ q) e = cc

next_of-nothing :
    (stop : Bool) (q : List Ptr)
    → (next_of stop q).0 ≡ nothing
    → (stop ≡ true) × ((next_of stop q).1 ≡ q)
unfolding next_of
next_of-nothing true [] e = (refl, refl)
next_of-nothing false [] e = cc
next_of-nothing stop (x ∷ q) e = cc

-- One worker moves while the queue shrinks or stays.
pub attended_move :
    (xs ys : List Pc) (p q : Pc) (before after : List Ptr) (t : List Ptr)
    → t ++ after ≡ before
    → (after ≡ []) ⊎ ((asleep_bit q ≡ asleep_bit p) × (awake_bit q ≡ awake_bit p))
    → (tally asleep_bit (xs ++ p ∷ ys) ≡ 0) ⊎ (length before ≤ tally awake_bit (xs ++ p ∷ ys))
    → (tally asleep_bit (xs ++ q ∷ ys) ≡ 0) ⊎ (length after ≤ tally awake_bit (xs ++ q ∷ ys))
attended_move xs ys p q before after t e (inl empty) a = inr (rw empty (omega arith))
attended_move xs ys p q before after t e (inr (s, k)) (inl none_asleep) =
    inl (omega (arith, tally-move asleep_bit xs p q ys))
attended_move xs ys p q before after t e (inr (s, k)) (inr enough) =
    inr (omega (arith, tally-move awake_bit xs p q ys, ap length e, length-append {0} t after))

-- `notify_one` with a coroutine that was pushed before it.
pub attended_notify :
    (ws ws' : List Pc) (q : List Ptr) (h : Ptr)
    → Notified ws ws'
    → (tally asleep_bit ws ≡ 0) ⊎ (length q ≤ tally awake_bit ws)
    → (tally asleep_bit ws' ≡ 0) ⊎ (length (q ++ h ∷ []) ≤ tally awake_bit ws')
attended_notify ws _ q h (one xs ys e) (inl none_asleep) =
    absurd (omega (arith, tally_here asleep_bit ws xs asleep ys e))
attended_notify ws _ q h (one xs ys e) (inr enough) = inr (
    omega (
      arith,
      tally-move awake_bit xs asleep fetching ys,
      ap (tally awake_bit) e,
      length-append {0} q (h ∷ []),
    ))
attended_notify ws _ q h (nobody e) a = inl (sym (ap (tally asleep_bit) e) ∙ tally-awoken ws)

pub Notified-left : (ws ws' : List Pc) → Notified ws ws' → tally left_bit ws' ≡ tally left_bit ws
Notified-left ws _ (one xs ys e) =
    omega (arith, tally-move left_bit xs asleep fetching ys, ap (tally left_bit) e)
Notified-left ws _ (nobody e) = refl

pub Notified-length : (ws ws' : List Pc) → Notified ws ws' → length ws' ≡ length ws
Notified-length ws _ (one xs ys e) = length-move xs asleep fetching ys ∙ ap length (sym e)
Notified-length ws _ (nobody e) = refl

module _ {ℓ} {A : Type ℓ} where
  pub Turn-queue :
      {r r' : Runtime A} {p q : Pc} {t : List Ptr}
      → Turn r p q r' t
      → (t ++ r'.global_tasks ≡ r.global_tasks) × (r'.stop_requested ≡ r.stop_requested)
  unfolding get_next_task_from_queue
  Turn-queue (goes_on e) = (refl, refl)
  Turn-queue (leaves e) = (refl, refl)
  Turn-queue {r} (sleeps e) =
      let (_, empty, rest) = next_of-waits r.stop_requested r.global_tasks e in
      (rest ∙ sym empty, refl)
  Turn-queue {r} (gets_nothing e) = ((next_of-nothing r.stop_requested r.global_tasks e).1, refl)
  Turn-queue {r} (takes h e) = (next_of-takes r.stop_requested r.global_tasks h e, refl)
  Turn-queue (resumed h) = (refl, refl)

  -- While no stop is requested nobody leaves, and who falls asleep has found the queue empty.
  pub Turn-awake :
      {r r' : Runtime A} {p q : Pc} {t : List Ptr}
      → Turn r p q r' t
      → r.stop_requested ≡ false
      → (left_bit q ≡ left_bit p)
        × ((r'.global_tasks ≡ []) ⊎ ((asleep_bit q ≡ asleep_bit p) × (awake_bit q ≡ awake_bit p)))
  unfolding get_next_task_from_queue
  Turn-awake (goes_on e) live = (refl, inr (refl, refl))
  Turn-awake (leaves e) live = cc
  Turn-awake {r} (sleeps e) live = (refl, inl ((next_of-waits r.stop_requested r.global_tasks e).2))
  Turn-awake {r} (gets_nothing e) live =
      let e' = (next_of-nothing r.stop_requested r.global_tasks e).0 in cc
  Turn-awake (takes h e) live = (refl, inr (refl, refl))
  Turn-awake (resumed h) live = (refl, inr (refl, refl))
