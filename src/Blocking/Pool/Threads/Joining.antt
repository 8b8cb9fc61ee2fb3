-- ===== src/Blocking/Pool/Threads/Joining.antt =====
-- The destructor of the pool comes to its end, if the functions that are executed return.
use coasio.Common.{
  ℕ, suc, ◌+◌, ◌*◌, ◌≤◌, ◌≡◌, refl, ap, ◌∙◌, ◌⊎◌, inl, inr, true, List, [], ◌∷◌, ◌++◌, arith,
  length, dec_lt, tally, tally_here, split_at,
}
use coasio.Blocking.Pool.{Pool, leave, run_item, turn_of, worker_turn, fresh_pool}
use coasio.Blocking.Pool.Threads.{
  Pc, fetching, asleep, executing, left, Phase, before_stop, stop_set, joining, World, leaves,
  takes, executes, Work, rounds, notifies_all, joins_thread, Outside, works, happens, Reach, here,
  next, begin_world,
}
use coasio.Blocking.Pool.Threads.Rounds.{Round-Kept}
use coasio.Blocking.Pool.Threads.Leftovers.{Inv, Step-Inv, Reach-Inv, begin-Inv}
use coasio.Blocking.Pool.Threads.Leaving.{
  asleep_bit, phase_rank, rank-le, Calm, Work-Calm, Outside-Calm, measure, Work-measure,
  Outside-measure,
}

-- So many steps of the pool's threads and of its destructor, whatever happens in between.
pub data Run (v : World) : ℕ → World → Type 0 where
  start : Run v 0 v
  work : {k : ℕ} {w w' : World} → Run v k w → Work w w' → Run v (suc k) w'
  outside : {k : ℕ} {w w' : World} → Run v k w → Outside w w' → Run v k w'

-- The destructor has joined all `n` threads.
abbrev pub Ended : ℕ → World → Type 0
Ended n w = (w.phase ≡ joining) × (w.joined ≡ n)

-- Somebody can go on.
abbrev pub Goes : World → Type 0
Goes w = (w' : World) × Work w w'

turn-empty : (p : Pool) → p.stop ≡ true → p.queue ≡ [] → (worker_turn p).0 ≡ leave
unfolding worker_turn turn_of
turn-empty p off e = ap (λ q. (turn_of p.stop q).0) e ∙ rw off refl

turn-head :
    (p : Pool) (item : ℕ) (rest : List ℕ)
    → p.queue ≡ item ∷ rest
    → (worker_turn p).0 ≡ run_item item
unfolding worker_turn turn_of
turn-head p item rest e = ap (λ q. (turn_of p.stop q).0) e

fetching-Goes :
    (w : World) (xs ys : List Pc) (q : List ℕ)
    → w.threads ≡ xs ++ fetching ∷ ys
    → w.pool.stop ≡ true
    → w.pool.queue ≡ q
    → Goes w
fetching-Goes w xs ys [] at off e =
    (_, rounds xs ys fetching left _ [] at (leaves (turn-empty w.pool off e)))
fetching-Goes w xs ys (item ∷ rest) at off e =
    (_, rounds xs ys fetching (executing item) _ [] at (takes item (turn-head w.pool item rest e)))

thread-Goes :
    (w : World) (xs : List Pc) (p : Pc) (ys : List Pc)
    → w.threads ≡ xs ++ p ∷ ys
    → w.joined ≡ length xs
    → w.phase ≡ joining
    → w.pool.stop ≡ true
    → tally asleep_bit w.threads ≡ 0
    → Goes w
thread-Goes w xs fetching ys at k p off q = fetching-Goes w xs ys w.pool.queue at off refl
thread-Goes w xs (executing item) ys at k p off q =
    (_, rounds xs ys (executing item) fetching w.pool (item ∷ []) at (executes item))
thread-Goes w xs left ys at k p off q = (_, joins_thread xs ys p at k)
thread-Goes w xs asleep ys at k p off q =
    absurd (omega (arith, tally_here asleep_bit w.threads xs asleep ys at))

Ended-or-Goes :
    (n : ℕ) (w : World) (ph : Phase)
    → w.phase ≡ ph
    → Inv n w
    → Calm n w
    → w.pool.stop ≡ true
    → Ended n w ⊎ Goes w
Ended-or-Goes n w before_stop p i c off = absurd (ground (arith, c.flag, p))
Ended-or-Goes n w stop_set p i c off = inr (_, notifies_all p)
Ended-or-Goes n w joining p i c off = elim (dec_lt w.joined n) [
  | yes some ↦
      let (xs, pc, ys, at, k) = split_at w.threads w.joined (omega (arith, i.sized, some)) in
      inr (thread-Goes w xs pc ys at k p off (c.quiet (ground (arith, p))))
  | no all ↦ inl (p, omega (arith, c.bounded, all))
]

Reach-Calm : {n : ℕ} {v : World} (w : World) → Inv n v → Calm n v → Reach v w → Calm n w
Reach-Calm w i c here = c
Reach-Calm w i c (next {w = u} r (works st)) = Work-Calm st (Reach-Inv u i r) (Reach-Calm u i c r)
Reach-Calm w i c (next {w = u} r (happens st)) = Outside-Calm st (Reach-Calm u i c r)

Work-stop : {w w' : World} → Work w w' → w.pool.stop ≡ true → w'.pool.stop ≡ true
Work-stop (rounds xs ys p q r t at round) off = (Round-Kept (λ _. 0) round).stop ∙ off
Work-stop (notifies_all p) off = off
Work-stop (joins_thread xs ys p at k) off = off

record Bounded (n m k : ℕ) (w : World) : Type 0 where
  pub inv : Inv n w
  pub calm : Calm n w
  pub off : w.pool.stop ≡ true
  pub nearer : measure n w + k ≤ m

Run-Bounded :
    {n m : ℕ} {v : World} {k : ℕ} (w : World) → Bounded n m 0 v → Run v k w → Bounded n m k w
Run-Bounded w b start = b
Run-Bounded w b (work {w = u} r st) =
    let c = Run-Bounded u b r in
    let calm = Work-Calm st c.inv c.calm in
    record {
      inv = Step-Inv (works st) c.inv;
      calm = calm;
      off = Work-stop st c.off;
      nearer = omega (arith, c.nearer, Work-measure st c.inv c.off);
    }
Run-Bounded w b (outside {w = u} r st) =
    let c = Run-Bounded u b r in
    let (less, off) = Outside-measure st c.calm c.off in
    record {
      inv = Step-Inv (happens st) c.inv;
      calm = Outside-Calm st c.calm;
      off = off;
      nearer = omega (arith, c.nearer, less);
    }

phase_rank-le : (p : Phase) → phase_rank p ≤ 1
phase_rank-le before_stop = omega arith
phase_rank-le stop_set = omega arith
phase_rank-le joining = omega arith

measure-le : (n : ℕ) (w : World) → Inv n w → measure n w ≤ 2 * length w.pool.queue + 3 * n + 1
unfolding measure
measure-le n w i = omega (arith, rank-le w.threads, i.sized, phase_rank-le w.phase)

begin-Calm : (n : ℕ) → Calm n (begin_world n)
unfolding fresh_pool
begin-Calm n = record { flag = refl; quiet = λ h. cc; bounded = omega arith }

-- From a pool that was just made with `n` threads, when the flag was set in any interleaving: its
-- threads and its destructor together make at most `2 * q + 3 * n + 1` more steps, with `q`
-- functions in the queue, whatever happens in between; and after any number of them the destructor
-- has joined all threads, or another of these steps can be made, with no wake-up without a reason.
-- The return of an executed function counts as such a step.
pub destructor_ends :
    (n k : ℕ) (v w : World)
    → Reach (begin_world n) v
    → v.pool.stop ≡ true
    → Run v k w
    → (k ≤ 2 * length v.pool.queue + 3 * n + 1) × (Ended n w ⊎ Goes w)
destructor_ends n k v w reach off run =
    let i = Reach-Inv v (begin-Inv n) reach in
    let b =
      Run-Bounded {m = 2 * length v.pool.queue + 3 * n + 1} w
        (record {
          inv = i;
          calm = Reach-Calm v (begin-Inv n) (begin-Calm n) reach;
          off = off;
          nearer = omega (arith, measure-le n v i);
        })
        run in
    (omega (arith, b.nearer), Ended-or-Goes n w w.phase refl b.inv b.calm b.off)
