-- ===== src/Blocking/Pool/Threads/Rounds.antt =====
-- What a round of a thread, a notification and the calls of others keep.
use coasio.Common.{
  ℕ, zero, suc, ◌+◌, ◌<◌, ◌≡◌, refl, ap, sym, subst, ◌∙◌, Bool, true, false, List, [], ◌∷◌, ◌++◌,
  map, arith, has, erase, length, tally, tally-move, length-move,
}
use coasio.Blocking.Pool.{Pool, again, leave, run_item, turn_of, worker_turn, enqueue, try_cancel}
use coasio.Blocking.Pool.Threads.{
  Pc, fetching, asleep, executing, left, awoken, Notified, one, nobody, Round, sleeps, leaves,
  takes, executes,
}

abbrev pub left_bit : Pc → ℕ
left_bit left = 1
left_bit _ = 0

-- What a thread has in hand, weighed.
abbrev pub in_hand : (ℕ → ℕ) → Pc → ℕ
in_hand f (executing item) = f item
in_hand f _ = 0

-- The first so many threads have left.
abbrev pub Gone : ℕ → List Pc → Type 0
Gone zero ws = Unit
Gone (suc k) [] = Unit
Gone (suc k) (w ∷ ws) = (left_bit w ≡ 1) × Gone k ws

pub Gone-move :
    (k : ℕ) (xs : List Pc) (p q : Pc) (ys : List Pc)
    → left_bit p ≡ 0
    → Gone k (xs ++ p ∷ ys)
    → Gone k (xs ++ q ∷ ys)
Gone-move zero xs p q ys stays g = tt
Gone-move (suc k) [] p q ys stays g = absurd (omega (arith, g.0, stays))
Gone-move (suc k) (x ∷ xs) p q ys stays g = (g.0, Gone-move k xs p q ys stays g.1)

pub Gone-next :
    (xs ys : List Pc)
    → Gone (length xs) (xs ++ left ∷ ys)
    → Gone (suc (length xs)) (xs ++ left ∷ ys)
Gone-next [] ys g = (refl, tt)
Gone-next (x ∷ xs) ys g = (g.0, Gone-next xs ys g.1)

pub Gone-awoken : (k : ℕ) (ws : List Pc) → Gone k ws → Gone k (map awoken ws)
Gone-awoken zero ws g = tt
Gone-awoken (suc k) [] g = tt
Gone-awoken (suc k) (left ∷ ws) g = (refl, Gone-awoken k ws g.1)
Gone-awoken (suc k) (fetching ∷ ws) g = absurd (omega (arith, g.0))
Gone-awoken (suc k) (asleep ∷ ws) g = absurd (omega (arith, g.0))
Gone-awoken (suc k) (executing i ∷ ws) g = absurd (omega (arith, g.0))

-- When all have left, nobody has anything in hand.
pub Gone-all :
    (f : ℕ → ℕ) (ws : List Pc)
    → Gone (length ws) ws
    → (tally (in_hand f) ws ≡ 0) × (tally left_bit ws ≡ length ws)
unfolding tally
Gone-all f [] g = (refl, refl)
Gone-all f (left ∷ ws) g = omega (arith, Gone-all f ws g.1)
Gone-all f (fetching ∷ ws) g = absurd (omega (arith, g.0))
Gone-all f (asleep ∷ ws) g = absurd (omega (arith, g.0))
Gone-all f (executing i ∷ ws) g = absurd (omega (arith, g.0))

pub in_hand-awoken :
    (f : ℕ → ℕ) (ws : List Pc) → tally (in_hand f) (map awoken ws) ≡ tally (in_hand f) ws
unfolding tally
in_hand-awoken f [] = refl
in_hand-awoken f (fetching ∷ ws) = omega (arith, in_hand-awoken f ws)
in_hand-awoken f (asleep ∷ ws) = omega (arith, in_hand-awoken f ws)
in_hand-awoken f (executing i ∷ ws) = omega (arith, in_hand-awoken f ws)
in_hand-awoken f (left ∷ ws) = omega (arith, in_hand-awoken f ws)

pub left-awoken : (ws : List Pc) → tally left_bit (map awoken ws) ≡ tally left_bit ws
unfolding tally
left-awoken [] = refl
left-awoken (fetching ∷ ws) = omega (arith, left-awoken ws)
left-awoken (asleep ∷ ws) = omega (arith, left-awoken ws)
left-awoken (executing i ∷ ws) = omega (arith, left-awoken ws)
left-awoken (left ∷ ws) = omega (arith, left-awoken ws)

pub length-awoken : (ws : List Pc) → length (map awoken ws) ≡ length ws
length-awoken [] = refl
length-awoken (w ∷ ws) = ap suc (length-awoken ws)

pub turn_of-run :
    (f : ℕ → ℕ) (stop : Bool) (q : List ℕ) (item : ℕ)
    → (turn_of stop q).0 ≡ run_item item
    → tally f q ≡ f item + tally f (turn_of stop q).1
unfolding turn_of tally
turn_of-run f true [] item e = cc
turn_of-run f false [] item e = cc
turn_of-run f stop (x ∷ q) item e = ground (arith, e)

pub turn_of-again :
    (stop : Bool) (q : List ℕ)
    → (turn_of stop q).0 ≡ again
    → (q ≡ []) × ((turn_of stop q).1 ≡ []) × (stop ≡ false)
unfolding turn_of
turn_of-again true [] e = cc
turn_of-again false [] e = (refl, refl, refl)
turn_of-again stop (x ∷ q) e = cc

pub turn_of-leave :
    (stop : Bool) (q : List ℕ)
    → (turn_of stop q).0 ≡ leave
    → (q ≡ []) × ((turn_of stop q).1 ≡ []) × (stop ≡ true)
unfolding turn_of
turn_of-leave true [] e = (refl, refl, refl)
turn_of-leave false [] e = cc
turn_of-leave stop (x ∷ q) e = cc

-- What a round keeps: what is queued, in hand and executed, weighed; and a thread that leaves has
-- found the queue empty and the flag set.
pub record Kept (f : ℕ → ℕ) (p : Pool) (a b : Pc) (r : Pool) (t : List ℕ) : Type 0 where
  pub weight : tally f t + in_hand f b + tally f r.queue ≡ in_hand f a + tally f p.queue
  pub stop : r.stop ≡ p.stop
  pub stays : left_bit a ≡ 0
  pub left_empty : 0 < left_bit b → (r.queue ≡ []) × (r.stop ≡ true)
  pub empty : p.queue ≡ [] → r.queue ≡ []

pub Round-Kept :
    (f : ℕ → ℕ) {p r : Pool} {a b : Pc} {t : List ℕ} → Round p a b r t → Kept f p a b r t
unfolding worker_turn tally
Round-Kept f {p} (sleeps e) =
    let (empty, rest, live) = turn_of-again p.stop p.queue e in
    record {
      weight = omega (arith, ap (tally f) rest, ap (tally f) empty);
      stop = refl;
      stays = refl;
      left_empty = λ h. absurd (omega arith);
      empty = λ _. rest;
    }
Round-Kept f {p} (leaves e) =
    let (empty, rest, off) = turn_of-leave p.stop p.queue e in
    record {
      weight = omega (arith, ap (tally f) rest, ap (tally f) empty);
      stop = refl;
      stays = refl;
      left_empty = λ _. (rest, off);
      empty = λ _. rest;
    }
Round-Kept f {p} (takes item e) = record {
  weight = omega (arith, turn_of-run f p.stop p.queue item e);
  stop = refl;
  stays = refl;
  left_empty = λ h. absurd (omega arith);
  empty = λ none_left. ap (λ q. (turn_of p.stop q).1) none_left;
}
Round-Kept f (executes item) = record {
  weight = omega arith;
  stop = refl;
  stays = refl;
  left_empty = λ h. absurd (omega arith);
  empty = λ e. e;
}

pub enqueue-taken :
    (p : Pool) (item : ℕ)
    → (enqueue p item).1 ≡ true
    → (p.stop ≡ false) × ((enqueue p item).0.queue ≡ p.queue ++ item ∷ [])
unfolding enqueue
enqueue-taken p item taken = ground arith

pub try_cancel-found :
    (p : Pool) (item : ℕ)
    → (try_cancel p item).1 ≡ true
    → (has item p.queue ≡ true)
      × ((try_cancel p item).0.queue ≡ erase item p.queue)
      × ((try_cancel p item).0.stop ≡ p.stop)
unfolding try_cancel
try_cancel-found p item found = ground arith

-- A notification changes only whether threads sleep.
pub record Undisturbed (ws ws' : List Pc) : Type 0 where
  pub hands : (f : ℕ → ℕ) → tally (in_hand f) ws' ≡ tally (in_hand f) ws
  pub leavers : tally left_bit ws' ≡ tally left_bit ws
  pub size : length ws' ≡ length ws
  pub prefix : (k : ℕ) → Gone k ws → Gone k ws'

pub woken : (ws xs ys : List Pc) → ws ≡ xs ++ asleep ∷ ys → Undisturbed ws (xs ++ fetching ∷ ys)
woken ws xs ys at = record {
  hands =
      λ f. omega (arith, tally-move (in_hand f) xs asleep fetching ys, ap (tally (in_hand f)) at);
  leavers = omega (arith, tally-move left_bit xs asleep fetching ys, ap (tally left_bit) at);
  size = length-move xs asleep fetching ys ∙ ap length (sym at);
  prefix = λ k g. Gone-move k xs asleep fetching ys refl (subst (Gone k) at g);
}

pub Notified-Undisturbed : (ws ws' : List Pc) → Notified ws ws' → Undisturbed ws ws'
Notified-Undisturbed ws _ (one xs ys at) = woken ws xs ys at
Notified-Undisturbed ws _ (nobody e) = record {
  hands = λ f. refl;
  leavers = refl;
  size = refl;
  prefix = λ k g. g;
}
