-- ===== src/Async/Leaf/Race/Safety.antt =====
-- What holds in every interleaving of Async.Leaf.Race, for every awaitable of Async.Leaf.
use coasio.Common.{
  ℕ, ◌+◌, ◌≤◌, ◌≡◌, refl, ap, ◌∙◌, Bool, true, false, not, ◌&&◌, ◌||◌, Option, none, some, is_some,
  arith, subst, ◌==◌, if◌then◌else◌,
}
use coasio.Async.Leaf.{Leaf}
use coasio.Async.Leaf.Race.{
  Pc, armed, waiting, refused, is_armed, is_waiting, World, begin_world, Step, arm, arm_refused,
  initiate, complete, scope_off, callback, Reach, here, next,
}

abbrev pub bit : Bool → ℕ
bit true = 1
bit false = 0

abbrev pub is_refused : Pc → Bool
is_refused refused = true
is_refused _ = false

module _ {ℓ} {S C R : Type ℓ} (leaf : Leaf S C R) where
  -- What `co_await` gives to a coroutine that was scheduled.
  abbrev pub resumed_with : World leaf → Option R
  resumed_with w = if 0 == w.scheduled then none else some (leaf.resume w.awaiter)

  -- What it is to give: `aborted` behind a refused guard, and what asio's completion means.
  abbrev pub decided : S → World leaf → Option R
  decided s w = elim w.completion [
    | some c ↦ some (leaf.meaning c s)
    | none ↦ if is_refused w.pc then some leaf.aborted else none
  ]

  record Inv (s : S) (w : World leaf) : Type ℓ where
    pub count : w.scheduled ≡ bit (is_refused w.pc) + bit (is_some w.completion)
    pub order : (is_some w.completion && not (is_waiting w.pc)) ≡ false
    pub fresh : is_some w.completion ≡ false → is_refused w.pc ≡ false → w.awaiter ≡ s
    pub told : resumed_with w ≡ decided s w

  begin-Inv : (s : S) (off : Bool) → Inv s (begin_world leaf s off)
  begin-Inv s off = record { count = refl; order = refl; fresh = λ _ _. refl; told = refl }

  Step-Inv : (s : S) {w w' : World leaf} → Step leaf w w' → Inv s w → Inv s w'
  Step-Inv s {w} (arm p o) i = record {
    count = ground (arith, i.count);
    order = ground (arith, i.order);
    fresh = λ a b. ap (λ r. r.0) (leaf.suspend-armed w.awaiter) ∙ i.fresh a (ground arith);
    told = ground (arith, i.count, i.order);
  }
  Step-Inv s {w} (arm_refused p o) i = record {
    count = ground (arith, i.count, i.order, p);
    order = ground (arith, i.order, p);
    fresh = λ a b. ground arith;
    told = ground (arith, i.order, (leaf.suspend-refused w.awaiter).1);
  }
  Step-Inv s {w} (initiate p) i = record {
    count = ground (arith, i.count);
    order = ground (arith, i.order);
    fresh = λ a b. i.fresh a (ground arith);
    told = ground (arith, i.count, i.order);
  }
  Step-Inv s {w} (complete c p n f) i = record {
    count = ground (arith, i.count);
    order = ground (arith, i.order);
    fresh = λ a b. ground arith;
    told =
        ground
          (arith, leaf.resume-complete c w.awaiter, ap (leaf.meaning c) (i.fresh n (ground arith)));
  }
  Step-Inv s (scope_off o) i = record {
    count = i.count;
    order = i.order;
    fresh = i.fresh;
    told = i.told;
  }
  Step-Inv s (callback f) i = record {
    count = i.count;
    order = i.order;
    fresh = i.fresh;
    told = i.told;
  }

  Reach-Inv :
      (s : S) (off : Bool) (w : World leaf) → Reach leaf (begin_world leaf s off) w → Inv s w
  Reach-Inv s off w here = begin-Inv s off
  Reach-Inv s off w (next {w = v} r st) = Step-Inv s st (Reach-Inv s off v r)

  -- For every awaitable on asio, in every interleaving of its `await_suspend`, asio's completion,
  -- and a thread that cancels the scope, from a new awaiter on: the coroutine is scheduled as
  -- often as the guard was refused or the operation completed, at most once in all; and once it
  -- is scheduled `await_resume` gives what that awaitable gives for a refused guard, or what the
  -- completion means for the awaiter as it was made.
  pub scheduled_once :
      (s : S) (off : Bool) (w : World leaf)
      → Reach leaf (begin_world leaf s off) w
      → (w.scheduled ≡ bit (is_refused w.pc) + bit (is_some w.completion))
        × (w.scheduled ≤ 1)
        × (resumed_with w ≡ decided s w)
  scheduled_once s off w r =
      let i = Reach-Inv s off w r in (i.count, ground (arith, i.count, i.order), i.told)

  -- From `started` on: an operation that asio has and is not complete.
  record Heard (w : World leaf) : Type 0 where
    pub at : w.pc ≡ waiting
    pub kept : (w.off && not (is_some w.completion) && not w.firing && not w.signalled) ≡ false

  Step-Heard : {w w' : World leaf} → Step leaf w w' → Heard w → Heard w'
  Step-Heard (arm p o) h = ground (arith, h.at)
  Step-Heard (arm_refused p o) h = ground (arith, h.at)
  Step-Heard (initiate p) h = ground (arith, h.at)
  Step-Heard (complete c p n f) h = record { at = p; kept = ground arith }
  Step-Heard (scope_off o) h = record { at = h.at; kept = ground (arith, h.at) }
  Step-Heard (callback f) h = record { at = h.at; kept = ground (arith, h.at, h.kept) }

  Reach-Heard : {v : World leaf} (w : World leaf) → Reach leaf v w → Heard v → Heard w
  Reach-Heard w here h = h
  Reach-Heard w (next {w = u} r st) h = Step-Heard st (Reach-Heard u r h)

  -- From a state on in which asio has the operation and the scope is live, in every interleaving,
  -- when the scope is cancelled, the guard's callback is not still to run, and the operation has
  -- not completed, the signal has reached it.
  pub cancellation_delivered :
      (v w : World leaf)
      → v.pc ≡ waiting
      → v.off ≡ false
      → Reach leaf v w
      → w.off ≡ true
      → w.firing ≡ false
      → is_some w.completion ≡ false
      → w.signalled ≡ true
  cancellation_delivered v w p o r off f n =
      let h = Reach-Heard w r (record { at = p; kept = ground (arith, o) }) in
      ground (arith, h.kept)

  -- The cancellation came between `guard_.arm` and the start of the operation.
  abbrev pub unheard : World leaf → World leaf
  unheard w = record w { pc = waiting; off = true; firing = false }

  record Deaf (w : World leaf) : Type 0 where
    pub at : w.pc ≡ waiting
    pub off : w.off ≡ true
    pub idle : w.firing ≡ false
    pub silent : w.signalled ≡ false

  Step-Deaf : {w w' : World leaf} → Step leaf w w' → Deaf w → Deaf w'
  Step-Deaf (arm p o) d = ground (arith, d.at)
  Step-Deaf (arm_refused p o) d = ground (arith, d.at)
  Step-Deaf (initiate p) d = ground (arith, d.at)
  Step-Deaf (complete c p n f) d = record { at = p; off = d.off; idle = f; silent = d.silent }
  Step-Deaf (scope_off o) d = ground (arith, d.off)
  Step-Deaf (callback f) d = ground (arith, d.idle)

  Reach-Deaf : {v : World leaf} (w : World leaf) → Reach leaf v w → Deaf v → Deaf w
  Reach-Deaf w here h = h
  Reach-Deaf w (next {w = u} r st) h = Step-Deaf st (Reach-Deaf u r h)

  -- A cancellation can be lost: from every reachable state of an awaiter whose guard is armed and
  -- whose operation is not started, with a live scope and no signal yet, the state is reachable
  -- in which the scope was cancelled, the callback is done and the operation is waited for; and
  -- in no state that is reached from there does a signal reach the operation.
  pub cancellation_lost :
      (s : S) (off : Bool) (w u : World leaf)
      → Reach leaf (begin_world leaf s off) w
      → w.pc ≡ armed
      → w.off ≡ false
      → w.signalled ≡ false
      → Reach leaf (unheard w) u
      → Reach leaf (begin_world leaf s off) (unheard w)
        × (u.off ≡ true)
        × (u.firing ≡ false)
        × (u.signalled ≡ false)
  cancellation_lost s off w u r p o q t =
      let d = Reach-Deaf u t (record { at = refl; off = refl; idle = refl; silent = q }) in
      let i = Reach-Inv s off w r in
      let fires : (is_armed w.pc && not (is_some w.completion)) ≡ true =
        ground (arith, p, i.order) in
      let idle : (w.signalled || is_waiting w.pc) ≡ w.signalled = ground (arith, p, q) in
      let to = λ (b : Bool). record (unheard w) { signalled = b } in
      let reached = next (next (next r (scope_off o)) (callback fires)) (initiate p) in
      (
        subst (λ (b : Bool). Reach leaf (begin_world leaf s off) (to b)) idle reached,
        d.off,
        d.idle,
        d.silent,
      )
