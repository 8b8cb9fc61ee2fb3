-- ===== src/Semaphore/Granting.antt =====
-- The loop of `grant_locked` over the pointers serves the queue as the specification in Fifo says.
use coasio.Common.{
  ℕ, zero, suc, ◌-◌, ◌≤◌, ◌<◌, ◌≡◌, refl, sym, ap, subst, ◌∙◌, ◌⊎◌, true, false, List, [], ◌∷◌,
  ◌++◌, append-nil, append_assoc, none, some, arith, leb, ltb, leb→le, leb_false→lt, ◌==◌,
  if◌then◌else◌, length, inl, inr, Bool-cases,
}
use coasio.Links.{Ptr}
use coasio.Words.{signed_lt_small}
use coasio.Semaphore.{
  Sem, ToWake, wake_of, unlink, set_acquired, Grant, hand_out, give, grant_turn, grant_loop, serve,
}
use coasio.Semaphore.Rep.{Rep}
use coasio.Semaphore.Serving.{serve-Rep, Served, stop-Served, serve-Served}
use coasio.Semaphore.Fifo.{granted, rest, left}

-- What the loop knows of a waiter, served or not: its request and its coroutine.
pub record Known (need : Ptr → ℕ) (wk : Ptr → ToWake) (s : Sem) : Type 0 where
  pub request : (a : Ptr) → (s.waiters a).requested_permits ≡ need a
  pub wake : (a : Ptr) → wake_of s a ≡ wk a

serve-Known :
    (need : Ptr → ℕ) (wk : Ptr → ToWake) (s : Sem) (x : Ptr)
    → Known need wk s
    → Known need wk (serve s x)
unfolding serve unlink set_acquired
serve-Known need wk s x k = record {
  request = λ a. ground (arith, k.request a, k.request x);
  wake = λ a. ground (arith, k.wake a, k.wake x);
}

-- The coroutines of `xs`, but for that of `self`.
unfoldable pub wakes : (Ptr → ToWake) → Ptr → List Ptr → List ToWake
wakes wk self [] = []
wakes wk self (x ∷ xs) = if x == self then wakes wk self xs else wk x ∷ wakes wk self xs

-- `direct` is used only when `buf` is full.
abbrev pub Filled : ℕ → Grant → Type 0
Filled cap g = (g.direct ≡ []) ⊎ (cap ≤ length g.buf)

hand_out-lem :
    (cap : ℕ) (self w : Ptr) (k : ToWake) (g : Grant)
    → Filled cap g
    → let g' = hand_out cap self w k g in
      (g'.sem ≡ g.sem)
      × Filled cap g'
      × ((w == self) ≡ true → g'.buf ++ g'.direct ≡ g.buf ++ g.direct)
      × ((w == self) ≡ false → g'.buf ++ g'.direct ≡ (g.buf ++ g.direct) ++ k ∷ [])
unfolding hand_out
hand_out-lem cap self w k g f = elim (Bool-cases (w == self)) [
  | inl e ↦ rw e (refl, f, λ _. refl, λ h. cc)
  | inr e ↦ elim (Bool-cases (ltb (length g.buf) cap)) [
    | inl room ↦
        let unused : g.direct ≡ [] = ground (arith, f) in
        rw (e, room, unused) (refl, inl refl, λ h. cc, λ h. simp append-nil)
    | inr full ↦
        rw (e, full)
          (refl, inr (ground arith), λ h. cc, λ h. sym (append_assoc g.buf g.direct (k ∷ [])))
  ]
]

module _ (cap : ℕ) (self : Ptr) where
  turn_empty : (g : Grant) → Rep g.sem [] → grant_turn cap self g ≡ none
  unfolding grant_turn
  turn_empty g r = ground (arith, r.chain)

  turn_blocked :
      (g : Grant) (x : Ptr) (xs : List Ptr)
      → Rep g.sem (x ∷ xs)
      → g.sem.permits < (g.sem.waiters x).requested_permits
      → grant_turn cap self g ≡ none
  unfolding grant_turn
  turn_blocked g x xs r h =
      ground (arith, r.chain.0, signed_lt_small g.sem.permits (g.sem.waiters x).requested_permits)

  turn_gives :
      (g : Grant) (x : Ptr) (xs : List Ptr)
      → Rep g.sem (x ∷ xs)
      → (g.sem.waiters x).requested_permits ≤ g.sem.permits
      → grant_turn cap self g ≡ some (give cap self g)
  unfolding grant_turn
  turn_gives g x xs r h =
      ground (arith, r.chain.0, signed_lt_small g.sem.permits (g.sem.waiters x).requested_permits)

-- What the loop from `g` to `g'` does with the queue `xs`: as many are served as fit, it ends by its
-- own test, and each coroutine served is handed out once, in order, but for that of `self`.
pub record Loop (cap : ℕ) (self : Ptr) (need : Ptr → ℕ) (wk : Ptr → ToWake) (g : Grant)
    (xs : List Ptr) (g' : Grant) : Type 0 where
  pub served : Served need g.sem xs g'.sem
  pub ended : grant_turn cap self g' ≡ none
  pub woken :
      g'.buf ++ g'.direct ≡ (g.buf ++ g.direct) ++ wakes wk self (granted need g.sem.permits xs)

module _ (cap : ℕ) (self : Ptr) (need : Ptr → ℕ) (wk : Ptr → ToWake) where
  Loop-empty : (g : Grant) → Rep g.sem [] → Loop cap self need wk g [] g
  unfolding rest left granted wakes
  Loop-empty g r = record {
    served = record { rep = r; permits = refl; waiters = λ a. refl };
    ended = turn_empty cap self g r;
    woken = sym (append-nil _);
  }

  Loop-blocked :
      (g : Grant) (x : Ptr) (xs : List Ptr)
      → Rep g.sem (x ∷ xs)
      → Known need wk g.sem
      → leb (need x) g.sem.permits ≡ false
      → Loop cap self need wk g (x ∷ xs) g
  unfolding granted wakes
  Loop-blocked g x xs r k h =
      let over = leb_false→lt _ _ h in
      record {
        served = stop-Served need g.sem x xs r over;
        ended = turn_blocked cap self g x xs r (rw (k.request x) over);
        woken = rw h (sym (append-nil _));
      }

  -- One round, with the head of the queue written out.
  record Round (g g' : Grant) (x : Ptr) : Type 0 where
    sem : g'.sem ≡ serve g.sem x
    filled : Filled cap g'
    skips : (x == self) ≡ true → g'.buf ++ g'.direct ≡ g.buf ++ g.direct
    wakes_one : (x == self) ≡ false → g'.buf ++ g'.direct ≡ (g.buf ++ g.direct) ++ wk x ∷ []

  give-Round :
      (g : Grant) (x : Ptr)
      → g.sem.head ≡ x
      → Known need wk g.sem
      → Filled cap g
      → Round g (give cap self g) x
  unfolding give
  give-Round g x e k f =
      let w = g.sem.head in
      let (same, filled, skips, one) =
        hand_out-lem cap self w (wake_of g.sem w) (record g { sem = serve g.sem w }) f in
      let known : wake_of g.sem w ≡ wk x = k.wake w ∙ ap wk e in
      record {
        sem = same ∙ ap (serve g.sem) e;
        filled = filled;
        skips = λ h. skips (rw e h);
        wakes_one = λ h. one (rw e h) ∙ ap (λ (k : ToWake). (g.buf ++ g.direct) ++ k ∷ []) known;
      }

  give_keeps :
      (g : Grant) (x : Ptr) (xs : List Ptr)
      → Rep g.sem (x ∷ xs)
      → Known need wk g.sem
      → Filled cap g
      → (g.sem.waiters x).requested_permits ≤ g.sem.permits
      → Rep (give cap self g).sem xs
        × Known need wk (give cap self g).sem
        × Filled cap (give cap self g)
  give_keeps g x xs r k f fits =
      let round = give-Round g x r.chain.0 k f in
      (
        rw round.sem (serve-Rep g.sem x xs r fits).0,
        rw round.sem (serve-Known need wk g.sem x k),
        round.filled,
      )

  wakes-cons :
      (g g₁ g' : Grant) (x : Ptr) (ys : List Ptr)
      → Round g g₁ x
      → g'.buf ++ g'.direct ≡ (g₁.buf ++ g₁.direct) ++ wakes wk self ys
      → g'.buf ++ g'.direct ≡ (g.buf ++ g.direct) ++ wakes wk self (x ∷ ys)
  unfolding wakes
  wakes-cons g g₁ g' x ys round later = elim (Bool-cases (x == self)) [
    | inl e ↦ rw e (rw (round.skips e) at later)
    | inr e ↦ rw e ((rw (round.wakes_one e) at later) ∙ append_assoc _ (wk x ∷ []) _)
  ]

  Loop-serves :
      (g g' : Grant) (x : Ptr) (xs : List Ptr)
      → Rep g.sem (x ∷ xs)
      → Known need wk g.sem
      → Filled cap g
      → leb (need x) g.sem.permits ≡ true
      → Loop cap self need wk (give cap self g) xs g'
      → Loop cap self need wk g (x ∷ xs) g'
  unfolding granted
  Loop-serves g g' x xs r k f h later =
      let round = give-Round g x r.chain.0 k f in
      let fits = leb→le _ _ h in
      let less : (give cap self g).sem.permits ≡ g.sem.permits - need x =
        ap (λ (s : Sem). s.permits) round.sem
        ∙ (serve-Rep g.sem x xs r (rw (k.request x) fits)).1
        ∙ ap (λ (n : ℕ). g.sem.permits - n) (k.request x) in
      record {
        served =
            serve-Served need g.sem x xs g'.sem (k.request x) fits r
              (subst (λ s. Served need s xs g'.sem) round.sem later.served);
        ended = later.ended;
        woken = rw h (wakes-cons g _ g' x _ round (rw less at later.woken));
      }

  -- Enough fuel is one round for each waiter.
  pub grant_loop-Loop :
      (fuel : ℕ) (g : Grant) (xs : List Ptr)
      → length xs ≤ fuel
      → Rep g.sem xs
      → Known need wk g.sem
      → Filled cap g
      → Loop cap self need wk g xs (grant_loop fuel cap self g)
  unfolding grant_loop
  grant_loop-Loop zero g [] en r k f = Loop-empty g r
  grant_loop-Loop zero g (x ∷ xs) en r k f = absurd (omega arith)
  grant_loop-Loop (suc fuel) g [] en r k f =
      rw (turn_empty cap self g r, grant_loop) (Loop-empty g r)
  grant_loop-Loop (suc fuel) g (x ∷ xs) en r k f = elim (Bool-cases (leb (need x) g.sem.permits)) [
    | inl fits ↦
        let enough = rw (← k.request x) at (leb→le _ _ fits) in
        let (r', k', f') = give_keeps g x xs r k f enough in
        rw (turn_gives cap self g x xs r enough, grant_loop)
          (Loop-serves g _ x xs r k f fits
            (grant_loop-Loop fuel (give cap self g) xs (omega arith) r' k' f'))
    | inr over ↦
        rw (turn_blocked cap self g x xs r (rw (k.request x) (leb_false→lt _ _ over)), grant_loop)
          (Loop-blocked g x xs r k over)
  ]
