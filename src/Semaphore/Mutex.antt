-- ===== src/Semaphore/Mutex.antt =====
-- include/coasio/sync/mutex.hpp: a semaphore of one permit, `lock`, and the guard; and what
-- `semaphore::acquire` makes.
use mathlib.Core.List.{Perm}
use coasio.Common.{
  Option, none, some, sym, append-nil, ◌++◌, true, inl, inr, Bool-cases, Bool, ℕ, ◌≤◌, ◌≡◌, refl,
  ap, ◌∙◌, subst, false, List, [], ◌∷◌, arith, ◌==◌, if◌then◌else◌, has, length, All, ◌+◌,
}
use coasio.Links.{Ptr, null, Links}
use coasio.Semaphore.{Sem, Waiter, ToWake, wake_of, init, release}
use coasio.Semaphore.Fifo.{granted, rest, left}
use coasio.Semaphore.Granting.{wakes}
use coasio.Semaphore.Rep.{Rep}
use coasio.Semaphore.Operations.{need_of, release-Returned}
use coasio.Semaphore.World.{World}
use coasio.Error.{ok, err, cancelled}
use coasio.Semaphore.Awaiter.{await_resume}
use coasio.Semaphore.Permit.{Permit, Release, release_if_held}

-- The members of `acquire_awaiter` but for the semaphore: the scope is also that of its guard.
pub record AcquireAwaiter : Type 0 where
  pub waiter : Waiter
  pub scope : Option ℕ
  pub guard_scope : Option ℕ
  pub enqueued : Bool

-- `acquire(permits)`, before `await_suspend` gives the waiter a coroutine.
unfoldable pub acquire : ℕ → AcquireAwaiter
acquire permits = record {
  waiter = record {
    handle = 0;
    rt = 0;
    requested_permits = permits;
    acquired = false;
    cancelled = false;
  };
  scope = none;
  guard_scope = none;
  enqueued = false;
}

unfoldable pub set_cancel_scope : Option ℕ → AcquireAwaiter → AcquireAwaiter
set_cancel_scope s a = record a { scope = s; guard_scope = s }

-- `semaphore::release`
unfoldable pub semaphore_release : ℕ → Sem → ℕ → Sem × List ToWake
semaphore_release fuel s permits = release fuel s permits

-- `semaphore sem_{1}`
unfoldable pub fresh_mutex : Links → (Ptr → Waiter) → Sem
fresh_mutex l ws = init 1 l ws

unfoldable pub lock : AcquireAwaiter
lock = acquire 1

-- `mutex_guard`, and its end.
pub record MutexGuard : Type 0 where
  pub permit : Permit

unfoldable pub unlock : MutexGuard → List Release
unlock g = release_if_held g.permit

-- The calls of `release` on the semaphore number `k`, which is in the state `s`.
unfoldable pub run_releases : ℕ → ℕ → Sem → List Release → Sem × List ToWake
run_releases fuel k s [] = (s, [])
run_releases fuel k s (r ∷ rs) =
    let (s₁, woken) = if r.sem == k then semaphore_release fuel s r.count else (s, []) in
    let (s₂, more) = run_releases fuel k s₁ rs in (s₂, woken ++ more)

-- `~mutex_guard()`
unfoldable pub drop_guard : ℕ → ℕ → Sem → MutexGuard → Sem × List ToWake
drop_guard fuel k s g = run_releases fuel k s (unlock g)

-- Nothing more is served when the only permit is given away.
module _ (need : Ptr → ℕ) where
  none_left :
      (xs : List Ptr)
      → All (λ a. need a ≡ 1) xs
      → (granted need 0 xs ≡ []) × (rest need 0 xs ≡ xs) × (left need 0 xs ≡ 0)
  unfolding granted rest left
  none_left [] h = (refl, refl, refl)
  none_left (x ∷ xs) h = let one = h.0 in (ground arith, ground arith, ground arith)

  one_served :
      (x : Ptr) (xs : List Ptr)
      → All (λ a. need a ≡ 1) (x ∷ xs)
      → (granted need 1 (x ∷ xs) ≡ x ∷ [])
        × (rest need 1 (x ∷ xs) ≡ xs)
        × (left need 1 (x ∷ xs) ≡ 0)
  unfolding granted rest left
  one_served x xs (one, h) =
      let (g, q, l) = none_left xs h in
      (ground (arith, one, g), ground (arith, one, q), ground (arith, one, l))

-- A guard that the awaiter of `lock` gave gives back one permit of its mutex, and no more.
drop_guard_lem :
    (fuel k : ℕ) (s : Sem) (o : Ptr) (p : Permit)
    → need_of s o ≡ 1
    → await_resume k s o ≡ ok p
    → drop_guard fuel k s (record { permit = p })
      ≡ ((release fuel s 1).0, (release fuel s 1).1 ++ [])
unfolding drop_guard run_releases unlock release_if_held semaphore_release await_resume
drop_guard_lem fuel k s o p one got = elim (Bool-cases (s.waiters o).acquired) [
  | inl e ↦
      let same : ok (record { sem = some k; permits = (s.waiters o).requested_permits }) ≡ ok p =
        rw e at got in
      let is : record { sem = some k; permits = 1 } ≡ p = cc in
      subst
        (λ q.
          drop_guard fuel k s (record { permit = q })
          ≡ ((release fuel s 1).0, (release fuel s 1).1 ++ []))
        is (ground arith)
  | inr e ↦ absurd (let no : err cancelled ≡ ok p = rw e at got in cc)
]

-- The end of a guard that the awaiter of `lock` gave on a mutex in a well-formed state, in which no
-- permit is left and every waiter in the queue asks for one: the oldest waiter leaves the queue,
-- its coroutine is scheduled and no other, no permit is left, and that waiter's `lock` gives a
-- guard of the same mutex in turn. It is enough to allow one round of the loop for each waiter.
pub unlock_hands_over :
    (fuel k : ℕ) (s : Sem) (o x : Ptr) (xs : List Ptr) (p : Permit)
    → Rep s (x ∷ xs)
    → length (x ∷ xs) ≤ fuel
    → s.permits ≡ 0
    → All (λ a. need_of s a ≡ 1) (x ∷ xs)
    → need_of s o ≡ 1
    → await_resume k s o ≡ ok p
    → let (s', woken) = drop_guard fuel k s (record { permit = p }) in
      Rep s' xs
      × (s'.permits ≡ 0)
      × Perm woken (wake_of s x ∷ [])
      × (await_resume k s' x ≡ ok (record { sem = some k; permits = 1 }))
unfolding wakes await_resume
unlock_hands_over fuel k s o x xs p r en zero ones single got =
    let back = release-Returned fuel s (x ∷ xs) 1 r en (ground arith) (ground (arith, zero)) in
    let one : s.permits + 1 ≡ 1 = omega (arith, zero) in
    let (g, q, l) = one_served (need_of s) x xs ones in
    let real : (x == null) ≡ false = (let some_node = r.chain.1 in ground (arith, some_node)) in
    let given : granted (need_of s) (s.permits + 1) (x ∷ xs) ≡ x ∷ [] =
      ap (λ n. granted (need_of s) n (x ∷ xs)) one ∙ g in
    rw (drop_guard_lem fuel k s o p single got) (
      subst (Rep (release fuel s 1).0) (ap (λ n. rest (need_of s) n (x ∷ xs)) one ∙ q)
          back.served.rep,
      back.served.permits ∙ ap (λ n. left (need_of s) n (x ∷ xs)) one ∙ l,
      subst (λ out. Perm out (wake_of s x ∷ [])) (sym (append-nil _))
          (subst (Perm (release fuel s 1).1)
            (ap (wakes (wake_of s) null) given ∙ ap (λ b. if b then [] else wake_of s x ∷ []) real)
            back.resumed),
      (let now = back.served.waiters x in
          let served : has x (granted (need_of s) (s.permits + 1) (x ∷ xs)) ≡ true =
            rw given (ground arith) in
          ground (arith, now, served, ones.0)),
    )
