-- ===== src/Semaphore/Permit.antt =====
-- `semaphore_permit` and `semaphore` of include/coasio/sync/semaphore.hpp, and the mutex of
-- include/coasio/sync/mutex.hpp on top of them. A `shared_ptr` to a semaphore's state is the number
-- of that semaphore; a `release` that a permit calls is part of an operation's result.
use coasio.Common.{
  ℕ, ◌+◌, ◌≤◌, ◌≡◌, ap, Bool, true, List, [], ◌∷◌, Option, none, some, arith, ltb, ◌==◌,
  if◌then◌else◌, inl, inr, Bool-cases,
}
use coasio.Words.{max_permits, add64, add64_small}
use coasio.Semaphore.{Sem, try_acquire}
use coasio.Semaphore.Rep.{Rep}
use coasio.Semaphore.Operations.{try_acquire_lem}
use coasio.Links.{Ptr}

pub record Permit : Type 0 where
  pub sem : Option ℕ
  pub permits : ℕ

-- A call `sem->release(count)`.
pub record Release : Type 0 where
  pub sem : ℕ
  pub count : ℕ

pub no_permit : Permit
no_permit = record { sem = none; permits = 0 }

unfoldable pub release_if_held : Permit → List Release
release_if_held p = elim p.sem [
  | none ↦ []
  | some s ↦ if ltb 0 p.permits then record { sem = s; count = p.permits } ∷ [] else []
]

-- The move constructor: the new permit, and what is left of `o`.
pub move_permit : Permit → Permit × Permit
move_permit o = (o, record { sem = none; permits = 0 })

-- The move assignment of another object, `this != &o`: this, `o`, and the release before it.
pub assign : Permit → Permit → Permit × Permit × List Release
assign p o = (o, record { sem = none; permits = 0 }, release_if_held p)

pub forget : Permit → Permit
forget p = record p { permits = 0 }

-- The code asserts that both are of one semaphore.
pub merge : Permit → Permit → Permit × Permit
merge p o = (record p { permits = add64 p.permits o.permits }, record o { permits = 0 })

pub count : Permit → ℕ
count p = p.permits

pub holds_any : Permit → Bool
holds_any p = ltb 0 p.permits

-- `semaphore::try_acquire` on the semaphore number `k`.
unfoldable pub semaphore_try_acquire : ℕ → Sem → ℕ → Sem × Option Permit
semaphore_try_acquire k s n =
    if ltb max_permits n
    then (s, none)
    else let (s', done) = try_acquire s n in
      (s', (if done then some (record { sem = some k; permits = n }) else none))

-- `mutex::try_lock`; a `mutex_guard` holds the permit.
unfoldable pub try_lock : ℕ → Sem → Sem × Option Permit
try_lock k s = semaphore_try_acquire k s 1

abbrev pub total : List Release → ℕ
total [] = 0
total (r ∷ rs) = r.count + total rs

-- A permit that holds something names its semaphore.
abbrev pub IsValid : Permit → Type 0
IsValid p =
    (p.permits ≤ max_permits) × (elim p.sem [ none ↦ p.permits == 0 | some _ ↦ true ] ≡ true)

-- Nothing is lost or made up by a move assignment to a permit that names its semaphore if it holds
-- something: what the two permits held is what they hold after it and what was released.
pub assign_total :
    (p o : Permit)
    → IsValid p
    → let (p', o', out) = assign p o in count p' + count o' + total out ≡ count p + count o
unfolding assign release_if_held count
assign_total p o v = ground arith

pub merge_total :
    (p o : Permit)
    → p.permits + o.permits ≤ max_permits
    → let (p', o') = merge p o in
      (count p' + count o' ≡ count p + count o) × (total (release_if_held o') ≡ 0)
unfolding merge count release_if_held
merge_total p o h = ground (arith, add64_small p.permits o.permits)

-- By `semaphore::try_acquire` on a well-formed semaphore the counter falls by exactly what the
-- permit, if there is one, gives back when it is destroyed.
pub semaphore_try_acquire_total :
    (k n : ℕ) (s : Sem) (xs : List Ptr)
    → Rep s xs
    → let (s', p) = semaphore_try_acquire k s n in
      s'.permits + (elim p [ none ↦ 0 | some q ↦ total (release_if_held q) ]) ≡ s.permits
unfolding semaphore_try_acquire release_if_held
semaphore_try_acquire_total k n s xs r = elim (Bool-cases (ltb max_permits n)) [
  | inl e ↦ rw e (omega arith)
  | inr e ↦
      let (answer, state) = try_acquire_lem s xs n r (ground arith) in
      ground (arith, e, answer, ap (λ (t : Sem). t.permits) state)
]
