-- ===== src/Semaphore/Fifo.antt =====
-- The specification of `grant_locked`: a queue served in order, as far as the permits reach.
use coasio.Common.{ℕ, ◌+◌, ◌-◌, ◌<◌, ◌≡◌, refl, List, [], ◌∷◌, ◌++◌, arith, leb, if◌then◌else◌}
use coasio.Links.{Ptr}

-- First come, first served: the longest prefix of the queue whose requests `p` permits cover.
module _ (need : Ptr → ℕ) where
  unfoldable pub granted : ℕ → List Ptr → List Ptr
  granted p [] = []
  granted p (x ∷ xs) = if leb (need x) p then x ∷ granted (p - need x) xs else []

  -- The waiters behind it,
  unfoldable pub rest : ℕ → List Ptr → List Ptr
  rest p [] = []
  rest p (x ∷ xs) = if leb (need x) p then rest (p - need x) xs else x ∷ xs

  -- and the permits that are left.
  unfoldable pub left : ℕ → List Ptr → ℕ
  left p [] = p
  left p (x ∷ xs) = if leb (need x) p then left (p - need x) xs else p

  unfoldable pub sum_needs : List Ptr → ℕ
  sum_needs [] = 0
  sum_needs (x ∷ xs) = need x + sum_needs xs

  -- The oldest waiter, if there is one, asks for more than `p`.
  abbrev pub Blocked : ℕ → List Ptr → Type 0
  Blocked p [] = Unit
  Blocked p (x ∷ xs) = p < need x

  pub granted-append-rest : (p : ℕ) (xs : List Ptr) → granted p xs ++ rest p xs ≡ xs
  unfolding granted rest
  granted-append-rest p [] = refl
  granted-append-rest p (x ∷ xs) = ground (arith, granted-append-rest (p - need x) xs)

  pub left-conserved : (p : ℕ) (xs : List Ptr) → left p xs + sum_needs (granted p xs) ≡ p
  unfolding left granted sum_needs
  left-conserved p [] = omega arith
  left-conserved p (x ∷ xs) = ground (arith, left-conserved (p - need x) xs)

  pub rest-Blocked : (p : ℕ) (xs : List Ptr) → Blocked (left p xs) (rest p xs)
  unfolding left rest
  rest-Blocked p [] = tt
  rest-Blocked p (x ∷ xs) = ground (arith, rest-Blocked (p - need x) xs)
