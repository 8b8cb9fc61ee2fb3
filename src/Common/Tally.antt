-- ===== src/Common/Tally.antt =====
-- Sums over the entries of a list, and what becomes of them when one entry changes.
use Prim.Native.Nat.{ℕ, zero, suc, ◌+◌, ◌≤◌, ◌<◌}
use mathlib.Core.Path.{◌≡◌, refl, ap}
use mathlib.Core.List.{List, [], ◌∷◌, ◌++◌}
use native.Mathlib.Omega.{arith}
use native.Mathlib.Decide.{dec_lt}
use mathlib.Core.Bool.{true}
use mathlib.Core.Logic.{inl, inr}
use coasio.Common.Tests.{◌==◌, if◌then◌else◌, Bool-cases, ==→eq}
use coasio.Common.Lists.{length, length-append, has, erase}

module _ {ℓ} {A : Type ℓ} where
  unfoldable pub tally : (A → ℕ) → List A → ℕ
  tally f [] = 0
  tally f (p ∷ ws) = f p + tally f ws

  pub tally-append : (f : A → ℕ) (xs ys : List A) → tally f (xs ++ ys) ≡ tally f xs + tally f ys
  unfolding tally
  tally-append f [] ys = omega arith
  tally-append f (x ∷ xs) ys = omega (arith, tally-append f xs ys)

  pub tally_here :
      (f : A → ℕ) (ws xs : List A) (p : A) (ys : List A) → ws ≡ xs ++ p ∷ ys → f p ≤ tally f ws
  unfolding tally
  tally_here f ws xs p ys e = omega (arith, ap (tally f) e, tally-append f xs (p ∷ ys))

  -- One entry changes.
  pub tally-move :
      (f : A → ℕ) (xs : List A) (p q : A) (ys : List A)
      → tally f (xs ++ q ∷ ys) + f p ≡ tally f (xs ++ p ∷ ys) + f q
  unfolding tally
  tally-move f xs p q ys = omega (arith, tally-append f xs (p ∷ ys), tally-append f xs (q ∷ ys))

  pub length-move :
      (xs : List A) (p q : A) (ys : List A) → length (xs ++ q ∷ ys) ≡ length (xs ++ p ∷ ys)
  length-move [] p q ys = refl
  length-move (x ∷ xs) p q ys = ap suc (length-move xs p q ys)

  -- An entry that counts.
  pub find :
      (f : A → ℕ) (ws : List A)
      → 0 < tally f ws
      → (xs : List A) × (p : A) × (ys : List A) × (ws ≡ xs ++ p ∷ ys) × (0 < f p)
  unfolding tally
  find f [] h = absurd (omega arith)
  find f (w ∷ ws) h = elim (dec_lt 0 (f w)) [
    | yes here ↦ ([], w, ws, refl, here)
    | no none_here ↦
        let (xs, p, ys, e, c) = find f ws (omega arith) in (w ∷ xs, p, ys, ap (λ l. w ∷ l) e, c)
  ]

  -- The entry at an index.
  pub split_at :
      (ws : List A) (i : ℕ)
      → i < length ws
      → (xs : List A) × (p : A) × (ys : List A) × (ws ≡ xs ++ p ∷ ys) × (i ≡ length xs)
  split_at [] i h = absurd (omega arith)
  split_at (w ∷ ws) zero h = ([], w, ws, refl, refl)
  split_at (w ∷ ws) (suc i) h =
      let (xs, p, ys, e, c) = split_at ws i (omega arith) in
      (w ∷ xs, p, ys, ap (λ l. w ∷ l) e, ap suc c)

  pub index-lt : (ws xs : List A) (p : A) (ys : List A) → ws ≡ xs ++ p ∷ ys → length xs < length ws
  index-lt ws xs p ys e = omega (arith, ap length e, length-append xs (p ∷ ys))

-- One occurrence taken off.
pub tally-erase :
    (f : ℕ → ℕ) (a : ℕ) (xs : List ℕ) → has a xs ≡ true → tally f (erase a xs) + f a ≡ tally f xs
unfolding tally
tally-erase f a [] m = absurd (ground arith)
tally-erase f a (x ∷ xs) m = elim (Bool-cases (a == x)) [
  | inl e ↦ rw e (omega (arith, ap f (==→eq a x e)))
  | inr e ↦ rw e (omega (arith, tally-erase f a xs (ground (arith, m, e))))
]

-- How often a number occurs.
abbrev pub occurs : ℕ → ℕ → ℕ
occurs a x = if a == x then 1 else 0

abbrev pub times : ℕ → List ℕ → ℕ
times a xs = tally (occurs a) xs
