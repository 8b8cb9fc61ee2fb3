-- ===== src/Common/Lists.antt =====
-- Lists measured by native numbers, and lists of numbers with a Boolean membership test.
use Prim.Native.Nat.{ℕ, suc, ◌+◌, ◌≤◌}
use mathlib.Core.Path.{◌≡◌, refl, sym, subst}
use mathlib.Core.Bool.{Bool, true, false, ◌||◌, false≢true}
use mathlib.Core.Logic.{inl, inr}
use mathlib.Core.List.{List, [], ◌∷◌, ◌++◌}
use native.Mathlib.Omega.{arith}
use coasio.Common.Tests.{◌==◌, if◌then◌else◌, Bool-cases, ==→eq}

module _ {ℓ} {A : Type ℓ} where
  abbrev pub length : List A → ℕ
  length [] = 0
  length (x ∷ xs) = suc (length xs)

  abbrev pub is_empty : List A → Bool
  is_empty [] = true
  is_empty (x ∷ xs) = false

  pub length-append : (xs ys : List A) → length (xs ++ ys) ≡ length xs + length ys
  length-append [] ys = omega arith
  length-append (x ∷ xs) ys = omega (arith, length-append xs ys)

-- A predicate that holds of every entry; it computes to a tuple.
abbrev pub All {ℓ κ} : {A : Type ℓ} → (A → Type κ) → List A → Type κ
All P [] = Unit
All P (x ∷ xs) = P x × All P xs

abbrev pub has : ℕ → List ℕ → Bool
has a [] = false
has a (x ∷ xs) = (a == x) || has a xs

-- Drops the first occurrence.
abbrev pub erase : ℕ → List ℕ → List ℕ
erase a [] = []
erase a (x ∷ xs) = if a == x then xs else x ∷ erase a xs

abbrev pub last_or : ℕ → List ℕ → ℕ
last_or b [] = b
last_or b (x ∷ xs) = last_or x xs

pub has-append : (a : ℕ) (xs ys : List ℕ) → has a (xs ++ ys) ≡ (has a xs || has a ys)
has-append a [] ys = refl
has-append a (x ∷ xs) ys = ground (arith, has-append a xs ys)

pub has-is_empty : (a : ℕ) (xs : List ℕ) → has a xs ≡ true → is_empty xs ≡ false
has-is_empty a [] h = cc
has-is_empty a (x ∷ xs) h = refl

pub not-has-erase : (a w : ℕ) (xs : List ℕ) → has a xs ≡ false → has a (erase w xs) ≡ false
not-has-erase a w [] h = refl
not-has-erase a w (x ∷ xs) h = ground (arith, not-has-erase a w xs)

pub length-erase : (a : ℕ) (xs : List ℕ) → length (erase a xs) ≤ length xs
length-erase a [] = omega arith
length-erase a (x ∷ xs) = ground (arith, length-erase a xs)

pub erase-head : (x : ℕ) (xs : List ℕ) → erase x (x ∷ xs) ≡ xs
erase-head x xs = ground arith

pub erase_absent : (w : ℕ) (xs : List ℕ) → has w xs ≡ false → erase w xs ≡ xs
erase_absent w [] h = refl
erase_absent w (x ∷ xs) h = ground (arith, erase_absent w xs)

pub erase-snoc : (w : ℕ) (xs : List ℕ) → has w xs ≡ false → erase w (xs ++ w ∷ []) ≡ xs
erase-snoc w [] h = ground arith
erase-snoc w (x ∷ xs) h = ground (arith, erase-snoc w xs)

pub last_or-snoc : (b x : ℕ) (xs : List ℕ) → last_or b (xs ++ x ∷ []) ≡ x
last_or-snoc b x [] = refl
last_or-snoc b x (y ∷ xs) = last_or-snoc y x xs

module _ {ℓ} (P : ℕ → Type ℓ) where
  pub All-erase : (w : ℕ) (xs : List ℕ) → All P xs → All P (erase w xs)
  All-erase w [] h = h
  All-erase w (x ∷ xs) h = ground (arith, All-erase w xs h.1)

  pub All-snoc : (xs : List ℕ) (x : ℕ) → All P xs → P x → All P (xs ++ x ∷ [])
  All-snoc [] x h hx = (hx, tt)
  All-snoc (y ∷ xs) x h hx = (h.0, All-snoc xs x h.1 hx)

  -- A predicate that holds wherever a list's entries satisfy `P`.
  pub All-map {κ} :
      (Q : ℕ → Type κ) (xs : List ℕ) → All P xs → ((a : ℕ) → has a xs ≡ true → P a → Q a) → All Q xs
  All-map Q [] h f = tt
  All-map Q (x ∷ xs) h f =
      (f x (ground arith) h.0, All-map Q xs h.1 (λ a m p. f a (ground arith) p))

  pub All-has : (a : ℕ) (xs : List ℕ) → All P xs → has a xs ≡ true → P a
  All-has a [] h m = absurd (false≢true m)
  All-has a (x ∷ xs) h m = elim (Bool-cases (a == x)) [
    | inl e ↦ subst P (sym (==→eq a x e)) h.0
    | inr e ↦ All-has a xs h.1 (ground arith)
  ]
