-- ===== src/Echo/Window.antt =====
-- The ring of samples against the window of the last samples that it stands for.
use mathlib.Core.List.{Perm, perm_append_comm}
use mathlib.Core.List.Perm
use native.Mathlib.Nat.{mod_self, mod-eq_of_lt}
use coasio.Common.{
  ℕ, zero, suc, ◌+◌, ◌-◌, ◌%◌, ◌<◌, ◌≤◌, ◌≡◌, refl, sym, ap, subst, ◌∙◌, List, [], ◌∷◌, ◌++◌,
  Option, none, some, length, length-append, append_assoc, append-nil, arith, dec_lt,
}
use coasio.Echo.{Metrics, metrics, write_at, add_sample}

-- All samples, one after the other.
abbrev pub add_samples : {D : Type 0} → List D → Metrics D → Option (Metrics D)
add_samples [] m = some m
add_samples (v ∷ vs) m = elim (add_sample v m) [ none ↦ none | some m₁ ↦ add_samples vs m₁ ]

abbrev pub drop : {D : Type 0} → ℕ → List D → List D
drop zero xs = xs
drop (suc n) [] = []
drop (suc n) (x ∷ xs) = drop n xs

-- The last `n` of a list, or all of it.
abbrev pub last : {D : Type 0} → ℕ → List D → List D
last n xs = drop (length xs - n) xs

module _ {D : Type 0} where
  drop-append : (xs ys : List D) → drop (length xs) (xs ++ ys) ≡ ys
  drop-append [] ys = refl
  drop-append (x ∷ xs) ys = drop-append xs ys

  write_at-append :
      (xs : List D) (y : D) (ys : List D) (v : D)
      → write_at (xs ++ y ∷ ys) (length xs) v ≡ some (xs ++ v ∷ ys)
  unfolding write_at
  write_at-append [] y ys v = refl
  write_at-append (x ∷ xs) y ys v = ground (arith, write_at-append xs y ys v)

  -- `m` has all the samples, or the ring is full: `newer` in front of its head, `older` behind it,
  -- and what was there before them is `gone`.
  pub data Ring (n : ℕ) (all : List D) (m : Metrics D) : Type 0 where
    filling : m.max_size ≡ n → m.samples ≡ all → m.head ≡ 0 → length all ≤ n → Ring n all m
    turning :
        (gone older newer : List D)
        → m.max_size ≡ n
        → m.samples ≡ newer ++ older
        → m.head ≡ length newer
        → all ≡ gone ++ (older ++ newer)
        → length older + length newer ≡ n
        → 0 < length older
        → Ring n all m

  abbrev Next : ℕ → List D → D → Metrics D → Type 0
  Next n all v m = (m₁ : Metrics D) × (add_sample v m ≡ some m₁) × Ring n (all ++ v ∷ []) m₁

  overwrite :
      (n : ℕ) (gone newer : List D) (y : D) (ys : List D) (v : D)
      → suc (length ys) + length newer ≡ n
      → add_sample v (record { samples = newer ++ y ∷ ys; max_size = n; head = length newer })
        ≡ some (record { samples = newer ++ v ∷ ys; max_size = n; head = (length newer + 1) % n })
  unfolding add_sample
  overwrite n gone newer y ys v e =
      ground (arith, write_at-append newer y ys v, length-append newer (y ∷ ys))

  turn :
      (n : ℕ) (gone newer : List D) (y : D) (ys : List D) (v : D)
      → suc (length ys) + length newer ≡ n
      → Ring n
          ((gone ++ (y ∷ (ys ++ newer))) ++ v ∷ [])
          (record { samples = newer ++ v ∷ ys; max_size = n; head = (length newer + 1) % n })
  turn n gone newer y [] v e =
      let full : length newer + 1 ≡ n = omega (arith, e) in
      turning (gone ++ y ∷ []) (newer ++ v ∷ []) [] refl refl (ap (λ k. k % n) full ∙ mod_self n)
        (simp (append_assoc, append-nil)) (ground (arith, length-append newer (v ∷ [])))
        (ground (arith, length-append newer (v ∷ [])))
  turn n gone newer y (z ∷ zs) v e =
      let small : (length newer + 1) % n ≡ length newer + 1 = mod-eq_of_lt (omega (arith, e)) in
      turning (gone ++ y ∷ []) (z ∷ zs) (newer ++ v ∷ []) refl
        (sym (append_assoc newer (v ∷ []) (z ∷ zs))) (small ∙ sym (length-append newer (v ∷ [])))
        (simp (append_assoc)) (ground (arith, length-append newer (v ∷ []))) (ground arith)

  known :
      {n h : ℕ} {xs : List D} (m : Metrics D)
      → m.max_size ≡ n
      → m.samples ≡ xs
      → m.head ≡ h
      → record { samples = xs; max_size = n; head = h } ≡ m
  known {n} {h} {xs} m e f g = sym (
      ap (λ s. record { samples = s; max_size = m.max_size; head = m.head }) f
      ∙ ap (λ k. record { samples = xs; max_size = k; head = m.head }) e
      ∙ ap (λ k. record { samples = xs; max_size = n; head = k }) g)

  -- A ring that is full.
  turn-Next :
      (n : ℕ) (gone newer : List D) (y : D) (ys : List D) (v : D)
      → suc (length ys) + length newer ≡ n
      → Next n
          (gone ++ (y ∷ (ys ++ newer)))
          v
          (record { samples = newer ++ y ∷ ys; max_size = n; head = length newer })
  turn-Next n gone newer y ys v e = (_, overwrite n gone newer y ys v e, turn n gone newer y ys v e)

  full-Next :
      (n : ℕ) (all : List D) (v : D)
      → 0 < n
      → length all ≡ n
      → Next n all v (record { samples = all; max_size = n; head = 0 })
  full-Next n [] v pos e = absurd (omega (arith, pos, e))
  full-Next n (y ∷ ys) v pos e =
      subst
        (λ (xs : List D). Next n (y ∷ xs) v (record { samples = y ∷ ys; max_size = n; head = 0 }))
        (append-nil ys) (turn-Next n [] [] y ys v (omega (arith, e)))

  part-Next :
      (n : ℕ) (all : List D) (v : D)
      → length all < n
      → Next n all v (record { samples = all; max_size = n; head = 0 })
  unfolding add_sample
  part-Next n all v l =
      (_, ground (arith, l), filling refl refl refl (omega (arith, l, length-append all (v ∷ []))))

  Ring-step : (n : ℕ) (all : List D) (m : Metrics D) (v : D) → 0 < n → Ring n all m → Next n all v m
  Ring-step n all m v pos (filling s x h b) =
      subst (Next n all v) (known m s x h) (elim (dec_lt (length all) n) [
        | yes l ↦ part-Next n all v l
        | no g ↦ full-Next n all v pos (omega (arith, b, g))
      ])
  Ring-step n all m v pos (turning gone [] newer s x h a e p) = absurd (omega (arith, p))
  Ring-step n all m v pos (turning gone (y ∷ ys) newer s x h a e p) =
      subst (Next n all v) (known m s x h) (
        subst
          (λ (xs : List D).
            Next n xs v (record { samples = newer ++ y ∷ ys; max_size = n; head = length newer }))
          (sym a) (turn-Next n gone newer y ys v e))

  pub metrics-Ring : (n : ℕ) → Ring n [] (metrics n)
  metrics-Ring n = filling refl refl refl (omega arith)

  pub Ring-run :
      (n : ℕ) (all vs : List D) (m : Metrics D)
      → 0 < n
      → Ring n all m
      → (m₁ : Metrics D) × (add_samples vs m ≡ some m₁) × Ring n (all ++ vs) m₁
  Ring-run n all [] m pos r =
      (m, refl, subst (λ (xs : List D). Ring n xs m) (sym (append-nil all)) r)
  Ring-run n all (v ∷ vs) m pos r =
      let (m₁, one, r₁) = Ring-step n all m v pos r in
      let (m₂, more, r₂) = Ring-run n (all ++ v ∷ []) vs m₁ pos r₁ in
      (
        m₂,
        ground (arith, one, more),
        subst (λ (xs : List D). Ring n xs m₂) (append_assoc all (v ∷ []) vs) r₂,
      )

  pub Ring-last :
      (n : ℕ) (all : List D) (m : Metrics D) → Ring n all m → Perm m.samples (last n all)
  Ring-last n all m (filling s x h b) =
      let none_gone : length all - n ≡ 0 = omega (arith, b) in
      subst (λ (xs : List D). Perm m.samples xs) (ap (λ k. drop k all) (sym none_gone))
        (subst (λ (xs : List D). Perm m.samples xs) x Perm.rfl)
  Ring-last n all m (turning gone older newer s x h a e p) =
      let counted =
        ap (λ (xs : List D). length xs) a
        ∙ length-append gone (older ++ newer)
        ∙ ap (λ k. length gone + k) (length-append older newer) in
      let lost : length all - n ≡ length gone = omega (arith, counted, e) in
      let window : last n all ≡ older ++ newer =
        ap (λ k. drop k all) lost ∙ ap (drop (length gone)) a ∙ drop-append gone (older ++ newer) in
      subst (λ (xs : List D). Perm xs (last n all)) (sym x)
        (subst (λ (xs : List D). Perm (newer ++ older) xs) (sym window)
          (perm_append_comm newer older))
