-- ===== src/Echo/Percentiles.antt =====
-- The percentiles of the ring are those of the window.
use mathlib.Core.List.{
  Pairwise, Perm, Mem, mem-cons_self, eq-or-mem_of_mem-cons, rel_of_Pairwise-cons,
}
use mathlib.Core.List.Pairwise
use mathlib.Core.List.Perm
use mathlib.Core.Logic.Or
use mathlib.Core.Bool.{Bool-set}
use coasio.Echo.Window.{add_samples, last, metrics-Ring, Ring-run, Ring-last}
use coasio.Common.{
  ℕ, zero, suc, ◌+◌, ◌-◌, ◌%◌, ◌<◌, ◌≡◌, refl, sym, ap, subst, ◌∙◌, true, List, [], ◌∷◌, some,
  length, is_some, ◌^◌, arith,
}
use coasio.Echo.{Doubles, Metrics, metrics, get_elem?, clamp, get_percentile_value, get_percentiles}

module _ {D : Type 0} (d : Doubles D) where
  abbrev Ascending : List D → Type 0
  Ascending = Pairwise (λ a b. d.le a b ≡ true)

  head_le : (a : D) (l : List D) (b : D) → Ascending (a ∷ l) → Mem b (a ∷ l) → d.le a b ≡ true
  head_le a l b s m =
      Or.elim (Bool-set (d.le a b) true) (eq-or-mem_of_mem-cons m)
        (λ e. subst (λ x. d.le a x ≡ true) (sym e) (d.le_refl a)) (λ i. rel_of_Pairwise-cons s i)

  sorted_once : (l r : List D) → Ascending l → Ascending r → Perm l r → l ≡ r
  sorted_once [] r sl sr p = Perm.nil-eq p
  sorted_once (a ∷ l) [] sl sr p = Perm.eq-nil p
  sorted_once (a ∷ l) (b ∷ r) sl sr p =
      let first =
        d.le_antisymm a b (head_le a l b sl ((Perm.mem_iff (Perm.symm p)).0 mem-cons_self))
          (head_le b r a sr ((Perm.mem_iff p).0 mem-cons_self)) in
      let rests = Perm.cons_inv (Perm.trans p (Perm.cons' (sym first) Perm.rfl)) in
      ap (λ x. x ∷ l) first
      ∙ ap (◌∷◌ b) (sorted_once l r (Pairwise.of_cons sl) (Pairwise.of_cons sr) rests)

  sort_eq : (l r : List D) → Perm l r → d.sort l ≡ d.sort r
  sort_eq l r p =
      sorted_once (d.sort l) (d.sort r) (d.sort-Pairwise l) (d.sort-Pairwise r)
        (Perm.trans (d.sort-Perm l) (Perm.trans p (Perm.symm (d.sort-Perm r))))

  get_percentiles_eq : (l r : List D) → Perm l r → get_percentiles d l ≡ get_percentiles d r
  unfolding get_percentiles
  get_percentiles_eq [] r p = ap (get_percentiles d) (Perm.nil-eq p)
  get_percentiles_eq (x ∷ xs) [] p = ap (get_percentiles d) (Perm.eq-nil p)
  get_percentiles_eq (x ∷ xs) (y ∷ ys) p =
      ap
        (λ s.
          (get_percentile_value d s 50, get_percentile_value d s 90, get_percentile_value d s 99))
        (sort_eq (x ∷ xs) (y ∷ ys) p)

  -- A ring of `n` samples, more than none, after any sequence of samples: none of them was
  -- written out of range, the ring holds the last `n` of them, or all if there are fewer, in some
  -- order, and its percentiles are those of these samples in the order in which they came.
  pub samples_window :
      (n : ℕ) (vs : List D)
      → 0 < n
      → (m : Metrics D) × (add_samples vs (metrics n) ≡ some m)
        × Perm m.samples (last n vs)
        × (get_percentiles d m.samples ≡ get_percentiles d (last n vs))
  samples_window n vs pos =
      let (m, ran, r) = Ring-run n [] vs (metrics n) pos (metrics-Ring n) in
      let same = Ring-last n vs m r in (m, ran, same, get_percentiles_eq m.samples (last n vs) same)

  get_elem?_total : (xs : List D) (i : ℕ) → i < length xs → is_some (get_elem? xs i) ≡ true
  unfolding get_elem?
  get_elem?_total [] i h = absurd (omega (arith, h))
  get_elem?_total (x ∷ xs) zero h = refl
  get_elem?_total (x ∷ xs) (suc i) h = get_elem?_total xs i (omega (arith, h))

  -- A percentile of a list that is not empty is read within the list, whatever the rank.
  pub get_percentile_value_total :
      (xs : List D) (percent : ℕ)
      → 0 < length xs
      → is_some (get_percentile_value d xs percent) ≡ true
  unfolding get_percentile_value
  get_percentile_value_total xs percent h =
      let i = (d.rank percent (length xs) + (2 ^ 64 - 1)) % 2 ^ 64 in
      get_elem?_total xs (clamp i (length xs - 1)) (ground (arith, h))
