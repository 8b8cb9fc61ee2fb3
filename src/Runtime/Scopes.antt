-- ===== src/Runtime/Scopes.antt =====
-- The scope of a root, down its tree of tasks: `_spawn`, and `await_transform` of children and of leaves.
use coasio.Common.{ℕ, ◌≡◌, refl, ap, List, [], ◌∷◌, Option, some}
use coasio.Task.{Promise, Frame, adopt, transform_leaf, detach}
use coasio.Runtime.{rooted}

module _ {ℓ} {A : Type ℓ} where
  -- The promise of the last of some tasks, each awaited by the one before it.
  abbrev pub descend : Promise A → List (Promise A) → Promise A
  descend p [] = p
  descend p (c ∷ cs) = descend (adopt p c) cs

  descend-owning_scope :
      (p : Promise A) (cs : List (Promise A)) → (descend p cs).owning_scope ≡ p.owning_scope
  unfolding adopt
  descend-owning_scope p [] = refl
  descend-owning_scope p (c ∷ cs) = descend-owning_scope (adopt p c) cs

  -- An awaitable that is awaited by a root, or by the last of any number of tasks below it that
  -- are each awaited by the one before, is given the scope that the root was spawned with.
  pub scope_inherited {κ} :
      {B : Type κ} (set_cancel_scope : Option ℕ → B → B) (f : Frame A) (scope channel : ℕ)
      (cs : List (Promise A)) (leaf : B)
      → transform_leaf set_cancel_scope (descend (rooted f scope channel).promise cs) leaf
        ≡ set_cancel_scope (some scope) leaf
  unfolding transform_leaf rooted detach
  scope_inherited set_cancel_scope f scope channel cs leaf =
      ap (λ s. set_cancel_scope s leaf) (descend-owning_scope (rooted f scope channel).promise cs)
