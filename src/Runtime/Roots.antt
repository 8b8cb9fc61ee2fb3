-- ===== src/Runtime/Roots.antt =====
-- The list of root tasks: `register_root`, `unregister_root` and the loop of the destructor.
use coasio.Common.{
  ℕ, zero, suc, ◌<◌, ◌^◌, ◌≡◌, ◌≢◌, refl, ap, ◌∙◌, true, false, List, [], ◌∷◌, none, some, arith,
  ◌==◌, has, erase, length, is_empty, inl, inr, Bool-cases,
}
use coasio.Links.{Ptr, null, splice}
use coasio.Links.Chain.{
  Chain, splice-Joins, erase-Chain, link_front-Chain, mem-ne-null, prev_of_mem,
}
use coasio.Words.{add64, sub64}
use coasio.Runtime.{Runtime, register_root, unregister_root, cancel_roots, is_drained}

pub record Rep {ℓ} {A : Type ℓ} (r : Runtime A) (xs : List Ptr) : Type ℓ where
  pub chain : Chain r.links null r.roots_head xs
  pub counted : r.live_roots ≡ length xs
  pub bounded : length xs < 2 ^ 64

length-erase : (w : ℕ) (xs : List ℕ) → has w xs ≡ true → length xs ≡ suc (length (erase w xs))
length-erase w [] h = ground arith
length-erase w (x ∷ xs) h = ground (arith, length-erase w xs)

empty-length : (xs : List ℕ) → (length xs == 0) ≡ is_empty xs
empty-length [] = refl
empty-length (x ∷ xs) = ground arith

counted_down : (n : ℕ) → suc n < 2 ^ 64 → sub64 (suc n) 1 ≡ n
unfolding sub64
counted_down n lt = omega arith

counted_up : (n : ℕ) → suc n < 2 ^ 64 → add64 n 1 ≡ suc n
unfolding add64
counted_up n lt = omega arith

module _ {ℓ} {A : Type ℓ} (r : Runtime A) (xs : List Ptr) (rep : Rep r xs) where
  null_fresh : has null xs ≡ false
  null_fresh = elim (Bool-cases (has null xs)) [
    | inl e ↦ absurd (mem-ne-null r.links null r.roots_head xs rep.chain null e refl)
    | inr e ↦ e
  ]

  -- A root that is registered stands in front of the others, and is counted.
  pub register_root-Rep :
      (n : Ptr)
      → n ≢ null
      → has n xs ≡ false
      → suc (length xs) < 2 ^ 64
      → Rep (register_root r n) (n ∷ xs)
  unfolding register_root
  register_root-Rep n h out room = record {
    chain = link_front-Chain r.links r.roots_head n xs rep.chain h out;
    counted = ap (λ k. add64 k 1) rep.counted ∙ counted_up (length xs) room;
    bounded = room;
  }

  -- On a well-formed list of roots, a root that is unregistered is off the list, the others keep
  -- their order, the count goes down by one, and the destructor is notified exactly when no root
  -- is left.
  pub unregister_root-Rep :
      (n : Ptr)
      → has n xs ≡ true
      → Rep (unregister_root r n).0 (erase n xs) × ((unregister_root r n).1 ≡ is_empty (erase n xs))
  unfolding unregister_root
  unregister_root-Rep n m =
      let size = length-erase n xs m in
      let live =
        ap (λ k. sub64 k 1) (rep.counted ∙ size)
        ∙ counted_down (length (erase n xs)) (rw (← size) rep.bounded) in
      let first = prev_of_mem r.links null r.roots_head xs rep.chain n m null_fresh in
      let erased =
        erase-Chain r.links (splice r.links n) n (splice-Joins r.links n) null r.roots_head xs
          rep.chain m in
      (
        record {
          chain = rw first.0 (erased null_fresh);
          counted = live;
          bounded = ground (arith, rep.bounded, size);
        },
        ap (λ k. k == 0) live ∙ empty-length (erase n xs),
      )

  pub is_drained-is_empty : is_drained r ≡ is_empty xs
  unfolding is_drained
  is_drained-is_empty = rw rep.counted (empty-length xs)

-- The scopes of some roots.
pub scopes_of {ℓ} : {A : Type ℓ} → Runtime A → List Ptr → List ℕ
scopes_of r [] = []
scopes_of r (x ∷ xs) = elim (r.frames x).promise.scope_raw [
  | none ↦ scopes_of r xs
  | some scope ↦ scope ∷ scopes_of r xs
]

cancel_first {ℓ} :
    {A : Type ℓ} (r : Runtime A) (fuel : ℕ) (x : Ptr)
    → x ≢ null
    → cancel_roots (suc fuel) r x ≡ elim (r.frames x).promise.scope_raw [
      | none ↦ cancel_roots fuel r (r.links.next x)
      | some scope ↦ scope ∷ cancel_roots fuel r (r.links.next x)
    ]
unfolding cancel_roots
cancel_first r fuel x ne = let some_root : (x == null) ≡ false = ground arith in rw some_root refl

cancel_roots-Chain {ℓ} :
    {A : Type ℓ} (r : Runtime A) (fuel : ℕ) (b p : Ptr) (xs : List Ptr)
    → Chain r.links b p xs
    → length xs < fuel
    → cancel_roots fuel r p ≡ scopes_of r xs
unfolding cancel_roots scopes_of
cancel_roots-Chain r zero b p xs c lt = ground arith
cancel_roots-Chain r (suc fuel) b p [] c lt = rw c refl
cancel_roots-Chain r (suc fuel) b p (x ∷ xs) c lt =
    let rest = cancel_roots-Chain r fuel x (r.links.next x) xs c.4 (ground arith) in
    ap (cancel_roots (suc fuel) r) c.0
    ∙ cancel_first r fuel x c.1
    ∙ ap (λ k. elim (r.frames x).promise.scope_raw [ none ↦ k | some scope ↦ scope ∷ k ]) rest

-- On a well-formed list of roots the loop of the destructor cancels the scope of every live root
-- that has one, each once, in the order of the list; it is enough to allow one round more than
-- there are roots.
pub cancel_roots_all {ℓ} :
    {A : Type ℓ} (r : Runtime A) (fuel : ℕ) (xs : List Ptr)
    → Rep r xs
    → length xs < fuel
    → cancel_roots fuel r r.roots_head ≡ scopes_of r xs
cancel_roots_all r fuel xs rep lt = cancel_roots-Chain r fuel null r.roots_head xs rep.chain lt
