-- ===== src/Links/Chain.antt =====
-- What a chain of nodes is, and that the pointer operations edit it as a list.
use coasio.Common.{
  ℕ, ◌≡◌, ◌≢◌, ◌⊎◌, refl, true, false, List, [], ◌∷◌, ◌++◌, arith, ◌==◌, if◌then◌else◌, has, erase,
  last_or, not-has-erase, has-append, inl, inr, Bool-cases,
}
use coasio.Links.{Ptr, null, Links, splice, clear, link_front, link_back}

-- From `p`, whose predecessor is `b`, the `next` pointers lead through the distinct nodes `xs` to
-- `null`, and the `prev` pointers lead back.
abbrev pub Chain : Links → Ptr → Ptr → List Ptr → Type 0
Chain l b p [] = p ≡ null
Chain l b p (x ∷ xs) =
    (p ≡ x) × (x ≢ null) × (has x xs ≡ false) × (l.prev x ≡ b) × Chain l x (l.next x) xs

module _ (l l' : Links) where
  -- A chain survives a change that spares the pointers of its own nodes.
  pub frame :
      (b p : Ptr) (xs : List Ptr)
      → Chain l b p xs
      → ((a : Ptr) → has a xs ≡ true → (l'.next a ≡ l.next a) × (l'.prev a ≡ l.prev a))
      → Chain l' b p xs
  frame b p [] c same = c
  frame b p (x ∷ xs) c same =
      let rest = frame x (l.next x) xs c.4 (λ a h. same a (ground arith)) in
      ground (arith, same x, rest)

  -- The same, where the first node gets another predecessor.
  pub rebase :
      (b b' p : Ptr) (xs : List Ptr)
      → Chain l b p xs
      → ((a : Ptr)
          → has a xs ≡ true
          → (l'.next a ≡ l.next a) × (l'.prev a ≡ (if a == p then b' else l.prev a)))
      → Chain l' b' p xs
  rebase b b' p [] c same = c
  rebase b b' p (x ∷ xs) c same =
      let rest = frame x (l.next x) xs c.4 (λ a h. ground (arith, same a)) in
      ground (arith, same x, rest)

last-mem : (x : ℕ) (xs : List ℕ) → has (last_or x xs) (x ∷ xs) ≡ true
last-mem x [] = ground arith
last-mem x (y ∷ xs) = ground (arith, last-mem y xs)

module _ (l : Links) where
  -- The nodes on the way name each other.
  pub prev_of_mem :
      (b p : Ptr) (xs : List Ptr)
      → Chain l b p xs
      → (w : Ptr) → has w xs ≡ true
      → has b xs ≡ false
      → ((l.prev w == b) ≡ (p == w)) × ((has (l.prev w) xs ≡ true) ⊎ (l.prev w ≡ b))
  prev_of_mem b p [] c w m out = cc
  prev_of_mem b p (x ∷ xs) c w m out = elim (Bool-cases (w == x)) [
    | inl e ↦ ground arith
    | inr e ↦ ground (arith, prev_of_mem x (l.next x) xs c.4 w)
  ]

  pub mem-ne-null :
      (b p : Ptr) (xs : List Ptr) → Chain l b p xs → (a : Ptr) → has a xs ≡ true → a ≢ null
  mem-ne-null b p [] c a m = cc
  mem-ne-null b p (x ∷ xs) c a m = ground (arith, mem-ne-null x (l.next x) xs c.4 a)

  pub next_of_mem :
      (b p : Ptr) (xs : List Ptr)
      → Chain l b p xs
      → (w : Ptr) → has w xs ≡ true
      → (l.next w ≡ null) ⊎ ((has (l.next w) xs ≡ true) × (l.next w ≢ w))
  next_of_mem b p [] c w m = cc
  next_of_mem b p (x ∷ []) c w m = ground arith
  next_of_mem b p (x ∷ y ∷ xs) c w m = elim (Bool-cases (w == x)) [
    | inl e ↦ inr (ground arith, ground arith)
    | inr e ↦ ground (arith, next_of_mem x (l.next x) (y ∷ xs) c.4 w (ground arith))
  ]

  pub last-erase :
      (b p : Ptr) (xs : List Ptr)
      → Chain l b p xs
      → (w : Ptr) → has w xs ≡ true
      → last_or b (erase w xs) ≡ (if l.next w == null then l.prev w else last_or b xs)
  last-erase b p [] c w m = cc
  last-erase b p (x ∷ []) c w m = ground arith
  last-erase b p (x ∷ y ∷ xs) c w m = elim (Bool-cases (w == x)) [
    | inl e ↦ ground arith
    | inr e ↦ ground (arith, last-erase x (l.next x) (y ∷ xs) c.4 w)
  ]

  pub not-has-erase_self :
      (b p : Ptr) (xs : List Ptr) → Chain l b p xs → (w : Ptr) → has w (erase w xs) ≡ false
  not-has-erase_self b p [] c w = refl
  not-has-erase_self b p (x ∷ xs) c w = ground (arith, not-has-erase_self x (l.next x) xs c.4 w)

  pub head-ne :
      (b p : Ptr) (xs : List Ptr) (n : Ptr) → Chain l b p xs → n ≢ null → has n xs ≡ false → p ≢ n
  head-ne b p [] n c h out = ground arith
  head-ne b p (x ∷ xs) n c h out = ground arith

  pub last-ne :
      (b p : Ptr) (xs : List Ptr) (n : Ptr)
      → Chain l b p xs
      → has n xs ≡ false
      → b ≢ n
      → last_or b xs ≢ n
  last-ne b p [] n c out ne = ne
  last-ne b p (x ∷ xs) n c out ne = last-ne x (l.next x) xs n c.4 (ground arith) (ground arith)

  -- A node is the last one exactly if nothing follows it.
  pub last-eq :
      (b p : Ptr) (xs : List Ptr)
      → Chain l b p xs
      → has b xs ≡ false
      → (last_or b xs == b) ≡ (p == null)
  last-eq b p [] c out = ground arith
  last-eq b p (x ∷ xs) c out = ground (arith, last-mem x xs, c.1)

-- `l'` is `l` with the neighbours of `w` joined; the pointers of `w` itself are left open.
pub record Joins (l l' : Links) (w : Ptr) : Type 0 where
  pub next_lem :
      (a : Ptr) → a ≢ null → a ≢ w → l'.next a ≡ (if a == l.prev w then l.next w else l.next a)
  pub prev_lem :
      (a : Ptr) → a ≢ null → a ≢ w → l'.prev a ≡ (if a == l.next w then l.prev w else l.prev a)

pub splice-Joins : (l : Links) (w : Ptr) → Joins l (splice l w) w
unfolding splice
splice-Joins l w = record { next_lem = λ a h k. ground arith; prev_lem = λ a h k. ground arith }

pub clear-Joins : (l : Links) (w : Ptr) → Joins l (clear (splice l w) w) w
unfolding splice clear
clear-Joins l w = record { next_lem = λ a h k. ground arith; prev_lem = λ a h k. ground arith }

module _ (l l' : Links) (w : Ptr) (j : Joins l l' w) where
  head-erase :
      (b p x : Ptr) (xs : List Ptr)
      → Chain l b p (x ∷ xs)
      → (w == x) ≡ true
      → has b xs ≡ false
      → Chain l' b (l.next w) xs
  head-erase b p x xs c e out = rebase l l' x b (l.next w) xs (ground arith) λ a m.
      let nonnull = mem-ne-null l x (l.next x) xs c.4 a m in
      ground
        (arith, nonnull, j.next_lem a nonnull (ground arith), j.prev_lem a nonnull (ground arith))

  -- Joining the neighbours of a node takes it out of the chain.
  pub erase-Chain :
      (b p : Ptr) (xs : List Ptr)
      → Chain l b p xs
      → has w xs ≡ true
      → has b xs ≡ false
      → Chain l' b (if p == w then l.next w else p) (erase w xs)
  erase-Chain b p [] c m out = cc
  erase-Chain b p (x ∷ xs) c m out = elim (Bool-cases (w == x)) [
    | inl e ↦ rw e (ground (arith, head-erase b p x xs c e (ground arith)))
    | inr e ↦
        let rest = erase-Chain x (l.next x) xs c.4 (ground arith) c.2 in
        let first = prev_of_mem l x (l.next x) xs c.4 w (ground arith) c.2 in
        let next = next_of_mem l x (l.next x) xs c.4 w (ground arith) in
        let fresh = not-has-erase x w xs c.2 in
        rw e (ground (arith, rest, first, next, fresh, j.next_lem x, j.prev_lem x))
  ]

-- What a new node in front, or at the end, changes.
link_front_fields :
    (l : Links) (head n a : Ptr)
    → head ≢ n
    → ((link_front l head n).next a ≡ (if a == n then head else l.next a))
      × ((link_front l head n).prev n ≡ null)
      × (a ≢ n → a ≢ null → (link_front l head n).prev a ≡ (if a == head then n else l.prev a))
unfolding link_front
link_front_fields l head n a h = elim (Bool-cases (head == null)) [
  | inl e ↦ rw e (ground arith, ground arith, λ p q. ground arith)
  | inr e ↦ rw e (ground arith, ground arith, λ p q. ground arith)
]

link_back_fields :
    (l : Links) (tail n a : Ptr)
    → tail ≢ n
    → ((link_back l tail n).prev a ≡ (if a == n then tail else l.prev a))
      × ((link_back l tail n).next n ≡ null)
      × (a ≢ n → a ≢ null → (link_back l tail n).next a ≡ (if a == tail then n else l.next a))
unfolding link_back
link_back_fields l tail n a h = elim (Bool-cases (tail == null)) [
  | inl e ↦ rw e (ground arith, ground arith, λ p q. ground arith)
  | inr e ↦ rw e (ground arith, ground arith, λ p q. ground arith)
]

pub link_front-Chain :
    (l : Links) (head n : Ptr) (xs : List Ptr)
    → Chain l null head xs
    → n ≢ null
    → has n xs ≡ false
    → Chain (link_front l head n) null n (n ∷ xs)
link_front-Chain l head n xs c h out =
    let apart : head ≢ n = head-ne l null head xs n c h out in
    let fields = λ (a : Ptr). link_front_fields l head n a apart in
    let rest = rebase l (link_front l head n) null n head xs c (λ a m.
      let nonnull = mem-ne-null l null head xs c a m in
      ground (arith, (fields a).0, (fields a).2 (ground arith) nonnull)) in
    ground (arith, rest, fields n)

pub link_back-Chain :
    (l : Links) (n : Ptr) (xs : List Ptr) (b p : Ptr)
    → Chain l b p xs
    → n ≢ null
    → has n xs ≡ false
    → has b xs ≡ false
    → b ≢ n
    → Chain (link_back l (last_or b xs) n) b (if p == null then n else p) (xs ++ n ∷ [])
link_back-Chain l n [] b p c h out ob ne = ground (arith, link_back_fields l b n n ne)
link_back-Chain l n (x ∷ xs) b p c h out ob ne =
    let tail = last_or x xs in
    let rest = link_back-Chain l n xs x (l.next x) c.4 h (ground arith) c.2 (ground arith) in
    let fresh = has-append x xs (n ∷ []) in
    let apart : tail ≢ n = last-ne l x (l.next x) xs n c.4 (ground arith) (ground arith) in
    let fields = link_back_fields l tail n x apart in
    let ended = last-eq l x (l.next x) xs c.4 c.2 in
    ground (arith, rest, fresh, fields.0, fields.2 (ground arith) c.1, ended)
