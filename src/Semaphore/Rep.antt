-- ===== src/Semaphore/Rep.antt =====
-- When the pointers of a semaphore stand for a queue, and the pointer operations on such a queue.
use coasio.Common.{
  ℕ, ◌≤◌, ◌≡◌, ◌≢◌, refl, true, false, not, List, [], ◌∷◌, ◌++◌, arith, ◌==◌, has, erase, last_or,
  last_or-snoc, is_empty, All, All-erase, All-snoc, All-map, All-has, inl, inr, Bool-cases,
}
use coasio.Links.{Ptr, null, Links, put, splice, clear}
use coasio.Links.Chain.{
  Chain, clear-Joins, erase-Chain, link_back-Chain, last-erase, mem-ne-null, prev_of_mem, last-eq,
}
use coasio.Words.{max_permits}
use coasio.Semaphore.{Sem, Waiter, link_tail, unlink}

-- A waiter that is queued has been neither served nor cancelled, and its request is no negative
-- number.
abbrev pub Waits : Sem → Ptr → Type 0
Waits s w =
    ((s.waiters w).acquired ≡ false)
    × ((s.waiters w).cancelled ≡ false)
    × ((s.waiters w).requested_permits ≤ max_permits)

-- The well-formed states: the queue is `xs`, oldest first.
pub record Rep (s : Sem) (xs : List Ptr) : Type 0 where
  pub chain : Chain s.links null s.head xs
  pub last : s.tail ≡ last_or null xs
  pub flag : s.has_waiters ≡ not (is_empty xs)
  pub nonneg : s.permits ≤ max_permits
  pub waiting : All (Waits s) xs

null_fresh : (s : Sem) (xs : List Ptr) → Rep s xs → has null xs ≡ false
null_fresh s xs r = elim (Bool-cases (has null xs)) [
  | inl e ↦ absurd (mem-ne-null s.links null s.head xs r.chain null e refl)
  | inr e ↦ e
]

head_is_empty : (l : Links) (b p : Ptr) (xs : List Ptr) → Chain l b p xs → (p == null) ≡ is_empty xs
head_is_empty l b p [] c = ground arith
head_is_empty l b p (x ∷ xs) c = ground arith

pub head-is_empty : (s : Sem) (xs : List Ptr) → Rep s xs → (s.head == null) ≡ is_empty xs
head-is_empty s xs r = head_is_empty s.links null s.head xs r.chain

pub unlink-Rep :
    (s : Sem) (xs : List Ptr) (w : Ptr) → Rep s xs → has w xs ≡ true → Rep (unlink s w) (erase w xs)
unfolding unlink
unlink-Rep s xs w r m =
    let fresh = null_fresh s xs r in
    let joins = clear-Joins s.links w in
    let erased =
      erase-Chain s.links (clear (splice s.links w) w) w joins null s.head xs r.chain m in
    let first = prev_of_mem s.links null s.head xs r.chain w m fresh in
    let left = head_is_empty _ null _ (erase w xs) (erased fresh) in
    record {
      chain = rw first.0 (erased fresh);
      last = ground (arith, last-erase s.links null s.head xs r.chain w m, r.last);
      flag = ground (arith, first.0, left, r.flag, m);
      nonneg = r.nonneg;
      waiting = All-erase (Waits s) w xs r.waiting;
    }

pub link_tail-Rep :
    (s : Sem) (xs : List Ptr) (w : Ptr)
    → Rep s xs
    → w ≢ null
    → has w xs ≡ false
    → Waits s w
    → Rep (link_tail s w) (xs ++ w ∷ [])
unfolding link_tail
link_tail-Rep s xs w r h out waits =
    let fresh = null_fresh s xs r in
    let linked = link_back-Chain s.links w xs null s.head r.chain h out fresh (ground arith) in
    record {
      chain = rw (r.last, last-eq s.links null s.head xs r.chain fresh) linked;
      last = rw last_or-snoc;
      flag = ground arith;
      nonneg = r.nonneg;
      waiting = All-snoc (Waits s) xs w r.waiting waits;
    }

-- The flags of a waiter off the queue are nobody's concern.
pub update-Rep :
    (s : Sem) (w : Ptr) (v : Waiter) (xs : List Ptr)
    → Rep s xs
    → has w xs ≡ false
    → Rep (record s { waiters = put s.waiters w v }) xs
update-Rep s w v xs r out = record {
  chain = r.chain;
  last = r.last;
  flag = r.flag;
  nonneg = r.nonneg;
  waiting = All-map (Waits s) _ xs r.waiting (λ a m h. ground arith);
}

pub more-Rep :
    (s : Sem) (n : ℕ) (xs : List Ptr)
    → Rep s xs
    → n ≤ max_permits
    → Rep (record s { permits = n }) xs
more-Rep s n xs r h = record {
  chain = r.chain;
  last = r.last;
  flag = r.flag;
  nonneg = h;
  waiting = r.waiting;
}

pub has-Waits : (s : Sem) (w : Ptr) (xs : List Ptr) → Rep s xs → has w xs ≡ true → Waits s w
has-Waits s w xs r m = All-has (Waits s) w xs r.waiting m
