-- ===== src/Semaphore/Serving.antt =====
-- Serving one waiter: what it does to the queue, and the outcome of serving several.
use coasio.Common.{
  ℕ, ◌-◌, ◌≤◌, ◌<◌, ◌≡◌, refl, ap, true, List, ◌∷◌, arith, leb, le→leb, if◌then◌else◌, has,
  erase-head,
}
use coasio.Links.{Ptr, put}
use coasio.Words.{sub64, sub64_small}
use coasio.Semaphore.{Sem, Waiter, unlink, set_acquired, serve}
use coasio.Semaphore.Rep.{Rep, unlink-Rep, update-Rep}
use coasio.Semaphore.Fifo.{granted, rest, left}

-- Serving the oldest waiter takes it off the queue and its permits off the counter.
pub serve-Rep :
    (s : Sem) (x : Ptr) (xs : List Ptr)
    → Rep s (x ∷ xs)
    → (s.waiters x).requested_permits ≤ s.permits
    → Rep (serve s x) xs
      × ((serve s x).permits ≡ s.permits - (s.waiters x).requested_permits)
      × ((serve s x).waiters ≡ put s.waiters x (record (s.waiters x) { acquired = true }))
unfolding serve unlink set_acquired
serve-Rep s x xs r fits =
    let less = sub64_small s.permits (s.waiters x).requested_permits fits r.nonneg in
    let taken : Rep (record s { permits = sub64 s.permits (s.waiters x).requested_permits })
        (x ∷ xs) =
      record {
        chain = r.chain;
        last = r.last;
        flag = r.flag;
        nonneg = omega (arith, less, r.nonneg);
        waiting = r.waiting;
      } in
    let gone = rw (erase-head x xs) at (unlink-Rep _ (x ∷ xs) x taken (ground arith)) in
    (update-Rep _ x _ xs gone r.chain.2, less, refl)

-- The outcome of the loop from `g` with the queue `xs`, where `needs` are the requests.
pub record Served (need : Ptr → ℕ) (s : Sem) (xs : List Ptr) (s' : Sem) : Type 0 where
  pub rep : Rep s' (rest need s.permits xs)
  pub permits : s'.permits ≡ left need s.permits xs
  pub waiters :
      (a : Ptr)
      → s'.waiters a ≡ (
          if has a (granted need s.permits xs)
          then record (s.waiters a) { acquired = true }
          else s.waiters a)

module _ (need : Ptr → ℕ) (s : Sem) (x : Ptr) (xs : List Ptr) where
  pub stop-Served : Rep s (x ∷ xs) → s.permits < need x → Served need s (x ∷ xs) s
  unfolding rest left granted
  stop-Served r h = record {
    rep = ground (arith, r);
    permits = ground arith;
    waiters = λ a. ground arith;
  }

  pub serve-Served :
      (s' : Sem)
      → (s.waiters x).requested_permits ≡ need x
      → need x ≤ s.permits
      → Rep s (x ∷ xs)
      → Served need (serve s x) xs s'
      → Served need s (x ∷ xs) s'
  unfolding rest left granted
  serve-Served s' e h r later =
      let (_, less, same) = serve-Rep s x xs r (omega arith) in
      let fits : leb (need x) s.permits ≡ true = le→leb _ _ h in
      let amount : (serve s x).permits ≡ s.permits - need x = omega arith in
      record {
        rep = rw fits (rw amount at later.rep);
        permits = rw fits (rw amount at later.permits);
        waiters = λ a.
            let was = ap (λ (f : Ptr → Waiter). f a) same in
            let now = rw amount at (later.waiters a) in rw fits (ground (arith, was, now));
      }
