-- ===== src/Semaphore.antt =====
-- `semaphore_detail::state` of include/coasio/sync/semaphore.hpp: the permit counter, the intrusive
-- FIFO of waiters, and the operations that run under `queue_mtx_`. The members of a waiter are
-- split: `prev` and `next` live in `links`, the others in `waiters`. The coroutines that an
-- operation hands to `runtime_schedule` are part of its result, in the order of the calls.
pub mod Rep
pub mod Fifo
pub mod Serving
pub mod Granting
pub mod Operations
pub mod Leaving
pub mod World
pub mod Wakeups
pub mod GivenUp
pub mod Permit
pub mod Awaiter
pub mod Mutex
mod Examples
mod PermitExamples
mod MutexExamples
use coasio.Common.{
  ℕ, zero, suc, ◌+◌, ◌-◌, Bool, true, false, not, ◌||◌, List, [], ◌∷◌, ◌++◌, Option, none, some,
  ltb, ◌==◌, if◌then◌else◌, length,
}
use coasio.Links.{Ptr, null, Links, put, splice, clear, link_back}
use coasio.Words.{add64, sub64, signed_lt}

pub record Waiter : Type 0 where
  pub handle : ℕ
  pub rt : ℕ
  pub requested_permits : ℕ
  pub acquired : Bool
  pub cancelled : Bool

pub record Sem : Type 0 where
  pub permits : ℕ
  pub has_waiters : Bool
  pub head : Ptr
  pub tail : Ptr
  pub links : Links
  pub waiters : Ptr → Waiter

pub record ToWake : Type 0 where
  pub rt : ℕ
  pub handle : ℕ

-- `explicit state(initial)`; the links and waiters of nodes that are not queued are arbitrary.
pub init : ℕ → Links → (Ptr → Waiter) → Sem
init initial l ws = record {
  permits = initial;
  has_waiters = false;
  head = null;
  tail = null;
  links = l;
  waiters = ws;
}

abbrev pub wake_of : Sem → Ptr → ToWake
wake_of s w = record { rt = (s.waiters w).rt; handle = (s.waiters w).handle }

pub link_tail : Sem → Ptr → Sem
link_tail s w = record s {
  links = link_back s.links s.tail w;
  head = if s.tail == null then w else s.head;
  tail = w;
  has_waiters = true;
}

pub unlink : Sem → Ptr → Sem
unlink s w =
    let head' = if s.links.prev w == null then s.links.next w else s.head in
    let tail' = if s.links.next w == null then s.links.prev w else s.tail in
    record s {
      links = clear (splice s.links w) w;
      head = head';
      tail = tail';
      has_waiters = if head' == null then false else s.has_waiters;
    }

pub set_acquired : Sem → Ptr → Sem
set_acquired s w = record s { waiters = put s.waiters w (record (s.waiters w) { acquired = true }) }

pub set_cancelled : Sem → Ptr → Sem
set_cancelled s w = record s {
  waiters = put s.waiters w (record (s.waiters w) { cancelled = true });
}

-- The compare-exchange loop: without interference from other threads it succeeds at once.
pub try_acquire : Sem → ℕ → Sem × Bool
try_acquire s n =
    if n == 0
    then (s, true)
    else if not (s.head == null)
    then (s, false)
    else if signed_lt s.permits n
    then (s, false)
    else (record s { permits = sub64 s.permits n }, true)

-- The state of `grant_locked`: `buf` is `out[0 .. n)`, `direct` is what it schedules itself.
pub record Grant : Type 0 where
  pub sem : Sem
  pub buf : List ToWake
  pub direct : List ToWake

pub hand_out : ℕ → Ptr → Ptr → ToWake → Grant → Grant
hand_out cap self w wake g =
    if w == self
    then g
    else if ltb (length g.buf) cap
    then record g { buf = g.buf ++ wake ∷ [] }
    else record g { direct = g.direct ++ wake ∷ [] }

-- The compare-exchange of the permits, `unlink(w)` and `w->acquired = true`.
pub serve : Sem → Ptr → Sem
serve s w =
    let taken = record s { permits = sub64 s.permits (s.waiters w).requested_permits } in
    set_acquired (unlink taken w) w

pub give : ℕ → Ptr → Grant → Grant
give cap self g =
    let w = g.sem.head in hand_out cap self w (wake_of g.sem w) (record g { sem = serve g.sem w })

-- One round of the `while`; `none` when the loop ends.
pub grant_turn : ℕ → Ptr → Grant → Option Grant
grant_turn cap self g =
    if g.sem.head == null
    then none
    else if signed_lt g.sem.permits (g.sem.waiters g.sem.head).requested_permits
    then none
    else some (give cap self g)

pub grant_loop : ℕ → ℕ → Ptr → Grant → Grant
grant_loop zero cap self g = g
grant_loop (suc fuel) cap self g = elim (grant_turn cap self g) [
  | none ↦ g
  | some g' ↦ grant_loop fuel cap self g'
]

pub grant_locked : ℕ → ℕ → Ptr → Sem → Grant
grant_locked fuel cap self s = grant_loop fuel cap self (record { sem = s; buf = []; direct = [] })

-- The loop of the callers over `buf`, after the calls that `grant_locked` made itself.
abbrev pub scheduled : Grant → List ToWake
scheduled g = g.direct ++ g.buf

pub try_acquire_or_enqueue : ℕ → Sem → Ptr → Sem × List ToWake × Bool
try_acquire_or_enqueue fuel s w =
    let g = grant_locked fuel 16 w (link_tail s w) in
    (g.sem, scheduled g, (g.sem.waiters w).acquired)

pub try_cancel_waiter : Sem → Ptr → Sem × Bool
try_cancel_waiter s w =
    if (s.waiters w).acquired || (s.waiters w).cancelled
    then (s, false)
    else (set_cancelled (unlink s w) w, true)

pub release : ℕ → Sem → ℕ → Sem × List ToWake
release fuel s n =
    if n == 0
    then (s, [])
    else let s' = record s { permits = add64 s.permits n } in
      if not s'.has_waiters
      then (s', [])
      else let g = grant_locked fuel 16 null s' in (g.sem, scheduled g)

pub dequeue_or_return : ℕ → Sem → Ptr → Sem × List ToWake
dequeue_or_return fuel s w =
    if (s.waiters w).cancelled
    then (s, [])
    else if not (s.waiters w).acquired
    then (unlink s w, [])
    else let s' = record s { permits = add64 s.permits (s.waiters w).requested_permits } in
      let g = grant_locked fuel 16 null s' in (g.sem, scheduled g)

pub available_permits : Sem → ℕ
available_permits s = s.permits
