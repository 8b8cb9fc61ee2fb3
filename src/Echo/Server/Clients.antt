-- ===== src/Echo/Server/Clients.antt =====
-- Any number of clients in any order, over the shared counters. asio's documented behaviour: a write
-- reports at most the bytes that it was given.
use coasio.Common.{
  ℕ, zero, suc, ◌+◌, ◌%◌, ◌^◌, ◌≤◌, ◌<◌, ◌≡◌, refl, ap, ◌∙◌, List, [], ◌∷◌, ◌++◌, arith, length,
}
use coasio.Async.{Outcome, value, failed, bad_access}
use coasio.Echo.Server.{
  Stats, fresh_stats, Handler, reading, writing, ended, enter_client, leave_client, after_read,
  after_write,
}

-- `received` and `sent` are what the sockets reported in all, without wrap-around.
pub record World : Type 0 where
  pub stats : Stats
  pub handlers : List Handler
  pub received : ℕ
  pub sent : ℕ

abbrev pub bytes : Outcome ℕ → ℕ
bytes (value n) = n
bytes _ = 0

abbrev pub start : World
start = record { stats = fresh_stats; handlers = []; received = 0; sent = 0 }

pub data Step (w : World) : World → Type 0 where
  accepted : Step w (record w {
    stats = (enter_client w.stats).0;
    handlers = w.handlers ++ (enter_client w.stats).1 ∷ [];
  })
  read_done :
      (xs ys : List Handler) (o : Outcome ℕ)
      → w.handlers ≡ xs ++ reading ∷ ys
      → Step w (record w {
        stats = (after_read o w.stats).0;
        handlers = xs ++ (after_read o w.stats).1 ∷ ys;
        received = w.received + bytes o;
      })
  write_done :
      (xs ys : List Handler) (k : ℕ) (o : Outcome ℕ)
      → w.handlers ≡ xs ++ writing k ∷ ys
      → bytes o ≤ k
      → Step w (record w {
        stats = (after_write o w.stats).0;
        handlers = xs ++ (after_write o w.stats).1 ∷ ys;
        sent = w.sent + bytes o;
      })

pub data Reach : World → Type 0 where
  here : Reach start
  next : {w w' : World} → Reach w → Step w w' → Reach w'

abbrev pub is_live : Handler → ℕ
is_live ended = 0
is_live _ = 1

abbrev pub to_write : Handler → ℕ
to_write (writing k) = k
to_write _ = 0

abbrev pub total : (Handler → ℕ) → List Handler → ℕ
total f [] = 0
total f (h ∷ hs) = f h + total f hs

total-append :
    (f : Handler → ℕ) (xs ys : List Handler) → total f (xs ++ ys) ≡ total f xs + total f ys
total-append f [] ys = omega arith
total-append f (x ∷ xs) ys = omega (arith, total-append f xs ys)

live_le : (hs : List Handler) → total is_live hs ≤ length hs
live_le [] = omega arith
live_le (reading ∷ hs) = omega (arith, live_le hs)
live_le (writing k ∷ hs) = omega (arith, live_le hs)
live_le (ended ∷ hs) = omega (arith, live_le hs)

record Inv (w : World) : Type 0 where
  pub received_lem : w.stats.total_bytes_received ≡ w.received % 2 ^ 64
  pub sent_lem : w.stats.total_bytes_sent ≡ w.sent % 2 ^ 64
  pub active_lem : w.stats.active_clients ≡ total is_live w.handlers % 2 ^ 64
  pub echoed : w.sent + total to_write w.handlers ≤ w.received

-- The totals when one handler goes on.
moved :
    (f : Handler → ℕ) (hs xs ys : List Handler) (h h' : Handler)
    → hs ≡ xs ++ h ∷ ys
    → (total f hs ≡ total f xs + (f h + total f ys))
      × (total f (xs ++ h' ∷ ys) ≡ total f xs + (f h' + total f ys))
moved f hs xs ys h h' e = (ap (total f) e ∙ total-append f xs (h ∷ ys), total-append f xs (h' ∷ ys))

Step-Inv : {w w' : World} → Step w w' → Inv w → Inv w'
unfolding enter_client after_read after_write leave_client
Step-Inv {w} accepted i = record {
  received_lem = i.received_lem;
  sent_lem = i.sent_lem;
  active_lem = omega (arith, i.active_lem, total-append is_live w.handlers (reading ∷ []));
  echoed = omega (arith, i.echoed, total-append to_write w.handlers (reading ∷ []));
}
Step-Inv {w} (read_done xs ys (value zero) e) i =
    let (l, l') = moved is_live w.handlers xs ys reading ended e in
    let (p, p') = moved to_write w.handlers xs ys reading ended e in
    record {
      received_lem = omega (arith, i.received_lem);
      sent_lem = i.sent_lem;
      active_lem = omega (arith, i.active_lem, l, l');
      echoed = omega (arith, i.echoed, p, p');
    }
Step-Inv {w} (read_done xs ys (value (suc n)) e) i =
    let (l, l') = moved is_live w.handlers xs ys reading (writing (suc n)) e in
    let (p, p') = moved to_write w.handlers xs ys reading (writing (suc n)) e in
    record {
      received_lem = omega (arith, i.received_lem);
      sent_lem = i.sent_lem;
      active_lem = omega (arith, i.active_lem, l, l');
      echoed = omega (arith, i.echoed, p, p');
    }
Step-Inv {w} (read_done xs ys (failed c) e) i =
    let (l, l') = moved is_live w.handlers xs ys reading ended e in
    let (p, p') = moved to_write w.handlers xs ys reading ended e in
    record {
      received_lem = omega (arith, i.received_lem);
      sent_lem = i.sent_lem;
      active_lem = omega (arith, i.active_lem, l, l');
      echoed = omega (arith, i.echoed, p, p');
    }
Step-Inv {w} (read_done xs ys bad_access e) i =
    let (l, l') = moved is_live w.handlers xs ys reading ended e in
    let (p, p') = moved to_write w.handlers xs ys reading ended e in
    record {
      received_lem = omega (arith, i.received_lem);
      sent_lem = i.sent_lem;
      active_lem = omega (arith, i.active_lem, l, l');
      echoed = omega (arith, i.echoed, p, p');
    }
Step-Inv {w} (write_done xs ys k (value n) e b) i =
    let (l, l') = moved is_live w.handlers xs ys (writing k) reading e in
    let (p, p') = moved to_write w.handlers xs ys (writing k) reading e in
    record {
      received_lem = i.received_lem;
      sent_lem = omega (arith, i.sent_lem);
      active_lem = omega (arith, i.active_lem, l, l');
      echoed = omega (arith, i.echoed, p, p', b);
    }
Step-Inv {w} (write_done xs ys k (failed c) e b) i =
    let (l, l') = moved is_live w.handlers xs ys (writing k) ended e in
    let (p, p') = moved to_write w.handlers xs ys (writing k) ended e in
    record {
      received_lem = i.received_lem;
      sent_lem = omega (arith, i.sent_lem);
      active_lem = omega (arith, i.active_lem, l, l');
      echoed = omega (arith, i.echoed, p, p', b);
    }
Step-Inv {w} (write_done xs ys k bad_access e b) i =
    let (l, l') = moved is_live w.handlers xs ys (writing k) ended e in
    let (p, p') = moved to_write w.handlers xs ys (writing k) ended e in
    record {
      received_lem = i.received_lem;
      sent_lem = omega (arith, i.sent_lem);
      active_lem = omega (arith, i.active_lem, l, l');
      echoed = omega (arith, i.echoed, p, p', b);
    }

Reach-Inv : (w : World) → Reach w → Inv w
Reach-Inv w here = record {
  received_lem = refl;
  sent_lem = refl;
  active_lem = refl;
  echoed = omega arith;
}
Reach-Inv w (next {w = v} r s) = Step-Inv s (Reach-Inv v r)

-- With any number of clients below 2 ^ 64, in any interleaving of their handlers, while the sockets
-- have reported less than 2 ^ 64 bytes read: the counter of active clients is the number of
-- handlers that have not ended, the received bytes are counted right, and what was sent and what is
-- being written are no more than what was received.
pub counters_true :
    (w : World)
    → Reach w
    → w.received < 2 ^ 64
    → length w.handlers < 2 ^ 64
    → (w.stats.active_clients ≡ total is_live w.handlers)
      × (w.stats.total_bytes_received ≡ w.received)
      × (w.stats.total_bytes_sent + total to_write w.handlers ≤ w.stats.total_bytes_received)
counters_true w r b c =
    let i = Reach-Inv w r in
    let few = live_le w.handlers in
    (
      omega (arith, i.active_lem, few, c),
      omega (arith, i.received_lem, b),
      omega (arith, i.received_lem, i.sent_lem, i.echoed, b),
    )
