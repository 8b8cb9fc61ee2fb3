-- ===== src/Net/Examples.antt =====
-- A net of one host, whose sockets are numbers.
use coasio.Common.{
  ℕ, suc, ◌≡◌, refl, arith, Bool, true, false, [], ◌∷◌, none, some, ◌==◌, if◌then◌else◌, All,
}
use coasio.HostPort.{count}
use coasio.HostPort.Parse.{host_colon_port}
use coasio.Async.{value, Completion, asio_error, coasio_error, failed}
use coasio.Net.{AsioNet, AsioSocket, AsioAcceptor, connect_to, socket_bind, listener_bind}
use coasio.Net.Chain.{chain, kept, socket_bind-chain, listener_bind-chain}
use coasio.Error.{cancelled}
use coasio.Net.Streams.{AsioStream, AsioRandom, Op, size_ops, streams_cancelled}
use coasio.Net.Connect.{connect_to-colon, connect_to_cancelled, Refused}

-- The world counts what asio did; from `off` on the scope is cancelled.
abbrev net : AsioNet (ℕ × Bool) ℕ ℕ
net = record {
  turns = record { is_off = λ w. w.1; others = λ w. w };
  no_results = 0;
  async_resolve = λ host service w. ((suc w.0, w.1), record { ec = none; result = some 7 });
  async_connect = λ s eps w. ((suc w.0, w.1), record { ec = none; result = some tt });
  fresh = λ w. (w, 5);
}

no_colon : count b':' (b'a' ∷ b'b' ∷ []) ≡ 0
unfolding count
no_colon = refl

-- `ab:80`
connect_to-colon_example :
    connect_to net (host_colon_port (b'a' ∷ b'b' ∷ []) 80) (0, false) ≡ ((2, false), value 5)
connect_to-colon_example =
    connect_to-colon net [] b'a' (b'b' ∷ []) 80 (0, false) (1, false) (1, false) (2, false) 7 5 tt
      (refl, (refl, tt)) no_colon refl (ground arith) (refl, refl) refl refl (refl, refl) refl

connect_to_cancelled_run : Refused net (0, true) (connect_to net (b'a' ∷ []) (0, true))
connect_to_cancelled_run = connect_to_cancelled net (b'a' ∷ []) (0, true) refl

-- Sockets that are a flag, open or not; the second port is taken.
abbrev sockets : AsioSocket Bool ℕ ℕ
sockets = record {
  protocol = λ ep. 4;
  open_as = λ s p. (true, none);
  is_open = λ s. s;
  bind = λ s ep. (s, if ep == 2 then some (asio_error 98) else none);
  available = λ s. (0, none);
  shutdown = λ s t. (s, none);
  close = λ s. (false, none);
  remote_endpoint = λ s. (1, none);
  local_endpoint = λ s. (1, none);
}

abbrev acceptors : AsioAcceptor Bool ℕ ℕ
acceptors = record {
  fresh = false;
  protocol = λ ep. 4;
  open_as = λ l p. (true, none);
  is_open = λ l. l;
  reuse_address = λ l. (l, none);
  bind = λ l ep. (l, if ep == 2 then some (asio_error 98) else none);
  listen = λ l n. (l, none);
  close = λ l. (false, none);
  local_endpoint = λ l. (1, none);
}

socket_bind-chain_run :
    socket_bind sockets false 2
    ≡ chain ((λ s. sockets.open_as s 4) ∷ (λ s. sockets.bind s 2) ∷ []) false
socket_bind-chain_run = socket_bind-chain sockets false 2

listener_bind-chain_run :
    listener_bind acceptors 1 true
    ≡ kept (
        chain
          ((λ l. acceptors.open_as l 4) ∷ acceptors.reuse_address ∷ (λ l. acceptors.bind l 1) ∷ [])
          false)
listener_bind-chain_run = listener_bind-chain acceptors 1 true

abbrev stream : AsioStream (ℕ × Bool) ℕ
stream = record {
  async_read = λ n w. ((suc w.0, w.1), record { ec = none; result = some n });
  async_read_some = λ n w. ((suc w.0, w.1), record { ec = none; result = some 1 });
  async_write = λ n w. ((suc w.0, w.1), record { ec = none; result = some n });
  async_write_some = λ n w. ((suc w.0, w.1), record { ec = none; result = some 1 });
  async_wait = λ type w. ((suc w.0, w.1), record { ec = none; result = none });
  async_connect = λ ep w. ((suc w.0, w.1), record { ec = none; result = none });
}

abbrev random : AsioRandom (ℕ × Bool)
random = record {
  async_read_at = λ offset n w. ((suc w.0, w.1), record { ec = none; result = some n });
  async_read_some_at = λ offset n w. ((suc w.0, w.1), record { ec = none; result = some 1 });
  async_write_at = λ offset n w. ((suc w.0, w.1), record { ec = none; result = some n });
  async_write_some_at = λ offset n w. ((suc w.0, w.1), record { ec = none; result = some 1 });
}

streams_cancelled_run :
    All
      (λ (p : Op net.turns ℕ × (ℕ × Bool → (ℕ × Bool) × Completion ℕ)).
        p.0 (0, true) ≡ ((0, true), failed (coasio_error cancelled)))
      (size_ops net.turns stream random 0 512)
streams_cancelled_run = streams_cancelled net.turns stream random 0 512 (0, true) refl
