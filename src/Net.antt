-- ===== src/Net.antt =====
-- include/coasio/net/tcp/socket.hpp and include/coasio/net/tcp/listener.hpp: the calls that return at
-- once, with asio's sockets and acceptors as parameters, and `socket::connect_to`. A call of asio gives
-- the object after it and the error code that it set.
pub mod Chain
pub mod Connect
pub mod Streams
pub mod Address
pub mod Create
mod Examples
use coasio.Common.{ℕ, suc, Bool, true, false, List, Option, none, some, if◌then◌else◌}
use coasio.Error.{cancelled}
use coasio.CancelScope.{ArmResult}
use coasio.HostPort.{Result, invalid_argument, HostPort, ok, fail, fault, parse_host_port}
use coasio.HostPort.Port.{decimal}
use coasio.Async.CoAwait.{Turns, co_await}
use coasio.Async.{
  Code, posix_error, Outcome, value, failed, bad_access, Suspended, Awaitable, Completion, async_op,
  await_ready, await_suspend, on_complete, await_resume,
}

-- `if (ec) return std::unexpected{ec}; return v;`
abbrev pub outcome {ℓ} : {A : Type ℓ} → Option Code → A → Outcome A
outcome none v = value v
outcome (some e) v = failed e

-- `asio::ip::tcp::socket`. `E` is an endpoint, `P` a protocol.
pub record AsioSocket (S E P : Type 0) : Type 0 where
  pub protocol : E → P
  pub open_as : S → P → S × Option Code
  pub is_open : S → Bool
  pub bind : S → E → S × Option Code
  pub available : S → ℕ × Option Code
  pub shutdown : S → ℕ → S × Option Code
  pub close : S → S × Option Code
  pub remote_endpoint : S → E × Option Code
  pub local_endpoint : S → E × Option Code

-- `asio::ip::tcp::acceptor`; `fresh` is one of the current runtime's context.
pub record AsioAcceptor (L E P : Type 0) : Type 0 where
  pub fresh : L
  pub protocol : E → P
  pub open_as : L → P → L × Option Code
  pub is_open : L → Bool
  pub reuse_address : L → L × Option Code
  pub bind : L → E → L × Option Code
  pub listen : L → ℕ → L × Option Code
  pub close : L → L × Option Code
  pub local_endpoint : L → E × Option Code

module _ {S E P : Type 0} (asio : AsioSocket S E P) where
  unfoldable pub bind_endpoint : S → E → S × Outcome (Unit {0})
  bind_endpoint s ep = let (s₁, ec) = asio.bind s ep in (s₁, outcome ec tt)

  unfoldable pub socket_bind : S → E → S × Outcome (Unit {0})
  socket_bind s ep =
      if asio.is_open s
      then bind_endpoint s ep
      else (let (s₁, ec) = asio.open_as s (asio.protocol ep) in
          elim ec [ some e ↦ (s₁, failed e) | none ↦ bind_endpoint s₁ ep ])

  pub socket_available : S → Outcome ℕ
  socket_available s = let (n, ec) = asio.available s in outcome ec n

  pub socket_shutdown : S → ℕ → S × Outcome (Unit {0})
  socket_shutdown s type = let (s₁, ec) = asio.shutdown s type in (s₁, outcome ec tt)

  pub socket_close : S → S × Outcome (Unit {0})
  socket_close s = let (s₁, ec) = asio.close s in (s₁, outcome ec tt)

  pub socket_is_open : S → Bool
  socket_is_open s = asio.is_open s

  pub socket_remote_endpoint : S → Outcome E
  socket_remote_endpoint s = let (ep, ec) = asio.remote_endpoint s in outcome ec ep

  pub socket_local_endpoint : S → Outcome E
  socket_local_endpoint s = let (ep, ec) = asio.local_endpoint s in outcome ec ep

module _ {L E P : Type 0} (asio : AsioAcceptor L E P) where
  unfoldable pub bind_acceptor : E → L → Outcome L
  bind_acceptor ep l = let (l₁, ec) = asio.bind l ep in outcome ec l₁

  unfoldable pub listener_bind : E → Bool → Outcome L
  listener_bind ep reuse =
      let (l, ec) = asio.open_as asio.fresh (asio.protocol ep) in
      elim ec [
        | some e ↦ failed e
        | none ↦
            if reuse
            then (let (l₁, ec₁) = asio.reuse_address l in
                elim ec₁ [ some e ↦ failed e | none ↦ bind_acceptor ep l₁ ])
            else bind_acceptor ep l
      ]

  unfoldable pub listener_listen : L → ℕ → L × Outcome (Unit {0})
  listener_listen l backlog = let (l₁, ec) = asio.listen l backlog in (l₁, outcome ec tt)

  pub listener_close : L → L × Outcome (Unit {0})
  listener_close l = let (l₁, ec) = asio.close l in (l₁, outcome ec tt)

  pub listener_is_open : L → Bool
  listener_is_open l = asio.is_open l

  pub listener_local_endpoint : L → Outcome E
  listener_local_endpoint l = let (ep, ec) = asio.local_endpoint l in outcome ec ep

-- What `connect_to` uses: `R` is what a name resolves to, `S` a socket, whose state is in `W`.
pub record AsioNet (W R S : Type 0) : Type 0 where
  pub turns : Turns W
  pub no_results : R
  pub async_resolve : List ℕ → List ℕ → W → W × Completion R
  pub async_connect : S → R → W → W × Completion (Unit {0})
  pub fresh : W → W × S

module _ {W R S : Type 0} (net : AsioNet W R S) where
  -- The rest of `connect_to` behind the parsed text.
  unfoldable pub connect_impl : S → R → W → W × Outcome (Unit {0})
  connect_impl s eps = co_await net.turns (async_op tt) (net.async_connect s eps)

  unfoldable pub resolve : List ℕ → List ℕ → W → W × Outcome R
  resolve host service =
      co_await net.turns (async_op net.no_results) (net.async_resolve host service)

  unfoldable pub connect_resolved : R → W → W × Outcome S
  connect_resolved eps w =
      let (v, s) = net.fresh w in
      let (u, r) = connect_impl s eps v in
      elim r [ value x ↦ (u, value s) | failed e ↦ (u, failed e) | bad_access ↦ (u, bad_access) ]

  unfoldable pub connect_host : List ℕ → ℕ → W → W × Outcome S
  connect_host host port w =
      let (v, eps) = resolve host (decimal (suc port) port) w in
      elim eps [
        | value e ↦ connect_resolved e v
        | failed e ↦ (v, failed e)
        | bad_access ↦ (v, bad_access)
      ]

  unfoldable pub connect_parsed : Result HostPort → W → W × Outcome S
  connect_parsed (fail e) w = (w, failed (posix_error e))
  connect_parsed fault w = (w, bad_access)
  connect_parsed (ok hp) w = elim hp.port [
    | none ↦ (w, failed (posix_error invalid_argument))
    | some port ↦ connect_host hp.host port w
  ]

  unfoldable pub connect_to : List ℕ → W → W × Outcome S
  connect_to host_and_port w = connect_parsed (parse_host_port host_and_port) w
