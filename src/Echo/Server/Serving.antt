-- ===== src/Echo/Server/Serving.antt =====
-- The loop of `main`.
use coasio.Common.{ℕ, ◌≡◌, refl, ap, true, List, [], ◌∷◌, ◌++◌, map, some, arith}
use coasio.Async.{Code, Outcome, value, failed, pos}
use coasio.Net.{AsioAcceptor, listener_bind, listener_listen}
use coasio.Echo.Server.{accept_loop, serve}

module _ {L E P S : Type 0} (asio : AsioAcceptor L E P) where
  accept_loop-failed :
      (ss : List S) (e : Code) (rest : List (Outcome S))
      → accept_loop (map value ss ++ failed e ∷ rest) ≡ (ss, some (pos 1))
  unfolding accept_loop
  accept_loop-failed [] e rest = refl
  accept_loop-failed (s ∷ ss) e rest = ap (λ r. (s ∷ r.0, r.1)) (accept_loop-failed ss e rest)

  -- A server that could bind and listen spawns a handler for each socket that comes before the first
  -- failure of `accept`, and then ends with 1.
  pub serve_spawns :
      (any : E) (backlog : ℕ) (l l₁ : L) (ss : List S) (e : Code) (rest : List (Outcome S))
      → listener_bind asio any true ≡ value l
      → listener_listen asio l backlog ≡ (l₁, value tt)
      → serve asio any backlog (map value ss ++ failed e ∷ rest) ≡ (ss, some (pos 1))
  unfolding serve
  serve_spawns any backlog l l₁ ss e rest b k = ground (arith, b, k, accept_loop-failed ss e rest)
