-- ===== src/Echo/Server.antt =====
-- examples/echo_server.cpp: the counters, a client's handler up to its next `co_await`, the task that
-- watches the counters, and the loop that accepts.
pub mod Clients
pub mod Serving
pub mod Watching
use coasio.Common.{
  ℕ, zero, suc, ◌+◌, ◌-◌, ◌%◌, ◌^◌, ◌≤◌, ◌≡◌, Bool, true, false, List, [], ◌∷◌, ◌++◌, Option, none,
  some, ◌==◌, if◌then◌else◌,
}
use coasio.Async.{Code, Outcome, value, failed, bad_access, ℤ, pos, negsuc}
use coasio.Net.{AsioAcceptor, listener_bind, listener_listen}
use coasio.Echo.{Metrics, metrics, add_sample}

-- `ServerStats`; the counters have 64 bits.
pub record Stats : Type 0 where
  pub active_clients : ℕ
  pub total_bytes_received : ℕ
  pub total_bytes_sent : ℕ

abbrev pub fresh_stats : Stats
fresh_stats = record { active_clients = 0; total_bytes_received = 0; total_bytes_sent = 0 }

abbrev pub plus : ℕ → ℕ → ℕ
plus a b = (a + b) % 2 ^ 64

-- `client_handler` at its `co_await`s: of `read_some`, of `write` of so many bytes, and at its end.
pub data Handler : Type 0 where
  reading : Handler
  writing : ℕ → Handler
  ended : Handler

unfoldable pub enter_client : Stats → Stats × Handler
enter_client s = (record s { active_clients = plus s.active_clients 1 }, reading)

-- The end, with `~ClientGuard`.
unfoldable pub leave_client : Stats → Stats × Handler
leave_client s = (record s { active_clients = plus s.active_clients (2 ^ 64 - 1) }, ended)

unfoldable pub after_read : Outcome ℕ → Stats → Stats × Handler
after_read (value zero) s =
    leave_client (record s { total_bytes_received = plus s.total_bytes_received 0 })
after_read (value (suc n)) s =
    (record s { total_bytes_received = plus s.total_bytes_received (suc n) }, writing (suc n))
after_read _ s = leave_client s

unfoldable pub after_write : Outcome ℕ → Stats → Stats × Handler
after_write (value n) s = (record s { total_bytes_sent = plus s.total_bytes_sent n }, reading)
after_write _ s = leave_client s

-- `metrics_monitor_task` behind a sleep that did not fail.
pub record Monitor (D : Type 0) : Type 0 where
  pub last_received : ℕ
  pub last_sent : ℕ
  pub in_metrics : Metrics D
  pub out_metrics : Metrics D

abbrev pub fresh_monitor : {D : Type 0} → Monitor D
fresh_monitor = record {
  last_received = 0;
  last_sent = 0;
  in_metrics = metrics 60;
  out_metrics = metrics 60;
}

abbrev pub minus : ℕ → ℕ → ℕ
minus a b = (a + (2 ^ 64 - b)) % 2 ^ 64

-- `kib` is the division by `1024.0`.
unfoldable pub monitor_tick : {D : Type 0} → (ℕ → D) → Stats → Monitor D → Option (Monitor D)
monitor_tick kib s m =
    let speed_in = kib (minus s.total_bytes_received m.last_received) in
    let speed_out = kib (minus s.total_bytes_sent m.last_sent) in
    elim (add_sample speed_in m.in_metrics) [
      | none ↦ none
      | some i ↦ elim (add_sample speed_out m.out_metrics) [
        | none ↦ none
        | some o ↦ some (record {
          last_received = s.total_bytes_received;
          last_sent = s.total_bytes_sent;
          in_metrics = i;
          out_metrics = o;
        })
      ]
    ]

module _ {S : Type 0} where
  -- The loop of `main` on what its calls of `accept` give: the sockets whose handlers were spawned, and
  -- the exit code, if one of the calls failed.
  unfoldable pub accept_loop : List (Outcome S) → List S × Option ℤ
  accept_loop [] = ([], none)
  accept_loop (value s ∷ rest) = let more = accept_loop rest in (s ∷ more.0, more.1)
  accept_loop (failed e ∷ rest) = ([], some (pos 1))
  accept_loop (bad_access ∷ rest) = ([], some (pos 1))

-- `main`; `backlog` is asio's default, `any` the endpoint of port 8080 on any address.
unfoldable pub serve :
    {L E P S : Type 0} → AsioAcceptor L E P → E → ℕ → List (Outcome S) → List S × Option ℤ
serve asio any backlog accepted = elim (listener_bind asio any true) [
  | failed e ↦ ([], some (pos 1))
  | bad_access ↦ ([], some (pos 1))
  | value l ↦ elim (listener_listen asio l backlog).1 [
    | value _ ↦ accept_loop accepted
    | failed e ↦ ([], some (negsuc 0))
    | bad_access ↦ ([], some (negsuc 0))
  ]
]
