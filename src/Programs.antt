-- ===== src/Programs.antt =====
-- examples/echo_client.cpp and examples/cancel_that.cpp: programs on top of the library.
pub mod Clients
pub mod Work
mod Examples
use coasio.Common.{
  ℕ, zero, suc, ◌≡◌, refl, Bool, true, false, List, [], ◌∷◌, Option, none, some, ◌==◌, arith,
}
use coasio.Error.{cancelled}
use coasio.Async.{Code, coasio_error, Outcome, value, failed, bad_access, ℤ, pos, negsuc}
use coasio.Async.CoAwait.{Turns, co_await-off}
use coasio.Net.{AsioNet, connect_to}
use coasio.Net.Streams.{AsioStream, socket_write, socket_read_some, size_op}

-- How a client ends; `undefined` if it reads what is not there.
pub data ClientEnd : Type 0 where
  connect_failed write_failed read_failed : Code → ClientEnd
  closed undefined : ClientEnd

module _ {W : Type 0} (turns : Turns W) where
  module _ {E : Type 0} (io : AsioStream W E) where
    -- The loop of `client` for so many rounds; `none` if it is still running. The buffer keeps its
    -- size, also where fewer bytes were read.
    pub client_loop : ℕ → ℕ → W → W × Option ClientEnd
    client_loop zero size w = (w, none)
    client_loop (suc fuel) size w =
        let (v, wr_res) = socket_write turns io size w in
        elim wr_res [
          | failed e ↦ (v, some (write_failed e))
          | bad_access ↦ (v, some undefined)
          | value _ ↦
              let (u, rd_res) = socket_read_some turns io size v in
              elim rd_res [
                | failed e ↦ (u, some (read_failed e))
                | bad_access ↦ (u, some undefined)
                | value n ↦ elim (n == 0) [
                  | true ↦ (u, some closed)
                  | false ↦ client_loop fuel size u
                ]
              ]
        ]

  -- `client`, with the text of the address; `streams` are asio's operations on a socket.
  pub client :
      {R S E : Type 0}
      → AsioNet W R S
      → (S → AsioStream W E)
      → List ℕ
      → ℕ
      → ℕ
      → W
      → W × Option ClientEnd
  unfolding client_loop
  client net streams address fuel message_size w =
      let (v, maybe_stream) = connect_to net address w in
      elim maybe_stream [
        | failed e ↦ (v, some (connect_failed e))
        | bad_access ↦ (v, some undefined)
        | value stream ↦ client_loop (streams stream) fuel message_size v
      ]

-- The loop of the client's main program on what its sleeps give: its exit code, if one failed.
pub main_loop : List (Outcome (Unit {0})) → Option ℤ
main_loop [] = none
main_loop (value _ ∷ rest) = main_loop rest
main_loop (failed e ∷ rest) = some (pos 0)
main_loop (bad_access ∷ rest) = some (pos 0)

-- `long_running_work` of cancel_that.cpp behind its sleep: what it returns.
pub long_running_work : Outcome (Unit {0}) → ℤ
long_running_work (value _) = pos 42
long_running_work (failed e) = negsuc 0
long_running_work bad_access = negsuc 0
