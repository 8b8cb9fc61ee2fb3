-- ===== src/Programs/Clients.antt =====
-- A client whose scope is cancelled ends at its next write.
use coasio.Common.{ℕ, zero, suc, ◌≡◌, true, none, some, arith}
use coasio.Error.{cancelled}
use coasio.Async.{coasio_error, async_op, failed}
use coasio.Async.CoAwait.{Turns, co_await-off}
use coasio.Net.Streams.{AsioStream, socket_write, socket_read_some, size_op}
use coasio.Programs.{write_failed, client_loop}

module _ {W E : Type 0} (turns : Turns W) (io : AsioStream W E) (size : ℕ) where
  write-off :
      (w : W)
      → turns.is_off w ≡ true
      → socket_write turns io size w ≡ (w, failed (coasio_error cancelled))
  unfolding socket_write size_op
  write-off w off = co_await-off turns (async_op 0) (io.async_write size) w off

  -- However many rounds a client has gone through, if its scope is cancelled then, the next round
  -- ends it, with nothing written.
  pub aborted_client :
      (rounds : ℕ) (w v : W)
      → client_loop turns io rounds size w ≡ (v, none)
      → turns.is_off v ≡ true
      → client_loop turns io (suc rounds) size w ≡ (v, some (write_failed (coasio_error cancelled)))
  unfolding client_loop
  aborted_client zero w v ran off = ground (arith, write-off v off)
  aborted_client (suc rounds) w v ran off =
      let after_read = (socket_read_some turns io size (socket_write turns io size w).0).0 in
      ground (arith, aborted_client rounds after_read v)
