-- ===== src/Net/Streams.antt =====
-- The reads and writes of include/coasio/net/tcp/socket.hpp and of include/coasio/filesystem/file.hpp,
-- and the waits: each is an `async_op` on what asio does for it. A buffer is its length.
use coasio.Common.{ℕ, ◌≡◌, true, List, [], ◌∷◌, All}
use coasio.Error.{cancelled}
use coasio.Async.{coasio_error, Outcome, failed, Completion, async_op, on_complete, await_resume}
use coasio.Async.CoAwait.{Turns, co_await, Live, co_await-Live, co_await-off}

-- asio's operations on an object: the program after it, and the completion.
pub record AsioStream (W E : Type 0) : Type 0 where
  pub async_read : ℕ → W → W × Completion ℕ
  pub async_read_some : ℕ → W → W × Completion ℕ
  pub async_write : ℕ → W → W × Completion ℕ
  pub async_write_some : ℕ → W → W × Completion ℕ
  pub async_wait : ℕ → W → W × Completion (Unit {0})
  pub async_connect : E → W → W × Completion (Unit {0})

pub record AsioRandom (W : Type 0) : Type 0 where
  pub async_read_at : ℕ → ℕ → W → W × Completion ℕ
  pub async_read_some_at : ℕ → ℕ → W → W × Completion ℕ
  pub async_write_at : ℕ → ℕ → W → W × Completion ℕ
  pub async_write_some_at : ℕ → ℕ → W → W × Completion ℕ

module _ {W : Type 0} (turns : Turns W) where
  -- `async_op<size_t>` and `async_op<void>` of an initiator, awaited.
  abbrev pub Op : Type 0 → Type 0
  Op A = W → W × Outcome A

  unfoldable pub size_op : (W → W × Completion ℕ) → Op ℕ
  size_op init = co_await turns (async_op 0) init

  unfoldable pub void_op : (W → W × Completion (Unit {0})) → Op (Unit {0})
  void_op init = co_await turns (async_op tt) init

  module _ {E : Type 0} (io : AsioStream W E) where
    unfoldable pub socket_connect : E → Op (Unit {0})
    socket_connect ep = void_op (io.async_connect ep)

    unfoldable pub socket_read : ℕ → Op ℕ
    socket_read buffer = size_op (io.async_read buffer)

    unfoldable pub socket_read_some : ℕ → Op ℕ
    socket_read_some buffer = size_op (io.async_read_some buffer)

    unfoldable pub socket_write : ℕ → Op ℕ
    socket_write buffer = size_op (io.async_write buffer)

    unfoldable pub socket_write_some : ℕ → Op ℕ
    socket_write_some buffer = size_op (io.async_write_some buffer)

    unfoldable pub socket_wait : ℕ → Op (Unit {0})
    socket_wait type = void_op (io.async_wait type)

    unfoldable pub listener_wait : ℕ → Op (Unit {0})
    listener_wait type = void_op (io.async_wait type)

    unfoldable pub file_read_some : ℕ → Op ℕ
    file_read_some buffer = size_op (io.async_read_some buffer)

    unfoldable pub file_write_some : ℕ → Op ℕ
    file_write_some buffer = size_op (io.async_write_some buffer)

    unfoldable pub file_read : ℕ → Op ℕ
    file_read buffer = size_op (io.async_read buffer)

    unfoldable pub file_write : ℕ → Op ℕ
    file_write buffer = size_op (io.async_write buffer)

  module _ (io : AsioRandom W) where
    unfoldable pub random_read_some_at : ℕ → ℕ → Op ℕ
    random_read_some_at offset buffer = size_op (io.async_read_some_at offset buffer)

    unfoldable pub random_write_some_at : ℕ → ℕ → Op ℕ
    random_write_some_at offset buffer = size_op (io.async_write_some_at offset buffer)

    unfoldable pub random_read : ℕ → ℕ → Op ℕ
    random_read offset buffer = size_op (io.async_read_at offset buffer)

    unfoldable pub random_write : ℕ → ℕ → Op ℕ
    random_write offset buffer = size_op (io.async_write_at offset buffer)

  module _ {E : Type 0} (io : AsioStream W E) (file : AsioRandom W) (offset buffer : ℕ) where
    -- Every operation that gives a size, with what asio does for it.
    abbrev pub size_ops : List (Op ℕ × (W → W × Completion ℕ))
    size_ops =
        (socket_read io buffer, io.async_read buffer)
        ∷ (socket_read_some io buffer, io.async_read_some buffer)
        ∷ (socket_write io buffer, io.async_write buffer)
        ∷ (socket_write_some io buffer, io.async_write_some buffer)
        ∷ (file_read io buffer, io.async_read buffer)
        ∷ (file_read_some io buffer, io.async_read_some buffer)
        ∷ (file_write io buffer, io.async_write buffer)
        ∷ (file_write_some io buffer, io.async_write_some buffer)
        ∷ (random_read file offset buffer, file.async_read_at offset buffer)
        ∷ (random_read_some_at file offset buffer, file.async_read_some_at offset buffer)
        ∷ (random_write file offset buffer, file.async_write_at offset buffer)
        ∷ (random_write_some_at file offset buffer, file.async_write_some_at offset buffer)
        ∷ []

    -- Under a cancelled scope no operation starts anything, and each reports the cancellation.
    pub streams_cancelled :
        (w : W)
        → turns.is_off w ≡ true
        → All
            (λ (p : Op ℕ × (W → W × Completion ℕ)). p.0 w ≡ (w, failed (coasio_error cancelled)))
            size_ops
    unfolding socket_read socket_read_some socket_write socket_write_some file_read file_read_some
        file_write file_write_some random_read random_read_some_at random_write random_write_some_at
        size_op
    streams_cancelled w off =
        let stays = λ (init : W → W × Completion ℕ). co_await-off turns (async_op 0) init w off in
        (
          stays _,
          (
            stays _,
            (
              stays _,
              (
                stays _,
                (
                  stays _,
                  (stays _, (stays _, (stays _, (stays _, (stays _, (stays _, (stays _, tt))))))),
                ),
              ),
            ),
          ),
        )

    -- Every operation under a live scope does what asio does, and gives what asio completed with.
    pub streams-Live :
        (w : W)
        → Live turns w
        → All
            (λ (p : Op ℕ × (W → W × Completion ℕ)). p.0 w ≡ (
              (p.1 (turns.others w)).0,
              await_resume (on_complete (p.1 (turns.others w)).1 (async_op 0)),
            ))
            size_ops
    unfolding socket_read socket_read_some socket_write socket_write_some file_read file_read_some
        file_write file_write_some random_read random_read_some_at random_write random_write_some_at
        size_op
    streams-Live w live =
        let runs = λ (init : W → W × Completion ℕ). co_await-Live turns (async_op 0) init w live in
        (
          runs _,
          (
            runs _,
            (
              runs _,
              (
                runs _,
                (runs _, (runs _, (runs _, (runs _, (runs _, (runs _, (runs _, (runs _, tt)))))))),
              ),
            ),
          ),
        )
