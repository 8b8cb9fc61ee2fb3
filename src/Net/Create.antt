-- ===== src/Net/Create.antt =====
-- The `create` functions of include/coasio/net/tcp/{socket,listener}.hpp and of
-- include/coasio/net/base_resolver.hpp: each makes an object of asio for the context of the thread's
-- runtime. A socket, a listener and a resolver of the model are the object that they wrap.
use coasio.Common.{ℕ, ◌≡◌, refl, Option, none, some}
use coasio.Runtime.BlockOn.{Ran, ran, terminated, get_current_io_context}

module _ {S : Type 0} (fresh : ℕ → S) (context : ℕ → ℕ) where
  made : Ran ℕ → Ran S
  made (ran c) = ran (fresh c)
  made terminated = terminated

  pub socket_create : Option ℕ → Ran S
  unfolding made
  socket_create current = made (get_current_io_context context current)

  pub listener_create : Option ℕ → Ran S
  unfolding made
  listener_create current = made (get_current_io_context context current)

  -- `get_current_io_context` is static: that it is called through `current_runtime()` changes nothing.
  pub resolver_create : Option ℕ → Ran S
  unfolding made
  resolver_create current = made (get_current_io_context context current)

  -- On a thread that a runtime has, each makes an object for its context; outside, none is made.
  pub create_lem :
      (rt : ℕ)
      → (socket_create (some rt) ≡ ran (fresh (context rt)))
        × (listener_create (some rt) ≡ ran (fresh (context rt)))
        × (resolver_create (some rt) ≡ ran (fresh (context rt)))
        × (socket_create none ≡ terminated)
        × (listener_create none ≡ terminated)
        × (resolver_create none ≡ terminated)
  unfolding socket_create listener_create resolver_create get_current_io_context
  create_lem rt = (refl, refl, refl, refl, refl, refl)
