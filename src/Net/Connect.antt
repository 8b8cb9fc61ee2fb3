-- ===== src/Net/Connect.antt =====
-- `socket::connect_to`.
use coasio.Common.{
  ℕ, suc, ◌<◌, ◌≡◌, refl, ap, ◌∙◌, Bool, true, false, List, ◌∷◌, ◌++◌, none, some, arith,
  Option-cases, inl, inr, ◌==◌,
}
use coasio.HostPort.{Result, ok, fail, fault, HostPort, parse_host_port, count}
use coasio.HostPort.Port.{decimal}
use coasio.HostPort.Trim.{Spaces, Word}
use coasio.HostPort.Parse.{host_colon_port, parse_host_port-colon}
use coasio.Async.{Outcome, value, Awaitable, Completion, async_op, on_complete, await_resume}
use coasio.Async.CoAwait.{co_await, Live, co_await-Live, co_await-off}
use coasio.Net.{
  AsioNet, resolve, connect_impl, connect_resolved, connect_host, connect_parsed, connect_to,
}

module _ {W R S : Type 0} (net : AsioNet W R S) where
  -- asio's answer without an error.
  abbrev pub done : {A : Type 0} → A → Completion A
  done a = record { ec = none; result = some a }

  co_await-done :
      {A : Type 0} (a : Awaitable A) (init : W → W × Completion A) (w v : W) (x : A)
      → Live net.turns w
      → init (net.turns.others w) ≡ (v, done x)
      → co_await net.turns a init w ≡ (v, value x)
  unfolding await_resume on_complete
  co_await-done {A} a init w v x live ans =
      co_await-Live net.turns a init w live
      ∙ ap (λ (r : W × Completion A). (r.0, await_resume (on_complete r.1 a))) ans

  -- `socket::connect_to` of a text `host:port`, with white space in front of it or not, whose
  -- host is not empty, has no white space and no colon and does not begin with `[`, and whose
  -- port is below 65536: under a scope that is live at every test, if asio resolves that host
  -- with the decimal text of that port as its service, and connects a new socket to what it
  -- found, each without an error, then that socket is the result.
  pub connect_to-colon :
      (xs : List ℕ) (c : ℕ) (cs : List ℕ) (n : ℕ) (w₀ w₁ w₂ w₃ : W) (eps : R) (s : S)
      → Spaces xs
      → Word (c ∷ cs)
      → count b':' (c ∷ cs) ≡ 0
      → (c == b'[') ≡ false
      → n < 65536
      → Live net.turns w₀
      → net.async_resolve (c ∷ cs) (decimal (suc n) n) (net.turns.others w₀) ≡ (w₁, done eps)
      → net.fresh w₁ ≡ (w₂, s)
      → Live net.turns w₂
      → net.async_connect s eps (net.turns.others w₂) ≡ (w₃, done tt)
      → connect_to net (xs ++ host_colon_port (c ∷ cs) n) w₀ ≡ (w₃, value s)
  unfolding connect_to connect_parsed connect_host connect_resolved connect_impl resolve
  connect_to-colon xs c cs n w₀ w₁ w₂ w₃ eps s hs hw nc plain lt live₀ r f live₂ k =
      let parsed = parse_host_port-colon xs c cs n hs hw nc plain lt in
      let resolved =
        co_await-done (async_op net.no_results) (net.async_resolve (c ∷ cs) (decimal (suc n) n)) w₀
          w₁ eps live₀ r in
      let connected = co_await-done (async_op tt) (net.async_connect s eps) w₂ w₃ tt live₂ k in
      ground (arith, parsed, resolved, f, connected)

  abbrev pub is_value : {A : Type 0} → Outcome A → Bool
  is_value (value _) = true
  is_value _ = false

  -- Nothing was done, and an error is given.
  abbrev pub Refused : W → W × Outcome S → Type 0
  Refused w r = (r.0 ≡ w) × (is_value r.1 ≡ false)

  connect_parsed_cancelled :
      (r : Result HostPort) (w : W) → net.turns.is_off w ≡ true → Refused w (connect_parsed net r w)
  unfolding connect_parsed connect_host resolve
  connect_parsed_cancelled (fail e) w off = (refl, refl)
  connect_parsed_cancelled fault w off = (refl, refl)
  connect_parsed_cancelled (ok hp) w off =
      let stays = λ (p : ℕ).
        co_await-off net.turns (async_op net.no_results)
          (net.async_resolve hp.host (decimal (suc p) p)) w off in
      elim (Option-cases hp.port) [
        | inl e ↦ ground (arith, e)
        | inr (p, e) ↦ ground (arith, e, stays p)
      ]

  -- Under a cancelled scope `socket::connect_to` does nothing, whatever the text, and gives no
  -- socket.
  pub connect_to_cancelled :
      (text : List ℕ) (w : W) → net.turns.is_off w ≡ true → Refused w (connect_to net text w)
  unfolding connect_to
  connect_to_cancelled text w off = connect_parsed_cancelled (parse_host_port text) w off
