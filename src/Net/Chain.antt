-- ===== src/Net/Chain.antt =====
-- The calls that open and bind, against one order of steps that ends at the first error.
use coasio.Common.{
  ◌≡◌, Bool, true, false, List, [], ◌∷◌, ◌++◌, Option, none, some, arith, if◌then◌else◌,
}
use coasio.Async.{Code, Outcome, value, failed, bad_access}
use coasio.Net.{AsioSocket, bind_endpoint, socket_bind, AsioAcceptor, bind_acceptor, listener_bind}

-- Steps in order; the first that sets an error code is the last.
abbrev pub chain : {A : Type 0} → List (A → A × Option Code) → A → A × Outcome (Unit {0})
chain [] a = (a, value tt)
chain (f ∷ fs) a =
    let (b, ec) = f a in let rest = chain fs b in elim ec [ some e ↦ (b, failed e) | none ↦ rest ]

abbrev pub only_if : {A : Type 0} → Bool → A → List A
only_if b f = if b then f ∷ [] else []

-- The object, if there was no error.
abbrev pub kept : {A : Type 0} → A × Outcome (Unit {0}) → Outcome A
kept (a, value _) = value a
kept (a, failed e) = failed e
kept (a, bad_access) = bad_access

module _ {S E P : Type 0} (asio : AsioSocket S E P) where
  -- `bind` of a socket opens it first if it is not open, then binds it, and ends at the first error.
  pub socket_bind-chain :
      (s : S) (ep : E)
      → socket_bind asio s ep
        ≡ chain
            (only_if
                (if asio.is_open s then false else true)
                (λ t. asio.open_as t (asio.protocol ep))
              ++ (λ t. asio.bind t ep) ∷ [])
            s
  unfolding socket_bind bind_endpoint
  socket_bind-chain s ep = ground (arith)

module _ {L E P : Type 0} (asio : AsioAcceptor L E P) where
  -- `bind` of a listener opens a new acceptor, sets the option if it is asked to, and binds it, and gives
  -- the acceptor if there was no error.
  pub listener_bind-chain :
      (ep : E) (reuse : Bool)
      → listener_bind asio ep reuse
        ≡ kept (
            chain
              ((λ l. asio.open_as l (asio.protocol ep))
                ∷ (only_if reuse asio.reuse_address ++ (λ l. asio.bind l ep) ∷ []))
              asio.fresh)
  unfolding listener_bind bind_acceptor
  listener_bind-chain ep reuse = ground (arith)
