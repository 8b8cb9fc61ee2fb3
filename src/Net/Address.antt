-- ===== src/Net/Address.antt =====
-- include/coasio/net/tcp/ip_address.hpp and include/coasio/net/base_endpoint.hpp, with asio's
-- addresses and endpoints as parameters. A text is its bytes.
use coasio.Common.{ℕ, ◌≡◌, refl, ◌∙◌, Bool, List, Option, none, some}
use coasio.Async.{Code, Outcome, value, failed}
use coasio.Net.{outcome}

-- `asio::ip::address`. A 16-byte address is the list of its bytes; `to_v4` and `to_v6` throw where
-- they give `none`.
pub record AsioAddress (A : Type 0) : Type 0 where
  pub unset : A
  pub any_v4 : A
  pub any_v6 : A
  pub of_v4 : ℕ → A
  pub of_v6 : List ℕ → A
  pub make_address : List ℕ → A × Option Code
  pub is_v4 : A → Bool
  pub is_v6 : A → Bool
  pub is_loopback : A → Bool
  pub is_multicast : A → Bool
  pub is_unspecified : A → Bool
  pub to_string : A → List ℕ
  pub to_v4 : A → Option A
  pub to_v6 : A → Option A

-- `ip_address`.
pub record IpAddress (A : Type 0) : Type 0 where
  pub address : A

module _ {A : Type 0} (asio : AsioAddress A) where
  pub ip_address : IpAddress A
  ip_address = record { address = asio.unset }

  pub v4 : IpAddress A
  v4 = record { address = asio.any_v4 }

  pub v6 : IpAddress A
  v6 = record { address = asio.any_v6 }

  pub v4_of : ℕ → IpAddress A
  v4_of addr = record { address = asio.of_v4 addr }

  pub v6_of : List ℕ → IpAddress A
  v6_of addr = record { address = asio.of_v6 addr }

  pub from_string : List ℕ → Outcome (IpAddress A)
  from_string ip_string =
      let (addr, ec) = asio.make_address ip_string in outcome ec (record { address = addr })

  pub is_v4 : IpAddress A → Bool
  is_v4 a = asio.is_v4 a.address

  pub is_v6 : IpAddress A → Bool
  is_v6 a = asio.is_v6 a.address

  pub is_loopback : IpAddress A → Bool
  is_loopback a = asio.is_loopback a.address

  pub is_multicast : IpAddress A → Bool
  is_multicast a = asio.is_multicast a.address

  pub is_unspecified : IpAddress A → Bool
  is_unspecified a = asio.is_unspecified a.address

  pub to_string : IpAddress A → List ℕ
  to_string a = asio.to_string a.address

  -- `none` says that asio throws.
  wrapped : Option A → Option (IpAddress A)
  wrapped none = none
  wrapped (some addr) = some (record { address = addr })

  pub to_v4 : IpAddress A → Option (IpAddress A)
  to_v4 a = wrapped (asio.to_v4 a.address)

  pub to_v6 : IpAddress A → Option (IpAddress A)
  to_v6 a = wrapped (asio.to_v6 a.address)

  -- A text that asio reads back from what it prints is read back by the library, and one that asio
  -- refuses is refused with asio's error.
  pub from_string-to_string :
      (a : IpAddress A)
      → asio.make_address (asio.to_string a.address) ≡ (a.address, none)
      → from_string (to_string a) ≡ value a
  unfolding from_string to_string
  from_string-to_string a reads = rw reads refl

  pub from_string_refused :
      (text : List ℕ) (e : Code) → (asio.make_address text).1 ≡ some e → from_string text ≡ failed e
  unfolding from_string
  from_string_refused text e refuses = rw refuses refl

-- `asio::ip::basic_endpoint<InternetProtocol>`, with the laws of its setters.
pub record AsioEndpoint (A E : Type 0) : Type 0 where
  pub make : A → ℕ → E
  pub address : E → A
  pub port : E → ℕ
  pub set_address : E → A → E
  pub set_port : E → ℕ → E
  pub address-make : (a : A) (p : ℕ) → address (make a p) ≡ a
  pub port-make : (a : A) (p : ℕ) → port (make a p) ≡ p
  pub address-set_port : (e : E) (p : ℕ) → address (set_port e p) ≡ address e
  pub port-set_address : (e : E) (a : A) → port (set_address e a) ≡ port e
  pub address-set_address : (e : E) (a : A) → address (set_address e a) ≡ a
  pub port-set_port : (e : E) (p : ℕ) → port (set_port e p) ≡ p

-- `base_endpoint`.
pub record Endpoint (E : Type 0) : Type 0 where
  pub endpoint : E

module _ {A E : Type 0} (asio : AsioEndpoint A E) where
  pub of_asio : E → Endpoint E
  of_asio e = record { endpoint = e }

  pub base_endpoint : IpAddress A → ℕ → Endpoint E
  base_endpoint addr port = record { endpoint = asio.make addr.address port }

  pub address : Endpoint E → IpAddress A
  address e = record { address = asio.address e.endpoint }

  pub port : Endpoint E → ℕ
  port e = asio.port e.endpoint

  pub set_address : Endpoint E → IpAddress A → Endpoint E
  set_address e addr = record { endpoint = asio.set_address e.endpoint addr.address }

  pub set_port : Endpoint E → ℕ → Endpoint E
  set_port e p = record { endpoint = asio.set_port e.endpoint p }

  pub asio_endpoint : Endpoint E → E
  asio_endpoint e = e.endpoint

  -- Setting the port and the address of any endpoint, in either order, gives one with just these.
  pub set_both :
      (e : Endpoint E) (addr : IpAddress A) (p : ℕ)
      → let f = set_port (set_address e addr) p in
        let g = set_address (set_port e p) addr in
        ((address f).address ≡ addr.address)
        × (port f ≡ p)
        × ((address g).address ≡ addr.address)
        × (port g ≡ p)
  unfolding set_port set_address address port
  set_both e addr p = (
    asio.address-set_port _ p ∙ asio.address-set_address e.endpoint addr.address,
    asio.port-set_port _ p,
    asio.address-set_address _ addr.address,
    asio.port-set_address _ addr.address ∙ asio.port-set_port e.endpoint p,
  )
