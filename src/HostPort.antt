-- ===== src/HostPort.antt =====
-- include/coasio/net/helper.hpp: the text of a TCP address, `host`, `host:port` or `[host]:port`. A
-- text is the list of its bytes. A view that reaches past the end of its text is a fault: what it
-- shows is not determined.
pub mod Trim
pub mod Port
pub mod Parse
mod Examples
use coasio.Common.{
  ℕ, zero, suc, ◌+◌, ◌-◌, ◌*◌, ◌^◌, Bool, true, false, not, ◌&&◌, ◌||◌, List, [], ◌∷◌, Option, none,
  some, ltb, leb, ◌==◌, if◌then◌else◌, length,
}

-- `std::errc`
pub data Errc : Type 0 where
  invalid_argument result_out_of_range : Errc

pub data Result {ℓ} (A : Type ℓ) : Type ℓ where
  ok : A → Result A
  fail : Errc → Result A
  fault : Result A

infixl 5 ◌>>=◌
abbrev pub ◌>>=◌ {ℓ κ} : {A : Type ℓ} {B : Type κ} → Result A → (A → Result B) → Result B
ok a >>= f = f a
fail e >>= f = fail e
fault >>= f = fault

-- `std::isspace` and `std::isdigit` in the "C" locale.
abbrev pub is_space : ℕ → Bool
is_space c = c == b' ' || (leb 9 c && leb c 13)

abbrev pub is_digit : ℕ → Bool
is_digit c = leb b'0' c && leb c b'9'

abbrev pub take : ℕ → List ℕ → List ℕ
take zero xs = []
take (suc n) [] = []
take (suc n) (x ∷ xs) = x ∷ take n xs

abbrev pub drop : ℕ → List ℕ → List ℕ
drop zero xs = xs
drop (suc n) [] = []
drop (suc n) (x ∷ xs) = drop n xs

-- The loop of `trim_whitespace` from byte `i` on: the values of `start` and `end` after it.
pub trim_loop : List ℕ → ℕ → ℕ → ℕ → Bool → ℕ × ℕ
trim_loop [] i start stop s = (start, stop)
trim_loop (c ∷ cs) i start stop true = trim_loop cs (i + 1) i stop (is_space c)
trim_loop (c ∷ cs) i start stop false =
    let rest = trim_loop cs (i + 1) start i false in if is_space c then (start, i) else rest

-- `{sv.data() + start, sv.data() + end + 1}`
pub view : List ℕ → ℕ → ℕ → Result (List ℕ)
view sv start stop =
    if leb (stop + 1) (length sv) then ok (take (stop + 1 - start) (drop start sv)) else fault

pub trim_whitespace : List ℕ → Result (List ℕ)
trim_whitespace sv =
    let (start, stop) = trim_loop sv 0 0 (length sv) true in
    if ltb start stop then view sv start stop else ok []

pub all_digits : List ℕ → Bool
all_digits [] = true
all_digits (c ∷ cs) = is_digit c && all_digits cs

-- `std::from_chars` into an `unsigned long` of 64 bits, on digits.
pub digits_value : ℕ → List ℕ → ℕ
digits_value acc [] = acc
digits_value acc (c ∷ cs) = digits_value (acc * 10 + (c - b'0')) cs

pub from_chars : List ℕ → Option ℕ
from_chars cs = if ltb (digits_value 0 cs) (2 ^ 64) then some (digits_value 0 cs) else none

abbrev pub is_nil : List ℕ → Bool
is_nil [] = true
is_nil (c ∷ cs) = false

pub parse_port : List ℕ → Result ℕ
parse_port s =
    if is_nil s
    then fail invalid_argument
    else if not (all_digits s)
    then fail invalid_argument
    else elim (from_chars s) [
      | none ↦ fail invalid_argument
      | some v ↦ if ltb 65535 v then fail result_out_of_range else ok v
    ]

pub record HostPort : Type 0 where
  pub host : List ℕ
  pub port : Option ℕ

-- `find`, from the front; `none` is `npos`.
pub find : ℕ → List ℕ → Option ℕ
find c [] = none
find c (x ∷ xs) =
    if x == c then some 0 else elim (find c xs) [ none ↦ none | some i ↦ some (suc i) ]

unfoldable pub count : ℕ → List ℕ → ℕ
count c [] = 0
count c (x ∷ xs) = if x == c then suc (count c xs) else count c xs

-- `port` of a text behind a colon.
pub with_port : List ℕ → List ℕ → Result HostPort
with_port host port_str = parse_port port_str >>= λ p. ok (record { host = host; port = some p })

-- The part of `parse_host_port` for a text that begins with `[`, up to its `]` at `close`.
pub parse_bracketed : List ℕ → ℕ → Result HostPort
parse_bracketed trimmed close =
    let host = take (close - 1) (drop 1 trimmed) in
    if is_nil host then fail invalid_argument else elim (drop (close + 1) trimmed) [
      | [] ↦ ok (record { host = host; port = none })
      | c ∷ port_str ↦ if not (c == b':') then fail invalid_argument else with_port host port_str
    ]

-- The part for any other text.
pub parse_plain : List ℕ → Result HostPort
parse_plain trimmed =
    if not (count b':' trimmed == 1)
    then ok (record { host = trimmed; port = none })
    else elim (find b':' trimmed) [
      | none ↦ fault
      | some colon ↦
          let host = take colon trimmed in
          let port_str = drop (colon + 1) trimmed in
          if is_nil host || is_nil port_str then fail invalid_argument else with_port host port_str
    ]

pub parse_trimmed : List ℕ → Result HostPort
parse_trimmed [] = fail invalid_argument
parse_trimmed (c ∷ cs) =
    if c == b'['
    then (elim (find b']' (c ∷ cs)) [
      | none ↦ fail invalid_argument
      | some close ↦ parse_bracketed (c ∷ cs) close
    ])
    else parse_plain (c ∷ cs)

pub parse_host_port : List ℕ → Result HostPort
parse_host_port input = trim_whitespace input >>= parse_trimmed
