-- ===== src/HostPort/Parse.antt =====
-- include/coasio/net/helper.hpp: the texts that `parse_host_port` reads back.
use coasio.Common.{
  ℕ, suc, ◌+◌, ◌-◌, ◌≤◌, ◌<◌, ◌≡◌, refl, ◌∙◌, true, false, List, [], ◌∷◌, ◌++◌, arith, none, some,
  length, ◌==◌, append-nil, length-append,
}
use coasio.HostPort.{
  ok, all_digits, is_nil, take, drop, find, count, with_port, parse_bracketed, parse_plain,
  parse_trimmed, parse_host_port,
}
use coasio.HostPort.Trim.{Spaces, Word, trim_whitespace-Word, take-append}
use coasio.HostPort.Port.{decimal, all_digits-decimal, is_nil-decimal, parse_port-decimal}

Word-append : (xs ys : List ℕ) → Word xs → Word ys → Word (xs ++ ys)
Word-append [] ys hx hy = hy
Word-append (x ∷ xs) ys hx hy = (hx.0, Word-append xs ys hx.1 hy)

count-append : (c : ℕ) (xs ys : List ℕ) → count c (xs ++ ys) ≡ count c xs + count c ys
unfolding count
count-append c [] ys = ground arith
count-append c (x ∷ xs) ys = ground (arith, count-append c xs ys)

-- The first `c` of a text stands behind what has none.
find-append : (c : ℕ) (xs ys : List ℕ) → count c xs ≡ 0 → find c (xs ++ c ∷ ys) ≡ some (length xs)
unfolding count find
find-append c [] ys h = ground arith
find-append c (x ∷ xs) ys h = ground (arith, find-append c xs ys)

digits-Word : (xs : List ℕ) → all_digits xs ≡ true → Word xs
unfolding all_digits
digits-Word [] h = tt
digits-Word (x ∷ xs) h = (ground arith, digits-Word xs (ground arith))

digits_no_colon : (xs : List ℕ) → all_digits xs ≡ true → count b':' xs ≡ 0
unfolding all_digits count
digits_no_colon [] h = refl
digits_no_colon (x ∷ xs) h = ground (arith, digits_no_colon xs)

-- `port` and its decimal text.
with_port-decimal :
    (host : List ℕ) (n : ℕ)
    → n < 65536
    → with_port host (decimal (suc n) n) ≡ ok (record { host = host; port = some n })
unfolding with_port
with_port-decimal host n lt = ground (arith, parse_port-decimal n)

drop-append-snoc : (xs : List ℕ) (c : ℕ) (ys : List ℕ) → drop (length xs + 1) (xs ++ c ∷ ys) ≡ ys
drop-append-snoc [] c ys = refl
drop-append-snoc (x ∷ xs) c ys =
    let shift : suc (length xs) + 1 ≡ suc (length xs + 1) = omega arith in
    rw shift (drop-append-snoc xs c ys)

parse_plain-colon :
    (host : List ℕ) (port_str : List ℕ)
    → count b':' host ≡ 0
    → count b':' port_str ≡ 0
    → is_nil host ≡ false
    → is_nil port_str ≡ false
    → parse_plain (host ++ b':' ∷ port_str) ≡ with_port host port_str
unfolding parse_plain count
parse_plain-colon host port_str no_host no_port some_host some_port =
    let front = find-append b':' host port_str no_host in
    let one = count-append b':' host (b':' ∷ port_str) in
    ground
      (arith, front, one, take-append host (b':' ∷ port_str), drop-append-snoc host b':' port_str)

-- A bracketed host ends at the first `]`.
parse_trimmed_at :
    (host rest : List ℕ)
    → count b']' host ≡ 0
    → parse_trimmed (b'[' ∷ (host ++ b']' ∷ rest))
      ≡ parse_bracketed (b'[' ∷ (host ++ b']' ∷ rest)) (suc (length host))
unfolding parse_trimmed find
parse_trimmed_at host rest no_bracket = rw (find-append b']' host rest no_bracket) refl

bracketed_host : (host rest : List ℕ) → take (suc (length host) - 1) (host ++ b']' ∷ rest) ≡ host
bracketed_host host rest =
    let size : suc (length host) - 1 ≡ length host = omega arith in
    rw size (take-append host (b']' ∷ rest))

behind_bracket :
    (host rest : List ℕ) → drop (suc (length host) + 1) (b'[' ∷ (host ++ b']' ∷ rest)) ≡ rest
behind_bracket host rest =
    let behind : suc (length host) + 1 ≡ suc (length host + 1) = omega arith in
    rw behind (drop-append-snoc host b']' rest)

parse_bracketed-colon :
    (host : List ℕ) (port_str : List ℕ)
    → count b']' host ≡ 0
    → is_nil host ≡ false
    → parse_trimmed (b'[' ∷ (host ++ b']' ∷ b':' ∷ port_str)) ≡ with_port host port_str
unfolding parse_bracketed
parse_bracketed-colon host port_str no_bracket some_host =
    parse_trimmed_at host (b':' ∷ port_str) no_bracket
    ∙ rw (behind_bracket host (b':' ∷ port_str))
        (rw (bracketed_host host (b':' ∷ port_str)) (rw some_host refl))

parse_bracketed_alone :
    (host : List ℕ)
    → count b']' host ≡ 0
    → is_nil host ≡ false
    → parse_trimmed (b'[' ∷ (host ++ b']' ∷ [])) ≡ ok (record { host = host; port = none })
unfolding parse_bracketed
parse_bracketed_alone host no_bracket some_host =
    parse_trimmed_at host [] no_bracket
    ∙ rw (behind_bracket host []) (rw (bracketed_host host []) (rw some_host refl))

port_text-Word : (n : ℕ) → Word (decimal (suc n) n)
port_text-Word n = digits-Word (decimal (suc n) n) (all_digits-decimal (suc n) n (omega arith))

port_text_no_colon : (n : ℕ) → count b':' (decimal (suc n) n) ≡ 0
port_text_no_colon n =
    digits_no_colon (decimal (suc n) n) (all_digits-decimal (suc n) n (omega arith))

plain_text :
    (c : ℕ) (cs rest : List ℕ)
    → (c == b'[') ≡ false
    → parse_trimmed (c ∷ (cs ++ rest)) ≡ parse_plain (c ∷ (cs ++ rest))
unfolding parse_trimmed
plain_text c cs rest plain = rw plain refl

count_le_length : (c : ℕ) (xs : List ℕ) → count c xs ≤ length xs
unfolding count
count_le_length c [] = omega arith
count_le_length c (x ∷ xs) = ground (arith, count_le_length c xs)

parse-Word :
    (xs ws : List ℕ)
    → Spaces xs
    → Word ws
    → 1 < length ws
    → parse_host_port (xs ++ ws) ≡ parse_trimmed ws
unfolding parse_host_port
parse-Word xs ws hs hw lt = rw (trim_whitespace-Word xs ws hs hw lt) refl

abbrev pub host_colon_port : List ℕ → ℕ → List ℕ
host_colon_port host n = host ++ b':' ∷ decimal (suc n) n

abbrev pub bracket_host_port : List ℕ → ℕ → List ℕ
bracket_host_port host n = b'[' ∷ (host ++ b']' ∷ b':' ∷ decimal (suc n) n)

-- `host:port` is read back as that host and that port, with white space in front of it or not, when
-- the host is not empty, has no white space and no colon, and does not begin with `[`, and the port
-- is below 65536.
pub parse_host_port-colon :
    (xs : List ℕ) (c : ℕ) (cs : List ℕ) (n : ℕ)
    → Spaces xs
    → Word (c ∷ cs)
    → count b':' (c ∷ cs) ≡ 0
    → (c == b'[') ≡ false
    → n < 65536
    → parse_host_port (xs ++ host_colon_port (c ∷ cs) n)
      ≡ ok (record { host = c ∷ cs; port = some n })
parse_host_port-colon xs c cs n hs hw no_colon plain lt =
    let port_str = decimal (suc n) n in
    let text = Word-append (c ∷ cs) (b':' ∷ port_str) hw (refl, port_text-Word n) in
    parse-Word xs (host_colon_port (c ∷ cs) n) hs text
      (ground (arith, length-append cs (b':' ∷ port_str)))
    ∙ plain_text c cs (b':' ∷ port_str) plain
    ∙ parse_plain-colon (c ∷ cs) port_str no_colon (port_text_no_colon n) refl
        (is_nil-decimal (suc n) n (omega arith))
    ∙ with_port-decimal (c ∷ cs) n lt

-- `[host]:port` is read back as that host and that port, with white space in front of it or not,
-- when the host is not empty and has no white space and no `]`, and the port is below 65536; the
-- host may have colons.
pub parse_host_port-bracket :
    (xs host : List ℕ) (n : ℕ)
    → Spaces xs
    → Word host
    → count b']' host ≡ 0
    → is_nil host ≡ false
    → n < 65536
    → parse_host_port (xs ++ bracket_host_port host n) ≡ ok (record { host = host; port = some n })
parse_host_port-bracket xs host n hs hw no_bracket some_host lt =
    let port_str = decimal (suc n) n in
    let text : Word (bracket_host_port host n) =
      (refl, Word-append host (b']' ∷ b':' ∷ port_str) hw (refl, (refl, port_text-Word n))) in
    parse-Word xs (bracket_host_port host n) hs text
      (ground (arith, length-append host (b']' ∷ b':' ∷ port_str)))
    ∙ parse_bracketed-colon host port_str no_bracket some_host
    ∙ with_port-decimal host n lt

-- A text without white space, but for some in front of it, that has several colons and does not
-- begin with `[` is read as a host as a whole, without a port.
pub parse_host_port_many_colons :
    (xs : List ℕ) (c : ℕ) (cs : List ℕ)
    → Spaces xs
    → Word (c ∷ cs)
    → 1 < count b':' (c ∷ cs)
    → (c == b'[') ≡ false
    → parse_host_port (xs ++ c ∷ cs) ≡ ok (record { host = c ∷ cs; port = none })
unfolding parse_plain
parse_host_port_many_colons xs c cs hs hw many plain =
    let long = count_le_length b':' (c ∷ cs) in
    parse-Word xs (c ∷ cs) hs hw (omega arith)
    ∙ ground (arith, plain_text c cs [] plain, append-nil cs)
