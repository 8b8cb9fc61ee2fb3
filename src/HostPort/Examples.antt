-- ===== src/HostPort/Examples.antt =====
-- Examples: addresses.
use coasio.Common.{◌<◌, ◌≡◌, refl, true, [], ◌∷◌, some, none, arith}
use coasio.HostPort.{
  ok, fail, fault, result_out_of_range, trim_whitespace, parse_port, all_digits, digits_value,
  parse_host_port, from_chars, count,
}
use coasio.HostPort.Trim.{
  trim_whitespace-Word, trim_whitespace_keeps_space, trim_whitespace_one_byte,
}
use coasio.HostPort.Port.{decimal, parse_port-decimal, parse_port-bounded}
use coasio.HostPort.Parse.{
  host_colon_port, bracket_host_port, parse_host_port-colon, parse_host_port-bracket,
  parse_host_port_many_colons,
}

-- `  ab`
trim_whitespace-Word_run : trim_whitespace (b' ' ∷ b' ' ∷ b'a' ∷ b'b' ∷ []) ≡ ok (b'a' ∷ b'b' ∷ [])
trim_whitespace-Word_run =
    trim_whitespace-Word (b' ' ∷ b' ' ∷ []) (b'a' ∷ b'b' ∷ []) (refl, (refl, tt)) (refl, (refl, tt))
      (ground arith)

-- ` ab  c`
trim_whitespace_keeps_space_run :
    trim_whitespace (b' ' ∷ b'a' ∷ b'b' ∷ b' ' ∷ b' ' ∷ b'c' ∷ []) ≡ ok (b'a' ∷ b'b' ∷ b' ' ∷ [])
trim_whitespace_keeps_space_run =
    trim_whitespace_keeps_space (b' ' ∷ []) b'a' (b'b' ∷ []) b' ' (b' ' ∷ b'c' ∷ []) (refl, tt)
      (refl, (refl, tt)) refl

trim_whitespace_one_byte_run : trim_whitespace (b' ' ∷ b'a' ∷ []) ≡ fault
trim_whitespace_one_byte_run = trim_whitespace_one_byte (b' ' ∷ []) b'a' (refl, tt) refl

parse_port-decimal_run : parse_port (decimal 70001 70000) ≡ fail result_out_of_range
parse_port-decimal_run = parse_port-decimal 70000 (ground arith)

accepted : parse_port (b'8' ∷ b'0' ∷ []) ≡ ok 80
unfolding parse_port all_digits from_chars digits_value
accepted = refl

parse_port-bounded_run :
    (80 < 65536) × (80 ≡ digits_value 0 (b'8' ∷ b'0' ∷ [])) × (all_digits (b'8' ∷ b'0' ∷ []) ≡ true)
parse_port-bounded_run = parse_port-bounded (b'8' ∷ b'0' ∷ []) 80 accepted

no_colon : count b':' (b'a' ∷ b'b' ∷ []) ≡ 0
unfolding count
no_colon = refl

-- ` ab:80`
parse_host_port-colon_example :
    parse_host_port (b' ' ∷ host_colon_port (b'a' ∷ b'b' ∷ []) 80)
    ≡ ok (record { host = b'a' ∷ b'b' ∷ []; port = some 80 })
parse_host_port-colon_example =
    parse_host_port-colon (b' ' ∷ []) b'a' (b'b' ∷ []) 80 (refl, tt) (refl, (refl, tt)) no_colon
      refl (ground arith)

no_bracket : count b']' (b':' ∷ b':' ∷ b'1' ∷ []) ≡ 0
unfolding count
no_bracket = refl

-- `[::1]:80`
parse_host_port-bracket_run :
    parse_host_port (bracket_host_port (b':' ∷ b':' ∷ b'1' ∷ []) 80)
    ≡ ok (record { host = b':' ∷ b':' ∷ b'1' ∷ []; port = some 80 })
parse_host_port-bracket_run =
    parse_host_port-bracket [] (b':' ∷ b':' ∷ b'1' ∷ []) 80 tt (refl, (refl, (refl, tt))) no_bracket
      refl (ground arith)

two_colons : 1 < count b':' (b':' ∷ b':' ∷ b'1' ∷ [])
unfolding count
two_colons = ground arith

-- `::1`
parse_host_port_many_colons_run :
    parse_host_port (b':' ∷ b':' ∷ b'1' ∷ [])
    ≡ ok (record { host = b':' ∷ b':' ∷ b'1' ∷ []; port = none })
parse_host_port_many_colons_run =
    parse_host_port_many_colons [] b':' (b':' ∷ b'1' ∷ []) tt (refl, (refl, (refl, tt))) two_colons
      refl
