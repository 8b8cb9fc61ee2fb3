-- ===== src/HostPort/Port.antt =====
-- include/coasio/net/helper.hpp: what `parse_port` accepts.
use coasio.Common.{
  ℕ, zero, suc, ◌+◌, ◌-◌, ◌*◌, ◌/◌, ◌%◌, ◌^◌, ◌<◌, ◌≡◌, refl, true, false, ◌&&◌, List, [], ◌∷◌,
  ◌++◌, arith, ltb, if◌then◌else◌, inl, inr, Bool-cases,
}
use coasio.HostPort.{
  ok, fail, result_out_of_range, is_digit, all_digits, digits_value, from_chars, is_nil, parse_port,
}

-- The decimal text of a number below `10 ^ fuel`, as it is printed.
abbrev pub decimal : ℕ → ℕ → List ℕ
decimal zero n = []
decimal (suc fuel) n =
    let front = decimal fuel (n / 10) in
    if ltb n 10 then (b'0' + n) ∷ [] else front ++ (b'0' + n % 10) ∷ []

all_digits-snoc : (xs : List ℕ) (c : ℕ) → all_digits (xs ++ c ∷ []) ≡ (all_digits xs && is_digit c)
unfolding all_digits
all_digits-snoc [] c = ground arith
all_digits-snoc (x ∷ xs) c = ground (arith, all_digits-snoc xs c)

digits_value-snoc :
    (xs : List ℕ) (acc c : ℕ)
    → digits_value acc (xs ++ c ∷ []) ≡ digits_value acc xs * 10 + (c - b'0')
unfolding digits_value
digits_value-snoc [] acc c = refl
digits_value-snoc (x ∷ xs) acc c = digits_value-snoc xs (acc * 10 + (x - b'0')) c

digits_value-decimal : (fuel n : ℕ) → n < fuel → digits_value 0 (decimal fuel n) ≡ n
unfolding digits_value
digits_value-decimal zero n lt = ground arith
digits_value-decimal (suc fuel) n lt = elim (Bool-cases (ltb n 10)) [
  | inl small ↦ ground arith
  | inr large ↦ ground (
    arith,
    digits_value-snoc (decimal fuel (n / 10)) 0 (b'0' + n % 10),
    digits_value-decimal fuel (n / 10),
  )
]

pub all_digits-decimal : (fuel n : ℕ) → n < fuel → all_digits (decimal fuel n) ≡ true
unfolding all_digits
all_digits-decimal zero n lt = ground arith
all_digits-decimal (suc fuel) n lt = elim (Bool-cases (ltb n 10)) [
  | inl small ↦ ground arith
  | inr large ↦ ground (
    arith,
    all_digits-snoc (decimal fuel (n / 10)) (b'0' + n % 10),
    all_digits-decimal fuel (n / 10),
  )
]

is_nil-snoc : (xs : List ℕ) (c : ℕ) → is_nil (xs ++ c ∷ []) ≡ false
is_nil-snoc [] c = refl
is_nil-snoc (x ∷ xs) c = refl

pub is_nil-decimal : (fuel n : ℕ) → n < fuel → is_nil (decimal fuel n) ≡ false
is_nil-decimal zero n lt = ground arith
is_nil-decimal (suc fuel) n lt = ground (arith, is_nil-snoc (decimal fuel (n / 10)) (b'0' + n % 10))

-- The decimal text of a number below 2 ^ 64 is read back by `parse_port` as that number when it is
-- below 65536, and is out of range when it is not.
pub parse_port-decimal :
    (n : ℕ)
    → n < 2 ^ 64
    → parse_port (decimal (suc n) n) ≡ (if ltb n 65536 then ok n else fail result_out_of_range)
unfolding parse_port from_chars
parse_port-decimal n lt =
    ground (
      arith,
      digits_value-decimal (suc n) n,
      all_digits-decimal (suc n) n,
      is_nil-decimal (suc n) n,
    )

-- A port that is given is below 65536 and is the value of the text, which has digits only.
pub parse_port-bounded :
    (s : List ℕ) (p : ℕ)
    → parse_port s ≡ ok p
    → (p < 65536) × (p ≡ digits_value 0 s) × (all_digits s ≡ true)
unfolding parse_port from_chars
parse_port-bounded s p e = ground arith
