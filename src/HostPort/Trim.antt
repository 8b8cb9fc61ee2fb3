-- ===== src/HostPort/Trim.antt =====
-- include/coasio/net/helper.hpp: what `trim_whitespace` keeps of a text.
use coasio.Common.{
  ℕ, ◌+◌, ◌-◌, ◌<◌, ◌≡◌, refl, ap, ◌∙◌, true, false, List, [], ◌∷◌, ◌++◌, arith, length,
  length-append, All, append-nil, append_assoc,
}
use coasio.HostPort.{ok, fault, is_space, take, drop, trim_loop, view, trim_whitespace}

abbrev pub Spaces : List ℕ → Type 0
Spaces = All (λ c. is_space c ≡ true)

abbrev pub Word : List ℕ → Type 0
Word = All (λ c. is_space c ≡ false)

pub drop-append : (xs ys : List ℕ) → drop (length xs) (xs ++ ys) ≡ ys
drop-append [] ys = refl
drop-append (x ∷ xs) ys = drop-append xs ys

pub take-append : (xs ys : List ℕ) → take (length xs) (xs ++ ys) ≡ xs
take-append [] ys = refl
take-append (x ∷ xs) ys = ap (λ zs. x ∷ zs) (take-append xs ys)

-- The loop passes over leading white space to the first byte of a word,
loop_lead :
    (xs : List ℕ) (c : ℕ) (ys : List ℕ) (i start stop : ℕ)
    → Spaces xs
    → is_space c ≡ false
    → trim_loop (xs ++ c ∷ ys) i start stop true
      ≡ trim_loop ys (i + length xs + 1) (i + length xs) stop false
unfolding trim_loop
loop_lead [] c ys i start stop h nsp = ground arith
loop_lead (x ∷ xs) c ys i start stop (sp, h) nsp =
    ground (arith, loop_lead xs c ys (i + 1) i stop h nsp)

lead :
    (xs : List ℕ) (c : ℕ) (ys : List ℕ) (stop : ℕ)
    → Spaces xs
    → is_space c ≡ false
    → trim_loop (xs ++ c ∷ ys) 0 0 stop true ≡ trim_loop ys (length xs + 1) (length xs) stop false
lead xs c ys stop hs h =
    let start : 0 + length xs ≡ length xs = omega arith in
    loop_lead xs c ys 0 0 stop hs h ∙ ap (λ n. trim_loop ys (n + 1) n stop false) start

-- and stops at the last byte of the rest of the word,
loop-Word :
    (d : ℕ) (ds : List ℕ) (i start stop : ℕ)
    → Word (d ∷ ds)
    → trim_loop (d ∷ ds) i start stop false ≡ (start, i + length ds)
unfolding trim_loop
loop-Word d [] i start stop h = ground arith
loop-Word d (e ∷ ds) i start stop h = ground (arith, loop-Word e ds (i + 1) start i h.1)

-- or at the white space that follows.
loop-Word_space :
    (xs : List ℕ) (c : ℕ) (ys : List ℕ) (i start stop : ℕ)
    → Word xs
    → is_space c ≡ true
    → trim_loop (xs ++ c ∷ ys) i start stop false ≡ (start, i + length xs)
unfolding trim_loop
loop-Word_space [] c ys i start stop h sp = ground arith
loop-Word_space (x ∷ xs) c ys i start stop h sp =
    ground (arith, loop-Word_space xs c ys (i + 1) start i h.1 sp)

-- The view of `ws` behind `xs`.
view_of :
    (xs ws zs : List ℕ) (stop : ℕ)
    → length xs + length ws ≡ stop + 1
    → view (xs ++ (ws ++ zs)) (length xs) stop ≡ ok ws
unfolding view
view_of xs ws zs stop e =
    let size : stop + 1 - length xs ≡ length ws = omega arith in
    rw size (
      rw (drop-append xs (ws ++ zs))
        (rw (take-append ws zs) (ground (arith, length-append xs (ws ++ zs), length-append ws zs))))

trimmed :
    (sv : List ℕ) (start stop : ℕ)
    → trim_loop sv 0 0 (length sv) true ≡ (start, stop)
    → start < stop
    → trim_whitespace sv ≡ view sv start stop
unfolding trim_whitespace
trimmed sv start stop e lt = rw e (ground arith)

keeps-Word :
    (xs : List ℕ) (c d : ℕ) (ds : List ℕ)
    → Spaces xs
    → Word (c ∷ d ∷ ds)
    → trim_whitespace (xs ++ c ∷ d ∷ ds) ≡ ok (c ∷ d ∷ ds)
keeps-Word xs c d ds hs hw =
    let sv = xs ++ c ∷ d ∷ ds in
    let loop =
      lead xs c (d ∷ ds) (length sv) hs hw.0
      ∙ loop-Word d ds (length xs + 1) (length xs) (length sv) hw.1 in
    trimmed sv (length xs) (length xs + 1 + length ds) loop (omega arith)
    ∙ ground (arith, view_of xs (c ∷ d ∷ ds) [] (length xs + 1 + length ds), append-nil ds)

-- A word of at least two bytes with white space in front and none behind is trimmed to the word.
pub trim_whitespace-Word :
    (xs ws : List ℕ) → Spaces xs → Word ws → 1 < length ws → trim_whitespace (xs ++ ws) ≡ ok ws
trim_whitespace-Word xs [] hs hw lt = ground arith
trim_whitespace-Word xs (c ∷ []) hs hw lt = ground arith
trim_whitespace-Word xs (c ∷ d ∷ ds) hs hw lt = keeps-Word xs c d ds hs hw

-- When white space follows a word, `trim_whitespace` gives the word, without the white space in
-- front of it, and one byte of the white space behind it, whatever comes then.
pub trim_whitespace_keeps_space :
    (xs : List ℕ) (c : ℕ) (cs : List ℕ) (sp : ℕ) (ys : List ℕ)
    → Spaces xs
    → Word (c ∷ cs)
    → is_space sp ≡ true
    → trim_whitespace (xs ++ c ∷ (cs ++ sp ∷ ys)) ≡ ok (c ∷ (cs ++ sp ∷ []))
trim_whitespace_keeps_space xs c cs sp ys hs hw hsp =
    let sv = xs ++ c ∷ (cs ++ sp ∷ ys) in
    let loop =
      lead xs c (cs ++ sp ∷ ys) (length sv) hs hw.0
      ∙ loop-Word_space cs sp ys (length xs + 1) (length xs) (length sv) hw.1 hsp in
    trimmed sv (length xs) (length xs + 1 + length cs) loop (omega arith)
    ∙ ground (
      arith,
      view_of xs (c ∷ (cs ++ sp ∷ [])) ys (length xs + 1 + length cs),
      append_assoc cs (sp ∷ []) ys,
      length-append cs (sp ∷ []),
    )

-- When a text ends with a word of one byte behind white space or nothing, the view of
-- `trim_whitespace` reaches past the end of the text.
pub trim_whitespace_one_byte :
    (xs : List ℕ) (c : ℕ) → Spaces xs → is_space c ≡ false → trim_whitespace (xs ++ c ∷ []) ≡ fault
unfolding view trim_loop
trim_whitespace_one_byte xs c hs h =
    let sv = xs ++ c ∷ [] in
    let loop = lead xs c [] (length sv) hs h in
    trimmed sv (length xs) (length sv) loop (omega (arith, length-append xs (c ∷ [])))
    ∙ ground arith
