-- ===== src/Printf.antt =====
-- printf.c: formatted output. The output is the list of the bytes that putc writes. The arguments are
-- words, `string` is what memory holds at an address up to the NUL.
use pcs_ii.Base.{
  ℕ, zero, suc, ◌-◌, ◌/◌, ◌%◌, ◌^◌, Bool, true, false, ◌&&◌, ◌||◌, List, [], ◌∷◌, ◌++◌, get_or, leb,
  ◌==◌, if◌then◌else◌,
}

-- "0123456789ABCDEF"
abbrev pub digits : List ℕ
digits = 48 ∷ 49 ∷ 50 ∷ 51 ∷ 52 ∷ 53 ∷ 54 ∷ 55 ∷ 56 ∷ 57 ∷ 65 ∷ 66 ∷ 67 ∷ 68 ∷ 69 ∷ 70 ∷ []

-- The loop of printint, with fuel, and the output of buf from its end: `out` is what was stored last.
unfoldable pub print_digits : ℕ → ℕ → ℕ → List ℕ → List ℕ
print_digits zero x base out = out
print_digits (suc f) x base out =
    let out' = get_or digits (x % base) 0 ∷ out in
    let rest = print_digits f (x / base) base out' in if x / base == 0 then out' else rest

-- xx is a 32-bit pattern, negative from 2^31 on. buf has 16 places.
unfoldable pub printint : ℕ → ℕ → Bool → List ℕ
unfolding print_digits
printint xx base sgn =
    if sgn && leb (2 ^ 31) xx
    then b'-' ∷ print_digits 32 ((2 ^ 32 - xx) % 2 ^ 32) base []
    else print_digits 32 xx base []

-- "(null)"
abbrev pub null_text : List ℕ
null_text = 40 ∷ 110 ∷ 117 ∷ 108 ∷ 108 ∷ 41 ∷ []

abbrev pub first : List ℕ → ℕ
first [] = 0
first (w ∷ ws) = w

abbrev pub later : List ℕ → List ℕ
later [] = []
later (w ∷ ws) = ws

-- What a character after % prints of the next word, and whether it takes the word.
unfoldable pub directive : (ℕ → List ℕ) → ℕ → ℕ → List ℕ × Bool
unfolding printint
directive string c w =
    if c == b'd'
    then (printint w 10 true, true)
    else if c == b'x' || c == b'p'
    then (printint w 16 false, true)
    else if c == b's'
    then (if w == 0 then null_text else string w, true)
    else if c == b'c'
    then (w % 256 ∷ [], true)
    else if c == b'%'
    then (c ∷ [], false)
    else (b'%' ∷ c ∷ [], false)

-- The loop of printf; `percent` is the test state == '%'.
unfoldable pub printf_from : (ℕ → List ℕ) → Bool → List ℕ → List ℕ → List ℕ
unfolding directive
printf_from string percent [] ap = []
printf_from string false (c ∷ fmt) ap =
    let escape = printf_from string true fmt ap in
    let plain = c ∷ printf_from string false fmt ap in if c == b'%' then escape else plain
printf_from string true (c ∷ fmt) ap =
    let (out, takes) = directive string c (first ap) in
    out ++ printf_from string false fmt (if takes then later ap else ap)

unfoldable pub printf : (ℕ → List ℕ) → List ℕ → List ℕ → List ℕ
unfolding printf_from
printf string fmt ap = printf_from string false fmt ap
