-- ===== src/Screen.antt =====
-- console.c: output. The screen is the memory at 0xb8000, cells of 16 bits, with the cursor's position
-- that the ports of the controller hold. `serial` is what uartputc sends. Where `panicked` is set,
-- consputc never returns.
pub mod Bounds
mod Tests
use pcs_ii.Base.{
  ℕ, zero, suc, ◌+◌, ◌-◌, ◌*◌, ◌/◌, ◌%◌, ◌^◌, Bool, true, false, ◌&&◌, ◌||◌, List, [], ◌∷◌, ◌++◌,
  Option, none, some, get_or, ltb, leb, ◌==◌, if◌then◌else◌,
}
use pcs_ii.Base.Outcome.{Outcome, ret, panic, ◌>>=◌}

pub record Screen : Type 0 where
  pub crt : ℕ → ℕ
  pub pos : ℕ
  pub serial : List ℕ
  pub panicked : Bool

-- BACKSPACE is 0x100.
abbrev pub backspace_code : ℕ
backspace_code = 256

-- 0x0700 is black on white.
abbrev pub cell : ℕ → ℕ
cell c = c % 256 + 1792

abbrev pub put_cell : (ℕ → ℕ) → ℕ → ℕ → ℕ → ℕ
put_cell crt i v j = if j == i then v else crt j

-- Where the cursor goes.
abbrev pub next_pos : ℕ → ℕ → ℕ
next_pos c pos =
    if c == 10 then pos + (80 - pos % 80) else if c == backspace_code then pos - 1 else pos + 1

abbrev pub is_control : ℕ → Bool
is_control c = c == 10 || c == backspace_code

-- The memmove of 23 rows, and the memset from the new position on.
abbrev pub scrolled : (ℕ → ℕ) → ℕ → ℕ → ℕ
scrolled crt pos j =
    if leb pos j && ltb j (24 * 80) then 0 else if ltb j (23 * 80) then crt (j + 80) else crt j

unfoldable pub cgaputc : ℕ → Screen → Outcome Screen
cgaputc c s =
    let crt = if is_control c then s.crt else put_cell s.crt s.pos (cell c) in
    let pos = next_pos c s.pos in
    let up = pos - 80 in
    if ltb (25 * 80) pos
    then panic
    else if leb 24 (pos / 80)
    then ret (record s { crt = put_cell (scrolled crt up) up (cell 32); pos = up })
    else ret (record s { crt = put_cell crt pos (cell 32); pos = pos })

-- uartputc of a backspace is three characters.
abbrev pub sent : ℕ → List ℕ
sent c = if c == backspace_code then 8 ∷ 32 ∷ 8 ∷ [] else c ∷ []

unfoldable pub consputc : ℕ → Screen → Outcome Screen
unfolding cgaputc
consputc c s = if s.panicked then panic else cgaputc c (record s { serial = s.serial ++ sent c })

unfoldable pub put_all : List ℕ → Screen → Outcome Screen
unfolding consputc
put_all [] s = ret s
put_all (c ∷ cs) s = consputc c s >>= put_all cs

-- "0123456789abcdef"
abbrev pub digits : List ℕ
digits = 48 ∷ 49 ∷ 50 ∷ 51 ∷ 52 ∷ 53 ∷ 54 ∷ 55 ∷ 56 ∷ 57 ∷ 97 ∷ 98 ∷ 99 ∷ 100 ∷ 101 ∷ 102 ∷ []

-- The loop of printint, with fuel: the characters from the end of buf, the last stored first.
unfoldable pub number_from : ℕ → ℕ → ℕ → List ℕ → List ℕ
number_from zero x base out = out
number_from (suc f) x base out =
    let out' = get_or digits (x % base) 0 ∷ out in
    let rest = number_from f (x / base) base out' in if x / base == 0 then out' else rest

-- printint; xx is a 32-bit pattern, negative from 2^31 on.
unfoldable pub printint : ℕ → ℕ → Bool → List ℕ
unfolding number_from
printint xx base sign =
    if sign && leb (2 ^ 31) xx
    then b'-' ∷ number_from 32 ((2 ^ 32 - xx) % 2 ^ 32) base []
    else number_from 32 xx base []

-- "(null)"
abbrev pub null_text : List ℕ
null_text = 40 ∷ 110 ∷ 117 ∷ 108 ∷ 108 ∷ 41 ∷ []

abbrev pub argument : List ℕ → ℕ
argument [] = 0
argument (w ∷ ws) = w

abbrev pub other_arguments : List ℕ → List ℕ
other_arguments [] = []
other_arguments (w ∷ ws) = ws

abbrev pub takes_argument : ℕ → Bool
takes_argument c = c == b'd' || c == b'x' || c == b'p' || c == b's'

-- The characters of one directive; `string` is the text in memory at an address.
unfoldable pub directive : (ℕ → List ℕ) → ℕ → ℕ → List ℕ
unfolding printint
directive string c w =
    if c == b'd'
    then printint w 10 true
    else if c == b'x' || c == b'p'
    then printint w 16 false
    else if c == b's'
    then (if w == 0 then null_text else string w)
    else if c == b'%'
    then b'%' ∷ []
    else b'%' ∷ c ∷ []

-- What cprintf puts, one after the other; a % at the end of the format ends the loop.
unfoldable pub cprintf_chars : (ℕ → List ℕ) → List ℕ → List ℕ → List ℕ
unfolding directive
cprintf_chars string [] args = []
cprintf_chars string (c ∷ []) args = if c == b'%' then [] else c ∷ []
cprintf_chars string (c ∷ d ∷ fmt) args =
    let plain = c ∷ cprintf_chars string (d ∷ fmt) args in
    let rest = cprintf_chars string fmt (if takes_argument d then other_arguments args else args) in
    if c == b'%' then directive string d (argument args) ++ rest else plain

-- The format is a null pointer or the text at the pointer.
unfoldable pub cprintf : (ℕ → List ℕ) → Option (List ℕ) → List ℕ → Screen → Outcome Screen
unfolding cprintf_chars put_all
cprintf string none args s = panic
cprintf string (some fmt) args s = put_all (cprintf_chars string fmt args) s
