-- ===== src/Console.antt =====
-- console.c: the input line buffer that the keyboard interrupt fills and consoleread empties. r, w and
-- e are uint and count all characters, modulo 2^32. What cons.lock brackets is one step.
pub mod Line
pub mod Read
mod Tests
use pcs_ii.Base.{
  ℕ, zero, suc, ◌+◌, ◌-◌, ◌%◌, ◌^◌, Bool, true, false, not, ◌&&◌, ◌||◌, List, [], ◌∷◌, set, get_or,
  ltb, ◌==◌, if◌then◌else◌,
}

abbrev pub input_buf : ℕ
input_buf = 128

pub record Input : Type 0 where
  pub buf : List ℕ
  pub r : ℕ
  pub w : ℕ
  pub e : ℕ

-- What is shown on the console: a character, or BACKSPACE. `wakes` is the wakeup of readers.
pub data Effect : Type 0 where
  echo : ℕ → Effect
  backspace : Effect
  wakes : Effect
  dumps : Effect

abbrev pub before : ℕ → ℕ
before x = (x + 2 ^ 32 - 1) % 2 ^ 32

abbrev pub char_at : Input → ℕ → ℕ
char_at s i = get_or s.buf (i % input_buf) 0

-- C('U'): the loop that kills the line, with fuel for its rounds.
unfoldable pub kill_line : ℕ → Input → Input × List Effect
kill_line zero s = (s, [])
kill_line (suc f) s =
    let (s', out) = kill_line f (record s { e = before s.e }) in
    if s.e == s.w || char_at s (before s.e) == 10 then (s, []) else (s', backspace ∷ out)

-- C('H') and '\x7f'.
unfoldable pub erase_char : Input → Input × List Effect
erase_char s = if s.e == s.w then (s, []) else (record s { e = before s.e }, backspace ∷ [])

-- The default case: a character, or its newline for a carriage return.
unfoldable pub type_char : Input → ℕ → Input × List Effect
type_char s c0 =
    let c = if c0 == 13 then 10 else c0 in
    let e' = (s.e + 1) % 2 ^ 32 in
    let s1 = record s { buf = set s.buf (s.e % input_buf) c; e = e' } in
    if not (c0 == 0) && ltb ((s.e + 2 ^ 32 - s.r) % 2 ^ 32) input_buf
    then (if c == 10 || c == 4 || e' == (s.r + input_buf) % 2 ^ 32
        then (record s1 { w = e' }, echo c ∷ wakes ∷ [])
        else (s1, echo c ∷ []))
    else (s, [])

-- One character of the loop of consoleintr.
unfoldable pub consoleintr_char : Input → ℕ → Input × List Effect
consoleintr_char s c =
    if c == 16
    then (s, dumps ∷ [])
    else if c == 21
    then kill_line input_buf s
    else if c == 8 || c == 127
    then erase_char s
    else type_char s c

-- How a run of consoleread ends: it returns what it copied, or -1, or sleeps on input.r.
pub data ReadStop : Type 0 where
  read_done read_killed read_blocks : ReadStop

-- The loop of consoleread for the `n` bytes that are left; `some_read` is the test n < target. The
-- list is what it copies to dst.
unfoldable pub read_line : ℕ → Bool → Bool → Input → ReadStop × Input × List ℕ
read_line zero killed some_read s = (read_done, s, [])
read_line (suc n) killed some_read s =
    let c = char_at s s.r in
    let s1 = record s { r = (s.r + 1) % 2 ^ 32 } in
    let (stop, s2, out) = read_line n killed true s1 in
    if s.r == s.w
    then (if killed then read_killed else read_blocks, s, [])
    else if c == 4
    then (read_done, if some_read then record s1 { r = before s1.r } else s1, [])
    else if c == 10
    then (read_done, s1, c ∷ [])
    else (stop, s2, c ∷ out)

unfoldable pub consoleread : Bool → ℕ → Input → ReadStop × Input × List ℕ
unfolding read_line
consoleread killed n s = read_line n killed false s
