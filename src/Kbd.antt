-- ===== src/Kbd.antt =====
-- kbd.c and kbd.h: the keyboard. The status and the data that inb reads are arguments, and a key of no
-- character is 0. `none` is -1.
mod Tests
use Prim.Native.Nat.{bit_and, bit_or, bit_xor}
use pcs_ii.Base.{
  ℕ, ◌+◌, ◌-◌, ◌*◌, ◌/◌, ◌%◌, ◌^◌, Bool, not, ◌&&◌, ◌||◌, List, [], ◌∷◌, Option, none, some, get_or,
  ltb, leb, ◌==◌, if◌then◌else◌,
}

-- The bits of `shift`: SHIFT, CTL, ALT, CAPSLOCK, NUMLOCK, SCROLLLOCK, E0ESC.
abbrev pub ctl_shift : ℕ
ctl_shift = 3

abbrev pub capslock : ℕ
capslock = 8

abbrev pub e0esc : ℕ
e0esc = 64

unfoldable pub shiftcode : ℕ → ℕ
shiftcode code =
    if code == 0x1D || code == 0x9D
    then 2
    else if code == 0x2A || code == 0x36
    then 1
    else if code == 0x38 || code == 0xB8
    then 4
    else 0

unfoldable pub togglecode : ℕ → ℕ
togglecode code =
    if code == 0x3A then 8 else if code == 0x45 then 16 else if code == 0x46 then 32 else 0

-- KEY_HOME and the others, which all maps share.
unfoldable pub special_key : ℕ → ℕ
special_key code =
    if code == 0xC8
    then 0xE2
    else if code == 0xD0
    then 0xE3
    else if code == 0xC9
    then 0xE6
    else if code == 0xD1
    then 0xE7
    else if code == 0xCB
    then 0xE4
    else if code == 0xCD
    then 0xE5
    else if code == 0x97
    then 0xE0
    else if code == 0xCF
    then 0xE1
    else if code == 0xD2
    then 0xE8
    else if code == 0xD3
    then 0xE9
    else 0

-- A map: its first characters, and those of the Enter and the / of the keypad.
abbrev pub mapped : List ℕ → ℕ → ℕ → ℕ → ℕ
unfolding special_key
mapped keys enter slash code =
    if code == 0x9C
    then enter
    else if code == 0xB5
    then slash
    else if leb 0x97 code
    then special_key code
    else get_or keys code 0

abbrev pub normalmap_keys : List ℕ
normalmap_keys =
    0 ∷ 27 ∷ 49 ∷ 50 ∷ 51 ∷ 52 ∷ 53 ∷ 54 ∷ 55 ∷ 56 ∷ 57 ∷ 48 ∷ 45 ∷ 61 ∷ 8 ∷ 9 ∷ 113 ∷ 119 ∷ 101
    ∷ 114 ∷ 116 ∷ 121 ∷ 117 ∷ 105 ∷ 111 ∷ 112 ∷ 91 ∷ 93 ∷ 10 ∷ 0 ∷ 97 ∷ 115 ∷ 100 ∷ 102 ∷ 103 ∷ 104
    ∷ 106 ∷ 107 ∷ 108 ∷ 59 ∷ 39 ∷ 96 ∷ 0 ∷ 92 ∷ 122 ∷ 120 ∷ 99 ∷ 118 ∷ 98 ∷ 110 ∷ 109 ∷ 44 ∷ 46 ∷ 47
    ∷ 0 ∷ 42 ∷ 0 ∷ 32 ∷ 0 ∷ 0 ∷ 0 ∷ 0 ∷ 0 ∷ 0 ∷ 0 ∷ 0 ∷ 0 ∷ 0 ∷ 0 ∷ 0 ∷ 0 ∷ 55 ∷ 56 ∷ 57 ∷ 45 ∷ 52
    ∷ 53 ∷ 54 ∷ 43 ∷ 49 ∷ 50 ∷ 51 ∷ 48 ∷ 46 ∷ 0 ∷ 0 ∷ 0 ∷ 0 ∷ []

unfoldable pub normalmap : ℕ → ℕ
unfolding special_key
normalmap code = mapped normalmap_keys 10 47 code

abbrev pub shiftmap_keys : List ℕ
shiftmap_keys =
    0 ∷ 27 ∷ 33 ∷ 64 ∷ 35 ∷ 36 ∷ 37 ∷ 94 ∷ 38 ∷ 42 ∷ 40 ∷ 41 ∷ 95 ∷ 43 ∷ 8 ∷ 9 ∷ 81 ∷ 87 ∷ 69 ∷ 82
    ∷ 84 ∷ 89 ∷ 85 ∷ 73 ∷ 79 ∷ 80 ∷ 123 ∷ 125 ∷ 10 ∷ 0 ∷ 65 ∷ 83 ∷ 68 ∷ 70 ∷ 71 ∷ 72 ∷ 74 ∷ 75 ∷ 76
    ∷ 58 ∷ 34 ∷ 126 ∷ 0 ∷ 124 ∷ 90 ∷ 88 ∷ 67 ∷ 86 ∷ 66 ∷ 78 ∷ 77 ∷ 60 ∷ 62 ∷ 63 ∷ 0 ∷ 42 ∷ 0 ∷ 32
    ∷ 0 ∷ 0 ∷ 0 ∷ 0 ∷ 0 ∷ 0 ∷ 0 ∷ 0 ∷ 0 ∷ 0 ∷ 0 ∷ 0 ∷ 0 ∷ 55 ∷ 56 ∷ 57 ∷ 45 ∷ 52 ∷ 53 ∷ 54 ∷ 43 ∷ 49
    ∷ 50 ∷ 51 ∷ 48 ∷ 46 ∷ 0 ∷ 0 ∷ 0 ∷ 0 ∷ []

unfoldable pub shiftmap : ℕ → ℕ
unfolding special_key
shiftmap code = mapped shiftmap_keys 10 47 code

abbrev pub ctlmap_keys : List ℕ
ctlmap_keys =
    0 ∷ 0 ∷ 0 ∷ 0 ∷ 0 ∷ 0 ∷ 0 ∷ 0 ∷ 0 ∷ 0 ∷ 0 ∷ 0 ∷ 0 ∷ 0 ∷ 0 ∷ 0 ∷ 17 ∷ 23 ∷ 5 ∷ 18 ∷ 20 ∷ 25 ∷ 21
    ∷ 9 ∷ 15 ∷ 16 ∷ 0 ∷ 0 ∷ 13 ∷ 0 ∷ 1 ∷ 19 ∷ 4 ∷ 6 ∷ 7 ∷ 8 ∷ 10 ∷ 11 ∷ 12 ∷ 0 ∷ 0 ∷ 0 ∷ 0 ∷ 28 ∷ 26
    ∷ 24 ∷ 3 ∷ 22 ∷ 2 ∷ 14 ∷ 13 ∷ 0 ∷ 0 ∷ 239 ∷ 0 ∷ 0 ∷ []

unfoldable pub ctlmap : ℕ → ℕ
unfolding special_key
ctlmap code = mapped ctlmap_keys 13 239 code

-- charcode[shift & (CTL | SHIFT)][data]
unfoldable pub charcode : ℕ → ℕ → ℕ
unfolding normalmap shiftmap ctlmap
charcode shift code =
    let held = bit_and shift ctl_shift in
    if held == 0 then normalmap code else if held == 1 then shiftmap code else ctlmap code

-- Caps lock turns a letter into the other case.
abbrev pub other_case : ℕ → ℕ
other_case c =
    if leb b'a' c && leb c b'z' then c - 32 else if leb b'A' c && leb c b'Z' then c + 32 else c

-- The bits of `m` off.
abbrev pub without : ℕ → ℕ → ℕ
without shift m = shift - bit_and shift m

-- A key that is pressed, past the test for an escape.
unfoldable pub key_pressed : ℕ → ℕ → Option ℕ × ℕ
unfolding shiftcode togglecode charcode
key_pressed shift code =
    let shift' = bit_xor (bit_or shift (shiftcode code)) (togglecode code) in
    let c = charcode shift' code in
    (some (if bit_and shift' capslock == 0 then c else other_case c), shift')

-- kbdgetc, with the new value of `shift`.
unfoldable pub kbdgetc : ℕ → ℕ → ℕ → Option ℕ × ℕ
unfolding key_pressed shiftcode
kbdgetc st code shift =
    let escaped = not (bit_and shift e0esc == 0) in
    if bit_and st 1 == 0
    then (none, shift)
    else if code == 0xE0
    then (some 0, bit_or shift e0esc)
    else if not (bit_and code 0x80 == 0)
    then (
      some 0,
      without shift (bit_or (shiftcode (if escaped then code else bit_and code 0x7F)) e0esc),
    )
    else if escaped
    then key_pressed (without shift e0esc) (bit_or code 0x80)
    else key_pressed shift code
