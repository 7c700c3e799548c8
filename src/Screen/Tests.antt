-- ===== src/Screen/Tests.antt =====
-- A print of "%d%%" from the end of the last row that scrolls.
use pcs_ii.Base.{ℕ, ◌+◌, ◌*◌, ◌≡◌, refl, arith, List, [], ◌∷◌, some, false}
use pcs_ii.Screen.{Screen, cprintf, cprintf_chars}
use pcs_ii.Screen.Bounds.{CprintfEnds, cprintf-Prints}

abbrev at_end : Screen
at_end = record { crt = λ j. 1824; pos = 23 * 80 + 78; serial = []; panicked = false }

abbrev no_text : ℕ → List ℕ
no_text a = []

abbrev format : List ℕ
format = b'%' ∷ b'd' ∷ b'%' ∷ b'%' ∷ []

three_chars : cprintf_chars no_text format (42 ∷ []) ≡ b'4' ∷ b'2' ∷ b'%' ∷ []
unfolding cprintf_chars
three_chars = refl

cprintf-Prints_example :
    CprintfEnds no_text
      (some format)
      (42 ∷ [])
      at_end
      (cprintf no_text (some format) (42 ∷ []) at_end)
cprintf-Prints_example = cprintf-Prints no_text (some format) (42 ∷ []) at_end (omega arith) refl
