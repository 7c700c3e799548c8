-- ===== src/Grep.antt =====
-- grep.c: the matcher. Strings are their bytes up to the NUL.
pub mod Meaning
mod Tests
use pcs_ii.Base.{ℕ, Bool, true, false, ◌&&◌, ◌||◌, List, [], ◌∷◌, ◌==◌, if◌then◌else◌}

abbrev pub is_end : List ℕ → Bool
is_end [] = true
is_end (t ∷ ts) = false

-- The test of one character of the text, and then of the rest.
abbrev pub then_rest : ℕ → (List ℕ → Bool) → List ℕ → Bool
then_rest c rest [] = false
then_rest c rest (t ∷ ts) = (c == b'.' || c == t) && rest ts

-- The loop of matchstar; `rest` is matchhere of what stands after the star.
unfoldable pub matchstar : ℕ → (List ℕ → Bool) → List ℕ → Bool
matchstar c rest [] = rest []
matchstar c rest (t ∷ ts) = rest (t ∷ ts) || ((t == c || c == b'.') && matchstar c rest ts)

unfoldable pub matchhere : List ℕ → List ℕ → Bool
unfolding matchstar
matchhere [] text = true
matchhere (a ∷ []) text = if a == b'$' then is_end text else then_rest a (matchhere []) text
matchhere (a ∷ b ∷ re) text =
    if b == b'*' then matchstar a (matchhere re) text else then_rest a (matchhere (b ∷ re)) text

-- The loop of match over the ends of the text, the empty one included.
unfoldable pub match_from : List ℕ → List ℕ → Bool
unfolding matchhere
match_from re [] = matchhere re []
match_from re (t ∷ ts) = matchhere re (t ∷ ts) || match_from re ts

unfoldable pub match : List ℕ → List ℕ → Bool
unfolding match_from
match [] text = match_from [] text
match (a ∷ re) text = if a == b'^' then matchhere re text else match_from (a ∷ re) text
