-- ===== src/Grep/Tests.antt =====
-- A run of the matcher: a.*c$ on xabcc.
use pcs_ii.Base.{◌≡◌, ◌↔◌, ◌∷◌, [], true}
use pcs_ii.Grep.{match}
use pcs_ii.Grep.Meaning.{Meaning, match-Meaning}

match-Meaning_example :
    (match (b'a' ∷ b'.' ∷ b'*' ∷ b'c' ∷ b'$' ∷ []) (b'x' ∷ b'a' ∷ b'b' ∷ b'c' ∷ b'c' ∷ []) ≡ true)
    ↔ Meaning (b'a' ∷ b'.' ∷ b'*' ∷ b'c' ∷ b'$' ∷ []) (b'x' ∷ b'a' ∷ b'b' ∷ b'c' ∷ b'c' ∷ [])
match-Meaning_example =
    match-Meaning (b'a' ∷ b'.' ∷ b'*' ∷ b'c' ∷ b'$' ∷ []) (b'x' ∷ b'a' ∷ b'b' ∷ b'c' ∷ b'c' ∷ [])
