-- ===== src/Shell/Tests.antt =====
-- Lines: ls ), which is rejected, and (ls < a; b &) | wc
use pcs_ii.Base.{◌≡◌, refl, [], ◌∷◌}
use pcs_ii.Shell.{exec, redir, pipe, list, back, parsed, parsecmd}
use pcs_ii.Shell.Ending.{Parses, parsecmd-Parses}

one_line :
    parsecmd (
      b'(' ∷ b'l' ∷ b's' ∷ 32 ∷ b'<' ∷ 32 ∷ b'a' ∷ b';' ∷ b'b' ∷ 32 ∷ b'&' ∷ b')' ∷ 32 ∷ b'|' ∷ b'w'
      ∷ b'c' ∷ 10 ∷ [])
    ≡ parsed
        (pipe
          (list
            (redir (exec ((b'l' ∷ b's' ∷ []) ∷ [])) (b'a' ∷ []) 0 0)
            (back (exec ((b'b' ∷ []) ∷ []))))
          (exec ((b'w' ∷ b'c' ∷ []) ∷ [])))
        []
unfolding parsecmd
one_line = refl

parsecmd-Parses_example :
    Parses (b'l' ∷ b's' ∷ 32 ∷ b')' ∷ []) (parsecmd (b'l' ∷ b's' ∷ 32 ∷ b')' ∷ []))
parsecmd-Parses_example = parsecmd-Parses (b'l' ∷ b's' ∷ 32 ∷ b')' ∷ [])
