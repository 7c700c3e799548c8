-- ===== src/Namei/Tests.antt =====
-- A run of skipelem on the path //a/bb.
use pcs_ii.Base.{◌∷◌, []}
use pcs_ii.Namei.{skipelem}
use pcs_ii.Namei.Components.{Next, skipelem-Next}

skipelem-Next_example :
    Next
      (b'/' ∷ b'/' ∷ b'a' ∷ b'/' ∷ b'b' ∷ b'b' ∷ [])
      (skipelem (b'/' ∷ b'/' ∷ b'a' ∷ b'/' ∷ b'b' ∷ b'b' ∷ []))
skipelem-Next_example = skipelem-Next (b'/' ∷ b'/' ∷ b'a' ∷ b'/' ∷ b'b' ∷ b'b' ∷ [])
