-- ===== src/Bio/Tests.antt =====
-- Runs of the buffer cache: two buffers, one of them with block 7 of device 1.
use pcs_ii.Base.{◌∷◌, [], List, some, arith, false, true}
use pcs_ii.Bio.{Buf, fresh_buf, bget}
use pcs_ii.Bio.Unique.{IsUnique, Gives, bget-Gives}

abbrev two_buffers : List Buf
two_buffers =
    record { id = 1; valid = true; dirty = false; dev = 1; blockno = 7; refcnt = 1; owner = some 3 }
    ∷ fresh_buf 0
    ∷ []

two_buffers-IsUnique : IsUnique two_buffers
two_buffers-IsUnique = record { at_most_one = λ dev blockno z. ground arith }

bget-Gives_example : Gives two_buffers 1 8 (bget two_buffers 1 8)
bget-Gives_example = bget-Gives two_buffers 1 8 (omega arith) two_buffers-IsUnique
