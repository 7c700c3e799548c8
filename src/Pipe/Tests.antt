-- ===== src/Pipe/Tests.antt =====
-- Runs of a pipe that holds one byte.
use pcs_ii.Base.{refl, ◌∷◌, [], arith, false, true, replicate}
use pcs_ii.Pipe.{Pipe, pipewrite, piperead}
use pcs_ii.Pipe.Window.{IsValid}
use pcs_ii.Pipe.Write.{Writes, pipewrite-Writes}
use pcs_ii.Pipe.Read.{ReadsEnd, piperead-ReadsEnd}

abbrev one_byte : Pipe
one_byte = record {
  buf = 5 ∷ replicate 511 0;
  nread = 0;
  nwrite = 1;
  readopen = true;
  writeopen = true;
}

one_byte-IsValid : IsValid one_byte
one_byte-IsValid = record {
  storage = refl;
  nread_word = omega arith;
  nwrite_word = omega arith;
  fits = omega arith;
}

pipewrite-Writes_example :
    Writes false one_byte (6 ∷ 7 ∷ []) 0 (pipewrite false one_byte (6 ∷ 7 ∷ []))
pipewrite-Writes_example = pipewrite-Writes false one_byte (6 ∷ 7 ∷ []) one_byte-IsValid

piperead-ReadsEnd_example : ReadsEnd false 3 one_byte (piperead false one_byte 3)
piperead-ReadsEnd_example = piperead-ReadsEnd false one_byte 3 one_byte-IsValid
