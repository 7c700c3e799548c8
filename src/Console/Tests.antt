-- ===== src/Console/Tests.antt =====
-- Runs of the input line, with the marks about to wrap around, typed and read.
use pcs_ii.Base.{false, refl, arith, replicate}
use pcs_ii.Console.{Input, consoleintr_char, consoleread}
use pcs_ii.Console.Read.{Copies, consoleread-Copies}
use pcs_ii.Console.Line.{IsValid, Edits, consoleintr_char-Edits}

abbrev wrapping : Input
wrapping = record { buf = replicate 128 0; r = 4294967290; w = 4294967292; e = 4294967295 }

wrapping-IsValid : IsValid wrapping
wrapping-IsValid = record {
  storage = refl;
  words = (omega arith, omega arith, omega arith);
  ordered = omega arith;
  fits = omega arith;
}

consoleintr_char-Edits_example : Edits wrapping (consoleintr_char wrapping 10).0
consoleintr_char-Edits_example = consoleintr_char-Edits wrapping 10 wrapping-IsValid

consoleread-Copies_example : Copies 5 wrapping (consoleread false 5 wrapping)
consoleread-Copies_example = consoleread-Copies false 5 wrapping wrapping-IsValid
