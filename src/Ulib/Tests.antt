-- ===== src/Ulib/Tests.antt =====
-- A number there and back.
use pcs_ii.Base.{◌≡◌, arith, true}
use pcs_ii.Printf.{printint}
use pcs_ii.Ulib.{atoi}
use pcs_ii.Ulib.Decimal.{atoi-printint}

atoi-printint_example : atoi (printint 2026 10 true) ≡ 2026
atoi-printint_example = atoi-printint 2026 (omega arith)
