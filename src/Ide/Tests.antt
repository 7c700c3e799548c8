-- ===== src/Ide/Tests.antt =====
-- A run of the driver: a read and a write are requested, and the read completes.
use pcs_ii.Base.{◌≡◌, refl, arith, [], ◌∷◌, some, false, true, List}
use pcs_ii.Base.Outcome.{ret}
use pcs_ii.Ide.{Request, Ide, Event, request, interrupt, run}
use pcs_ii.Ide.Order.{requests, AreLegal, InOrder, at_rest, run-InOrder}

abbrev to_read : Request
to_read = record { id = 0; valid = false; dirty = false; dev = 0; blockno = 7; bytes = [] }

abbrev to_write : Request
to_write = record { id = 1; valid = true; dirty = true; dev = 1; blockno = 9; bytes = 5 ∷ [] }

abbrev events : List Event
events = request true to_read ∷ request true to_write ∷ interrupt (some (8 ∷ [])) ∷ []

events-AreLegal : AreLegal true events
events-AreLegal = (
  (refl, record { needed = refl; on_disk = refl; in_range = omega arith }),
  ((refl, record { needed = refl; on_disk = refl; in_range = omega arith }), tt),
)

run-InOrder_example : (t : Ide) × (run true events at_rest ≡ ret t) × InOrder (requests events) t
run-InOrder_example = run-InOrder true events events-AreLegal
