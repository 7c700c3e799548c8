-- ===== src/Log/Reserve.antt =====
-- begin_op, log_write and end_op under any schedule: what the space that begin_op reserves is good for.
use pcs_ii.Base.{ℕ, zero, suc, ◌≤◌, List, [], ◌∷◌, length, set, get_elem?, some, none}
use pcs_ii.Base.Outcome.{Outcome, ret, panic, ◌>>=◌}
use pcs_ii.Log.{Block, Machine, Log, logsize, begun, begin_sleeps, begin_op, log_write, end_op}
use pcs_ii.Log.Room.{opblocks, remove_at}

-- What a schedule of operations does: one starts, operation `i` writes a block, operation `i` ends.
pub data Event : Type 0 where
  starts : Event
  writes : ℕ → ℕ → Block → Event
  ends : ℕ → Event

-- The calls of a schedule. An operation makes fewer than MAXOPBLOCKS writes, which `left` counts down; an
-- event that no running operation can make is skipped, and so is a start that has to sleep.
pub run : List Event → Machine → Log → List ℕ → Outcome (Machine × Log)
run [] m l left = ret (m, l)
run (starts ∷ es) m l left = elim (begin_op l) [
  | begun l' ↦ run es m l' (opblocks ∷ left)
  | begin_sleeps ↦ run es m l left
]
run (writes i b v ∷ es) m l left = elim (get_elem? left i) [
  | none ↦ run es m l left
  | some zero ↦ run es m l left
  | some (suc r) ↦ log_write m l b v >>= λ x. run es x.0 x.1 (set left i r)
]
run (ends i ∷ es) m l left = elim (get_elem? left i) [
  | none ↦ run es m l left
  | some r ↦ end_op m l >>= λ x. run es x.0 x.1 (remove_at left i)
]

-- Returns, with the log not overfull.
abbrev pub Succeeds : Outcome (Machine × Log) → Type 0
Succeeds panic = ⊥
Succeeds (ret x) = length (x.1).blocks ≤ logsize
