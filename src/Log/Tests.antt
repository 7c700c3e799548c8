-- ===== src/Log/Tests.antt =====
-- Runs of the log: two blocks, 40 and 41, with a log from block 2 on.
use pcs_ii.Base.{
  ℕ, zero, suc, ◌+◌, ◌≡◌, refl, ◌∷◌, [], List, inr, arith, replicate, take, false, if◌then◌else◌,
  ◌==◌,
}
use pcs_ii.Base.Outcome.{Outcome, ret, panic, ◌>>=◌}
use pcs_ii.Log.{Disk, Machine, Log, commit, decode, Begun, begun, begin_sleeps, begin_op, log_write}
use pcs_ii.Log.Trace.{apply}
use pcs_ii.Log.Booted.{recovered}
use pcs_ii.Log.Recovery.{commit_crash}
use pcs_ii.Log.Reserve.{Event, starts, writes, ends}

abbrev cached : Disk
cached b = if b == 40 then 7 ∷ [] else if b == 41 then 8 ∷ [] else replicate 31 0

abbrev idle_machine : Machine
idle_machine = record { disk = λ _. replicate 31 0; bufs = cached; trace = [] }

abbrev two_logged : Log
two_logged = record {
  start = 2;
  size = 31;
  outstanding = 0;
  committing = false;
  blocks = 40 ∷ 41 ∷ [];
}

no_head : decode (replicate 31 0) ≡ []
unfolding decode
no_head = refl

commit_crash_example :
    recovered two_logged
      (apply (take 3 ((commit idle_machine two_logged).0).trace) (λ _. replicate 31 0))
      41
    ≡ 8 ∷ []
commit_crash_example =
    commit_crash idle_machine two_logged 3 41 refl no_head (omega arith) (omega arith)
      (inr (omega arith), (inr (omega arith), tt)) (inr (omega arith))

abbrev empty_log : Log
empty_log = record { start = 2; size = 30; outstanding = 0; committing = false; blocks = [] }

abbrev schedule : List Event
schedule = starts ∷ starts ∷ writes 0 40 (7 ∷ []) ∷ ends 0 ∷ writes 0 41 (8 ∷ []) ∷ ends 0 ∷ []

abbrev begin_again : Begun → Begun
begin_again (begun l) = begin_op l
begin_again begin_sleeps = begin_sleeps

-- log_write of the `n` blocks from `b` on.
abbrev write_blocks : ℕ → ℕ → Machine → Log → Outcome (Machine × Log)
write_blocks zero b m l = ret (m, l)
write_blocks (suc n) b m l = log_write m l b [] >>= λ r. write_blocks n (b + 1) r.0 r.1

-- The log that mkfs makes has no room for what three operations may reserve: they begin, and the last
-- of their thirty writes panics, although none of them writes more than MAXOPBLOCKS blocks.
three_begin :
    begin_again (begin_again (begin_op empty_log)) ≡ begun (record empty_log { outstanding = 3 })
unfolding begin_op
three_begin = refl

three_overflow : write_blocks 30 40 idle_machine (record empty_log { outstanding = 3 }) ≡ panic
unfolding log_write
three_overflow = refl
