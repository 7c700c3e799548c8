-- ===== src/Proc/Handoff.antt =====
-- sleep and wakeup of proc.c, lock by lock, between one process that sleeps and any number of wakers:
--   acquire(lk); while(!ready) sleep(chan, lk); release(lk);
--   acquire(lk); ready = 1; wakeup(chan); release(lk);
-- as sys_sleep and trap() use them for ticks, and the two ends of a pipe. Each step is one
-- that a lock keeps from the others; a step that has to wait for a lock changes nothing. `lk` is
-- not ptable.lock.
use pcs_ii.Base.{
  ℕ, Bool, true, false, List, [], ◌∷◌, none, some, get_elem?, modify, ◌==◌, if◌then◌else◌,
}
use pcs_ii.Proc.{Proc, Chan, is_runnable, as_running, wakeup1, sleep_enter, sleep_leave}

-- Who holds a lock.
pub data Holder : Type 0 where
  nobody sleeper : Holder
  waker : ℕ → Holder

-- Where the process that sleeps is: before acquire(lk); at the test; in sleep() with lk; then with
-- both locks; then with ptable.lock; SLEEPING and about to switch; switched out; switched in again with
-- ptable.lock; and past its loop.
pub data Phase : Type 0 where
  wants_lk tests wants_table has_both has_table marked switched_out resumed past_loop : Phase

-- Where a waker is: outside; with lk; past its store; in wakeup() with ptable.lock; past wakeup1; and
-- past wakeup().
pub data WakerPhase : Type 0 where
  outside has_lk has_stored has_table_too has_woken past_wakeup : WakerPhase

pub record Handoff : Type 0 where
  pub procs : List Proc
  pub ready : Bool
  pub lk : Holder
  pub table : Holder
  pub at : Phase
  pub wakers : ℕ → WakerPhase

abbrev pub is_free : Holder → Bool
is_free nobody = true
is_free sleeper = false
is_free (waker i) = false

abbrev pub ready_to_run : List Proc → ℕ → Bool
ready_to_run ps cur = elim (get_elem? ps cur) [ none ↦ false | some p ↦ is_runnable p.state ]

-- One step of the process in slot `cur`. sched() leaves ptable.lock to the scheduler, which releases it;
-- the scheduler takes it before it switches to the process, which releases it in sleep().
unfoldable pub sleep_step : Phase → ℕ → Chan → Handoff → Handoff
unfolding sleep_enter sleep_leave
sleep_step wants_lk cur c m = if is_free m.lk then record m { lk = sleeper; at = tests } else m
sleep_step tests cur c m =
    if m.ready then record m { lk = nobody; at = past_loop } else record m { at = wants_table }
sleep_step wants_table cur c m =
    if is_free m.table then record m { table = sleeper; at = has_both } else m
sleep_step has_both cur c m = record m { lk = nobody; at = has_table }
sleep_step has_table cur c m = record m { procs = sleep_enter m.procs cur c; at = marked }
sleep_step marked cur c m = record m { table = nobody; at = switched_out }
sleep_step switched_out cur c m =
    let run = record m { procs = modify m.procs cur as_running; table = sleeper; at = resumed } in
    if is_free m.table then (if ready_to_run m.procs cur then run else m) else m
sleep_step resumed cur c m = record m {
  procs = sleep_leave m.procs cur;
  table = nobody;
  at = wants_lk;
}
sleep_step past_loop cur c m = m

abbrev pub put : (ℕ → WakerPhase) → ℕ → WakerPhase → ℕ → WakerPhase
put f i p j = if i == j then p else f j

-- One step of waker `i`.
unfoldable pub waker_step : WakerPhase → ℕ → Chan → Handoff → Handoff
unfolding wakeup1
waker_step outside i c m =
    if is_free m.lk then record m { lk = waker i; wakers = put m.wakers i has_lk } else m
waker_step has_lk i c m = record m { ready = true; wakers = put m.wakers i has_stored }
waker_step has_stored i c m =
    if is_free m.table
    then record m { table = waker i; wakers = put m.wakers i has_table_too }
    else m
waker_step has_table_too i c m = record m {
  procs = wakeup1 m.procs c;
  wakers = put m.wakers i has_woken;
}
waker_step has_woken i c m = record m { table = nobody; wakers = put m.wakers i past_wakeup }
waker_step past_wakeup i c m = record m { lk = nobody; wakers = put m.wakers i outside }

-- What makes a step: the process, a waker, or a wakeup by somebody else, of any channel.
pub data Move : Type 0 where
  process_moves : Move
  waker_moves : ℕ → Move
  others_wake : Chan → Move

unfoldable pub handoff_step : Move → ℕ → Chan → Handoff → Handoff
unfolding sleep_step waker_step wakeup1
handoff_step process_moves cur c m = sleep_step m.at cur c m
handoff_step (waker_moves i) cur c m = waker_step (m.wakers i) i c m
handoff_step (others_wake d) cur c m =
    if is_free m.table then record m { procs = wakeup1 m.procs d } else m

unfoldable pub run : List Move → ℕ → Chan → Handoff → Handoff
unfolding handoff_step
run [] cur c m = m
run (e ∷ es) cur c m = run es cur c (handoff_step e cur c m)

-- Both locks are free, and nobody has begun.
abbrev pub start : List Proc → Bool → Handoff
start ps ready = record {
  procs = ps;
  ready = ready;
  lk = nobody;
  table = nobody;
  at = wants_lk;
  wakers = λ i. outside;
}
