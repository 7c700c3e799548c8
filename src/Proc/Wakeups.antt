-- ===== src/Proc/Wakeups.antt =====
-- No interleaving of sleep and wakeup loses a wakeup.
use pcs_ii.Base.{
  ℕ, ◌≡◌, refl, subst, Bool, true, false, Bool-cases, inl, inr, ◌⊎◌, some, arith, List, [], ◌∷◌,
  get_elem?,
}
use pcs_ii.Proc.{Proc, Chan}
use pcs_ii.Proc.Locks.{holds_table, WillWake, free_nobody}
use pcs_ii.Proc.Waiting.{IsWaiting, IsRunnable, Phased, Inv, wakeup1-there, Phased-wakeup1}
use pcs_ii.Proc.Handoff.{
  switched_out, Handoff, is_free, Move, process_moves, waker_moves, others_wake, handoff_step, run,
  start,
}
use pcs_ii.Proc.SleepSteps.{sleep_step-Inv}
use pcs_ii.Proc.WakerSteps.{waker_step-Inv}

module _ (cur : ℕ) (c : Chan) where
  handoff_step-Inv : (m : Handoff) (e : Move) → Inv cur c m → Inv cur c (handoff_step e cur c m)
  unfolding handoff_step
  handoff_step-Inv m process_moves v = sleep_step-Inv cur c m m.at refl v
  handoff_step-Inv m (waker_moves i) v = waker_step-Inv cur c m i (m.wakers i) refl v
  handoff_step-Inv m (others_wake d) v = elim (Bool-cases (is_free m.table)) [
    | inr x ↦ rw x v
    | inl x ↦
        let n = free_nobody m.table x in
        let z : holds_table m.at ≡ false = elim (Bool-cases (holds_table m.at)) [
          | inl h ↦ absurd (ground (arith, n, v.table_mine h))
          | inr h ↦ h
        ] in
        rw x (record {
          there = wakeup1-there cur c m.procs d v.there;
          lk_mine = v.lk_mine;
          lk_theirs = v.lk_theirs;
          table_mine = λ h. absurd (ground (arith, z, h));
          table_theirs = λ i h. absurd (ground (arith, n, v.table_theirs i h));
          phased = Phased-wakeup1 cur c m.at m.procs m.ready m.wakers d z v.phased;
        })
  ]

  run-Inv : (es : List Move) (m : Handoff) → Inv cur c m → Inv cur c (run es cur c m)
  unfolding run
  run-Inv [] m v = v
  run-Inv (e ∷ es) m v = run-Inv es (handoff_step e cur c m) (handoff_step-Inv m e v)

start-Inv :
    (cur : ℕ) (c : Chan) (ps : List Proc) (ready : Bool) (p : Proc)
    → get_elem? ps cur ≡ some p
    → Inv cur c (start ps ready)
start-Inv cur c ps ready p e = record {
  there = (p, e);
  lk_mine = λ h. cc;
  lk_theirs = λ i h. cc;
  table_mine = λ h. cc;
  table_theirs = λ i h. cc;
  phased = tt;
}

-- No lost wakeup. A process of the table takes a lock, and sleeps on a channel under that lock
-- until a condition is set; any number of wakers take the lock, set the condition for good and
-- wake the channel, while others wake any channels. sleep() takes and releases that lock and
-- ptable.lock one after the other, and so do the wakers. From a start with both locks free,
-- after every interleaving of the steps: if the condition is set and the process is switched
-- out in sleep(), then it is RUNNABLE, or a waker has still to make its call of wakeup1.
pub run-Wakes :
    (cur : ℕ) (c : Chan) (ps : List Proc) (ready : Bool) (p : Proc) (es : List Move)
    → get_elem? ps cur ≡ some p
    → (run es cur c (start ps ready)).at ≡ switched_out
    → (run es cur c (start ps ready)).ready ≡ true
    → WillWake (run es cur c (start ps ready)).wakers
      ⊎ IsRunnable (run es cur c (start ps ready)).procs cur
run-Wakes cur c ps ready p es e a r =
    let m = run es cur c (start ps ready) in
    let v = run-Inv cur c es (start ps ready) (start-Inv cur c ps ready p e) in
    let q : IsWaiting m.procs cur c
        × (m.ready ≡ true → WillWake m.wakers ⊎ IsRunnable m.procs cur) =
      subst (λ x. Phased x cur c m.procs m.ready m.wakers) a v.phased in
    q.1 r
