-- ===== src/Proc/SleepSteps.antt =====
-- Each step of sleep() keeps what holds between the steps.
use pcs_ii.Base.{ℕ, ◌≡◌, refl, ap, subst, true, false, Bool-cases, inl, inr, arith}
use pcs_ii.Proc.{Chan, sleep_leave, as_running}
use pcs_ii.Proc.Locks.{holds_lk, holds_table, WillWake, free_nobody}
use pcs_ii.Proc.Waiting.{
  IsWaiting, Phased, Inv, there-modify, sleep_enter-IsWaiting, sleep_enter-there,
}
use pcs_ii.Proc.Handoff.{
  Phase, wants_lk, tests, wants_table, has_both, has_table, marked, switched_out, resumed,
  past_loop, Handoff, is_free, ready_to_run, sleep_step,
}

module _ (cur : ℕ) (c : Chan) where
  pub sleep_step-Inv :
      (m : Handoff) (a : Phase) → m.at ≡ a → Inv cur c m → Inv cur c (sleep_step a cur c m)
  unfolding sleep_step sleep_leave
  sleep_step-Inv m wants_lk e v = elim (Bool-cases (is_free m.lk)) [
    | inr x ↦ rw x v
    | inl x ↦
        let n = free_nobody m.lk x in
        rw x (record {
          there = v.there;
          lk_mine = λ _. refl;
          lk_theirs = λ i h. absurd (ground (arith, n, v.lk_theirs i h));
          table_mine = λ h. cc;
          table_theirs = v.table_theirs;
          phased = tt;
        })
  ]
  sleep_step-Inv m tests e v =
      let n = v.lk_mine (ap holds_lk e) in
      elim (Bool-cases m.ready) [
        | inl x ↦ rw x (record {
          there = v.there;
          lk_mine = λ h. cc;
          lk_theirs = λ i h. absurd (ground (arith, n, v.lk_theirs i h));
          table_mine = λ h. cc;
          table_theirs = v.table_theirs;
          phased = tt;
        })
        | inr x ↦ rw x (record {
          there = v.there;
          lk_mine = λ _. n;
          lk_theirs = v.lk_theirs;
          table_mine = λ h. cc;
          table_theirs = v.table_theirs;
          phased = refl;
        })
      ]
  sleep_step-Inv m wants_table e v = elim (Bool-cases (is_free m.table)) [
    | inr x ↦ rw x v
    | inl x ↦
        let n = free_nobody m.table x in
        rw x (record {
          there = v.there;
          lk_mine = λ _. v.lk_mine (ap holds_lk e);
          lk_theirs = v.lk_theirs;
          table_mine = λ _. refl;
          table_theirs = λ i h. absurd (ground (arith, n, v.table_theirs i h));
          phased = subst (λ a. Phased a cur c m.procs m.ready m.wakers) e v.phased;
        })
  ]
  sleep_step-Inv m has_both e v =
      let n = v.lk_mine (ap holds_lk e) in
      let unset : m.ready ≡ false =
        subst (λ a. Phased a cur c m.procs m.ready m.wakers) e v.phased in
      record {
        there = v.there;
        lk_mine = λ h. cc;
        lk_theirs = λ i h. absurd (ground (arith, n, v.lk_theirs i h));
        table_mine = λ _. v.table_mine (ap holds_table e);
        table_theirs = v.table_theirs;
        phased = λ r. absurd (ground (arith, unset, r));
      }
  sleep_step-Inv m has_table e v = record {
    there = sleep_enter-there cur c m.procs v.there;
    lk_mine = λ h. cc;
    lk_theirs = v.lk_theirs;
    table_mine = λ _. v.table_mine (ap holds_table e);
    table_theirs = v.table_theirs;
    phased = (
      sleep_enter-IsWaiting m.procs cur c v.there,
      subst (λ a. Phased a cur c m.procs m.ready m.wakers) e v.phased,
    );
  }
  sleep_step-Inv m marked e v =
      let n = v.table_mine (ap holds_table e) in
      let p : IsWaiting m.procs cur c × (m.ready ≡ true → WillWake m.wakers) =
        subst (λ a. Phased a cur c m.procs m.ready m.wakers) e v.phased in
      record {
        there = v.there;
        lk_mine = λ h. cc;
        lk_theirs = v.lk_theirs;
        table_mine = λ h. cc;
        table_theirs = λ i h. absurd (ground (arith, n, v.table_theirs i h));
        phased = (p.0, λ r. inl (p.1 r));
      }
  sleep_step-Inv m switched_out e v = elim (Bool-cases (is_free m.table)) [
    | inr x ↦ rw x v
    | inl x ↦ elim (Bool-cases (ready_to_run m.procs cur)) [
      | inr y ↦ rw (x, y) v
      | inl y ↦
          let n = free_nobody m.table x in
          rw (x, y)
            (record {
              there = there-modify m.procs cur as_running v.there;
              lk_mine = λ h. cc;
              lk_theirs = v.lk_theirs;
              table_mine = λ _. refl;
              table_theirs = λ i h. absurd (ground (arith, n, v.table_theirs i h));
              phased = tt;
            })
    ]
  ]
  sleep_step-Inv m resumed e v =
      let n = v.table_mine (ap holds_table e) in
      record {
        there = there-modify m.procs cur _ v.there;
        lk_mine = λ h. cc;
        lk_theirs = v.lk_theirs;
        table_mine = λ h. cc;
        table_theirs = λ i h. absurd (ground (arith, n, v.table_theirs i h));
        phased = tt;
      }
  sleep_step-Inv m past_loop e v = v
