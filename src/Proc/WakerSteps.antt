-- ===== src/Proc/WakerSteps.antt =====
-- Each step of a waker keeps what holds between the steps.
use pcs_ii.Base.{ℕ, ◌≡◌, refl, ap, ◌∙◌, sym, Bool-cases, inl, inr, arith}
use pcs_ii.Proc.{Chan}
use pcs_ii.Proc.Locks.{
  holds_lk, holds_table, waker_holds_lk, waker_holds_table, will_wake, free_nobody, not_mine,
  theirs-put, theirs-take, theirs-drop, WillWake-put_new, WillWake-put,
}
use pcs_ii.Proc.Waiting.{Inv, wakeup1-there, Phased-wakers, Phased-set, Phased-wakeup1_same}
use pcs_ii.Proc.Handoff.{
  WakerPhase, outside, has_lk, has_stored, has_table_too, has_woken, past_wakeup, Handoff, is_free,
  waker_step,
}

module _ (cur : ℕ) (c : Chan) where
  pub waker_step-Inv :
      (m : Handoff) (i : ℕ) (b : WakerPhase)
      → m.wakers i ≡ b
      → Inv cur c m
      → Inv cur c (waker_step b i c m)
  unfolding waker_step
  waker_step-Inv m i outside e v = elim (Bool-cases (is_free m.lk)) [
    | inr x ↦ rw x v
    | inl x ↦
        let n = free_nobody m.lk x in
        rw x (record {
          there = v.there;
          lk_mine = λ h. absurd (ground (arith, n, v.lk_mine h));
          lk_theirs =
              theirs-take waker_holds_lk m.wakers i has_lk
                (λ j h. absurd (ground (arith, n, v.lk_theirs j h)));
          table_mine = v.table_mine;
          table_theirs =
              theirs-put waker_holds_table m.table m.wakers i has_lk v.table_theirs (λ h. cc);
          phased =
              Phased-wakers cur c m.at m.procs m.ready m.wakers _ v.phased
                (WillWake-put m.wakers i has_lk (ap will_wake e));
        })
  ]
  waker_step-Inv m i has_lk e v =
      let n = v.lk_theirs i (ap waker_holds_lk e) in
      record {
        there = v.there;
        lk_mine = v.lk_mine;
        lk_theirs = theirs-put waker_holds_lk m.lk m.wakers i has_stored v.lk_theirs (λ _. n);
        table_mine = v.table_mine;
        table_theirs =
            theirs-put waker_holds_table m.table m.wakers i has_stored v.table_theirs (λ h. cc);
        phased =
            Phased-set cur c m.at m.procs m.ready m.wakers _
              (not_mine holds_lk m.at m.lk i n v.lk_mine) v.phased
              (WillWake-put_new m.wakers i has_stored refl);
      }
  waker_step-Inv m i has_stored e v = elim (Bool-cases (is_free m.table)) [
    | inr x ↦ rw x v
    | inl x ↦
        let n = free_nobody m.table x in
        rw x (record {
          there = v.there;
          lk_mine = v.lk_mine;
          lk_theirs =
              theirs-put waker_holds_lk m.lk m.wakers i has_table_too v.lk_theirs
                (λ _. v.lk_theirs i (ap waker_holds_lk e));
          table_mine = λ h. absurd (ground (arith, n, v.table_mine h));
          table_theirs =
              theirs-take waker_holds_table m.wakers i has_table_too
                (λ j h. absurd (ground (arith, n, v.table_theirs j h)));
          phased =
              Phased-wakers cur c m.at m.procs m.ready m.wakers _ v.phased
                (λ _. WillWake-put_new m.wakers i has_table_too refl);
        })
  ]
  waker_step-Inv m i has_table_too e v =
      let n = v.table_theirs i (ap waker_holds_table e) in
      record {
        there = wakeup1-there cur c m.procs c v.there;
        lk_mine = v.lk_mine;
        lk_theirs =
            theirs-put waker_holds_lk m.lk m.wakers i has_woken v.lk_theirs
              (λ _. v.lk_theirs i (ap waker_holds_lk e));
        table_mine = v.table_mine;
        table_theirs =
            theirs-put waker_holds_table m.table m.wakers i has_woken v.table_theirs (λ _. n);
        phased =
            Phased-wakeup1_same cur c m.at m.procs m.ready m.wakers _
              (not_mine holds_table m.at m.table i n v.table_mine) v.phased;
      }
  waker_step-Inv m i has_woken e v =
      let n = v.table_theirs i (ap waker_holds_table e) in
      record {
        there = v.there;
        lk_mine = v.lk_mine;
        lk_theirs =
            theirs-put waker_holds_lk m.lk m.wakers i past_wakeup v.lk_theirs
              (λ _. v.lk_theirs i (ap waker_holds_lk e));
        table_mine = λ h. absurd (ground (arith, n, v.table_mine h));
        table_theirs =
            theirs-drop waker_holds_table m.wakers i past_wakeup (λ j h. sym n ∙ v.table_theirs j h)
              refl;
        phased =
            Phased-wakers cur c m.at m.procs m.ready m.wakers _ v.phased
              (WillWake-put m.wakers i past_wakeup (ap will_wake e));
      }
  waker_step-Inv m i past_wakeup e v =
      let n = v.lk_theirs i (ap waker_holds_lk e) in
      record {
        there = v.there;
        lk_mine = λ h. absurd (ground (arith, n, v.lk_mine h));
        lk_theirs =
            theirs-drop waker_holds_lk m.wakers i outside (λ j h. sym n ∙ v.lk_theirs j h) refl;
        table_mine = v.table_mine;
        table_theirs =
            theirs-put waker_holds_table m.table m.wakers i outside v.table_theirs (λ h. cc);
        phased =
            Phased-wakers cur c m.at m.procs m.ready m.wakers _ v.phased
              (WillWake-put m.wakers i outside (ap will_wake e));
      }
