-- ===== src/Proc/Sleep.antt =====
-- sleep and wakeup of proc.c, on a process that is asleep.

use pcs_ii.Base.{
  modify, ℕ, ◌≡◌, refl, ap, ◌∙◌, Bool, true, false, ◌||◌, Bool-cases, inl, inr, Option, some, arith,
  if◌then◌else◌, List, [], ◌∷◌, map, get_elem?, ==-refl,
}
use pcs_ii.Proc.{
  Proc, sleeping, runnable, Chan, null, proc_at, at, chan_eq, in_sched, wake, wakeup1, sleep_enter,
}
use pcs_ii.Proc.Slots.{get_elem?-modify, get_elem?-map}

pub chan_eq_refl : (c : Chan) → chan_eq c c ≡ true
chan_eq_refl null = refl
chan_eq_refl (proc_at i) = ==-refl i
chan_eq_refl (at a) = ==-refl a

-- Is `c` among the channels?
abbrev pub woken_on : Chan → List Chan → Bool
woken_on c [] = false
woken_on c (d ∷ ds) = chan_eq c d || woken_on c ds

abbrev pub wakeups : List Proc → List Chan → List Proc
wakeups ps [] = ps
wakeups ps (c ∷ cs) = wakeups (wakeup1 ps c) cs

wakeups-runnable :
    (ps : List Proc) (cs : List Chan) (i : ℕ) (p : Proc)
    → get_elem? ps i ≡ some p
    → p.state ≡ runnable
    → get_elem? (wakeups ps cs) i ≡ some p
unfolding wakeup1
wakeups-runnable ps [] i p e r = e
wakeups-runnable ps (c ∷ cs) i p e r =
    wakeups-runnable (map (wake c) ps) cs i p (ground (arith, get_elem?-map ps i (wake c))) r

wake-sleeping :
    (c : Chan) (p : Proc) (b : Bool)
    → p.state ≡ sleeping
    → chan_eq p.chan c ≡ b
    → wake c p ≡ (if b then record p { state = runnable } else p)
wake-sleeping c p b s h = ground arith

wakeups-sleeping :
    (ps : List Proc) (cs : List Chan) (i : ℕ) (p : Proc)
    → get_elem? ps i ≡ some p
    → p.state ≡ sleeping
    → get_elem? (wakeups ps cs) i
      ≡ some (if woken_on p.chan cs then record p { state = runnable } else p)
unfolding wakeup1
wakeups-sleeping ps [] i p e s = e
wakeups-sleeping ps (c ∷ cs) i p e s = elim (Bool-cases (chan_eq p.chan c)) [
  | inl h ↦ rw h (
      wakeups-runnable (map (wake c) ps) cs i (record p { state = runnable })
        (get_elem?-map ps i (wake c) ∙ rw e (ap some (wake-sleeping c p true s h))) refl)
  | inr h ↦ rw h (
      wakeups-sleeping (map (wake c) ps) cs i p
        (get_elem?-map ps i (wake c) ∙ rw e (ap some (wake-sleeping c p false s h))) s)
]

-- A process that has gone to sleep on a channel is RUNNABLE after any sequence of
-- wakeups in which that channel occurs, and is still asleep after any in which it does not.
pub sleep_enter-wakeups :
    (ps : List Proc) (cur : ℕ) (p : Proc) (c : Chan) (cs : List Chan)
    → get_elem? ps cur ≡ some p
    → get_elem? (wakeups (sleep_enter ps cur c) cs) cur
      ≡ some (record p {
        chan = c;
        context = in_sched;
        state = if woken_on c cs then runnable else sleeping;
      })
unfolding sleep_enter
sleep_enter-wakeups ps cur p c cs e =
    wakeups-sleeping (modify ps cur enter) cs cur (enter p)
      (get_elem?-modify ps cur cur enter ∙ rw (==-refl cur, e) refl) refl
    ∙ split (woken_on c cs)
  where
    enter : Proc → Proc
    enter q = record q { chan = c; state = sleeping; context = in_sched }

    split :
        (b : Bool)
        → ◌≡◌ {A = Option Proc}
            (some
              (if b then record p { chan = c; state = runnable; context = in_sched } else enter p))
            (some
              (record p { chan = c; context = in_sched; state = if b then runnable else sleeping }))
    split true = refl
    split false = refl
