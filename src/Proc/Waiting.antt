-- ===== src/Proc/Waiting.antt =====
-- What holds between any two steps of sleep and wakeup: who has which lock, and what the slot says.
use pcs_ii.Base.{
  ℕ, ◌≡◌, refl, ◌∙◌, Bool, true, false, ◌&&◌, Bool-cases, inl, inr, ◌⊎◌, some, arith, List, map,
  modify, get_elem?, ==-refl,
}
use pcs_ii.Proc.{
  Proc, sleeping, runnable, Chan, chan_eq, in_sched, is_sleeping, wake, wakeup1, sleep_enter,
}
use pcs_ii.Proc.Slots.{get_elem?-modify, get_elem?-map}
use pcs_ii.Proc.Sleep.{chan_eq_refl}
use pcs_ii.Proc.Handoff.{
  sleeper, waker, Phase, wants_lk, tests, wants_table, has_both, has_table, marked, switched_out,
  resumed, past_loop, WakerPhase, Handoff,
}
use pcs_ii.Proc.Locks.{holds_lk, holds_table, waker_holds_lk, waker_holds_table, WillWake}

-- What the slot holds once the process is marked: it waits on the channel, or was woken.
abbrev pub IsWaiting : List Proc → ℕ → Chan → Type 0
IsWaiting ps cur c =
    (p : Proc) × (get_elem? ps cur ≡ some p)
    × (((p.state ≡ sleeping) × (p.chan ≡ c)) ⊎ (p.state ≡ runnable))

abbrev pub IsRunnable : List Proc → ℕ → Type 0
IsRunnable ps cur = (p : Proc) × (get_elem? ps cur ≡ some p) × (p.state ≡ runnable)

-- What the phase of the process says of the table and of a condition that is set.
abbrev pub Phased : Phase → ℕ → Chan → List Proc → Bool → (ℕ → WakerPhase) → Type 0
Phased has_table cur c ps ready ws = ready ≡ true → WillWake ws
Phased marked cur c ps ready ws = IsWaiting ps cur c × (ready ≡ true → WillWake ws)
Phased switched_out cur c ps ready ws =
    IsWaiting ps cur c × (ready ≡ true → WillWake ws ⊎ IsRunnable ps cur)
Phased wants_table cur c ps ready ws = ready ≡ false
Phased has_both cur c ps ready ws = ready ≡ false
Phased _ cur c ps ready ws = Unit {0}

pub record Inv (cur : ℕ) (c : Chan) (m : Handoff) : Type 0 where
  pub there : (p : Proc) × (get_elem? m.procs cur ≡ some p)
  pub lk_mine : holds_lk m.at ≡ true → m.lk ≡ sleeper
  pub lk_theirs : (i : ℕ) → waker_holds_lk (m.wakers i) ≡ true → m.lk ≡ waker i
  pub table_mine : holds_table m.at ≡ true → m.table ≡ sleeper
  pub table_theirs : (i : ℕ) → waker_holds_table (m.wakers i) ≡ true → m.table ≡ waker i
  pub phased : Phased m.at cur c m.procs m.ready m.wakers

pub there-modify :
    (ps : List Proc) (cur : ℕ) (f : Proc → Proc)
    → (p : Proc) × (get_elem? ps cur ≡ some p)
    → (p : Proc) × (get_elem? (modify ps cur f) cur ≡ some p)
there-modify ps cur f (p, e) = (f p, get_elem?-modify ps cur cur f ∙ rw (==-refl cur, e) refl)

pub there-map :
    (ps : List Proc) (cur : ℕ) (f : Proc → Proc)
    → (p : Proc) × (get_elem? ps cur ≡ some p)
    → (p : Proc) × (get_elem? (map f ps) cur ≡ some p)
there-map ps cur f (p, e) = (f p, get_elem?-map ps cur f ∙ rw e refl)

pub sleep_enter-IsWaiting :
    (ps : List Proc) (cur : ℕ) (c : Chan)
    → (p : Proc) × (get_elem? ps cur ≡ some p)
    → IsWaiting (sleep_enter ps cur c) cur c
unfolding sleep_enter
sleep_enter-IsWaiting ps cur c (p, e) = (
  record p { chan = c; state = sleeping; context = in_sched },
  get_elem?-modify ps cur cur _ ∙ rw (==-refl cur, e) refl,
  inl (refl, refl),
)

pub wakeup1-IsWaiting :
    (ps : List Proc) (cur : ℕ) (c d : Chan) → IsWaiting ps cur c → IsWaiting (wakeup1 ps d) cur c
unfolding wakeup1
wakeup1-IsWaiting ps cur c d (p, e, s) = (wake d p, get_elem?-map ps cur (wake d) ∙ rw e refl, kept)
  where
    kept : (((wake d p).state ≡ sleeping) × ((wake d p).chan ≡ c)) ⊎ ((wake d p).state ≡ runnable)
    kept = elim (Bool-cases (is_sleeping p.state && chan_eq p.chan d)) [
      | inl x ↦ rw x (inr refl)
      | inr x ↦ rw x s
    ]

pub wakeup1-IsRunnable :
    (ps : List Proc) (cur : ℕ) (d : Chan) → IsRunnable ps cur → IsRunnable (wakeup1 ps d) cur
unfolding wakeup1
wakeup1-IsRunnable ps cur d (p, e, s) =
    (wake d p, get_elem?-map ps cur (wake d) ∙ rw e refl, ground (arith, s))

-- A wakeup of the channel leaves the process RUNNABLE.
pub wakeup1_wakes :
    (ps : List Proc) (cur : ℕ) (c : Chan) → IsWaiting ps cur c → IsRunnable (wakeup1 ps c) cur
unfolding wakeup1
wakeup1_wakes ps cur c (p, e, s) = (wake c p, get_elem?-map ps cur (wake c) ∙ rw e refl, woken s)
  where
    woken :
        ((p.state ≡ sleeping) × (p.chan ≡ c)) ⊎ (p.state ≡ runnable) → (wake c p).state ≡ runnable
    woken (inl (a, b)) = ground (arith, a, b, chan_eq_refl c)
    woken (inr a) = ground (arith, a)

module _ (cur : ℕ) (c : Chan) where
  pub sleep_enter-there :
      (ps : List Proc)
      → (p : Proc) × (get_elem? ps cur ≡ some p)
      → (p : Proc) × (get_elem? (sleep_enter ps cur c) cur ≡ some p)
  unfolding sleep_enter
  sleep_enter-there ps t = there-modify ps cur _ t

  pub wakeup1-there :
      (ps : List Proc) (d : Chan)
      → (p : Proc) × (get_elem? ps cur ≡ some p)
      → (p : Proc) × (get_elem? (wakeup1 ps d) cur ≡ some p)
  unfolding wakeup1
  wakeup1-there ps d t = there-map ps cur (wake d) t

  -- Steps of the others.
  pub Phased-wakers :
      (a : Phase) (ps : List Proc) (r : Bool) (ws ws' : ℕ → WakerPhase)
      → Phased a cur c ps r ws
      → (WillWake ws → WillWake ws')
      → Phased a cur c ps r ws'
  Phased-wakers has_table ps r ws ws' h k = λ e. k (h e)
  Phased-wakers marked ps r ws ws' h k = (h.0, λ e. k (h.1 e))
  Phased-wakers switched_out ps r ws ws' h k =
      (h.0, λ e. elim (h.1 e) [ inl x ↦ inl (k x) | inr x ↦ inr x ])
  Phased-wakers wants_table ps r ws ws' h k = h
  Phased-wakers has_both ps r ws ws' h k = h
  Phased-wakers wants_lk ps r ws ws' h k = tt
  Phased-wakers tests ps r ws ws' h k = tt
  Phased-wakers resumed ps r ws ws' h k = tt
  Phased-wakers past_loop ps r ws ws' h k = tt

  pub Phased-set :
      (a : Phase) (ps : List Proc) (r : Bool) (ws ws' : ℕ → WakerPhase)
      → holds_lk a ≡ false
      → Phased a cur c ps r ws
      → WillWake ws'
      → Phased a cur c ps true ws'
  Phased-set has_table ps r ws ws' z h k = λ e. k
  Phased-set marked ps r ws ws' z h k = (h.0, λ e. k)
  Phased-set switched_out ps r ws ws' z h k = (h.0, λ e. inl k)
  Phased-set wants_table ps r ws ws' z h k = cc
  Phased-set has_both ps r ws ws' z h k = cc
  Phased-set wants_lk ps r ws ws' z h k = tt
  Phased-set tests ps r ws ws' z h k = tt
  Phased-set resumed ps r ws ws' z h k = tt
  Phased-set past_loop ps r ws ws' z h k = tt

  -- A wakeup of any channel, where the process does not hold ptable.lock.
  pub Phased-wakeup1 :
      (a : Phase) (ps : List Proc) (r : Bool) (ws : ℕ → WakerPhase) (d : Chan)
      → holds_table a ≡ false
      → Phased a cur c ps r ws
      → Phased a cur c (wakeup1 ps d) r ws
  Phased-wakeup1 switched_out ps r ws d z h = (
    wakeup1-IsWaiting ps cur c d h.0,
    λ e. elim (h.1 e) [ inl x ↦ inl x | inr x ↦ inr (wakeup1-IsRunnable ps cur d x) ],
  )
  Phased-wakeup1 has_table ps r ws d z h = cc
  Phased-wakeup1 marked ps r ws d z h = absurd (ground (arith, z))
  Phased-wakeup1 wants_table ps r ws d z h = h
  Phased-wakeup1 has_both ps r ws d z h = h
  Phased-wakeup1 wants_lk ps r ws d z h = tt
  Phased-wakeup1 tests ps r ws d z h = tt
  Phased-wakeup1 resumed ps r ws d z h = tt
  Phased-wakeup1 past_loop ps r ws d z h = tt

  -- The wakeup that the process waits for.
  pub Phased-wakeup1_same :
      (a : Phase) (ps : List Proc) (r : Bool) (ws ws' : ℕ → WakerPhase)
      → holds_table a ≡ false
      → Phased a cur c ps r ws
      → Phased a cur c (wakeup1 ps c) r ws'
  Phased-wakeup1_same switched_out ps r ws ws' z h =
      (wakeup1-IsWaiting ps cur c c h.0, λ e. inr (wakeup1_wakes ps cur c h.0))
  Phased-wakeup1_same has_table ps r ws ws' z h = cc
  Phased-wakeup1_same marked ps r ws ws' z h = absurd (ground (arith, z))
  Phased-wakeup1_same wants_table ps r ws ws' z h = h
  Phased-wakeup1_same has_both ps r ws ws' z h = h
  Phased-wakeup1_same wants_lk ps r ws ws' z h = tt
  Phased-wakeup1_same tests ps r ws ws' z h = tt
  Phased-wakeup1_same resumed ps r ws ws' z h = tt
  Phased-wakeup1_same past_loop ps r ws ws' z h = tt
