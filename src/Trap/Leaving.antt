-- ===== src/Trap/Leaving.antt =====
-- How trap() ends: its switch, and the whole of it.
use pcs_ii.Base.{
  ℕ, ◌+◌, ◌%◌, ◌^◌, ◌≡◌, Bool, true, false, ◌||◌, ◌⊎◌, Option, none, some, get_elem?, ◌==◌,
  if◌then◌else◌,
}
use mathlib.Core.Option
use pcs_ii.Base.Outcome.{Outcome, ret, panic}
use pcs_ii.Proc.{is_killed, Proc}
use pcs_ii.Trap.{Handlers, World, Frame, Ended, returns, exits, is_user, runs_now}
use pcs_ii.Trap.Settling.{PanicsIn, Settles}

-- The interrupts that the kernel knows, and the system call.
abbrev pub is_known : ℕ → Bool
is_known n = n == 64 || n == 32 || n == 46 || n == 47 || n == 33 || n == 36 || n == 39 || n == 63

-- Traps that the code answers with lapiceoi.
abbrev pub is_acked : ℕ → Bool
is_acked n = n == 32 || n == 46 || n == 33 || n == 36 || n == 39 || n == 63

-- How many times a trap calls lapiceoi.
abbrev pub acks : ℕ → ℕ
acks n = if is_acked n then 1 else 0

abbrev pub ticks_after : ℕ → World → ℕ
ticks_after cpu w = if cpu == 0 then (w.ticks + 1) % 2 ^ 32 else w.ticks

module _ (h : Handlers) (cpu : ℕ) (cur : Option ℕ) (f : Frame) (w : World) where
  abbrev pub IsFault : Type 0
  IsFault = (is_known f.trapno ≡ false) × ((cur ≡ none) ⊎ (f.cs % 4 ≡ 0))

  -- A trap that the kernel does not know, of a process of the table.
  abbrev pub IsStrange : ℕ → Type 0
  IsStrange c =
      (is_known f.trapno ≡ false) × (cur ≡ some c) × ((p : Proc) × (get_elem? w.procs c ≡ some p))

  -- What the switch does, and where it panics.
  abbrev Dispatches : Outcome (ℕ × World) → Type 0
  Dispatches panic = IsFault ⊎ PanicsIn h cur f w
  Dispatches (ret (n, v)) =
      (n ≡ acks f.trapno)
      × (f.trapno ≡ 32 → (v.ticks ≡ ticks_after cpu w) × ((c : ℕ) → runs_now c v ≡ runs_now c w))
      × ((c : ℕ) → IsStrange c → is_killed v.procs c ≡ true)

  -- What holds of the end of a trap.
  abbrev pub Leaves : Outcome (Ended × ℕ × World) → Type 0
  Leaves panic = IsFault ⊎ PanicsIn h cur f w
  Leaves (ret (e, n, w')) =
      (n ≡ acks f.trapno)
      × Settles h cur f w (ret (e, w'))
      × (f.trapno ≡ 32
          → e ≡ returns
          → ((c : ℕ) → cur ≡ some c → runs_now c w ≡ false)
          → w'.ticks ≡ ticks_after cpu w)
      × ((c : ℕ) → IsStrange c → is_user f ≡ true → e ≡ exits)
