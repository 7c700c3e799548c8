-- ===== src/Trap/Settling.antt =====
-- How trap() ends past its switch, and after a system call.
use pcs_ii.Base.{
  ℕ, ◌≡◌, ◌≢◌, refl, ◌∙◌, sym, Bool, true, false, ◌&&◌, ◌||◌, Bool-cases, inl, inr, Option, none,
  some, ◌==◌, if◌then◌else◌, arith,
}
use pcs_ii.Base.Outcome.{Outcome, ret, panic, ◌>>=◌}
use pcs_ii.Proc.{is_killed, yield}
use pcs_ii.Trap.{
  Handlers, World, Frame, Ended, returns, exits, faults, is_user, runs_now, give_up, leave_by_exit,
  finish_trap, trap_syscall,
}

-- The process goes back to its own code: from a system call, or from an interrupt in user mode.
abbrev pub to_user : Frame → Bool
to_user f = f.trapno == 64 || is_user f

module _ (h : Handlers) (cur : Option ℕ) (f : Frame) (w : World) where
  -- A handler that the trap calls panics: that of its number; the rest of the kernel, while a process
  -- has yielded at a timer interrupt; or exit, for a process that is killed and would go back to its code.
  pub data PanicsIn : Type 0 where
    in_ide : f.trapno ≡ 46 → h.ideintr w ≡ panic → PanicsIn
    in_kbd : f.trapno ≡ 33 → h.kbdintr w ≡ panic → PanicsIn
    in_uart : f.trapno ≡ 36 → h.uartintr w ≡ panic → PanicsIn
    in_syscall :
        (c : ℕ)
        → f.trapno ≡ 64
        → cur ≡ some c
        → is_killed w.procs c ≡ false
        → h.syscall c w ≡ panic
        → PanicsIn
    in_others :
        (c : ℕ) (v : World) → f.trapno ≡ 32 → cur ≡ some c → h.resumed c v ≡ panic → PanicsIn
    in_exit :
        (c : ℕ) (v : World)
        → cur ≡ some c
        → is_killed v.procs c ≡ true
        → to_user f ≡ true
        → h.exit c v ≡ panic
        → PanicsIn

  -- The process has exited, as it was killed and would have gone back to its code; at once, if it was
  -- killed when it made a system call.
  abbrev pub Gone : World → Type 0
  Gone w' =
      (c : ℕ) × (v : World) × (cur ≡ some c)
      × (is_killed v.procs c ≡ true)
      × (to_user f ≡ true)
      × (h.exit c v ≡ ret w')
      × (f.trapno ≡ 64 → is_killed w.procs c ≡ true → v ≡ w)

  -- A process that goes back to its code is not killed, nor was when it made a system call.
  abbrev pub Spared : World → Type 0
  Spared w' =
      (c : ℕ)
      → cur ≡ some c
      → to_user f ≡ true
      → (is_killed w'.procs c ≡ false) × (f.trapno ≡ 64 → is_killed w.procs c ≡ false)

  abbrev pub Settles : Outcome (Ended × World) → Type 0
  Settles panic = PanicsIn
  Settles (ret (returns, w')) = Spared w'
  Settles (ret (exits, w')) = Gone w'
  Settles (ret (faults, w')) = (f.trapno ≡ 64) × (cur ≡ none) × (w' ≡ w)

  leave_by_exit-Settles :
      (c : ℕ) (v : World)
      → cur ≡ some c
      → is_killed v.procs c ≡ true
      → to_user f ≡ true
      → (f.trapno ≡ 64 → is_killed w.procs c ≡ true → v ≡ w)
      → Settles (leave_by_exit h c v)
  unfolding leave_by_exit
  leave_by_exit-Settles c v e k u s = go (h.exit c v) refl
    where
      go : (o : Outcome World) → h.exit c v ≡ o → Settles (o >>= λ w'. ret (exits, w'))
      go panic p = in_exit c v e k u p
      go (ret w') p = (c, v, e, k, u, p, s)

  pub trap_syscall-Settles : f.trapno ≡ 64 → Settles (trap_syscall h cur w)
  unfolding trap_syscall
  trap_syscall-Settles n = go cur refl
    where
      user : to_user f ≡ true
      user = ground (arith, n)

      after :
          (c : ℕ) (o : Outcome World)
          → cur ≡ some c
          → is_killed w.procs c ≡ false
          → h.syscall c w ≡ o
          → Settles
              (o >>= λ w'. if is_killed w'.procs c then leave_by_exit h c w' else ret (returns, w'))
      after c panic e x p = in_syscall c n e x p
      after c (ret w') e x p = elim (Bool-cases (is_killed w'.procs c)) [
        | inl y ↦ rw y (leave_by_exit-Settles c w' e y user (λ _ k. absurd (ground (arith, x, k))))
        | inr y ↦ rw y (λ d q u. (same c d (sym e ∙ q) w' y, λ _. same c d (sym e ∙ q) w x))
      ]
        where
          same :
              (c d : ℕ)
              → some c ≡ some d
              → (v : World) → is_killed v.procs c ≡ false
              → is_killed v.procs d ≡ false
          same c d q v y = let z : c ≡ d = cc in rw (sym z) y

      go : (o : Option ℕ) → cur ≡ o → Settles (trap_syscall h o w)
      go none e = (n, e, refl)
      go (some c) e = elim (Bool-cases (is_killed w.procs c)) [
        | inl x ↦ rw (x, trap_syscall) (leave_by_exit-Settles c w e x user (λ _ _. refl))
        | inr x ↦ rw (x, trap_syscall) (after c (h.syscall c w) e x refl)
      ]

  give_up-panics : (v : World) (c : ℕ) → cur ≡ some c → give_up h c f v ≡ panic → PanicsIn
  unfolding give_up
  give_up-panics v c e p = elim (Bool-cases (runs_now c v && f.trapno == 32)) [
    | inl x ↦
        in_others c (record v { procs = yield v.procs c }) (ground (arith, x)) e
          (sym (rw x refl) ∙ p)
    | inr x ↦ absurd (ground (arith, x, p))
  ]

  -- Past the switch, which left `v`.
  pub finish_trap-Settles : (v : World) → (f.trapno == 64) ≡ false → Settles (finish_trap h cur f v)
  unfolding finish_trap
  finish_trap-Settles v z = go cur refl
    where
      user : to_user f ≡ is_user f
      user = rw z refl

      no_call : f.trapno ≡ 64 → (x y : World) → x ≡ y
      no_call n x y = absurd (ground (arith, z, n))

      both : (a b : Bool) → (a && b) ≡ true → (a ≡ true) × (b ≡ true)
      both true b e = (refl, e)
      both false b e = cc

      spared :
          (c : ℕ) (w' : World)
          → cur ≡ some c
          → (is_killed w'.procs c && is_user f) ≡ false
          → Spared w'
      spared c w' e y d q u =
          let same : c ≡ d = ground (arith, e, q) in
          (rw (← same) (ground (arith, y, u, user)), λ n. absurd (ground (arith, z, n)))

      after :
          (c : ℕ) (o : Outcome World)
          → cur ≡ some c
          → give_up h c f v ≡ o
          → Settles (
              o >>= λ w'.
              if is_killed w'.procs c && is_user f then leave_by_exit h c w' else ret (returns, w'))
      after c panic e p = give_up-panics v c e p
      after c (ret w') e p = elim (Bool-cases (is_killed w'.procs c && is_user f)) [
        | inl y ↦
            let (k, u) = both (is_killed w'.procs c) (is_user f) y in
            rw y (leave_by_exit-Settles c w' e k (user ∙ u) (λ n _. no_call n w' w))
        | inr y ↦ rw y (spared c w' e y)
      ]

      go : (o : Option ℕ) → cur ≡ o → Settles (finish_trap h o f v)
      go none e = λ c q u. absurd (ground (arith, e, q))
      go (some c) e = elim (Bool-cases (is_killed v.procs c && is_user f)) [
        | inl x ↦
            let (k, u) = both (is_killed v.procs c) (is_user f) x in
            rw (x, finish_trap) (leave_by_exit-Settles c v e k (user ∙ u) (λ n _. no_call n v w))
        | inr x ↦ rw (x, finish_trap) (after c (give_up h c f v) e refl)
      ]

  leave_by_exit-ne : (c : ℕ) (v u : World) → leave_by_exit h c v ≢ ret (returns, u)
  unfolding leave_by_exit
  leave_by_exit-ne c v u = go (h.exit c v)
    where
      go :
          (o : Outcome World)
          → ◌≢◌ {A = Outcome (Ended × World)} (o >>= λ x. ret (exits, x)) (ret (returns, u))
      go panic q = absurd (ground (arith, q))
      go (ret x) q = absurd (ground (arith, q))

  -- A process that is not running when the switch is over does not yield.
  pub finish_trap_stays :
      (v w' : World)
      → ((c : ℕ) → cur ≡ some c → runs_now c v ≡ false)
      → finish_trap h cur f v ≡ ret (returns, w')
      → w' ≡ v
  unfolding finish_trap give_up
  finish_trap_stays v w' idle e = go cur refl e
    where
      go : (o : Option ℕ) → cur ≡ o → finish_trap h o f v ≡ ret (returns, w') → w' ≡ v
      go none e q = ground (arith, q)
      go (some c) e q = elim (Bool-cases (is_killed v.procs c && is_user f)) [
        | inl x ↦ absurd (leave_by_exit-ne c v w' (sym (rw x refl) ∙ q))
        | inr x ↦ ground (arith, x, idle c e, q)
      ]

  leave_by_exit-exits :
      (c : ℕ) (v w' : World) (e : Ended) → leave_by_exit h c v ≡ ret (e, w') → e ≡ exits
  unfolding leave_by_exit
  leave_by_exit-exits c v w' e = go (h.exit c v)
    where
      go :
          (o : Outcome World)
          → ◌≡◌ {A = Outcome (Ended × World)} (o >>= λ x. ret (exits, x)) (ret (e, w'))
          → e ≡ exits
      go panic q = absurd (ground (arith, q))
      go (ret x) q = ground (arith, q)

  -- A process that is killed when the switch is over, in user mode, exits.
  pub finish_trap_killed :
      (v w' : World) (e : Ended) (c : ℕ)
      → cur ≡ some c
      → is_killed v.procs c ≡ true
      → is_user f ≡ true
      → finish_trap h cur f v ≡ ret (e, w')
      → e ≡ exits
  unfolding finish_trap
  finish_trap_killed v w' e c s k u q = go cur s q
    where
      go : (o : Option ℕ) → o ≡ some c → finish_trap h o f v ≡ ret (e, w') → e ≡ exits
      go none s q = absurd (ground (arith, s))
      go (some d) s q =
          let same : c ≡ d = ground (arith, s) in
          let k' : (is_killed v.procs d && is_user f) ≡ true = rw (← same) (ground (arith, k, u)) in
          leave_by_exit-exits d v w' e (sym (rw k' refl) ∙ q)
