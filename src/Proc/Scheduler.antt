-- ===== src/Proc/Scheduler.antt =====
-- scheduler(): it switches only to a process of the highest priority, it switches to some process if
-- any is RUNNABLE, and among equals it goes round.
use pcs_ii.Base.{
  modify, get_elem?-lt, ℕ, zero, suc, ◌+◌, ◌≤◌, ◌<◌, ◌≡◌, ◌≢◌, refl, ap, ◌∙◌, sym, true, false,
  ◌&&◌, ◌||◌, Bool-cases, Option-cases, inl, inr, ◌⊎◌, none, some, arith, ◌==◌, if◌then◌else◌, List,
  [], ◌∷◌, map, get_elem?, length, ==_iff, ==-ne,
}
use pcs_ii.Base.Int.{ltb_ℤ}
use pcs_ii.Base.Outcome.{Outcome, ret}
use pcs_ii.Proc.{Proc, is_runnable, as_running, is_chosen, sched_pass}
use pcs_ii.Proc.Highest.{
  sched_pass_off, sched_pass_go, sched_pass_skip, IsHighest, exists_higher_highest, Chosen,
  is_chosen-Chosen, LogAll, LogAll-cons,
}

-- Whatever the processes do while they run, every switch of a pass that does not panic goes to a
-- process that is RUNNABLE at that moment and that no RUNNABLE process exceeds in priority.
pub sched_pass-Chosen :
    (run : ℕ → List Proc → List Proc) (n i : ℕ) (ps : List Proc)
    → LogAll (λ s. Chosen s.0 s.1) (sched_pass run n i ps)
unfolding sched_pass
sched_pass-Chosen run zero i ps = tt
sched_pass-Chosen run (suc n) i ps = elim (Option-cases (get_elem? ps i)) [
  | inl e ↦ rw (sched_pass_off run n i ps e) (sched_pass-Chosen run n (i + 1) ps)
  | inr (p, e) ↦ elim (Bool-cases (is_chosen ps p)) [
    | inl c ↦ rw (sched_pass_go run n i ps p e c) (
        LogAll-cons (λ s. Chosen s.0 s.1) (i, ps)
          (sched_pass run n (i + 1) (run i (modify ps i as_running)))
          (p.kstack == 0 || p.pgdir == 0) (is_chosen-Chosen i ps p e c)
          (sched_pass-Chosen run n (i + 1) (run i (modify ps i as_running))))
    | inr c ↦ rw (sched_pass_skip run n i ps p e c) (sched_pass-Chosen run n (i + 1) ps)
  ]
]

-- No process is RUNNABLE, or one is and has the highest priority.
best :
    (ps : List Proc)
    → ((j : ℕ) (q : Proc) → get_elem? ps j ≡ some q → is_runnable q.state ≡ false)
      ⊎ ((i : ℕ) × Chosen i ps)
best [] = inl (λ j q e. cc)
best (p ∷ ps) = elim (best ps) [
  | inl idle ↦ elim (Bool-cases (is_runnable p.state)) [
    | inl r ↦ inr (0, record { proc = p; in_slot = refl; is_ready = r; highest = alone idle })
    | inr r ↦ inl (none_ready idle r)
  ]
  | inr (i, c) ↦ elim (Bool-cases (is_runnable p.state && ltb_ℤ (c.proc).priority p.priority)) [
    | inl r ↦
        inr (0, record { proc = p; in_slot = refl; is_ready = ground arith; highest = above i c r })
    | inr r ↦ inr (
      suc i,
      record { proc = c.proc; in_slot = c.in_slot; is_ready = c.is_ready; highest = still i c r },
    )
  ]
]
  where
    none_ready :
        ((j : ℕ) (q : Proc) → get_elem? ps j ≡ some q → is_runnable q.state ≡ false)
        → is_runnable p.state ≡ false
        → (j : ℕ) (q : Proc) → get_elem? (p ∷ ps) j ≡ some q
        → is_runnable q.state ≡ false
    none_ready idle r zero q e = ground arith
    none_ready idle r (suc j) q e = idle j q e

    alone :
        ((j : ℕ) (q : Proc) → get_elem? ps j ≡ some q → is_runnable q.state ≡ false)
        → IsHighest (p ∷ ps) p.priority
    alone idle zero q e r = ground arith
    alone idle (suc j) q e r = absurd (ground (arith, idle j q e))

    above :
        (i : ℕ) (c : Chosen i ps)
        → (is_runnable p.state && ltb_ℤ (c.proc).priority p.priority) ≡ true
        → IsHighest (p ∷ ps) p.priority
    above i c r zero q e s = ground arith
    above i c r (suc j) q e s = ground (arith, c.highest j q e s)

    still :
        (i : ℕ) (c : Chosen i ps)
        → (is_runnable p.state && ltb_ℤ (c.proc).priority p.priority) ≡ false
        → IsHighest (p ∷ ps) (c.proc).priority
    still i c r zero q e s = ground arith
    still i c r (suc j) q e s = c.highest j q e s

-- Every RUNNABLE process has a kernel stack and a page table.
abbrev pub IsReady : List Proc → Type 0
IsReady ps =
    (j : ℕ) (q : Proc)
    → get_elem? ps j ≡ some q
    → is_runnable q.state ≡ true
    → (q.kstack ≢ 0) × (q.pgdir ≢ 0)

Chosen-is_chosen : (i : ℕ) (t : List Proc) (c : Chosen i t) → is_chosen t (c.proc) ≡ true
unfolding is_chosen
Chosen-is_chosen i t c = rw (c.is_ready, exists_higher_highest t (c.proc).priority c.highest) refl

none-some :
    (i : ℕ) (ps : List Proc) → get_elem? ps i ≡ none → (q : Proc) → get_elem? ps i ≡ some q → ⊥
none-some i ps e q f = ground arith

chosen_ready : (ps : List Proc) (p : Proc) → is_chosen ps p ≡ true → is_runnable p.state ≡ true
unfolding is_chosen
chosen_ready ps p c = ground arith

not-Chosen :
    (i : ℕ) (ps : List Proc) (p : Proc)
    → get_elem? ps i ≡ some p
    → is_chosen ps p ≡ false
    → (j : ℕ) → Chosen j ps
    → j ≡ i
    → ⊥
not-Chosen i ps p e c j d z =
    let same : some (d.proc) ≡ some p = sym d.in_slot ∙ ap (get_elem? ps) z ∙ e in
    let q : d.proc ≡ p = cc in ground (arith, ap (is_chosen ps) q, Chosen-is_chosen j ps d)

-- A pass that returns, and that switched to some process if slot `j` is among its slots and may run.
record Passed (n i : ℕ) (ps : List Proc) (o : Outcome (List (ℕ × List Proc) × List Proc))
    : Type 0 where
  result : List (ℕ × List Proc) × List Proc
  returns : o ≡ ret result
  busy : (j : ℕ) → Chosen j ps → i ≤ j → j < i + n → result.0 ≢ []

module _ (run : ℕ → List Proc → List Proc)
    (keep : (i : ℕ) (ps : List Proc) → IsReady ps → IsReady (run i (modify ps i as_running))) where
  sched_pass-Passed :
      (n i : ℕ) (ps : List Proc) → IsReady ps → Passed n i ps (sched_pass run n i ps)
  unfolding sched_pass
  sched_pass-Passed zero i ps h = record {
    result = ([], ps);
    returns = refl;
    busy = λ j c a b. absurd (omega arith);
  }
  sched_pass-Passed (suc n) i ps h = elim (Option-cases (get_elem? ps i)) [
    | inl e ↦
        let r = sched_pass-Passed n (i + 1) ps h in
        rw (sched_pass_off run n i ps e) (record {
          result = r.result;
          returns = r.returns;
          busy = λ j c a b. elim (Bool-cases (j == i)) [
            | inl z ↦
                absurd (
                  none-some i ps e (c.proc)
                    (ap (get_elem? ps) (sym ((==_iff j i).0 z)) ∙ c.in_slot))
            | inr z ↦ r.busy j c (ground arith) (omega arith)
          ];
        })
    | inr (p, e) ↦ elim (Bool-cases (is_chosen ps p)) [
      | inl c ↦
          let q = is_chosen-Chosen i ps p e c in
          let z = h i p e (chosen_ready ps p c) in
          let r = sched_pass-Passed n (i + 1) (run i (modify ps i as_running)) (keep i ps h) in
          rw (sched_pass_go run n i ps p e c, ==-ne p.kstack 0 z.0, ==-ne p.pgdir 0 z.1, r.returns)
            (record {
              result = ((i, ps) ∷ r.result.0, r.result.1);
              returns = refl;
              busy = λ j c' a b x. cc;
            })
      | inr c ↦
          let r = sched_pass-Passed n (i + 1) ps h in
          rw (sched_pass_skip run n i ps p e c) (record {
            result = r.result;
            returns = r.returns;
            busy = λ j d a b. elim (Bool-cases (j == i)) [
              | inl z ↦ absurd (not-Chosen i ps p e c j d ((==_iff j i).0 z))
              | inr z ↦ r.busy j d (ground arith) (omega arith)
            ];
          })
    ]
  ]

-- If every RUNNABLE process of the table has a kernel stack and a page table, and whatever
-- happens while a process runs leaves it so, then a pass over the whole table never panics, and
-- it switches to at least one process or else no process is RUNNABLE when it starts.
pub sched_pass_progress :
    (run : ℕ → List Proc → List Proc) (ps : List Proc)
    → ((i : ℕ) (qs : List Proc) → IsReady qs → IsReady (run i (modify qs i as_running)))
    → IsReady ps
    → (r : List (ℕ × List Proc) × List Proc) × (sched_pass run (length ps) 0 ps ≡ ret r)
      × ((r.0 ≢ []) ⊎ ((j : ℕ) (q : Proc) → get_elem? ps j ≡ some q → is_runnable q.state ≡ false))
sched_pass_progress run ps keep h =
    let p = sched_pass-Passed run keep (length ps) 0 ps h in
    (
      p.result,
      p.returns,
      elim (best ps) [
        | inl idle ↦ inr idle
        | inr (i, c) ↦ inl (p.busy i c (omega arith) (omega (arith, get_elem?-lt ps i c.in_slot)))
      ],
    )

-- The slots from `i` on, `n` of them, that a table makes the scheduler choose.
abbrev pub chosen_slots : ℕ → ℕ → List Proc → List ℕ
chosen_slots zero i ps = []
chosen_slots (suc n) i ps =
    let rest = chosen_slots n (i + 1) ps in
    elim (get_elem? ps i) [ none ↦ rest | some p ↦ if is_chosen ps p then i ∷ rest else rest ]

-- Round robin: if each process that runs yields with the table as it was, and every RUNNABLE
-- process has a kernel stack and a page table, a pass over any range of slots switches to every
-- RUNNABLE process of the highest priority in it, once each, in the order of the slots.
pub sched_pass_round_robin :
    (run : ℕ → List Proc → List Proc) (n i : ℕ) (ps : List Proc)
    → IsReady ps
    → ((j : ℕ) → run j (modify ps j as_running) ≡ ps)
    → sched_pass run n i ps ≡ ret (map (λ j. (j, ps)) (chosen_slots n i ps), ps)
unfolding sched_pass
sched_pass_round_robin run zero i ps h y = refl
sched_pass_round_robin run (suc n) i ps h y = elim (Option-cases (get_elem? ps i)) [
  | inl e ↦
      sched_pass_off run n i ps e
      ∙ sched_pass_round_robin run n (i + 1) ps h y
      ∙ rw (e, chosen_slots) refl
  | inr (p, e) ↦ elim (Bool-cases (is_chosen ps p)) [
    | inl c ↦
        let z = h i p e (chosen_ready ps p c) in
        sched_pass_go run n i ps p e c
        ∙ rw
            (
              ==-ne p.kstack 0 z.0,
              ==-ne p.pgdir 0 z.1,
              y i,
              sched_pass_round_robin run n (i + 1) ps h y,
            )
            (rw (e, chosen_slots) (rw c refl))
    | inr c ↦
        sched_pass_skip run n i ps p e c
        ∙ sched_pass_round_robin run n (i + 1) ps h y
        ∙ rw (e, chosen_slots) (rw c refl)
  ]
]
