-- ===== src/Proc/Exit.antt =====
-- exit of proc.c: children outlive their parent under init.

use pcs_ii.Base.{
  modify, length-map, get_elem?-lt, ℕ, zero, suc, ◌+◌, ◌<◌, ◌≡◌, ◌≢◌, refl, ap, ◌∙◌, sym, false,
  Bool-cases, Option-cases, inl, inr, ◌⊎◌, Option, none, some, arith, ◌==◌, List, get_elem?, length,
  ==_iff,
}
use pcs_ii.Proc.{
  Proc, zombie, Chan, in_sched, is_zombie, wake, wakeup1, parent_is, chan_of, reparent, exit_locked,
  adopt,
}
use pcs_ii.Proc.Slots.{modify-cases, get_elem?-map, length-modify}

-- No process from slot `0` to slot `i` is a child of `cur`.
abbrev NoChildBelow : ℕ → List Proc → ℕ → Type 0
NoChildBelow i ps cur =
    (j : ℕ) (q : Proc) → j < i → get_elem? ps j ≡ some q → parent_is q.parent cur ≡ false

wakeup1-NoChildBelow :
    (i : ℕ) (ps : List Proc) (cur : ℕ) (c : Chan)
    → NoChildBelow i ps cur
    → NoChildBelow i (wakeup1 ps c) cur
unfolding wakeup1
wakeup1-NoChildBelow i ps cur c h j q l e = elim (Option-cases (get_elem? ps j)) [
  | inl n ↦ absurd (ground (arith, get_elem?-map ps j (wake c)))
  | inr (p, a) ↦ ground (arith, get_elem?-map ps j (wake c), h j p l a)
]

adopt-NoChildBelow :
    (i : ℕ) (ps : List Proc) (p : Proc) (cur : ℕ) (init : Option ℕ)
    → parent_is init cur ≡ false
    → get_elem? ps i ≡ some p
    → NoChildBelow i ps cur
    → NoChildBelow (suc i) (adopt ps i p cur init) cur
adopt-NoChildBelow i ps p cur init ne e h = elim (Bool-cases (parent_is p.parent cur)) [
  | inl c ↦ elim (Bool-cases (is_zombie p.state)) [
    | inl z ↦ rw (c, z) (wakeup1-NoChildBelow (suc i) moved cur (chan_of init) moved_no_child)
    | inr z ↦ rw (c, z) moved_no_child
  ]
  | inr c ↦ rw c (λ j q l f. elim (Bool-cases (j == i)) [
    | inl s ↦ same_slot c j q f ((==_iff j i).0 s)
    | inr s ↦ h j q (ground arith) f
  ])
]
  where
    moved : List Proc
    moved = modify ps i λ q. record q { parent = init }

    moved_no_child : NoChildBelow (suc i) moved cur
    moved_no_child j q l f = elim (modify-cases ps i j (λ q. record q { parent = init }) q f) [
      | inl (ij, (p', a, b)) ↦ ap (λ r. parent_is r.parent cur) b ∙ ne
      | inr (ij, a) ↦ h j q (omega arith) a
    ]

    same_slot :
        parent_is p.parent cur ≡ false
        → (j : ℕ) (q : Proc) → get_elem? ps j ≡ some q
        → j ≡ i
        → parent_is q.parent cur ≡ false
    same_slot c j q f s =
        let t : some q ≡ some p = sym f ∙ ap (get_elem? ps) s ∙ e in
        let u : q ≡ p = cc in ap (λ r. parent_is r.parent cur) u ∙ c

reparent-NoChildBelow :
    (n i m : ℕ) (ps : List Proc) (cur : ℕ) (init : Option ℕ)
    → parent_is init cur ≡ false
    → m ≡ i + n
    → NoChildBelow i ps cur
    → NoChildBelow m (reparent n i ps cur init) cur
unfolding reparent
reparent-NoChildBelow zero i m ps cur init ne e h = λ j q l f. h j q (omega arith) f
reparent-NoChildBelow (suc n) i m ps cur init ne e h =
    reparent-NoChildBelow n (i + 1) m _ cur init ne (omega arith) (round (get_elem? ps i) refl)
  where
    missing : {q : Proc} {o : Option Proc} → o ≡ none → some q ≡ o → ⊥
    missing a b = cc

    round :
        (o : Option Proc)
        → get_elem? ps i ≡ o
        → NoChildBelow
            (i + 1)
            (elim (get_elem? ps i) [ none ↦ ps | some p ↦ adopt ps i p cur init ])
            cur
    round none a = rw a (λ j q l f. elim (Bool-cases (j == i)) [
      | inl s ↦ absurd (missing a (sym f ∙ ap (get_elem? ps) ((==_iff j i).0 s)))
      | inr s ↦ h j q (ground arith) f
    ])
    round (some p) a =
        rw a (λ j q l f. adopt-NoChildBelow i ps p cur init ne a h j q (omega arith) f)

length-adopt :
    (ps : List Proc) (i : ℕ) (p : Proc) (cur : ℕ) (init : Option ℕ)
    → length (adopt ps i p cur init) ≡ length ps
unfolding wakeup1
length-adopt ps i p cur init = ground (
  arith,
  length-modify ps i (λ q. record q { parent = init }),
  length-map (modify ps i (λ q. record q { parent = init })) (wake (chan_of init)),
)

length-wakeup1 : (ps : List Proc) (c : Chan) → length (wakeup1 ps c) ≡ length ps
unfolding wakeup1
length-wakeup1 ps c = length-map ps (wake c)

length-reparent :
    (n i : ℕ) (ps : List Proc) (cur : ℕ) (init : Option ℕ)
    → length (reparent n i ps cur init) ≡ length ps
unfolding reparent
length-reparent zero i ps cur init = refl
length-reparent (suc n) i ps cur init =
    length-reparent n (i + 1) _ cur init ∙ round (get_elem? ps i)
  where
    round :
        (o : Option Proc)
        → length (elim o [ none ↦ ps | some p ↦ adopt ps i p cur init ]) ≡ length ps
    round none = refl
    round (some p) = length-adopt ps i p cur init

-- When the locked part of exit() is done, the slot of the process is a ZOMBIE, and no process of
-- the table is its child, provided that it is not init itself.
pub exit_locked_orphans :
    (ps : List Proc) (cur : ℕ) (parent init : Option ℕ) (j : ℕ) (q : Proc)
    → parent_is init cur ≡ false
    → get_elem? (exit_locked (length ps) ps cur parent init) j ≡ some q
    → (parent_is q.parent cur ≡ false) × ((j ≢ cur) ⊎ (q.state ≡ zombie))
unfolding exit_locked
exit_locked_orphans ps cur parent init j q ne e =
    let rs = reparent (length ps) 0 (wakeup1 ps (chan_of parent)) cur init in
    let none_left =
      reparent-NoChildBelow (length ps) 0 (length ps) (wakeup1 ps (chan_of parent)) cur init ne
        (omega arith) (λ j q l f. absurd (omega arith)) in
    let len : length rs ≡ length ps =
      length-reparent (length ps) 0 (wakeup1 ps (chan_of parent)) cur init
      ∙ length-wakeup1 ps (chan_of parent) in
    elim (modify-cases rs cur j (λ p. record p { state = zombie; context = in_sched }) q e) [
      | inl (cj, (p, a, b)) ↦ (
        ap (λ r. parent_is r.parent cur) b ∙ none_left j p (omega (arith, get_elem?-lt rs j a)) a,
        inr (ap (λ r. r.state) b),
      )
      | inr (cj, a) ↦ (none_left j q (omega (arith, get_elem?-lt rs j a)) a, inl (λ h. cj (sym h)))
    ]
