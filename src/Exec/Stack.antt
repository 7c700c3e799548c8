-- ===== src/Exec/Stack.antt =====
-- The stack that exec builds for a new program.
use pcs_ii.Base.{
  ℕ, ◌+◌, ◌-◌, ◌*◌, ◌%◌, ◌^◌, ◌≤◌, ◌<◌, ◌≡◌, refl, ap, ◌∙◌, sym, Bool, true, false, Bool-cases, inl,
  inr, ◌⊎◌, List, [], ◌∷◌, ◌++◌, Option, none, some, length, ltb, ltb→lt, subst, if◌then◌else◌,
  arith,
}
use pcs_ii.Base.Outcome.{Outcome, ret, panic}
use pcs_ii.Kalloc.{Kmem}
use pcs_ii.Vm.{copyout}
use pcs_ii.Inode.{Run, done, panics, waits}
use pcs_ii.Elf.{Machine}
use pcs_ii.Exec.{store_words, push_args, push_ustack, ustack_words, ustack_place, push_all}
use pcs_ii.Exec.Arguments.{Pushes, Answers, push_args-Answers}

-- What push_all answers. The program finds the number of its arguments at esp + 4 and the address of
-- the array of their addresses, which stands at esp + 12 and ends with a null, at esp + 8.
abbrev pub Frames : ℕ → ℕ → ℕ → List ℕ → ℕ → Machine → Run (Option ℕ × Machine) → Type 0
Frames fuel ustack pgdir argv sz m panics = Unit
Frames fuel ustack pgdir argv sz m waits = Unit
Frames fuel ustack pgdir argv sz m (done (none, m')) = Unit
Frames fuel ustack pgdir argv sz m (done (some esp, m')) =
    (places : List ℕ) × (last : ℕ) × (m1 : Machine) × (length places ≡ length argv)
    × (length places ≤ 32)
    × Pushes fuel pgdir m argv sz places last m1
    × ((last < 4 * (length argv + 4))
        ⊎ ((esp % 4 ≡ 0)
            × (esp + 4 * (length argv + 4) ≡ last)
            × (copyout
                  (record (m1.kmem) {
                    mem =
                        store_words m1.kmem.mem ustack
                          (0xFFFFFFFF ∷ length argv ∷ (esp + 12) ∷ (places ++ (0 ∷ [])));
                  })
                  pgdir esp ustack (4 * (length argv + 4))
                ≡ ret (true, m'.kmem))))

-- The stack pointer, and the two words that depend on it.
ustack-place :
    (last : ℕ) (places : List ℕ)
    → last % 4 ≡ 0
    → last < 2 ^ 32
    → 4 * (length places + 4) ≤ last
    → length places ≤ 32
    → (ustack_place last places % 4 ≡ 0)
      × (ustack_place last places + 4 * (length places + 4) ≡ last)
      × ((last + 2 ^ 32 - (length places + 1) * 4) % 2 ^ 32 ≡ ustack_place last places + 12)
ustack-place last places a h l b = (omega arith, omega arith, omega arith)

push_ustack-Frames :
    (fuel ustack pgdir : ℕ) (argv : List ℕ) (sz : ℕ) (m m1 : Machine) (last : ℕ) (places : List ℕ)
    → length places ≡ length argv
    → length places ≤ 32
    → last % 4 ≡ 0
    → last < 2 ^ 32
    → Pushes fuel pgdir m argv sz places last m1
    → Frames fuel ustack pgdir argv sz m (push_ustack ustack pgdir last places m1)
unfolding push_ustack
push_ustack-Frames fuel ustack pgdir argv sz m m1 last places l b al h x =
    copied
      (copyout (filled (ustack_words last places)) pgdir esp ustack ((3 + length places + 1) * 4))
      refl
  where
    filled : List ℕ → Kmem
    filled ws = record (m1.kmem) { mem = store_words m1.kmem.mem ustack ws }

    esp : ℕ
    esp = ustack_place last places

    fits :
        (k : Kmem)
        → copyout (filled (ustack_words last places)) pgdir esp ustack ((3 + length places + 1) * 4)
          ≡ ret (true, k)
        → ((last < 4 * (length argv + 4))
            ⊎ ((esp % 4 ≡ 0)
                × (esp + 4 * (length argv + 4) ≡ last)
                × (copyout
                      (filled (0xFFFFFFFF ∷ length argv ∷ (esp + 12) ∷ (places ++ (0 ∷ []))))
                      pgdir
                      esp
                      ustack
                      (4 * (length argv + 4))
                    ≡ ret (true, k))))
    fits k e = elim (Bool-cases (ltb last (4 * (length argv + 4)))) [
      | inl z ↦ inl (ltb→lt last (4 * (length argv + 4)) z)
      | inr z ↦
          let (u, v, w) = ustack-place last places al h (ground (arith, z, l)) b in
          let count : length argv ≡ length places = sym l in
          let words : (0xFFFFFFFF ∷ length argv ∷ (esp + 12) ∷ (places ++ (0 ∷ [])))
              ≡ ustack_words last places =
            ap (λ n. 0xFFFFFFFF ∷ n ∷ (esp + 12) ∷ (places ++ (0 ∷ []))) count
            ∙ ap (λ y. 0xFFFFFFFF ∷ length places ∷ y ∷ (places ++ (0 ∷ []))) (sym w) in
          inr (
            u,
            omega (arith, v, l),
            ap
                  (λ n.
                    copyout (filled (0xFFFFFFFF ∷ length argv ∷ (esp + 12) ∷ (places ++ (0 ∷ []))))
                      pgdir esp ustack n)
                  (omega (arith, l))
                ∙ ap (λ ws. copyout (filled ws) pgdir esp ustack ((3 + length places + 1) * 4))
                    words
                ∙ e,
          )
    ]

    copied :
        (o : Outcome (Bool × Kmem))
        → copyout (filled (ustack_words last places)) pgdir esp ustack ((3 + length places + 1) * 4)
          ≡ o
        → Frames fuel ustack pgdir argv sz m (elim o as (λ _. Run (Option ℕ × Machine)) [
          | panic ↦ panics
          | ret (ok, k) ↦ done (if ok then some esp else none, record m1 { kmem = k })
        ])
    copied panic e = tt
    copied (ret (false, k)) e = tt
    copied (ret (true, k)) e = (places, last, m1, l, b, x, fits k e)

-- What exec puts on the stack of a new program whose memory ends at `sz`. If all the copies succeed,
-- there are at most 32 arguments. Their strings, with their null bytes, lie one below the other and
-- do not overlap; below them, at a stack pointer that is a multiple of 4, stand the return address,
-- the number of arguments, the address of the array that follows, the addresses of the strings in
-- order, and a null, and these words end where the lowest string begins. The exception is that a
-- string or these words are larger than all the memory below the place where they begin.
pub push_all-Frames :
    (fuel ustack pgdir : ℕ) (argv : List ℕ) (sz : ℕ) (m : Machine)
    → sz % 4 ≡ 0
    → sz < 2 ^ 32
    → Frames fuel ustack pgdir argv sz m (push_all fuel ustack pgdir argv sz m)
unfolding push_all
push_all-Frames fuel ustack pgdir argv sz m al h =
    framed (push_args fuel pgdir argv sz [] m)
      (push_args-Answers fuel pgdir argv sz [] m al h (omega arith))
  where
    framed :
        (r : Run (Option (ℕ × List ℕ) × Machine))
        → Answers fuel pgdir m argv sz [] r
        → Frames fuel ustack pgdir argv sz m (elim r as (λ _. Run (Option ℕ × Machine)) [
          | done (o, m1) ↦
              (elim o as (λ _. Machine → Run (Option ℕ × Machine)) [
                | none ↦ (λ m2. done (none, m2))
                | some x ↦ push_ustack ustack pgdir x.0 x.1
              ])
                m1
          | panics ↦ panics
          | waits ↦ waits
        ])
    framed panics a = tt
    framed waits a = tt
    framed (done (none, m1)) a = tt
    framed (done (some (last, places), m1)) (new, q, l, b, al', h', x) =
        push_ustack-Frames fuel ustack pgdir argv sz m m1 last places (ap length q ∙ l) b al' h'
          (subst (λ ps. Pushes fuel pgdir m argv sz ps last m1) (sym q) x)
