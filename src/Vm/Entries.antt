-- ===== src/Vm/Entries.antt =====
-- sys_getptentries counts the mapped pages of the process: its loop ends, and against the list of
-- the pages below sz.
use pcs_ii.Base.{
  ==_iff, ℕ, zero, suc, ◌+◌, ◌-◌, ◌*◌, ◌/◌, ◌%◌, ◌^◌, ◌≤◌, ◌<◌, ◌≡◌, refl, ap, subst, ◌∙◌, true,
  Bool-cases, inl, inr, ◌↔◌, some, arith, ◌==◌, if◌then◌else◌, lt→ltb,
}
use pcs_ii.Memory.{Memory}
use pcs_ii.Kalloc.{load_word}
use pcs_ii.Mmu.{kernbase}
use pcs_ii.Vm.{pgsize, is_mapped, count_from, sys_getptentries, sys_getvpages}

-- Page `j` as the hardware finds it: the entry of the directory is present, and so is the entry for
-- the page in the table that it points to. A table at a physical address is read at KERNBASE above it.
abbrev pub directory_entry : Memory → ℕ → ℕ → ℕ
directory_entry m pgdir j = load_word m (pgdir + 4 * (j / 1024))

abbrev pub table_entry : Memory → ℕ → ℕ → ℕ
table_entry m pgdir j =
    let pde = directory_entry m pgdir j in
    load_word m ((pde - pde % 4096 + kernbase) % 2 ^ 32 + 4 * (j % 1024))

abbrev pub IsMapped : Memory → ℕ → ℕ → Type 0
IsMapped m pgdir j = (directory_entry m pgdir j % 2 ≡ 1) × (table_entry m pgdir j % 2 ≡ 1)

-- Exactly `c` of the `n` numbers from `i` on satisfy `P`.
pub data HowMany (P : ℕ → Type 0) : ℕ → ℕ → ℕ → Type 0 where
  stop : (i : ℕ) → HowMany P i zero zero
  counted : (i n c : ℕ) → P i → HowMany P (i + 1) n c → HowMany P i (suc n) (suc c)
  passed : (i n c : ℕ) → ¬ P i → HowMany P (i + 1) n c → HowMany P i (suc n) c

is_mapped-IsMapped :
    (m : Memory) (pgdir j : ℕ)
    → j < 2 ^ 19
    → (is_mapped m pgdir (j * pgsize) ≡ true) ↔ IsMapped m pgdir j
unfolding is_mapped
is_mapped-IsMapped m pgdir j l =
    let dir : j * pgsize / 2 ^ 22 % 1024 ≡ j / 1024 = omega arith in
    let tab : j * pgsize / 2 ^ 12 % 1024 ≡ j % 1024 = omega arith in
    let base : (pde : ℕ) → pde / 4096 * 4096 ≡ pde - pde % 4096 = λ pde. omega arith in
    rw (dir, tab, base (directory_entry m pgdir j)) (ground arith)

-- How many of the `n` pages from page `i` on are mapped.
abbrev pub mapped_pages : Memory → ℕ → ℕ → ℕ → ℕ
mapped_pages m pgdir i zero = 0
mapped_pages m pgdir i (suc n) =
    (if is_mapped m pgdir (i * pgsize) then 1 else 0) + mapped_pages m pgdir (i + 1) n

pub mapped_pages-le : (m : Memory) (pgdir i n : ℕ) → mapped_pages m pgdir i n ≤ n
mapped_pages-le m pgdir i zero = omega arith
mapped_pages-le m pgdir i (suc n) = ground (arith, mapped_pages-le m pgdir (i + 1) n)

-- A count as high as the number of pages means that every page is mapped.
pub mapped_pages_full :
    (m : Memory) (pgdir i n : ℕ)
    → mapped_pages m pgdir i n ≡ n
    → (j : ℕ) → i ≤ j
    → j < i + n
    → is_mapped m pgdir (j * pgsize) ≡ true
mapped_pages_full m pgdir i zero e j a b = absurd (omega arith)
mapped_pages_full m pgdir i (suc n) e j a b = elim (Bool-cases (is_mapped m pgdir (i * pgsize))) [
  | inl t ↦ elim (Bool-cases (j == i)) [
    | inl s ↦ rw ((==_iff j i).0 s) t
    | inr s ↦ mapped_pages_full m pgdir (i + 1) n (ground arith) j (ground arith) (omega arith)
  ]
  | inr t ↦ absurd (ground (arith, mapped_pages-le m pgdir (i + 1) n))
]

mapped_pages_all :
    (m : Memory) (pgdir i n : ℕ)
    → ((j : ℕ) → i ≤ j → j < i + n → is_mapped m pgdir (j * pgsize) ≡ true)
    → mapped_pages m pgdir i n ≡ n
mapped_pages_all m pgdir i zero h = refl
mapped_pages_all m pgdir i (suc n) h =
    rw
      (
        h i (omega arith) (omega arith),
        mapped_pages_all m pgdir (i + 1) n (λ j a b. h j (omega arith) (omega arith)),
      )
      (omega arith)

count_from-eq :
    (f n i : ℕ) (m : Memory) (pgdir sz count : ℕ)
    → n < f
    → sz < kernbase
    → sz ≤ (i + n) * pgsize
    → (i + n) * pgsize < sz + pgsize
    → count_from f m pgdir sz (i * pgsize) count ≡ some (count + mapped_pages m pgdir i n)
unfolding count_from
count_from-eq zero n i m pgdir sz count h s a b = absurd (omega arith)
count_from-eq (suc f) zero i m pgdir sz count h s a b = ground arith
count_from-eq (suc f) (suc n) i m pgdir sz count h s a b =
    rw (next, lt→ltb (i * pgsize) sz (omega arith))
      (count_from-eq f n (i + 1) m pgdir sz
          (if is_mapped m pgdir (i * pgsize) then count + 1 else count) (omega arith) s
          (omega arith) (omega arith)
        ∙ ap some (ground arith))
  where
    next : (i * pgsize + pgsize) % 2 ^ 32 ≡ (i + 1) * pgsize
    next = omega arith

-- The loop ends, with the count of the rounds that found a mapped page.
sys_getptentries-mapped_pages :
    (f : ℕ) (m : Memory) (pgdir sz : ℕ)
    → sz < kernbase
    → sys_getvpages sz < f
    → sys_getptentries f m pgdir sz ≡ some (mapped_pages m pgdir 0 (sys_getvpages sz))
unfolding sys_getptentries sys_getvpages
sys_getptentries-mapped_pages f m pgdir sz h g =
    count_from-eq f (sys_getvpages sz) 0 m pgdir sz 0 g h (omega arith) (omega arith)
    ∙ ap some (omega arith)

mapped_pages-HowMany :
    (m : Memory) (pgdir i n : ℕ)
    → i + n ≤ 2 ^ 19
    → HowMany (IsMapped m pgdir) i n (mapped_pages m pgdir i n)
mapped_pages-HowMany m pgdir i zero l = stop i
mapped_pages-HowMany m pgdir i (suc n) l =
    let same = is_mapped-IsMapped m pgdir i (omega arith) in
    let rest = mapped_pages-HowMany m pgdir (i + 1) n (omega arith) in
    elim (Bool-cases (is_mapped m pgdir (i * pgsize))) [
      | inl x ↦ rw x (
          subst (HowMany (IsMapped m pgdir) i (suc n)) (omega arith)
            (counted i n (mapped_pages m pgdir (i + 1) n) (same.0 x) rest))
      | inr x ↦ rw x (
          subst (HowMany (IsMapped m pgdir) i (suc n)) (omega arith) (
            passed i n (mapped_pages m pgdir (i + 1) n) (λ h. absurd (ground (arith, x, same.1 h)))
              rest))
    ]

-- For a process below KERNBASE the loop of sys_getptentries ends, within one round more than
-- the process has pages, and returns how many of the pages that begin below sz are mapped:
-- those whose directory entry and whose entry in the table that this points to are both
-- present.
pub sys_getptentries-HowMany :
    (f : ℕ) (m : Memory) (pgdir sz : ℕ)
    → sz < kernbase
    → (sz + 4095) / 4096 < f
    → (c : ℕ) × (sys_getptentries f m pgdir sz ≡ some c)
      × HowMany (IsMapped m pgdir) 0 ((sz + 4095) / 4096) c
unfolding sys_getvpages
sys_getptentries-HowMany f m pgdir sz h g =
    let same : (sz + pgsize + (2 ^ 32 - 1)) % 2 ^ 32 / pgsize ≡ (sz + 4095) / 4096 = omega arith in
    (
      mapped_pages m pgdir 0 ((sz + 4095) / 4096),
      rw same at (sys_getptentries-mapped_pages f m pgdir sz h (omega arith)),
      mapped_pages-HowMany m pgdir 0 ((sz + 4095) / 4096) (omega arith),
    )

-- sys_getptentries never exceeds sys_getvpages, and equals it exactly when every page of the process
-- is mapped.
pub sys_getptentries-le :
    (f : ℕ) (m : Memory) (pgdir sz c : ℕ)
    → sz < kernbase
    → sys_getvpages sz < f
    → sys_getptentries f m pgdir sz ≡ some c
    → (c ≤ sys_getvpages sz)
      × ((c ≡ sys_getvpages sz)
          ↔ ((j : ℕ) → j < sys_getvpages sz → is_mapped m pgdir (j * pgsize) ≡ true))
sys_getptentries-le f m pgdir sz c h g e =
    let v : c ≡ mapped_pages m pgdir 0 (sys_getvpages sz) =
      ground (arith, sys_getptentries-mapped_pages f m pgdir sz) in
    (
      omega (arith, mapped_pages-le m pgdir 0 (sys_getvpages sz)),
      (
        λ q j l.
            mapped_pages_full m pgdir 0 (sys_getvpages sz) (omega arith) j (omega arith)
              (omega arith),
        λ q. v ∙ mapped_pages_all m pgdir 0 (sys_getvpages sz) (λ j a b. q j (omega arith)),
      ),
    )
