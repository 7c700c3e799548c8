-- ===== src/Elf.antt =====
-- The first half of exec.c, with elf.h and loaduvm of vm.c: the program is loaded from its file. The
-- state of exec is the disk with the cache of its inodes, and the memory.
use pcs_ii.Base.{
  ℕ, zero, suc, ◌+◌, ◌-◌, ◌/◌, ◌%◌, ◌^◌, Bool, true, false, not, ◌||◌, List, [], ◌∷◌, Option, none,
  some, length, get_or, ltb, ◌==◌, if◌then◌else◌,
}
use pcs_ii.Base.Outcome.{Outcome, ret, panic}
use pcs_ii.Memory.{Memory, store}
use pcs_ii.Mmu.{p2v, pte_addr}
use pcs_ii.Kalloc.{Kmem, load_word}
use pcs_ii.Vm.{Linker, pgsize, walkpgdir, allocuvm, setupkvm}
use pcs_ii.Inode.{Run, done, panics, waits, State, M, word_at}
use pcs_ii.Content.{Devsw, readi}

-- The disk with the cache of its inodes, and the memory.
pub record Machine : Type 0 where
  pub fs : State
  pub kmem : Kmem

abbrev pub X : Type 0 → Type 0
X A = Machine → Run (A × Machine)

abbrev pub pure : {A : Type 0} → A → X A
pure a m = done (a, m)

abbrev pub fail : {A : Type 0} → X A
fail m = panics

infixl 5 ◌>>=◌ ◌>>◌
abbrev pub ◌>>=◌ : {A B : Type 0} → X A → (A → X B) → X B
◌>>=◌ x f m = elim (x m) [ done (a, m') ↦ f a m' | panics ↦ panics | waits ↦ waits ]

abbrev pub ◌>>◌ : {B : Type 0} → X (Unit {0}) → X B → X B
x >> y = x >>= λ _. y

abbrev pub on_fs : {A : Type 0} → M A → X A
on_fs f m = elim (f m.fs) [
  | done (a, s) ↦ done (a, record m { fs = s })
  | panics ↦ panics
  | waits ↦ waits
]

abbrev pub on_mem : {A : Type 0} → (Kmem → Outcome (A × Kmem)) → X A
on_mem f m = elim (f m.kmem) [ ret (a, k) ↦ done (a, record m { kmem = k }) | panic ↦ panics ]

abbrev pub on_kmem : (Kmem → Outcome Kmem) → X (Unit {0})
on_kmem f m = elim (f m.kmem) [ ret k ↦ done (tt, record m { kmem = k }) | panic ↦ panics ]

abbrev pub memory : X Memory
memory m = done (m.kmem.mem, m)

abbrev pub set_memory : Memory → X (Unit {0})
set_memory bytes m = done (tt, record m { kmem = record (m.kmem) { mem = bytes } })

unfoldable pub store_bytes : Memory → ℕ → List ℕ → Memory
store_bytes m a [] = m
store_bytes m a (b ∷ bs) = store_bytes (store m a b) (a + 1) bs

-- readi(...) != n
abbrev pub is_short : ℕ → Option (List ℕ) → Bool
is_short n none = true
is_short n (some bs) = not (length bs == n)

abbrev pub bytes_of : Option (List ℕ) → List ℕ
bytes_of none = []
bytes_of (some bs) = bs

-- The number in `n` bytes from an offset on, and the fields of struct elfhdr and struct proghdr.
abbrev pub field : ℕ → ℕ → List ℕ → ℕ
field n off bs = word_at n (λ j. get_or bs j 0) off

pub record Elfhdr : Type 0 where
  pub magic : ℕ
  pub entry : ℕ
  pub phoff : ℕ
  pub phnum : ℕ

unfoldable pub elfhdr : List ℕ → Elfhdr
unfolding word_at
elfhdr bs = record {
  magic = field 4 0 bs;
  entry = field 4 24 bs;
  phoff = field 4 28 bs;
  phnum = field 2 44 bs;
}

pub record Proghdr : Type 0 where
  pub kind : ℕ
  pub off : ℕ
  pub vaddr : ℕ
  pub filesz : ℕ
  pub memsz : ℕ

unfoldable pub proghdr : List ℕ → Proghdr
unfolding word_at
proghdr bs = record {
  kind = field 4 0 bs;
  off = field 4 4 bs;
  vaddr = field 4 8 bs;
  filesz = field 4 16 bs;
  memsz = field 4 20 bs;
}

-- The loop of loaduvm from the byte `at` on, with fuel for its rounds. False is the return of -1.
unfoldable pub load_from : ℕ → Devsw → ℕ → ℕ → ℕ → ℕ → ℕ → ℕ → X Bool
unfolding walkpgdir readi store_bytes
load_from zero dv pgdir addr i offset at sz = pure true
load_from (suc f) dv pgdir addr i offset at sz =
    let n = if ltb (sz - at) pgsize then sz - at else pgsize in
    let round : X Bool = (do
      pte ← on_mem (λ k. ret (walkpgdir k pgdir ((addr + at) % 2 ^ 32) false))
      mem ← memory
      (if pte == 0 then fail else (do
        r ← on_fs (readi dv i ((offset + at) % 2 ^ 32) n)
        set_memory (store_bytes mem (p2v (pte_addr (load_word mem pte))) (bytes_of r))
        (if is_short n r
            then pure false
            else load_from f dv pgdir addr i offset ((at + pgsize) % 2 ^ 32) sz)))) in
    if ltb at sz then round else pure true

unfoldable pub loaduvm : Devsw → ℕ → ℕ → ℕ → ℕ → ℕ → X Bool
unfolding load_from
loaduvm dv pgdir addr i offset sz =
    if addr % pgsize == 0 then load_from (suc (sz / pgsize)) dv pgdir addr i offset 0 sz else fail

-- allocuvm, where 0 is a failure.
abbrev pub grow : Linker → ℕ → ℕ → ℕ → X ℕ
unfolding allocuvm
grow l pgdir sz newsz = on_mem (λ k. allocuvm l k pgdir sz newsz)

-- One program header; `none` is the jump to the label bad.
unfoldable pub load_segment : Devsw → Linker → ℕ → ℕ → ℕ → Proghdr → X (Option ℕ)
unfolding allocuvm loaduvm
load_segment dv l pgdir i sz ph =
    let end = (ph.vaddr + ph.memsz) % 2 ^ 32 in
    let load : X (Option ℕ) = (do
      sz' ← grow l pgdir sz end
      (if sz' == 0 || not (ph.vaddr % pgsize == 0) then pure none else (do
        ok ← loaduvm dv pgdir ph.vaddr i ph.off ph.filesz
        pure (if ok then some sz' else none)))) in
    if not (ph.kind == 1)
    then pure (some sz)
    else if ltb ph.memsz ph.filesz
    then pure none
    else if ltb end ph.vaddr
    then pure none
    else load

-- The loop over the `n` program headers from the offset `off` on, of 32 bytes each.
unfoldable pub load_segments : ℕ → Devsw → Linker → ℕ → ℕ → ℕ → ℕ → X (Option ℕ)
unfolding readi proghdr load_segment
load_segments zero dv l pgdir i off sz = pure (some sz)
load_segments (suc n) dv l pgdir i off sz = do
  r ← on_fs (readi dv i off 32)
  (if is_short 32 r then pure none else (do
    q ← load_segment dv l pgdir i sz (proghdr (bytes_of r))
    (elim q [
      | none ↦ pure none
      | some sz' ↦ load_segments n dv l pgdir i ((off + 32) % 2 ^ 32) sz'
    ])))

-- Up to the iunlockput: the page directory, 0 where there is none yet, and the size and the entry
-- point unless something is bad.
unfoldable pub load_image : Devsw → Linker → ℕ → X (ℕ × Option (ℕ × ℕ))
unfolding readi elfhdr setupkvm load_segments
load_image dv l i = do
  r ← on_fs (readi dv i 0 52)
  (let elf = elfhdr (bytes_of r) in
      if is_short 52 r || not (elf.magic == 0x464C457F) then pure (0, none) else (do
        pgdir ← on_mem (setupkvm l)
        (if pgdir == 0 then pure (0, none) else (do
          q ← load_segments elf.phnum dv l pgdir i elf.phoff 0
          pure (pgdir, elim q [ none ↦ none | some sz ↦ some (sz, elf.entry) ])))))
