-- ===== src/Exec.antt =====
-- exec.c past the loading of Elf: the stack of the new program, and the change to it. Memory below
-- KERNBASE is that of the calling process, as its page table shows it, and is only read here: the
-- strings of argv lie there. `sz` of the process bounds them, since fetchstr has found their ends
-- below it. begin_op and end_op are Log's, and switchuvm loads registers.
pub mod Arguments
pub mod Stack
mod Tests
use pcs_ii.Base.{
  ℕ, zero, suc, ◌+◌, ◌-◌, ◌*◌, ◌/◌, ◌%◌, ◌^◌, Bool, true, false, not, ◌||◌, List, [], ◌∷◌, ◌++◌,
  Option, none, some, length, get_or, ltb, leb, ◌==◌, if◌then◌else◌,
}
use pcs_ii.Base.Outcome.{Outcome, ret, panic}
use pcs_ii.Memory.{Memory, store, store_word, strlen}
use pcs_ii.Mmu.{p2v, pg_round_up, pte_addr}
use pcs_ii.Kalloc.{Kmem, load_word}
use pcs_ii.Vm.{Linker, pgsize, walkpgdir, allocuvm, freevm, setupkvm, clearpteu, copyout}
use pcs_ii.Inode.{Run, done, panics, waits, State, M, word_at, ilock}
use pcs_ii.Content.{Devsw, readi, iunlockput}
use pcs_ii.Namei.{namei}
use pcs_ii.Proc.{Proc}
use pcs_ii.Lifecycle.{copy_name}
use pcs_ii.Elf.{
  Machine, X, pure, fail, ◌>>=◌, ◌>>◌, on_fs, on_mem, on_kmem, memory, set_memory, grow, load_image,
}

unfoldable pub store_words : Memory → ℕ → List ℕ → Memory
store_words m a [] = m
store_words m a (w ∷ ws) = store_words (store_word m a w) (a + 4) ws

-- (sp - (strlen(arg) + 1)) & ~3
abbrev pub arg_place : ℕ → ℕ → ℕ
arg_place sp n = (sp + 2 ^ 32 - (n + 1)) % 2 ^ 32 / 4 * 4

-- One string of argv: its place, or `none` where copyout fails.
unfoldable pub push_arg : ℕ → ℕ → ℕ → ℕ → X (Option ℕ)
unfolding strlen copyout
push_arg fuel pgdir a sp m = elim (strlen fuel m.kmem.mem a) [
  | none ↦ panics
  | some n ↦ elim (copyout m.kmem pgdir (arg_place sp n) a (n + 1)) [
    | panic ↦ panics
    | ret (ok, k) ↦ done (if ok then some (arg_place sp n) else none, record m { kmem = k })
  ]
]

-- The loop over argv; `places` are the addresses of the strings that are pushed. MAXARG is 32.
unfoldable pub push_args : ℕ → ℕ → List ℕ → ℕ → List ℕ → X (Option (ℕ × List ℕ))
unfolding push_arg
push_args fuel pgdir [] sp places = pure (some (sp, places))
push_args fuel pgdir (a ∷ argv) sp places =
    let round : X (Option (ℕ × List ℕ)) = (do
      r ← push_arg fuel pgdir a sp
      (elim r [ none ↦ pure none | some p ↦ push_args fuel pgdir argv p (places ++ (p ∷ [])) ])) in
    if leb 32 (length places) then pure none else round

-- What stands in ustack, and where it goes.
abbrev pub ustack_words : ℕ → List ℕ → List ℕ
ustack_words sp places =
    0xFFFFFFFF
    ∷ length places
    ∷ (sp + 2 ^ 32 - (length places + 1) * 4) % 2 ^ 32
    ∷ (places ++ (0 ∷ []))

abbrev pub ustack_place : ℕ → List ℕ → ℕ
ustack_place sp places = (sp + 2 ^ 32 - (3 + length places + 1) * 4) % 2 ^ 32

-- ustack, which is at the address `ustack` of the kernel stack, goes to the user stack.
unfoldable pub push_ustack : ℕ → ℕ → ℕ → List ℕ → X (Option ℕ)
unfolding store_words copyout
push_ustack ustack pgdir sp places m =
    let filled = record (m.kmem) { mem = store_words m.kmem.mem ustack (ustack_words sp places) } in
    let esp = ustack_place sp places in
    elim (copyout filled pgdir esp ustack ((3 + length places + 1) * 4)) [
      | panic ↦ panics
      | ret (ok, k) ↦ done (if ok then some esp else none, record m { kmem = k })
    ]

unfoldable pub push_all : ℕ → ℕ → ℕ → List ℕ → ℕ → X (Option ℕ)
unfolding push_args push_ustack
push_all fuel ustack pgdir argv sz = do
  r ← push_args fuel pgdir argv sz []
  (elim r [ none ↦ pure none | some (sp, places) ↦ push_ustack ustack pgdir sp places ])

-- From the two pages at the next page boundary on: the size and the stack pointer.
unfoldable pub build_stack : Linker → ℕ → ℕ → ℕ → List ℕ → ℕ → X (Option (ℕ × ℕ))
unfolding allocuvm clearpteu push_all
build_stack l fuel ustack pgdir argv sz = do
  sz' ← grow l pgdir (pg_round_up sz) ((pg_round_up sz + 2 * pgsize) % 2 ^ 32)
  (if sz' == 0 then pure none else (do
    on_kmem (λ k. clearpteu k pgdir (sz' - 2 * pgsize))
    r ← push_all fuel ustack pgdir argv sz'
    pure (elim r [ none ↦ none | some sp ↦ some (sz', sp) ])))

-- What follows the last slash.
unfoldable pub last_part : List ℕ → List ℕ → List ℕ
last_part [] last = last
last_part (c ∷ cs) last = last_part cs (if c == b'/' then cs else last)

-- The new image: tf->eip and tf->esp are `eip` and `esp`.
pub record Image : Type 0 where
  pub proc : Proc
  pub eip : ℕ
  pub esp : ℕ

unfoldable pub commit_image : Proc → List ℕ → ℕ → ℕ → ℕ → ℕ → Image
unfolding last_part copy_name
commit_image p path pgdir sz entry sp = record {
  proc = record p { name = copy_name p.name (last_part path path); pgdir = pgdir; sz = sz };
  eip = entry;
  esp = sp;
}

abbrev pub drop_pgdir : Linker → ℕ → X (Unit {0})
unfolding freevm
drop_pgdir l pgdir = if pgdir == 0 then pure tt else on_kmem (λ k. freevm l k pgdir)

-- exec by the process `p`; `none` is the return of -1.
unfoldable pub exec : Devsw → Linker → Proc → ℕ → List ℕ → List ℕ → X (Option Image)
unfolding namei ilock load_image iunlockput build_stack commit_image freevm
exec dv l p ustack path argv = do
  found ← on_fs (namei dv path)
  (elim found [
    | none ↦ pure none
    | some i ↦ (do
      on_fs (ilock i)
      r ← load_image dv l i
      (elim (r.1) [
        | none ↦ (do drop_pgdir l r.0; on_fs (iunlockput i); pure none)
        | some (sz, entry) ↦ (do
          on_fs (iunlockput i)
          q ← build_stack l p.sz ustack r.0 argv sz
          (elim q [
            | none ↦ (do drop_pgdir l r.0; pure none)
            | some (sz', sp) ↦ (do
              on_kmem (λ k. freevm l k p.pgdir)
              pure (some (commit_image p path r.0 sz' entry sp)))
          ]))
      ]))
  ])
