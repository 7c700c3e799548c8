-- ===== src/Userinit.antt =====
-- proc.c: userinit, the first process. The linker gives the address and the size of initcode; the
-- registers of its trap frame are left out.
use pcs_ii.Base.{ℕ, List, [], ◌∷◌, Option, none, some, modify, ◌==◌, if◌then◌else◌}
use pcs_ii.Base.Outcome.{Outcome, ret, panic, ◌>>=◌}
use pcs_ii.Kalloc.{Kmem}
use pcs_ii.Vm.{Linker, pgsize, setupkvm, inituvm}
use pcs_ii.Proc.{Proc, Kernel, runnable, allocproc}
use pcs_ii.Inode.{Run, done, panics, waits, State}
use pcs_ii.Content.{Devsw}
use pcs_ii.Namei.{namei}
use pcs_ii.Lifecycle.{copy_name}

-- "initcode"
abbrev pub initcode_name : List ℕ
initcode_name = b'i' ∷ b'n' ∷ b'i' ∷ b't' ∷ b'c' ∷ b'o' ∷ b'd' ∷ b'e' ∷ []

abbrev pub as_first : ℕ → Proc → Proc
unfolding copy_name
as_first pgdir p = record p {
  pgdir = pgdir;
  sz = pgsize;
  name = copy_name p.name initcode_name;
  state = runnable;
}

-- setupkvm and inituvm, where having no memory is a panic.
unfoldable pub first_memory : Linker → ℕ → ℕ → Kmem → Outcome (ℕ × Kmem)
unfolding setupkvm inituvm
first_memory l init size k = setupkvm l k >>= λ r.
    if r.0 == 0 then panic else (inituvm r.1 r.0 init size >>= λ k'. ret (r.0, k'))

-- The slot that allocproc found holds the first process; the last component is its p->cwd.
unfoldable pub userinit : Devsw → Linker → ℕ → ℕ → Kernel → State → Run (Kernel × State × Option ℕ)
unfolding allocproc first_memory namei
userinit dv l init size k s =
    let k1 = (allocproc l k).1 in
    elim (allocproc l k).0 [
      | none ↦ panics
      | some i ↦ elim (first_memory l init size k1.kmem) [
        | panic ↦ panics
        | ret (pgdir, m) ↦ elim (namei dv (b'/' ∷ []) s) [
          | panics ↦ panics
          | waits ↦ waits
          | done (cwd, s') ↦ done (
            record k1 { procs = modify k1.procs i (as_first pgdir); initproc = some i; kmem = m },
            s',
            cwd,
          )
        ]
      ]
    ]
