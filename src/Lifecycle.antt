-- ===== src/Lifecycle.antt =====
-- fork and exit of proc.c, over the process table, the open files and the working directories. The
-- registers of the trap frame are not in this state.
pub mod Copies
pub mod Forking
pub mod Leaving
mod Tests
use pcs_ii.Base.{
  ℕ, zero, suc, ◌+◌, ◌-◌, Bool, true, false, List, [], ◌∷◌, ◌++◌, Option, none, some, get_elem?,
  get_or, set, modify, ltb, ◌==◌, if◌then◌else◌,
}
use pcs_ii.Base.Outcome.{Outcome, ret, panic, ◌>>=◌}
use pcs_ii.Memory.{Memory, safestrcpy}
use pcs_ii.Kalloc.{kfree}
use pcs_ii.Vm.{Linker, copyuvm}
use pcs_ii.Proc.{Proc, Kernel, runnable, as_unused, allocproc, parent_is, exit_locked}
use pcs_ii.File.{File, Files, filedup, ofile_of, sys_close, Closing, nothing, put_inode}
use pcs_ii.Inode.{Inode, one_more}
use pcs_ii.Content.{slice}

-- np->ofile[i] = filedup(curproc->ofile[i]) for every descriptor that is open.
unfoldable pub dup_all : List File → List (Option ℕ) → Outcome (List File)
unfolding filedup
dup_all table [] = ret table
dup_all table (none ∷ os) = dup_all table os
dup_all table (some i ∷ os) = filedup table i >>= λ t. dup_all t os

unfoldable pub copy_ofile : List (Option ℕ) → List (Option ℕ) → List (Option ℕ)
copy_ofile [] child = child
copy_ofile (o ∷ os) [] = []
copy_ofile (none ∷ os) (c ∷ cs) = c ∷ copy_ofile os cs
copy_ofile (some i ∷ os) (c ∷ cs) = some i ∷ copy_ofile os cs

-- safestrcpy of a name of 16 bytes.
unfoldable pub copy_name : List ℕ → List ℕ → List ℕ
unfolding safestrcpy slice
copy_name to from =
    slice (safestrcpy (λ a. if ltb a 16 then get_or to a 0 else get_or from (a - 16) 0) 0 16 16) 0
      16

abbrev pub as_child : Proc → ℕ → ℕ → Proc → Proc
as_child p cur pgdir np = record np {
  pgdir = pgdir;
  sz = p.sz;
  parent = some cur;
  name = copy_name np.name p.name;
  state = runnable;
}

-- The cache of inodes, and the working directory of each process.
pub record Dirs : Type 0 where
  pub cache : List Inode
  pub cwds : List ℕ

-- np->cwd = idup(curproc->cwd);
abbrev pub share_cwd : Dirs → ℕ → ℕ → Dirs
share_cwd ds cur n =
    let cwd = get_or ds.cwds cur 0 in
    record { cache = modify ds.cache cwd one_more; cwds = set ds.cwds n cwd }

-- fork past allocproc, which gave slot `n` with `np`; `p` is the process that forks.
unfoldable pub fork_into :
    Linker
    → Kernel
    → Files
    → Dirs
    → ℕ
    → Proc
    → ℕ
    → Proc
    → Outcome (Option ℕ × Kernel × Files × Dirs)
unfolding copyuvm kfree dup_all copy_ofile copy_name
fork_into l k fs ds cur p n np = copyuvm l k.kmem p.pgdir p.sz >>= λ r.
    if r.0 == 0
    then (kfree l.end r.1 np.kstack >>= λ m.
        ret (none, record k { procs = modify k.procs n as_unused; kmem = m }, fs, ds))
    else (dup_all fs.table (ofile_of fs cur) >>= λ table. ret (
      some np.pid,
      record k { procs = modify k.procs n (as_child p cur r.0); kmem = r.1 },
      record {
        table = table;
        ofiles = set fs.ofiles n (copy_ofile (ofile_of fs cur) (ofile_of fs n));
      },
      share_cwd ds cur n,
    ))

-- fork with the slot that allocproc gave, or none.
unfoldable pub fork_from :
    Linker → Kernel → Files → Dirs → ℕ → Option ℕ → Outcome (Option ℕ × Kernel × Files × Dirs)
unfolding fork_into
fork_from l k fs ds cur none = ret (none, k, fs, ds)
fork_from l k fs ds cur (some n) = elim (get_elem? k.procs cur) [
  | none ↦ panic
  | some p ↦ elim (get_elem? k.procs n) [ none ↦ panic | some np ↦ fork_into l k fs ds cur p n np ]
]

-- The pid of the child, or `none` for -1.
unfoldable pub fork :
    Linker → Kernel → Files → Dirs → ℕ → Outcome (Option ℕ × Kernel × Files × Dirs)
unfolding allocproc fork_from
fork l k fs ds cur = let r = allocproc l k in fork_from l r.1 fs ds cur r.0

-- What fileclose leaves to the pipe or the inode.
abbrev pub closings : Option Closing → List Closing
closings none = []
closings (some nothing) = []
closings (some c) = c ∷ []

-- The loop of exit over the `n` descriptors from `fd` on, each as in sys_close, with the closings that
-- are left to pipes and inodes.
unfoldable pub close_all : ℕ → Files → ℕ → ℕ → Outcome (List Closing × Files)
unfolding sys_close
close_all zero fs p fd = ret ([], fs)
close_all (suc n) fs p fd =
    sys_close fs p fd >>= λ r. close_all n r.1 p (fd + 1) >>= λ q. ret (closings r.0 ++ q.0, q.1)

-- exit of the process `cur` with its 16 descriptors, up to the switch to the scheduler. The iput of its
-- working directory is the last of the closings.
unfoldable pub exit :
    Kernel → Files → Dirs → ℕ → ℕ → Option ℕ → Outcome (List Closing × Kernel × Files)
unfolding close_all exit_locked
exit k fs ds nproc cur parent =
    if parent_is k.initproc cur
    then panic
    else (close_all 16 fs cur 0 >>= λ r. ret (
      r.0 ++ (put_inode (get_or ds.cwds cur 0) ∷ []),
      record k { procs = exit_locked nproc k.procs cur parent k.initproc },
      r.1,
    ))
