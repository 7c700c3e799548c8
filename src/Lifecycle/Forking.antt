-- ===== src/Lifecycle/Forking.antt =====
-- fork and exit keep the reference counts of files.
use pcs_ii.Base.{
  ℕ, ◌≡◌, ◌≢◌, refl, ap, ◌∙◌, sym, Bool-cases, inl, inr, ◌⊎◌, List, Option, none, some, get_elem?,
  get_elem?-modify_self, get_or, get_elem?-set_known, set, modify, length, ◌==◌, ==_iff,
}
use pcs_ii.Base.Outcome.{Outcome, ret, panic, ◌>>=◌}
use pcs_ii.File.{Files, ofile_of}
use pcs_ii.File.Refs.{IsCounted}
use pcs_ii.Kalloc.{Kmem, kfree}
use pcs_ii.Vm.{Linker, copyuvm}
use pcs_ii.Proc.{Proc, Kernel, runnable, running, unused, allocproc, as_unused}
use pcs_ii.Proc.Table.{allocproc_slot}
use pcs_ii.Inode.{one_more}
use pcs_ii.Lifecycle.{Dirs, as_child, fork_into, fork_from, fork}
use pcs_ii.Lifecycle.Copies.{
  dup_all-Raised, All-IsOpen, IsClosed, copy_ofile-eq, ofile_of-le, copied-IsCounted,
}

-- Copying the memory of the parent panics, or the release of the kernel stack after it failed does.
abbrev pub CopyPanics : Linker → Kernel → Proc → Proc → Type 0
CopyPanics l k p np =
    (copyuvm l k.kmem p.pgdir p.sz ≡ panic)
    ⊎ ((mem : Kmem) × (copyuvm l k.kmem p.pgdir p.sz ≡ ret (0, mem))
        × (kfree l.end mem np.kstack ≡ panic))

-- What fork leaves of the files: nothing is changed where it fails; otherwise the slot of the child
-- has the descriptors of the parent, and the counts agree.
-- It panics only where `P` holds.
abbrev pub Forks : Type 0 → Files → Dirs → ℕ → Outcome (Option ℕ × Kernel × Files × Dirs) → Type 0
Forks P fs ds cur panic = P
Forks P fs ds cur (ret (none, k, fs', ds')) = (fs' ≡ fs) × (ds' ≡ ds)
Forks P fs ds cur (ret (some pid, k, fs', ds')) =
    IsCounted fs'
    × (ds'.cache ≡ modify ds.cache (get_or ds.cwds cur 0) one_more)
    × ((n : ℕ) × (np : Proc) × (get_elem? k.procs n ≡ some np)
        × (np.pid ≡ pid)
        × (np.state ≡ runnable)
        × (np.parent ≡ some cur)
        × (get_elem? fs'.ofiles n ≡ some (ofile_of fs cur)))

fork_into-Forks :
    (l : Linker) (k : Kernel) (fs : Files) (ds : Dirs) (cur : ℕ) (p : Proc) (n : ℕ) (np : Proc)
    (child : List (Option ℕ)) (P : Type 0)
    → (CopyPanics l k p np → P)
    → IsCounted fs
    → get_elem? k.procs n ≡ some np
    → get_elem? fs.ofiles n ≡ some child
    → IsClosed child
    → length child ≡ length (ofile_of fs cur)
    → Forks P fs ds cur (fork_into l k fs ds cur p n np)
unfolding fork_into
fork_into-Forks l k fs ds cur p n np child P g c a e h m =
    copied (copyuvm l k.kmem p.pgdir p.sz) refl
  where
    here : ofile_of fs n ≡ child
    here = rw (e, ofile_of) refl

    freed :
        (o : Outcome Kmem)
        → (o ≡ panic → P)
        → Forks P fs ds cur (
            o >>= λ m.
            ret (none, record k { procs = modify k.procs n as_unused; kmem = m }, fs, ds))
    freed panic f = f refl
    freed (ret m) f = (refl, refl)

    copied :
        (o : Outcome (ℕ × Kmem))
        → copyuvm l k.kmem p.pgdir p.sz ≡ o
        → Forks P fs ds cur (fork_into l k fs ds cur p n np)
    copied panic x = rw (x, ◌>>=◌) (g (inl x))
    copied (ret (pgdir, mem)) x = elim (Bool-cases (pgdir == 0)) [
      | inl z ↦
          rw (x, ◌>>=◌, z)
            (freed (kfree l.end mem np.kstack)
              (λ y. g (inr (mem, x ∙ ap (λ (i : ℕ). ret (i, mem)) ((==_iff pgdir 0).0 z), y))))
      | inr z ↦
          let (table, d, r) =
            dup_all-Raised (ofile_of fs cur) fs.table
              (All-IsOpen fs (ofile_of fs cur) c (ofile_of-le fs cur)) in
          rw (x, ◌>>=◌, z, d, here)
            (
              copied-IsCounted fs cur n child table c r e h m,
              refl,
              (
                n,
                as_child p cur pgdir np,
                get_elem?-modify_self k.procs n (as_child p cur pgdir) a,
                refl,
                refl,
                refl,
                ap (λ os. get_elem? (set fs.ofiles n os) n)
                      (copy_ofile-eq (ofile_of fs cur) child h m)
                    ∙ get_elem?-set_known fs.ofiles n child (ofile_of fs cur) e,
              ),
            )
    ]

-- An UNUSED slot has as many descriptors as the process `cur`, and none of them is open.
abbrev pub AreClosed : Kernel → Files → ℕ → Type 0
AreClosed k fs cur =
    (n : ℕ) (p : Proc)
    → get_elem? k.procs n ≡ some p
    → p.state ≡ unused
    → (os : List (Option ℕ)) × (get_elem? fs.ofiles n ≡ some os)
      × IsClosed os
      × (length os ≡ length (ofile_of fs cur))

pub record ForkPanics (l : Linker) (k : Kernel) (p : Proc) : Type 0 where
  slot : ℕ
  kernel : Kernel
  child : Proc
  allocated : allocproc l k ≡ (some slot, kernel)
  in_slot : get_elem? kernel.procs slot ≡ some child
  copy : CopyPanics l kernel p child

-- If each count is the number of descriptors that refer to the file, and no descriptor of a slot
-- that is UNUSED is open, then fork of a running process either fails and changes no file, no
-- descriptor and no directory, or gives the pid of a RUNNABLE child of the process with the same
-- descriptors: the counts are again the numbers of descriptors, and the reference count of the working directory is
-- one more. It panics only if the copy of the memory panics, or the release of the child's
-- kernel stack after that copy failed.
pub fork-Forks :
    (l : Linker) (k : Kernel) (fs : Files) (ds : Dirs) (cur : ℕ) (p : Proc)
    → IsCounted fs
    → get_elem? k.procs cur ≡ some p
    → p.state ≡ running
    → AreClosed k fs cur
    → Forks (ForkPanics l k p) fs ds cur (fork l k fs ds cur)
unfolding fork fork_from
fork-Forks l k fs ds cur p c here runs free = made (allocproc l k) refl
  where
    made :
        (r : Option ℕ × Kernel)
        → allocproc l k ≡ r
        → Forks (ForkPanics l k p) fs ds cur (fork l k fs ds cur)
    made (none, k1) e = rw (e, fork) (refl, refl)
    made (some n, k1) e =
        let (q, a, u, _, b, other) = allocproc_slot l k k1 n e in
        let (os, d, h, m) = free n q a u in
        let apart : n ≢ cur = λ same.
          let eq : some q ≡ some p = sym a ∙ ap (get_elem? k.procs) same ∙ here in
          let clash : unused ≡ running =
            sym u
            ∙ ap (λ (o : Option Proc). elim o [ none ↦ unused | some x ↦ x.state ]) eq
            ∙ runs in
          cc in
        rw (e, fork)
          (rw (other cur apart, here, fork_from)
            (rw (b, fork_from)
              (fork_into-Forks l k1 fs ds cur p n _ os (ForkPanics l k p)
                (λ x. record {
                  slot = n;
                  kernel = k1;
                  child = _;
                  allocated = e;
                  in_slot = b;
                  copy = x;
                })
                c b d h m)))
