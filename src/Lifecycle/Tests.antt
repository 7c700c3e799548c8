-- ===== src/Lifecycle/Tests.antt =====
-- Runs of fork and exit: one process, which runs with one open file, and an empty slot.
use pcs_ii.Base.{
  ℕ, zero, suc, ◌≡◌, ◌<◌, refl, ◌∷◌, ◌++◌, [], none, some, arith, true, false, get_elem?, List,
}
use pcs_ii.Base.Int.{pos}
use pcs_ii.Base.Outcome.{ret}
use pcs_ii.Vm.{Linker}
use pcs_ii.Proc.{Proc, ProcState, Kernel, unused, running, null, in_sched, exit_locked}
use pcs_ii.File.{File, fd_inode, Files, Closing, put_inode}
use pcs_ii.File.Counts.{count_all}
use pcs_ii.File.Refs.{IsCounted}
use pcs_ii.Inode.{Inode}
use pcs_ii.Lifecycle.{Dirs, fork, exit}
use pcs_ii.Lifecycle.Forking.{AreClosed, ForkPanics, Forks, fork-Forks}
use pcs_ii.Lifecycle.Leaving.{IsShut, exit-IsShut}

abbrev slot : ProcState → ℕ → Proc
slot s pid = record {
  sz = 4096;
  pgdir = 2148540416;
  kstack = 2148544512;
  state = s;
  pid = pid;
  parent = some 3;
  context = in_sched;
  chan = null;
  killed = false;
  name = [];
  priority = pos 10;
}

abbrev kernel : Kernel
kernel = record {
  procs = slot running 2 ∷ slot unused 0 ∷ [];
  nextpid = 4;
  initproc = some 3;
  kmem = record { use_lock = true; freelist = 2148548608; mem = λ _. 0 };
}

abbrev opened : File
opened = record {
  kind = fd_inode;
  ref = 1;
  readable = true;
  writable = true;
  pipe = 0;
  ip = 9;
  off = 0;
}

abbrev files : Files
files = record { table = opened ∷ []; ofiles = (none ∷ some 0 ∷ []) ∷ (none ∷ none ∷ []) ∷ [] }

abbrev root : Inode
root = record {
  dev = 1;
  inum = 1;
  ref = 1;
  lock = record { locked = false; pid = 0 };
  valid = true;
  kind = 1;
  major = 0;
  minor = 0;
  nlink = 1;
  size = 0;
  addrs = [];
}

abbrev dirs : Dirs
dirs = record { cache = root ∷ []; cwds = 0 ∷ 0 ∷ [] }

files-IsCounted : IsCounted files
files-IsCounted = record { counted = counted; in_table = in_table }
  where
    counted :
        (i : ℕ) (f : File)
        → get_elem? (opened ∷ []) i ≡ some f
        → f.ref ≡ count_all i ((none ∷ some 0 ∷ []) ∷ (none ∷ none ∷ []) ∷ [])
    counted zero f h = ground arith
    counted (suc i) f h = absurd (ground arith)

    in_table :
        (i : ℕ)
        → 0 < count_all i ((none ∷ some 0 ∷ []) ∷ (none ∷ none ∷ []) ∷ [])
        → (f : File) × (get_elem? (opened ∷ []) i ≡ some f)
    in_table zero h = (opened, refl)
    in_table (suc i) h = absurd (ground arith)

kernel-AreClosed : AreClosed kernel files 0
kernel-AreClosed zero p e u = absurd (ground (arith, e, u))
kernel-AreClosed (suc zero) p e u = (none ∷ none ∷ [], refl, (refl, (refl, tt)), refl)
kernel-AreClosed (suc (suc n)) p e u = absurd (ground arith)

abbrev linker : Linker
linker = record {
  end = 2148532224;
  data_start = 2148528128;
  trapret = 2148556800;
  forkret = 2148556900;
}

fork-Forks_example :
    Forks (ForkPanics linker kernel (slot running 2)) files dirs 0 (fork linker kernel files dirs 0)
fork-Forks_example =
    fork-Forks linker kernel files dirs 0 (slot running 2) files-IsCounted refl refl
      kernel-AreClosed

exit-IsShut_example :
    (cs : List Closing) × (s' : Files) × (exit kernel files dirs 2 0 (some 3)
      ≡ ret (
        cs ++ (put_inode 0 ∷ []),
        record kernel {
          procs = exit_locked 2 (slot running 2 ∷ slot unused 0 ∷ []) 0 (some 3) (some 3);
        },
        s',
      ))
    × IsCounted s'
    × ((fd : ℕ) → fd < 16 → IsShut s' 0 fd)
exit-IsShut_example = exit-IsShut kernel files dirs 2 0 (some 3) files-IsCounted refl
