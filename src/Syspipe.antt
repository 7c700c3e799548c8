-- ===== src/Syspipe.antt =====
-- pipealloc of pipe.c and sys_pipe of sysfile.c past argptr. The page that kalloc gives is the pipe,
-- and its address names it in the two files. `none` is -1.
pub mod Allocation
pub mod Counting
mod Tests
use pcs_ii.Base.{
  ℕ, Bool, true, false, List, [], ◌∷◌, ◌++◌, Option, none, some, modify, set, ◌==◌, if◌then◌else◌,
}
use pcs_ii.Base.Outcome.{Outcome, ret, panic, ◌>>=◌}
use pcs_ii.Kalloc.{Kmem, kalloc}
use pcs_ii.File.{File, fd_pipe, Files, filealloc, fileclose, fdalloc, ofile_of, Closing}

abbrev pub as_end : ℕ → Bool → File → File
as_end p writes f = record f {
  kind = fd_pipe;
  readable = if writes then false else true;
  writable = writes;
  pipe = p;
}

-- The two fileclose of a label or a failure, with what is left of them to do.
unfoldable pub close_both : List File → ℕ → ℕ → Outcome (List Closing × List File)
unfolding fileclose
close_both table f0 f1 =
    fileclose table f0 >>= λ r. fileclose r.1 f1 >>= λ q. ret (r.0 ∷ q.0 ∷ [], q.1)

-- Past the two filealloc: a file that was free is of type FD_NONE, so closing it leaves nothing to do.
unfoldable pub pipe_files : List File → Kmem → ℕ → ℕ → Outcome (Option (ℕ × ℕ) × List File × Kmem)
unfolding kalloc close_both
pipe_files table k f0 f1 =
    let (p, k') = kalloc k in
    if p == 0
    then (close_both table f0 f1 >>= λ r. ret (none, r.1, k'))
    else ret (some (f0, f1), modify (modify table f0 (as_end p false)) f1 (as_end p true), k')

unfoldable pub pipealloc : List File → Kmem → Outcome (Option (ℕ × ℕ) × List File × Kmem)
unfolding filealloc fileclose pipe_files
pipealloc table k =
    let (a, t0) = filealloc table in
    elim a [
      | none ↦ ret (none, t0, k)
      | some f0 ↦
          let (b, t1) = filealloc t0 in
          elim b [
            | none ↦ fileclose t1 f0 >>= λ r. ret (none, r.1, k)
            | some f1 ↦ pipe_files t1 k f0 f1
          ]
    ]

-- The descriptors for the files `rf` and `wf` of process `p`, or their closing.
unfoldable pub pipe_fds :
    Files → Kmem → ℕ → ℕ → ℕ → Outcome (Option (ℕ × ℕ) × List Closing × Files × Kmem)
unfolding fdalloc close_both
pipe_fds s k p rf wf =
    let failed = close_both s.table rf wf >>= λ r. ret (none, r.0, record s { table = r.1 }, k) in
    elim (fdalloc (ofile_of s p) rf) [
      | none ↦ failed
      | some (fd0, os) ↦ elim (fdalloc os wf) [
        | none ↦ close_both s.table rf wf >>= λ r.
            ret (none, r.0, record { table = r.1; ofiles = set s.ofiles p (set os fd0 none) }, k)
        | some (fd1, os') ↦ ret (some (fd0, fd1), [], record s { ofiles = set s.ofiles p os' }, k)
      ]
    ]

unfoldable pub sys_pipe : Files → Kmem → ℕ → Outcome (Option (ℕ × ℕ) × List Closing × Files × Kmem)
unfolding pipealloc pipe_fds
sys_pipe s k p = pipealloc s.table k >>= λ r. elim r.0 [
  | none ↦ ret (none, [], record s { table = r.1 }, r.2)
  | some (rf, wf) ↦ pipe_fds (record s { table = r.1 }) r.2 p rf wf
]
