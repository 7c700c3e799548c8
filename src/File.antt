-- ===== src/File.antt =====
-- file.c and the descriptor calls of sysfile.c: the table of open files, and the descriptors of all
-- processes. A `struct file *` is a slot of the table. What ftable.lock brackets is one step.
pub mod Counts
pub mod Refs
mod Tests
use pcs_ii.Base.{
  modify, ℕ, zero, suc, ◌+◌, ◌-◌, ◌*◌, ◌/◌, Bool, true, false, not, ◌&&◌, ◌||◌, List, [], ◌∷◌,
  Option, none, some, set, get_elem?, ltb, leb, ◌==◌, if◌then◌else◌,
}
use pcs_ii.Base.Outcome.{Outcome, ret, panic, ◌>>=◌}

pub data FileType : Type 0 where
  fd_none fd_pipe fd_inode : FileType

-- `pipe` and `ip` are pointers to structures of other parts.
pub record File : Type 0 where
  pub kind : FileType
  pub ref : ℕ
  pub readable : Bool
  pub writable : Bool
  pub pipe : ℕ
  pub ip : ℕ
  pub off : ℕ

-- ftable.file, and proc->ofile of every process.
pub record Files : Type 0 where
  pub table : List File
  pub ofiles : List (List (Option ℕ))

abbrev pub with_ref : ℕ → File → File
with_ref n f = record f { ref = n }

-- The first slot, from slot `i` on, with no references.
unfoldable pub find_free : List File → ℕ → Option ℕ
find_free [] i = none
find_free (f ∷ fs) i = if f.ref == 0 then some i else find_free fs (i + 1)

unfoldable pub filealloc : List File → Option ℕ × List File
filealloc fs = elim (find_free fs 0) [
  | none ↦ (none, fs)
  | some i ↦ (some i, modify fs i (with_ref 1))
]

unfoldable pub filedup : List File → ℕ → Outcome (List File)
filedup fs i = elim (get_elem? fs i) [
  | none ↦ panic
  | some f ↦ if ltb f.ref 1 then panic else ret (modify fs i (with_ref (f.ref + 1)))
]

-- What fileclose goes on to do once the table is unlocked.
pub data Closing : Type 0 where
  nothing : Closing
  close_pipe : ℕ → Bool → Closing
  put_inode : ℕ → Closing

abbrev pub closing : File → Closing
closing f = elim f.kind [
  | fd_none ↦ nothing
  | fd_pipe ↦ close_pipe f.pipe f.writable
  | fd_inode ↦ put_inode f.ip
]

abbrev pub released : File → File
released f = record f { ref = 0; kind = fd_none }

unfoldable pub fileclose : List File → ℕ → Outcome (Closing × List File)
fileclose fs i = elim (get_elem? fs i) [
  | none ↦ panic
  | some f ↦
      if ltb f.ref 1
      then panic
      else if ltb 0 (f.ref - 1)
      then ret (nothing, modify fs i (with_ref (f.ref - 1)))
      else ret (closing f, modify fs i released)
]

-- The first free descriptor, from `fd` on.
unfoldable pub free_fd : List (Option ℕ) → ℕ → Option ℕ
free_fd [] fd = none
free_fd (none ∷ fds) fd = some fd
free_fd (some f ∷ fds) fd = free_fd fds (fd + 1)

unfoldable pub fdalloc : List (Option ℕ) → ℕ → Option (ℕ × List (Option ℕ))
fdalloc ofile f = elim (free_fd ofile 0) [
  | none ↦ none
  | some fd ↦ some (fd, set ofile fd (some f))
]

-- The checks of argfd on the descriptor: in range and open. Descriptors are read as unsigned, so
-- that a negative one is out of range.
unfoldable pub argfd : List (Option ℕ) → ℕ → Option ℕ
argfd ofile fd = elim (get_elem? ofile fd) [ none ↦ none | some o ↦ o ]

abbrev pub ofile_of : Files → ℕ → List (Option ℕ)
ofile_of s p = elim (get_elem? s.ofiles p) [ none ↦ [] | some o ↦ o ]

-- sys_dup of process `p`; `none` is the return of -1.
unfoldable pub sys_dup : Files → ℕ → ℕ → Outcome (Option ℕ × Files)
sys_dup s p fd = elim (argfd (ofile_of s p) fd) [
  | none ↦ ret (none, s)
  | some f ↦ elim (fdalloc (ofile_of s p) f) [
    | none ↦ ret (none, s)
    | some (fd', ofile) ↦ filedup s.table f >>= λ table.
        ret (some fd', record { table = table; ofiles = set s.ofiles p ofile })
  ]
]

-- sys_close of process `p`.
unfoldable pub sys_close : Files → ℕ → ℕ → Outcome (Option Closing × Files)
sys_close s p fd = elim (argfd (ofile_of s p) fd) [
  | none ↦ ret (none, s)
  | some f ↦ fileclose s.table f >>= λ r.
      ret (some r.0, record { table = r.1; ofiles = set s.ofiles p (set (ofile_of s p) fd none) })
]

-- filewrite: a write to an inode goes in pieces of at most
-- ((MAXOPBLOCKS-1-1-2) / 2) * 512 bytes, each in a transaction of its own.
abbrev pub max_piece : ℕ
max_piece = (10 - 1 - 1 - 2) / 2 * 512

-- The sizes n1 of the pieces for `n` bytes, with fuel for the rounds.
unfoldable pub pieces : ℕ → ℕ → List ℕ
pieces zero n = []
pieces (suc f) n =
    let n1 = if ltb max_piece n then max_piece else n in
    let rest = pieces f (n - n1) in if n == 0 then [] else n1 ∷ rest
