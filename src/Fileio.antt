-- ===== src/Fileio.antt =====
-- file.c: reads and writes through open files. `f` is what the slot of the table holds, and the result
-- tells the new offset. begin_op and end_op, which bracket each piece of a write, are Log's.
pub mod Locks
pub mod Loops
pub mod Pieces
mod Tests
use pcs_ii.Base.{
  ℕ, zero, suc, ◌+◌, ◌%◌, ◌^◌, Bool, true, false, not, List, Option, none, some, length, take, drop,
  ltb, ◌==◌, if◌then◌else◌,
}
use pcs_ii.Inode.{M, pure, fail, ◌>>=◌, ◌>>◌, fetch, ilock, iunlock}
use pcs_ii.Content.{Devsw, Stat, stati, readi, writei}
use pcs_ii.Pipe.{Pipe, Channel, ReadEnd, Wrote, piperead, pipewrite}
use pcs_ii.File.{File, fd_none, fd_pipe, fd_inode, max_piece}

unfoldable pub filestat : File → M (Option Stat)
unfolding ilock fetch stati iunlock
filestat f = elim f.kind [
  | fd_none ↦ pure none
  | fd_pipe ↦ pure none
  | fd_inode ↦ (do ilock f.ip; ip ← fetch f.ip; iunlock f.ip; pure (some (stati ip)))
]

-- What a read comes to: -1, the end of a piperead, or the result of readi with the new offset.
pub data FileRead : Type 0 where
  unreadable : FileRead
  of_pipe : ReadEnd × Pipe × List Channel → FileRead
  of_inode : Option (List ℕ) → ℕ → FileRead

abbrev pub read_offset : ℕ → Option (List ℕ) → ℕ
read_offset off none = off
read_offset off (some bs) = (off + length bs) % 2 ^ 32

unfoldable pub fileread : Devsw → Bool → File → Pipe → ℕ → M FileRead
unfolding ilock readi iunlock piperead
fileread dv killed f p n = if not f.readable then pure unreadable else (elim f.kind [
  | fd_none ↦ fail
  | fd_pipe ↦ pure (of_pipe (piperead killed p n))
  | fd_inode ↦ (do
    ilock f.ip
    r ← readi dv f.ip f.off n
    iunlock f.ip
    pure (of_inode r (read_offset f.off r)))
])

-- The loop of filewrite, with fuel: whether every byte was written, and the new offset.
unfoldable pub write_pieces : ℕ → Devsw → ℕ → List ℕ → ℕ → M (Bool × ℕ)
unfolding ilock writei iunlock
write_pieces zero dv ip src off = pure (false, off)
write_pieces (suc f) dv ip src off =
    let n1 = if ltb max_piece (length src) then max_piece else length src in
    let round : M (Bool × ℕ) = (do
      ilock ip
      r ← writei dv ip (take n1 src) off
      iunlock ip
      (elim r [
        | none ↦ pure (false, off)
        | some k ↦ if k == n1 then write_pieces f dv ip (drop n1 src) ((off + k) % 2 ^ 32) else fail
      ])) in
    if length src == 0 then pure (true, off) else round

pub data FileWrite : Type 0 where
  unwritable : FileWrite
  to_pipe : Wrote × Pipe × List Channel → FileWrite
  to_inode : Option ℕ → ℕ → FileWrite

unfoldable pub filewrite : Devsw → Bool → File → Pipe → List ℕ → M FileWrite
unfolding write_pieces pipewrite
filewrite dv killed f p src = if not f.writable then pure unwritable else (elim f.kind [
  | fd_none ↦ fail
  | fd_pipe ↦ pure (to_pipe (pipewrite killed p src))
  | fd_inode ↦ (do
    r ← write_pieces (suc (length src)) dv f.ip src f.off
    pure (to_inode (if r.0 then some (length src) else none) r.1))
])
