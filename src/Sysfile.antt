-- ===== src/Sysfile.antt =====
-- sysfile.c: the system calls on paths. A path is what argstr fetched. begin_op and end_op bracket each
-- call as a whole and are Log's. `none` is the return of -1, or the null pointer of create.
use pcs_ii.Base.{
  ℕ, zero, suc, ◌+◌, ◌-◌, ◌*◌, ◌/◌, ◌%◌, ◌^◌, Bool, true, false, not, ◌&&◌, ◌||◌, List, [], ◌∷◌,
  Option, none, some, set, modify, replicate, ltb, leb, ◌==◌, if◌then◌else◌,
}
use pcs_ii.Base.Outcome.{ret, panic}
use pcs_ii.Inode.{
  done, Inode, M, pure, fail, ◌>>=◌, ◌>>◌, get, fetch, change, ilock, iunlock, iupdate, ialloc,
}
use pcs_ii.Content.{Devsw, writei, iput, iunlockput, t_dir, t_file, t_dev}
use pcs_ii.Directory.{dirlookup, dirlink, namecmp, is_zero, read_dirent, dirent_inum, dirent_size}
use pcs_ii.Namei.{namei, nameiparent}
use pcs_ii.File.{File, fd_inode, Files, filealloc, fileclose, fdalloc, ofile_of}

-- nlink is a short.
abbrev pub up_link : Inode → Inode
up_link ip = record ip { nlink = (ip.nlink + 1) % 2 ^ 16 }

abbrev pub down_link : Inode → Inode
down_link ip = record ip { nlink = (ip.nlink + 2 ^ 16 - 1) % 2 ^ 16 }

-- The label `bad` of sys_link.
unfoldable pub undo_link : ℕ → M (Option (Unit {0}))
unfolding ilock change iupdate iunlockput
undo_link i = do ilock i; change i down_link; iupdate i; iunlockput i; pure none

unfoldable pub sys_link : Devsw → List ℕ → List ℕ → M (Option (Unit {0}))
unfolding namei ilock fetch iunlockput change iupdate iunlock nameiparent dirlink iput undo_link
sys_link dv old new = do
  found ← namei dv old
  (elim found [
    | none ↦ pure none
    | some i ↦ (do
      ilock i
      ip ← fetch i
      (if ip.kind == t_dir then (do iunlockput i; pure none) else (do
        change i up_link
        iupdate i
        iunlock i
        r ← nameiparent dv new
        (elim (r.0) [
          | none ↦ undo_link i
          | some d ↦ (do
            ilock d
            dp ← fetch d
            linked ← (if dp.dev == ip.dev then dirlink dv d r.1 ip.inum else pure none)
            iunlockput d
            (elim linked [ none ↦ undo_link i | some x ↦ (do iput i; pure (some tt)) ]))
        ]))))
  ])

-- The loop of isdirempty, with fuel.
unfoldable pub empty_entries : ℕ → Devsw → ℕ → ℕ → ℕ → M Bool
unfolding read_dirent
empty_entries zero dv dp size off = pure true
empty_entries (suc f) dv dp size off =
    let round : M Bool = (do
      de ← read_dirent dv dp off
      (if dirent_inum de == 0
          then empty_entries f dv dp size (off + dirent_size)
          else pure false)) in
    if ltb off size then round else pure true

unfoldable pub isdirempty : Devsw → ℕ → M Bool
unfolding fetch empty_entries
isdirempty dv dp = do
  ip ← fetch dp
  empty_entries (suc (ip.size / dirent_size)) dv dp ip.size (2 * dirent_size)

-- A short that is less than 1.
abbrev pub below_one : ℕ → Bool
below_one n = n == 0 || leb (2 ^ 15) n

-- sys_unlink past its checks: the entry at `off` of `d` is cleared, and `i` loses a link.
unfoldable pub clear_entry : Devsw → ℕ → ℕ → ℕ → Bool → M (Option (Unit {0}))
unfolding writei change iupdate iunlockput
clear_entry dv d i off is_dir = do
  r ← writei dv d (replicate dirent_size 0) off
  (elim r [ none ↦ fail | some n ↦ if n == dirent_size then pure tt else fail ])
  (if is_dir then (do change d down_link; iupdate d) else pure tt)
  iunlockput d
  change i down_link
  iupdate i
  iunlockput i
  pure (some tt)

unfoldable pub sys_unlink : Devsw → List ℕ → M (Option (Unit {0}))
unfolding nameiparent ilock namecmp dirlookup fetch isdirempty iunlockput clear_entry
sys_unlink dv path = do
  r ← nameiparent dv path
  (elim (r.0) [
    | none ↦ pure none
    | some d ↦ (do
      ilock d
      (if is_zero (namecmp r.1 (b'.' ∷ [])) || is_zero (namecmp r.1 (b'.' ∷ b'.' ∷ []))
          then (do iunlockput d; pure none)
          else (do
            found ← dirlookup dv d r.1
            (elim found [
              | none ↦ (do iunlockput d; pure none)
              | some (i, off) ↦ (do
                ilock i
                ip ← fetch i
                (if below_one ip.nlink then fail else pure tt)
                empty ← (if ip.kind == t_dir then isdirempty dv i else pure true)
                (if empty
                    then clear_entry dv d i off (ip.kind == t_dir)
                    else (do iunlockput i; iunlockput d; pure none)))
            ]))))
  ])

-- The two entries of a new directory `i` in `d`, or the panic.
unfoldable pub dots : Devsw → ℕ → ℕ → M (Unit {0})
unfolding change iupdate fetch dirlink
dots dv d i = do
  change d up_link
  iupdate d
  ip ← fetch i
  dp ← fetch d
  a ← dirlink dv i (b'.' ∷ []) ip.inum
  (elim a [
    | none ↦ fail
    | some x ↦ (do
      b ← dirlink dv i (b'.' ∷ b'.' ∷ []) dp.inum
      (elim b [ none ↦ fail | some y ↦ pure tt ]))
  ])

-- create where the name is not there yet.
unfoldable pub make : Devsw → ℕ → List ℕ → ℕ → ℕ → ℕ → M ℕ
unfolding fetch ialloc ilock change iupdate dots dirlink iunlockput
make dv d name kind major minor = do
  dp ← fetch d
  i ← ialloc dp.dev kind
  ilock i
  change i (λ ip. record ip { major = major % 2 ^ 16; minor = minor % 2 ^ 16; nlink = 1 })
  iupdate i
  (if kind == t_dir then dots dv d i else pure tt)
  ip ← fetch i
  r ← dirlink dv d name ip.inum
  (elim r [ none ↦ fail | some x ↦ pure tt ])
  iunlockput d
  pure i

unfoldable pub create : Devsw → List ℕ → ℕ → ℕ → ℕ → M (Option ℕ)
unfolding nameiparent ilock dirlookup iunlockput fetch make
create dv path kind major minor = do
  r ← nameiparent dv path
  (elim (r.0) [
    | none ↦ pure none
    | some d ↦ (do
      ilock d
      found ← dirlookup dv d r.1
      (elim found [
        | some (i, off) ↦ (do
          iunlockput d
          ilock i
          ip ← fetch i
          (if kind == t_file && ip.kind == t_file
              then pure (some i)
              else (do iunlockput i; pure none)))
        | none ↦ (do i ← make dv d r.1 kind major minor; pure (some i))
      ]))
  ])

unfoldable pub sys_mkdir : Devsw → List ℕ → M (Option (Unit {0}))
unfolding create iunlockput
sys_mkdir dv path = do
  r ← create dv path t_dir 0 0
  (elim r [ none ↦ pure none | some i ↦ (do iunlockput i; pure (some tt)) ])

unfoldable pub sys_mknod : Devsw → List ℕ → ℕ → ℕ → M (Option (Unit {0}))
unfolding create iunlockput
sys_mknod dv path major minor = do
  r ← create dv path t_dev major minor
  (elim r [ none ↦ pure none | some i ↦ (do iunlockput i; pure (some tt)) ])

abbrev pub move_cwd : ℕ → M (Unit {0})
move_cwd i s = done (tt, record s { cwd = i })

unfoldable pub sys_chdir : Devsw → List ℕ → M (Option (Unit {0}))
unfolding namei ilock fetch iunlockput iunlock iput
sys_chdir dv path = do
  r ← namei dv path
  (elim r [
    | none ↦ pure none
    | some i ↦ (do
      ilock i
      ip ← fetch i
      (if not (ip.kind == t_dir)
          then (do iunlockput i; pure none)
          else (do iunlock i; s ← get; iput s.cwd; move_cwd i; pure (some tt))))
  ])

-- The flags of fcntl.h: O_WRONLY is 1, O_RDWR is 2, O_CREATE is 0x200.
abbrev pub o_wronly : ℕ → Bool
o_wronly omode = omode % 2 == 1

abbrev pub o_rdwr : ℕ → Bool
o_rdwr omode = omode / 2 % 2 == 1

abbrev pub o_create : ℕ → Bool
o_create omode = omode / 512 % 2 == 1

-- The inode that sys_open opens, locked.
unfoldable pub open_inode : Devsw → List ℕ → ℕ → M (Option ℕ)
unfolding create namei ilock fetch iunlockput
open_inode dv path omode = if o_create omode then create dv path t_file 0 0 else (do
  r ← namei dv path
  (elim r [
    | none ↦ pure none
    | some i ↦ (do
      ilock i
      ip ← fetch i
      (if ip.kind == t_dir && not (omode == 0)
          then (do iunlockput i; pure none)
          else pure (some i)))
  ]))

abbrev pub as_opened : ℕ → ℕ → File → File
as_opened i omode f = record f {
  kind = fd_inode;
  ip = i;
  off = 0;
  readable = not (o_wronly omode);
  writable = o_wronly omode || o_rdwr omode;
}

-- The table without the slot that filealloc gave; a slot that was free is of type FD_NONE, so that
-- nothing else is closed with it.
unfoldable pub give_back : List File → ℕ → M (List File)
unfolding fileclose
give_back table f = elim (fileclose table f) [ ret r ↦ pure r.1 | panic ↦ fail ]

-- sys_open of process `p` once the inode is found: the descriptor, and the files.
unfoldable pub open_file : ℕ → ℕ → Files → ℕ → M (Option ℕ × Files)
unfolding filealloc fdalloc give_back iunlockput iunlock
open_file i omode fs p =
    let (slot, table) = filealloc fs.table in
    elim slot [
      | none ↦ (do iunlockput i; pure (none, fs))
      | some f ↦ elim (fdalloc (ofile_of fs p) f) [
        | none ↦ (do
          table' ← give_back table f
          iunlockput i
          pure (none, record fs { table = table' }))
        | some (fd, ofile) ↦ (do
          iunlock i
          pure (
            some fd,
            record { table = modify table f (as_opened i omode); ofiles = set fs.ofiles p ofile },
          ))
      ]
    ]

unfoldable pub sys_open : Devsw → List ℕ → ℕ → Files → ℕ → M (Option ℕ × Files)
unfolding open_inode open_file
sys_open dv path omode fs p = do
  r ← open_inode dv path omode
  (elim r [ none ↦ pure (none, fs) | some i ↦ open_file i omode fs p ])
