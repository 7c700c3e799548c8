-- ===== src/Directory.antt =====
-- fs.c: directories, files of 16-byte entries. A name is its bytes up to the NUL.
pub mod Lookup
mod Tests
use pcs_ii.Base.{
  ℕ, zero, suc, ◌+◌, ◌-◌, ◌*◌, ◌/◌, ◌^◌, Bool, false, not, ◌||◌, List, [], ◌++◌, Option, none, some,
  length, get_or, ltb, ◌==◌, if◌then◌else◌,
}
use pcs_ii.Base.Int.{ℤ, pos, negsuc}
use pcs_ii.Memory.{Memory, strncmp, strncpy}
use pcs_ii.Inode.{M, pure, fail, ◌>>=◌, ◌>>◌, fetch, word_bytes, iget}
use pcs_ii.Content.{Devsw, readi, writei, iput, slice, t_dir}

abbrev pub dirsiz : ℕ
dirsiz = 14

abbrev pub dirent_size : ℕ
dirent_size = 16

-- Two strings in one memory, the first from 0 on and the second from DIRSIZ on.
abbrev pub both : List ℕ → List ℕ → Memory
both s t a = if ltb a dirsiz then get_or s a 0 else get_or t (a - dirsiz) 0

unfoldable pub namecmp : List ℕ → List ℕ → ℤ
unfolding strncmp
namecmp s t = strncmp (both s t) 0 dirsiz dirsiz

abbrev pub is_zero : ℤ → Bool
is_zero (pos n) = n == 0
is_zero (negsuc n) = false

-- struct dirent, as readi delivers it.
abbrev pub dirent_inum : List ℕ → ℕ
dirent_inum de = get_or de 0 0 + get_or de 1 0 * 2 ^ 8

abbrev pub dirent_name : List ℕ → List ℕ
dirent_name de = slice (λ a. get_or de (a + 2) 0) 0 dirsiz

-- readi of a whole entry, or the panic of its callers.
unfoldable pub read_dirent : Devsw → ℕ → ℕ → M (List ℕ)
unfolding readi
read_dirent dv dp off = do
  r ← readi dv dp off dirent_size
  (elim r [ none ↦ fail | some de ↦ if length de == dirent_size then pure de else fail ])

-- The loop of dirlookup, with fuel: the inode and the offset of the entry.
unfoldable pub lookup_from : ℕ → Devsw → ℕ → ℕ → ℕ → List ℕ → ℕ → M (Option (ℕ × ℕ))
unfolding read_dirent namecmp iget
lookup_from zero dv dp dev size name off = pure none
lookup_from (suc f) dv dp dev size name off =
    let round : M (Option (ℕ × ℕ)) = (do
      de ← read_dirent dv dp off
      (if dirent_inum de == 0 || not (is_zero (namecmp name (dirent_name de)))
          then lookup_from f dv dp dev size name (off + dirent_size)
          else (do i ← iget dev (dirent_inum de); pure (some (i, off))))) in
    if ltb off size then round else pure none

unfoldable pub dirlookup : Devsw → ℕ → List ℕ → M (Option (ℕ × ℕ))
unfolding fetch lookup_from
dirlookup dv dp name = do
  ip ← fetch dp
  (if ip.kind == t_dir
      then lookup_from (suc (ip.size / dirent_size)) dv dp ip.dev ip.size name 0
      else fail)

-- The loop of dirlink: the offset of the first empty entry, or the end.
unfoldable pub empty_from : ℕ → Devsw → ℕ → ℕ → ℕ → M ℕ
unfolding read_dirent
empty_from zero dv dp size off = pure off
empty_from (suc f) dv dp size off =
    let round : M ℕ = (do
      de ← read_dirent dv dp off
      (if dirent_inum de == 0 then pure off else empty_from f dv dp size (off + dirent_size))) in
    if ltb off size then round else pure off

-- The entry that dirlink writes: strncpy of the name, and the number as an unsigned short.
unfoldable pub dirent_bytes : List ℕ → ℕ → List ℕ
unfolding word_bytes strncpy slice
dirent_bytes name inum =
    word_bytes 2 inum ++ slice (strncpy (both [] name) 0 dirsiz dirsiz) 0 dirsiz

unfoldable pub dirlink : Devsw → ℕ → List ℕ → ℕ → M (Option (Unit {0}))
unfolding fetch dirlookup iput empty_from writei dirent_bytes
dirlink dv dp name inum = do
  found ← dirlookup dv dp name
  (elim found [
    | some (i, off) ↦ (do iput i; pure none)
    | none ↦ (do
      ip ← fetch dp
      off ← empty_from (suc (ip.size / dirent_size)) dv dp ip.size 0
      r ← writei dv dp (dirent_bytes name inum) off
      (elim r [ none ↦ fail | some n ↦ if n == dirent_size then pure (some tt) else fail ]))
  ])
