-- ===== src/Mkfs.antt =====
-- mkfs.c: the program of the host that writes the first image of the disk. The image takes every
-- write. A word in the byte order of the disk is its bytes, the low one first. A failed assert is
-- `panic`. Input files are given as their names and the blocks that read delivers.
pub mod Image
mod Tests
use pcs_ii.Base.{
  ℕ, zero, suc, ◌+◌, ◌-◌, ◌*◌, ◌/◌, ◌%◌, ◌^◌, min, Bool, true, false, not, ◌&&◌, ◌||◌, List, [],
  ◌∷◌, ◌++◌, length, get_or, set, take, drop, replicate, ltb, leb, ◌==◌, if◌then◌else◌,
}
use pcs_ii.Base.Outcome.{Outcome, ret, panic, ◌>>=◌}
use pcs_ii.Fs.{bsize, ipb, Superblock, Blocks, iblock, bit_set}
use pcs_ii.Log.{logsize}
use pcs_ii.Inode.{word_at, words_at, word_bytes, words_bytes, put_bytes, dinode_at}
use pcs_ii.Content.{ndirect, nindirect, t_dir, t_file}
use pcs_ii.Directory.{dirent_bytes}
use pcs_ii.Ide.{fssize}

abbrev pub ninodes : ℕ
ninodes = 200

abbrev pub nbitmap : ℕ
nbitmap = fssize / (bsize * 8) + 1

abbrev pub ninodeblocks : ℕ
ninodeblocks = ninodes / ipb + 1

abbrev pub nmeta : ℕ
nmeta = 2 + logsize + ninodeblocks + nbitmap

-- The fields of sb that the kernel reads.
abbrev pub sb : Superblock
sb = record {
  size = fssize;
  ninodes = ninodes;
  inodestart = 2 + logsize;
  bmapstart = 2 + logsize + ninodeblocks;
}

-- size, nblocks, ninodes, nlog, logstart, inodestart, bmapstart
unfoldable pub sb_bytes : List ℕ
unfolding words_bytes
sb_bytes = words_bytes (
    fssize
    ∷ (fssize - nmeta)
    ∷ ninodes
    ∷ logsize
    ∷ 2
    ∷ (2 + logsize)
    ∷ (2 + logsize + ninodeblocks)
    ∷ [])

-- The image, freeinode and freeblock.
pub record Disk : Type 0 where
  pub blocks : Blocks
  pub freeinode : ℕ
  pub freeblock : ℕ

pub record Dinode : Type 0 where
  pub kind : ℕ
  pub major : ℕ
  pub minor : ℕ
  pub nlink : ℕ
  pub size : ℕ
  pub addrs : List ℕ

abbrev pub din_bytes : Dinode → List ℕ
din_bytes din =
    word_bytes 2 din.kind
    ++ (word_bytes 2 din.major
        ++ (word_bytes 2 din.minor
            ++ (word_bytes 2 din.nlink ++ (word_bytes 4 din.size ++ words_bytes din.addrs))))

unfoldable pub winode : ℕ → Dinode → Disk → Disk
unfolding put_bytes word_bytes words_bytes iblock
winode inum din s = record s {
  blocks = put_bytes s.blocks (iblock sb inum) (dinode_at inum) (din_bytes din);
}

unfoldable pub rinode : ℕ → Disk → Dinode
unfolding word_at words_at iblock
rinode inum s =
    let bytes = s.blocks (iblock sb inum) in
    let at = dinode_at inum in
    record {
      kind = word_at 2 bytes at;
      major = word_at 2 bytes (at + 2);
      minor = word_at 2 bytes (at + 4);
      nlink = word_at 2 bytes (at + 6);
      size = word_at 4 bytes (at + 8);
      addrs = words_at 13 bytes (at + 12);
    }

unfoldable pub ialloc : ℕ → Disk → ℕ × Disk
unfolding winode
ialloc kind s =
    let din : Dinode = record {
      kind = kind;
      major = 0;
      minor = 0;
      nlink = 1;
      size = 0;
      addrs = replicate 13 0;
    } in
    (s.freeinode, winode s.freeinode din (record s { freeinode = s.freeinode + 1 }))

-- if(xint(din.addrs[i]) == 0) din.addrs[i] = xint(freeblock++);
unfoldable pub address : ℕ → Dinode → Disk → Dinode × Disk
address i din s =
    if get_or din.addrs i 0 == 0
    then (
      record din { addrs = set din.addrs i s.freeblock },
      record s { freeblock = s.freeblock + 1 },
    )
    else (din, s)

-- The entry `i` of the indirect block `b`.
unfoldable pub indirect_address : ℕ → ℕ → Disk → Disk
unfolding word_at word_bytes put_bytes
indirect_address b i s =
    if word_at 4 (s.blocks b) (4 * i) == 0
    then record s {
      blocks = put_bytes s.blocks b (4 * i) (word_bytes 4 s.freeblock);
      freeblock = s.freeblock + 1;
    }
    else s

-- The block `fbn` of a file, and what finding it allocates.
unfoldable pub file_block : ℕ → Dinode → Disk → ℕ × Dinode × Disk
unfolding address indirect_address word_at
file_block fbn din s =
    let (din1, s1) = address (if ltb fbn ndirect then fbn else ndirect) din s in
    let b = get_or din1.addrs ndirect 0 in
    let s2 = indirect_address b (fbn - ndirect) s1 in
    if ltb fbn ndirect
    then (get_or din1.addrs fbn 0, din1, s1)
    else (word_at 4 (s2.blocks b) (4 * (fbn - ndirect)), din1, s2)

-- The loop of iappend for the bytes that are left, with fuel for its rounds.
unfoldable pub append_from : ℕ → Dinode → ℕ → List ℕ → Disk → Outcome (ℕ × Dinode × Disk)
unfolding file_block put_bytes
append_from zero din off p s = ret (off, din, s)
append_from (suc f) din off p s =
    let fbn = off / bsize in
    let (x, din1, s1) = file_block fbn din s in
    let n1 = min (length p) ((fbn + 1) * bsize - off) in
    let rest =
      append_from f din1 (off + n1) (drop n1 p)
        (record s1 { blocks = put_bytes s1.blocks x (off - fbn * bsize) (take n1 p) }) in
    if length p == 0
    then ret (off, din, s)
    else if leb (ndirect + nindirect) fbn
    then panic
    else rest

unfoldable pub iappend : ℕ → List ℕ → Disk → Outcome Disk
unfolding rinode append_from winode
iappend inum p s = do
  r ← append_from (length p) (rinode inum s) (rinode inum s).size p s
  ret (winode inum (record (r.1) { size = r.0 }) r.2)

-- buf[i/8] | (0x1 << (i%8)), which adds the bit where it is clear.
abbrev pub mark : (ℕ → ℕ) → ℕ → ℕ → ℕ
mark buf i j = if j == i / 8 && not (bit_set buf i) then buf j + 2 ^ (i % 8) else buf j

-- The loop of balloc for the `n` blocks from `i` on.
unfoldable pub mark_from : ℕ → (ℕ → ℕ) → ℕ → ℕ → ℕ
unfolding bit_set
mark_from zero buf i = buf
mark_from (suc n) buf i = mark_from n (mark buf i) (i + 1)

unfoldable pub balloc : ℕ → Disk → Outcome Disk
unfolding mark_from
balloc used s =
    if ltb used (bsize * 8)
    then ret (record s {
      blocks = λ c j.
          if c == sb.bmapstart && ltb j bsize then mark_from used (λ i. 0) 0 j else s.blocks c j;
    })
    else panic

abbrev pub is_slash : ℕ → Bool
is_slash c = c == b'/'

-- index(name, '/') != 0
unfoldable pub has_slash : List ℕ → Bool
has_slash [] = false
has_slash (c ∷ cs) = is_slash c || has_slash cs

-- Names begin with an underscore on the host.
abbrev pub own_name : List ℕ → List ℕ
own_name [] = []
own_name (c ∷ cs) = if c == b'_' then cs else c ∷ cs

unfoldable pub append_all : ℕ → List (List ℕ) → Disk → Outcome Disk
unfolding iappend
append_all inum [] s = ret s
append_all inum (p ∷ ps) s = iappend inum p s >>= append_all inum ps

-- One input file, in the root directory, whose number is 1.
unfoldable pub add_file : List ℕ × List (List ℕ) → Disk → Outcome Disk
unfolding has_slash ialloc iappend dirent_bytes append_all
add_file (name, content) s =
    let (inum, s1) = ialloc t_file s in
    if has_slash name
    then panic
    else (iappend 1 (dirent_bytes (own_name name) inum) s1 >>= append_all inum content)

unfoldable pub add_files : List (List ℕ × List (List ℕ)) → Disk → Outcome Disk
unfolding add_file
add_files [] s = ret s
add_files (f ∷ fs) s = add_file f s >>= add_files fs

-- Fix the size of the root directory: whole blocks.
unfoldable pub fix_size : Disk → Disk
unfolding rinode winode
fix_size s =
    let din = rinode 1 s in winode 1 (record din { size = (din.size / bsize + 1) * bsize }) s

-- The zeroed disk with its superblock.
unfoldable pub blank : Disk
unfolding put_bytes sb_bytes
blank = record { blocks = put_bytes (λ b j. 0) 1 0 sb_bytes; freeinode = 1; freeblock = nmeta }

-- main up to the size of the root directory. ialloc gives it the number 1, ROOTINO.
unfoldable pub populate : List (List ℕ × List (List ℕ)) → Outcome Disk
unfolding ialloc iappend dirent_bytes add_files blank
populate files = do
  s1 ← iappend 1 (dirent_bytes (b'.' ∷ []) 1) (ialloc t_dir blank).1
  s2 ← iappend 1 (dirent_bytes (b'.' ∷ b'.' ∷ []) 1) s1
  add_files files s2

unfoldable pub finish_image : Disk → Outcome Disk
unfolding fix_size balloc
finish_image s = balloc (fix_size s).freeblock (fix_size s)

unfoldable pub mkfs : List (List ℕ × List (List ℕ)) → Outcome Disk
unfolding populate finish_image
mkfs files = populate files >>= finish_image
