-- ===== src/Fs.antt =====
-- fs.c: the free bitmap of the disk and the statistics that get_fs_stats takes of it. `Blocks` is what
-- bread returns for each block, bytes by offset; log_write and brelse keep that content. The number
-- of rounds of the loops over bitmap blocks is their fuel.
pub mod Bits
pub mod Bitmap
pub mod Freeing
pub mod Lowest
mod Tests
use pcs_ii.Base.{
  ℕ, zero, suc, ◌+◌, ◌-◌, ◌*◌, ◌/◌, ◌%◌, ◌^◌, min, Bool, true, false, not, ◌&&◌, Option, none, some,
  ltb, leb, ◌==◌, if◌then◌else◌,
}
use pcs_ii.Base.Outcome.{Outcome, ret, panic}

abbrev pub bsize : ℕ
bsize = 512

-- BPB, the bits of a block, and IPB, the inodes of a block (64 bytes each).
abbrev pub bpb : ℕ
bpb = 4096

abbrev pub ipb : ℕ
ipb = 8

pub record Superblock : Type 0 where
  pub size : ℕ
  pub ninodes : ℕ
  pub inodestart : ℕ
  pub bmapstart : ℕ

abbrev pub Blocks : Type 0
Blocks = ℕ → ℕ → ℕ

unfoldable pub iblock : Superblock → ℕ → ℕ
iblock sb i = i / ipb + sb.inodestart

unfoldable pub bblock : Superblock → ℕ → ℕ
bblock sb b = b / bpb + sb.bmapstart

-- Is the bit `bi` of a block set? The test of bp->data[bi/8] & (1 << (bi % 8)).
unfoldable pub bit_set : (ℕ → ℕ) → ℕ → Bool
bit_set bytes bi = bytes (bi / 8) / 2 ^ (bi % 8) % 2 == 1

-- A block with the byte of bit `bi` replaced.
unfoldable pub put_byte : Blocks → ℕ → ℕ → ℕ → Blocks
put_byte d b i v c j = if c == b && j == i then v else d c j

-- memset of the whole block to 0.
unfoldable pub bzero : Blocks → ℕ → Blocks
bzero d b c j = if c == b && ltb j bsize then 0 else d c j

-- The inner loop of balloc: the first clear bit of a block among the `n` from `bi` on.
unfoldable pub find_clear : ℕ → (ℕ → ℕ) → ℕ → Option ℕ
unfolding bit_set
find_clear zero bytes bi = none
find_clear (suc n) bytes bi =
    let rest = find_clear n bytes (bi + 1) in if bit_set bytes bi then rest else some bi

-- The outer loop of balloc, from the bitmap block of block `b` on.
unfoldable pub balloc_from : ℕ → Superblock → Blocks → ℕ → Option ℕ
unfolding find_clear bblock
balloc_from zero sb d b = none
balloc_from (suc f) sb d b =
    let rest = balloc_from f sb d (b + bpb) in
    if ltb b sb.size
    then (elim (find_clear (min bpb (sb.size - b)) (d (bblock sb b)) 0) [
      | none ↦ rest
      | some bi ↦ some (b + bi)
    ])
    else none

-- Setting a clear bit adds it to its byte.
unfoldable pub balloc : Superblock → Blocks → Outcome (ℕ × Blocks)
unfolding balloc_from put_byte bzero bblock
balloc sb d = elim (balloc_from (suc (sb.size / bpb)) sb d 0) [
  | none ↦ panic
  | some b ↦
      let i = b % bpb / 8 in
      let d1 = put_byte d (bblock sb b) i (d (bblock sb b) i + 2 ^ (b % bpb % 8)) in
      ret (b, bzero d1 b)
]

-- Clearing a set bit takes it from its byte.
unfoldable pub bfree : Superblock → Blocks → ℕ → Outcome Blocks
unfolding bit_set put_byte bblock
bfree sb d b =
    let i = b % bpb / 8 in
    if not (bit_set (d (bblock sb b)) (b % bpb))
    then panic
    else ret (put_byte d (bblock sb b) i (d (bblock sb b) i - 2 ^ (b % bpb % 8)))

-- struct fsinfo.
pub record FsInfo : Type 0 where
  pub num_files : ℕ
  pub num_dirs : ℕ
  pub allocated_inodes : ℕ
  pub free_disk_blocks : ℕ

abbrev pub no_info : FsInfo
no_info = record { num_files = 0; num_dirs = 0; allocated_inodes = 0; free_disk_blocks = 0 }

-- The type of a disk inode, its first two bytes.
unfoldable pub inode_type : Superblock → Blocks → ℕ → ℕ
unfolding iblock
inode_type sb d i = d (iblock sb i) (i % ipb * 64) + d (iblock sb i) (i % ipb * 64 + 1) * 2 ^ 8

-- The first loop of get_fs_stats, for the `n` inodes from `i` on. T_DIR is 1, T_FILE is 2.
unfoldable pub count_inodes : ℕ → Superblock → Blocks → ℕ → FsInfo → FsInfo
unfolding inode_type
count_inodes zero sb d i s = s
count_inodes (suc n) sb d i s =
    let t = inode_type sb d i in
    let s1 = record s { allocated_inodes = s.allocated_inodes + 1 } in
    count_inodes n sb d (i + 1) (
      if t == 0
      then s
      else if t == 2
      then record s1 { num_files = s1.num_files + 1 }
      else if t == 1
      then record s1 { num_dirs = s1.num_dirs + 1 }
      else s1)

-- The clear bits among the `n` from `bi` on.
unfoldable pub count_clear : ℕ → (ℕ → ℕ) → ℕ → ℕ
unfolding bit_set
count_clear zero bytes bi = 0
count_clear (suc n) bytes bi =
    let rest = count_clear n bytes (bi + 1) in if bit_set bytes bi then rest else rest + 1

unfoldable pub count_free : ℕ → Superblock → Blocks → ℕ → ℕ
unfolding count_clear bblock
count_free zero sb d b = 0
count_free (suc f) sb d b =
    let rest = count_free f sb d (b + bpb) in
    if ltb b sb.size then count_clear (min bpb (sb.size - b)) (d (bblock sb b)) 0 + rest else 0

unfoldable pub get_fs_stats : Superblock → Blocks → FsInfo
unfolding count_inodes count_free
get_fs_stats sb d =
    let s = count_inodes (sb.ninodes - 1) sb d 1 no_info in
    record s { free_disk_blocks = count_free (suc (sb.size / bpb)) sb d 0 }
