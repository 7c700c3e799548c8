-- ===== src/Mkfs/Tests.antt =====
-- The image with an empty root directory.
use pcs_ii.Base.{ℕ, ◌-◌, ◌<◌, ◌≡◌, refl, [], ltb}
use pcs_ii.Base.Outcome.{Outcome, ret, panic}
use pcs_ii.Ide.{fssize}
use pcs_ii.Fs.{get_fs_stats}
use pcs_ii.Fs.Lowest.{in_use}
use pcs_ii.Mkfs.{Disk, sb, blank, mkfs}
use pcs_ii.Mkfs.Image.{Gives, mkfs-Gives}

abbrev made : Outcome Disk → Disk
made (ret s) = s
made panic = blank

abbrev empty_root : Disk
empty_root = made (mkfs [])

makes_root : mkfs [] ≡ ret empty_root
unfolding mkfs
makes_root = refl

one_block_taken : empty_root.freeblock ≡ 60
unfolding mkfs
one_block_taken = refl

mkfs-Gives_example :
    ((b : ℕ) → b < fssize → in_use sb empty_root.blocks b ≡ ltb b empty_root.freeblock)
    × ((get_fs_stats sb empty_root.blocks).free_disk_blocks ≡ fssize - empty_root.freeblock)
    × Gives empty_root.blocks empty_root.freeblock
mkfs-Gives_example = mkfs-Gives [] empty_root makes_root
