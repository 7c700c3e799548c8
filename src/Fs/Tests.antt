-- ===== src/Fs/Tests.antt =====
-- Runs of the bitmap: a disk of 10 blocks, all in use or all but block 3.
use pcs_ii.Base.{ℕ, ◌/◌, ◌<◌, true, ◌||◌, ◌==◌, refl, ◌≡◌, arith}
use pcs_ii.Base.Outcome.{ret}
use pcs_ii.Fs.{
  Superblock, Blocks, bpb, bfree, balloc, balloc_from, find_clear, bit_set, bblock, bzero, put_byte,
}
use pcs_ii.Fs.Lowest.{IsFirst, in_use}
use pcs_ii.Fs.Freeing.{bfree-balloc}

abbrev small : Superblock
small = record { size = 10; ninodes = 8; inodestart = 3; bmapstart = 4 }

abbrev but_three : Blocks
but_three b i = 247

takes_three : balloc small but_three ≡ ret (3, bzero (put_byte but_three 4 0 255) 3)
unfolding balloc balloc_from find_clear bit_set bblock
takes_three = refl

marks_itself : (c : ℕ) → c < 10 → in_use small but_three (bblock small c) ≡ true
unfolding bit_set bblock
marks_itself c l = let q : c / bpb ≡ 0 = omega arith in rw q refl

bfree-balloc_example :
    IsFirst (in_use small but_three) 0 10 3
    × ((c : ℕ)
        → c < 10
        → in_use small (bzero (put_byte but_three 4 0 255) 3) c
          ≡ (c == 3 || in_use small but_three c))
    × ((d : Blocks) × (bfree small (bzero (put_byte but_three 4 0 255) 3) 3 ≡ ret d)
        × ((c : ℕ) → c < 10 → in_use small d c ≡ in_use small but_three c))
bfree-balloc_example =
    bfree-balloc small but_three (bzero (put_byte but_three 4 0 255) 3) 3 takes_three marks_itself
