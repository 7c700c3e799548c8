-- ===== src/Content/Tests.antt =====
-- Reads and writes of a file of 600 bytes in blocks 20 and 21.
use pcs_ii.Base.{
  ℕ, zero, suc, ◌/◌, ◌<◌, ◌≤◌, ◌≡◌, ◌≢◌, refl, arith, ◌⊎◌, inl, [], ◌∷◌, none, some, true,
}
use pcs_ii.Inode.{Inode, State, done}
use pcs_ii.Content.{Devsw, readi, writei, slice}
use pcs_ii.Content.Reading.{HasBlock, addr_of, byte_of, readi-eq}
use pcs_ii.Content.Writing.{IsFile, readi-writei}

abbrev no_devices : Devsw
no_devices = record { read = λ _. none; write = λ _. none }

abbrev file : Inode
file = record {
  dev = 1;
  inum = 5;
  ref = 1;
  lock = record { locked = true; pid = 7 };
  valid = true;
  kind = 2;
  major = 0;
  minor = 0;
  nlink = 1;
  size = 600;
  addrs = 20 ∷ 21 ∷ 0 ∷ 0 ∷ 0 ∷ 0 ∷ 0 ∷ 0 ∷ 0 ∷ 0 ∷ 0 ∷ 0 ∷ 0 ∷ [];
}

abbrev disk : State
disk = record {
  sb = record { size = 100; ninodes = 8; inodestart = 3; bmapstart = 4 };
  blocks = λ b j. b;
  cache = file ∷ [];
  pid = 7;
  cwd = 0;
}

disk-HasBlock : (bn : ℕ) → bn < 2 → HasBlock disk file bn
disk-HasBlock zero h = record {
  in_file = omega arith;
  has_indirect = inl (omega arith);
  has_addr = λ e. ground arith;
}
disk-HasBlock (suc zero) h = record {
  in_file = omega arith;
  has_indirect = inl (omega arith);
  has_addr = λ e. ground arith;
}
disk-HasBlock (suc (suc bn)) h = absurd (omega arith)

readi-eq_example : readi no_devices 0 510 4 disk ≡ done (some (20 ∷ 20 ∷ 21 ∷ 21 ∷ []), disk)
unfolding slice
readi-eq_example =
    readi-eq no_devices disk 0 file 510 4 refl refl (λ a h. disk-HasBlock (a / 512) (omega arith))

disk-IsFile : IsFile disk 0 file 2
disk-IsFile = record {
  in_cache = refl;
  no_device = refl;
  mapped = record { has = disk-HasBlock; distinct = distinct; apart = apart };
  whole = (omega arith, omega arith);
}
  where
    distinct : (x y : ℕ) → x < 2 → y < 2 → addr_of disk file x ≡ addr_of disk file y → x ≡ y
    distinct zero zero a b e = refl
    distinct zero (suc zero) a b e = absurd (ground arith)
    distinct (suc zero) zero a b e = absurd (ground arith)
    distinct (suc zero) (suc zero) a b e = refl
    distinct (suc (suc x)) y a b e = absurd (omega arith)
    distinct x (suc (suc y)) a b e = absurd (omega arith)

    apart : (bn : ℕ) → bn < 2 → addr_of disk file bn ≢ 0
    apart zero h e = ground arith
    apart (suc zero) h e = ground arith
    apart (suc (suc bn)) h e = absurd (omega arith)

readi-writei_example :
    (s' : State) × (writei no_devices 0 (7 ∷ 8 ∷ 9 ∷ []) 511 disk ≡ done (some 3, s'))
    × (readi no_devices 0 511 3 s' ≡ done (some (7 ∷ 8 ∷ 9 ∷ []), s'))
    × ((a : ℕ) → a < 600 → (a < 511) ⊎ (514 ≤ a) → byte_of s' file a ≡ byte_of disk file a)
    × IsFile s' 0 file 2
readi-writei_example =
    readi-writei no_devices disk 0 file 2 511 (7 ∷ 8 ∷ 9 ∷ []) disk-IsFile (omega arith)
