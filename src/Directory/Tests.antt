-- ===== src/Directory/Tests.antt =====
-- A run of dirlookup: a directory with the entries . and a.
use pcs_ii.Base.{
  ◌==◌, ◌≡◌, ◌/◌, sym, subst, refl, arith, inl, ◌∷◌, [], none, true, get_or, if◌then◌else◌,
}
use pcs_ii.Inode.{Inode, State}
use pcs_ii.Content.{Devsw}
use pcs_ii.Content.Reading.{HasBlock}
use pcs_ii.Directory.{dirlookup}
use pcs_ii.Directory.Lookup.{IsDirectory, Looks, dirlookup-Looks}

abbrev no_devices : Devsw
no_devices = record { read = λ _. none; write = λ _. none }

abbrev root : Inode
root = record {
  dev = 1;
  inum = 1;
  ref = 1;
  lock = record { locked = true; pid = 7 };
  valid = true;
  kind = 1;
  major = 0;
  minor = 0;
  nlink = 1;
  size = 32;
  addrs = 20 ∷ 0 ∷ [];
}

abbrev disk : State
disk = record {
  sb = record { size = 100; ninodes = 8; inodestart = 3; bmapstart = 4 };
  blocks = λ b j.
      if b == 20
      then get_or (1 ∷ 0 ∷ 46 ∷ 0 ∷ 0 ∷ 0 ∷ 0 ∷ 0 ∷ 0 ∷ 0 ∷ 0 ∷ 0 ∷ 0 ∷ 0 ∷ 0 ∷ 0 ∷ 5 ∷ 0 ∷ 97 ∷ [])
          j 0
      else 0;
  cache = root ∷ [];
  pid = 7;
  cwd = 0;
}

disk-IsDirectory : IsDirectory disk 0 root
disk-IsDirectory = record {
  in_cache = refl;
  is_dir = refl;
  has = λ a h. let z : a / 512 ≡ 0 = omega arith in subst (HasBlock disk root) (sym z) first_block;
  whole = (refl, omega arith);
}
  where
    first_block : HasBlock disk root 0
    first_block = record {
      in_file = omega arith;
      has_indirect = inl (omega arith);
      has_addr = λ e. ground arith;
    }

dirlookup-Looks_example : Looks disk root (97 ∷ []) (dirlookup no_devices 0 (97 ∷ []) disk)
dirlookup-Looks_example = dirlookup-Looks no_devices disk 0 root (97 ∷ []) disk-IsDirectory
