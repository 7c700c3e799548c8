-- ===== src/Inode/Tests.antt =====
-- A run of iget: the root directory is in use once, and another slot is empty.
use pcs_ii.Base.{ℕ, arith, [], ◌∷◌, false, true}
use pcs_ii.Inode.{Inode, State, iget}
use pcs_ii.Inode.Cached.{IsUnique, Gets, iget-Gets}

abbrev slot : ℕ → ℕ → Inode
slot inum ref = record {
  dev = 1;
  inum = inum;
  ref = ref;
  lock = record { locked = false; pid = 0 };
  valid = true;
  kind = 1;
  major = 0;
  minor = 0;
  nlink = 1;
  size = 0;
  addrs = [];
}

abbrev two_slots : State
two_slots = record {
  sb = record { size = 10; ninodes = 8; inodestart = 3; bmapstart = 4 };
  blocks = λ b j. 0;
  cache = slot 1 1 ∷ slot 5 0 ∷ [];
  pid = 7;
  cwd = 0;
}

two_slots-IsUnique : IsUnique (slot 1 1 ∷ slot 5 0 ∷ [])
two_slots-IsUnique = record { at_most_one = λ dev inum. ground arith }

iget-Gets_example : Gets 1 6 two_slots (iget 1 6 two_slots)
iget-Gets_example = iget-Gets 1 6 two_slots two_slots-IsUnique
