-- ===== src/Fileio/Tests.antt =====
-- A write of 1540 bytes, which takes two pieces, to a file of four blocks, and a read of them.
use pcs_ii.Base.{
  ℕ, zero, suc, ◌+◌, ◌<◌, ◌≤◌, ◌≡◌, refl, arith, ◌⊎◌, inl, List, [], ◌∷◌, none, some, false, true,
  length, replicate, length-replicate,
}
use pcs_ii.Inode.{Inode, State, done}
use pcs_ii.Content.{Devsw}
use pcs_ii.Content.Reading.{addr_of, byte_of}
use pcs_ii.Content.Writing.{IsFile}
use pcs_ii.Pipe.{Pipe}
use pcs_ii.File.{File, fd_inode}
use pcs_ii.Fileio.{filewrite, to_inode, fileread, of_inode}
use pcs_ii.Fileio.Locks.{IsIdle}
use pcs_ii.Fileio.Loops.{Refers}
use pcs_ii.Fileio.Pieces.{fileread-filewrite}

abbrev no_devices : Devsw
no_devices = record { read = λ _. none; write = λ _. none }

abbrev four_blocks : Inode
four_blocks = record {
  dev = 1;
  inum = 5;
  ref = 2;
  lock = record { locked = false; pid = 0 };
  valid = true;
  kind = 2;
  major = 0;
  minor = 0;
  nlink = 1;
  size = 2000;
  addrs = 20 ∷ 21 ∷ 22 ∷ 23 ∷ 0 ∷ 0 ∷ 0 ∷ 0 ∷ 0 ∷ 0 ∷ 0 ∷ 0 ∷ 0 ∷ [];
}

abbrev disk : State
disk = record {
  sb = record { size = 100; ninodes = 8; inodestart = 3; bmapstart = 4 };
  blocks = λ b j. b;
  cache = four_blocks ∷ [];
  pid = 7;
  cwd = 0;
}

addr_of_lem : (bn : ℕ) → bn < 4 → addr_of disk four_blocks bn ≡ bn + 20
addr_of_lem zero h = refl
addr_of_lem (suc zero) h = refl
addr_of_lem (suc (suc zero)) h = refl
addr_of_lem (suc (suc (suc zero))) h = refl
addr_of_lem (suc (suc (suc (suc bn)))) h = absurd (omega arith)

disk-IsFile : IsFile disk 0 four_blocks 4
disk-IsFile = record {
  in_cache = refl;
  no_device = refl;
  mapped = record {
    has = λ bn h. record {
      in_file = omega (arith, h);
      has_indirect = inl (omega (arith, h));
      has_addr = λ e. omega (arith, e, addr_of_lem bn h);
    };
    distinct = λ x y h l e. omega (arith, e, addr_of_lem x h, addr_of_lem y l);
    apart = λ bn h e. omega (arith, e, addr_of_lem bn h);
  };
  whole = (omega arith, omega arith);
}

abbrev opened : File
opened = record {
  kind = fd_inode;
  ref = 1;
  readable = true;
  writable = true;
  pipe = 0;
  ip = 0;
  off = 300;
}

abbrev sevens : List ℕ
sevens = replicate 1540 7

has_room : 300 + length sevens ≤ 2000
has_room = omega (arith, length-replicate {A = ℕ} 1540 7)

abbrev no_pipe : Pipe
no_pipe = record { buf = []; nread = 0; nwrite = 0; readopen = false; writeopen = false }

opened-Refers : Refers opened 0
opened-Refers = record { of_kind = refl; at_inode = refl }

four_blocks-IsIdle : IsIdle four_blocks
four_blocks-IsIdle = record { used = refl; valid = refl; unlocked = refl }

fileread-filewrite_example :
    (s' : State) × (s'' : State) × (filewrite no_devices false opened no_pipe sevens disk
      ≡ done (to_inode (some (length sevens)) (300 + length sevens), s'))
    × (fileread no_devices false opened no_pipe (length sevens) s'
        ≡ done (of_inode (some sevens) (300 + length sevens), s''))
    × ((a : ℕ)
        → a < 2000
        → (a < 300) ⊎ (300 + length sevens ≤ a)
        → byte_of s'' four_blocks a ≡ byte_of disk four_blocks a)
fileread-filewrite_example =
    fileread-filewrite no_devices false opened opened no_pipe disk 0 four_blocks 4 sevens
      opened-Refers opened-Refers refl refl refl disk-IsFile four_blocks-IsIdle has_room
