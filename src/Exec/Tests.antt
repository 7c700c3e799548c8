-- ===== src/Exec/Tests.antt =====
-- The stack of a program with one argument.
use pcs_ii.Base.{ℕ, ◌≡◌, refl, Option, none, some, [], ◌∷◌, arith, ◌==◌, if◌then◌else◌, true}
use pcs_ii.Memory.{Memory, strlen_from, memmove, copy_up}
use pcs_ii.Vm.{copyout_from, uva2ka, walkpgdir}
use pcs_ii.Inode.{Run, done, panics, waits, State}
use pcs_ii.Elf.{Machine}
use pcs_ii.Exec.{push_all}
use pcs_ii.Exec.Stack.{Frames, push_all-Frames}

-- The page directory is at 0x80101000, its first table at 0x80102000, which maps the second page;
-- the string "hi" is at 100.
abbrev bytes : Memory
bytes a =
    if a == 0x80101000
    then 7
    else if a == 0x80101001
    then 32
    else if a == 0x80101002
    then 16
    else if a == 0x80102004
    then 7
    else if a == 0x80102005
    then 48
    else if a == 0x80102006
    then 16
    else if a == 100
    then b'h'
    else if a == 101
    then b'i'
    else 0

abbrev empty_disk : State
empty_disk = record {
  sb = record { size = 0; ninodes = 0; inodestart = 0; bmapstart = 0 };
  blocks = λ b j. 0;
  cache = [];
  pid = 1;
  cwd = 0;
}

abbrev loaded : Machine
loaded = record { fs = empty_disk; kmem = record { use_lock = true; freelist = 0; mem = bytes } }

abbrev stack_pointer : Run (Option ℕ × Machine) → Option ℕ
stack_pointer (done (esp, m)) = esp
stack_pointer panics = none
stack_pointer waits = none

pushes_hi : stack_pointer (push_all 200 0x80200000 0x80101000 (100 ∷ []) 8192 loaded) ≡ some 8168
unfolding push_all strlen_from copyout_from uva2ka walkpgdir memmove copy_up
pushes_hi = refl

push_all-Frames_example :
    Frames 200 0x80200000 0x80101000
      (100 ∷ [])
      8192
      loaded
      (push_all 200 0x80200000 0x80101000 (100 ∷ []) 8192 loaded)
push_all-Frames_example =
    push_all-Frames 200 0x80200000 0x80101000 (100 ∷ []) 8192 loaded refl (omega arith)
