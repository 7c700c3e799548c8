-- ===== src/Syspipe/Tests.antt =====
-- sys_pipe with two free files and with one.
use pcs_ii.Base.{ℕ, zero, suc, ◌≡◌, refl, [], ◌∷◌, none, some, false, get_elem?, arith}
use pcs_ii.Base.Outcome.{ret}
use pcs_ii.Kalloc.{Kmem}
use pcs_ii.File.{File, fd_none, Files, find_free}
use pcs_ii.File.Counts.{count_all}
use pcs_ii.File.Refs.{IsCounted}
use pcs_ii.Syspipe.{sys_pipe}
use pcs_ii.Syspipe.Counting.{PipeKeeps, sys_pipe-PipeKeeps}

abbrev unused_file : File
unused_file = record {
  kind = fd_none;
  ref = 0;
  readable = false;
  writable = false;
  pipe = 0;
  ip = 0;
  off = 0;
}

abbrev memory : Kmem
memory = record { use_lock = false; freelist = 2148548608; mem = λ _. 0 }

abbrev room : Files
room = record { table = unused_file ∷ []; ofiles = (none ∷ none ∷ []) ∷ [] }

one_free_file : sys_pipe room memory 0 ≡ ret (none, [], room, memory)
unfolding sys_pipe find_free
one_free_file = refl

abbrev two_free_files : Files
two_free_files = record { table = unused_file ∷ unused_file ∷ []; ofiles = (none ∷ none ∷ []) ∷ [] }

two_free_files-IsCounted : IsCounted two_free_files
two_free_files-IsCounted = record { counted = counted; in_table = λ i h. absurd (ground arith) }
  where
    counted :
        (i : ℕ) (f : File)
        → get_elem? (unused_file ∷ unused_file ∷ []) i ≡ some f
        → f.ref ≡ count_all i ((none ∷ none ∷ []) ∷ [])
    counted zero f h = ground arith
    counted (suc zero) f h = ground arith
    counted (suc (suc i)) f h = absurd (ground arith)

sys_pipe-PipeKeeps_example : PipeKeeps 0 (sys_pipe two_free_files memory 0)
sys_pipe-PipeKeeps_example = sys_pipe-PipeKeeps two_free_files memory 0 two_free_files-IsCounted
