-- ===== src/File/Tests.antt =====
-- Runs of the descriptor calls: one process, whose descriptor 0 is the file in slot 0.
use pcs_ii.Base.{ℕ, zero, suc, ◌≡◌, ◌<◌, refl, ◌∷◌, [], none, some, arith, true, get_elem?}
use pcs_ii.File.{File, fd_inode, Files, sys_close}
use pcs_ii.File.Counts.{count_all}
use pcs_ii.File.Refs.{IsCounted, Keeps, sys_close-Keeps}

abbrev opened : File
opened = record {
  kind = fd_inode;
  ref = 1;
  readable = true;
  writable = true;
  pipe = 0;
  ip = 9;
  off = 0;
}

abbrev one_file : Files
one_file = record { table = opened ∷ []; ofiles = (some 0 ∷ none ∷ []) ∷ [] }

one_file-IsCounted : IsCounted one_file
one_file-IsCounted = record { counted = counted; in_table = in_table }
  where
    counted :
        (i : ℕ) (f : File)
        → get_elem? (opened ∷ []) i ≡ some f
        → f.ref ≡ count_all i ((some 0 ∷ none ∷ []) ∷ [])
    counted zero f h = ground arith
    counted (suc i) f h = absurd (ground arith)

    in_table :
        (i : ℕ)
        → 0 < count_all i ((some 0 ∷ none ∷ []) ∷ [])
        → (f : File) × (get_elem? (opened ∷ []) i ≡ some f)
    in_table zero h = (opened, refl)
    in_table (suc i) h = absurd (ground arith)

sys_close-Keeps_example : Keeps (sys_close one_file 0 0)
sys_close-Keeps_example = sys_close-Keeps one_file 0 0 one_file-IsCounted
