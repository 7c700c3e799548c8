-- ===== src/Namei.antt =====
-- fs.c: paths. A path is its bytes up to the NUL, and so is the name that skipelem copies.
pub mod Components
mod Tests
use pcs_ii.Base.{
  ℕ, zero, suc, ◌+◌, ◌-◌, ◌*◌, ◌/◌, ◌%◌, ◌^◌, Bool, true, false, not, ◌&&◌, ◌||◌, List, [], ◌∷◌,
  ◌++◌, Option, none, some, length, take, ltb, leb, ◌==◌, if◌then◌else◌,
}
use pcs_ii.Inode.{
  Run, done, panics, waits, State, M, pure, ◌>>=◌, ◌>>◌, get, fetch, iget, idup, ilock, iunlock,
}
use pcs_ii.Content.{Devsw, iput, iunlockput, t_dir}
use pcs_ii.Directory.{dirsiz, dirlookup}

abbrev pub slash : ℕ
slash = 47

-- while(*path == '/') path++;
unfoldable pub skip_slashes : List ℕ → List ℕ
skip_slashes [] = []
skip_slashes (c ∷ p) = if c == slash then skip_slashes p else c ∷ p

-- while(*path != '/' && *path != 0) path++; with the bytes that are passed.
unfoldable pub take_elem : List ℕ → List ℕ × List ℕ
take_elem [] = ([], [])
take_elem (c ∷ p) =
    let (elem, rest) = take_elem p in if c == slash then ([], c ∷ p) else (c ∷ elem, rest)

abbrev pub is_empty_path : List ℕ → Bool
is_empty_path [] = true
is_empty_path (c ∷ p) = false

-- The rest of the path, and the name.
unfoldable pub skipelem : List ℕ → Option (List ℕ × List ℕ)
unfolding skip_slashes take_elem
skipelem path =
    let p = skip_slashes path in
    let (elem, rest) = take_elem p in
    if is_empty_path p then none else some (skip_slashes rest, take dirsiz elem)

-- The loop of namex, with fuel for the elements of the path.
unfoldable pub walk : ℕ → Devsw → Bool → List ℕ → List ℕ → ℕ → M (Option ℕ × List ℕ)
unfolding skipelem ilock fetch iunlock iunlockput dirlookup iput
walk zero dv parent path name ip = pure (none, name)
walk (suc f) dv parent path name ip = elim (skipelem path) [
  | none ↦ if parent then (do iput ip; pure (none, name)) else pure (some ip, name)
  | some (rest, elem) ↦ (do
    ilock ip
    node ← fetch ip
    (if not (node.kind == t_dir)
        then (do iunlockput ip; pure (none, elem))
        else if parent && is_empty_path rest
        then (do iunlock ip; pure (some ip, elem))
        else (do
          next ← dirlookup dv ip elem
          (elim next [
            | none ↦ (do iunlockput ip; pure (none, elem))
            | some (i, off) ↦ (do iunlockput ip; walk f dv parent rest elem i)
          ]))))
]

abbrev pub starts_at_root : List ℕ → Bool
starts_at_root [] = false
starts_at_root (c ∷ p) = c == slash

-- ROOTDEV and ROOTINO are 1. The result has the name that is left in the caller's buffer.
unfoldable pub namex : Devsw → List ℕ → Bool → List ℕ → M (Option ℕ × List ℕ)
unfolding walk iget idup
namex dv path parent name = do
  s ← get
  ip ← (if starts_at_root path then iget 1 1 else idup s.cwd)
  walk (suc (length path)) dv parent path name ip

unfoldable pub namei : Devsw → List ℕ → M (Option ℕ)
unfolding namex
namei dv path = do r ← namex dv path false []; pure r.0

unfoldable pub nameiparent : Devsw → List ℕ → M (Option ℕ × List ℕ)
unfolding namex
nameiparent dv path = namex dv path true []
