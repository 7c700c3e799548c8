-- ===== src/Lifecycle/Leaving.antt =====
-- exit of proc.c closes every descriptor of the process.
use pcs_ii.Base.{
  ℕ, zero, suc, ◌+◌, ◌<◌, ◌≡◌, refl, ap, ◌∙◌, false, Option-cases, inl, inr, List, [], ◌∷◌, ◌++◌,
  get_or, Option, none, some, get_elem?, get_elem?-set_known, set, subst, arith,
}
use pcs_ii.Base.Outcome.{Outcome, ret, panic, ◌>>=◌}
use pcs_ii.File.{File, Files, argfd, fileclose, ofile_of, sys_close, Closing, put_inode}
use pcs_ii.File.Refs.{IsCounted, Keeps, argfd-open, sys_close-Keeps}
use pcs_ii.Proc.{Kernel, parent_is, exit_locked}
use pcs_ii.Lifecycle.{Dirs, closings, close_all, exit}

-- Descriptor `fd` of process `p` is not open.
abbrev pub IsShut : Files → ℕ → ℕ → Type 0
IsShut s p fd = argfd (ofile_of s p) fd ≡ none

-- The files are counted, descriptor `fd` is shut, and what was shut before still is.
abbrev Shuts {ℓ} : {A : Type ℓ} → Files → ℕ → ℕ → Outcome (A × Files) → Type 0
Shuts s p fd panic = ⊥
Shuts s p fd (ret r) = IsCounted r.1 × IsShut r.1 p fd × ((j : ℕ) → IsShut s p j → IsShut r.1 p j)

argfd-set :
    (os : List (Option ℕ)) (fd : ℕ) (x : Option ℕ)
    → get_elem? os fd ≡ some x
    → argfd (set os fd none) fd ≡ none
unfolding argfd
argfd-set os fd x e = rw (get_elem?-set_known os fd x none e, argfd) refl

argfd-set_still :
    (os : List (Option ℕ)) (fd j : ℕ) → argfd os j ≡ none → argfd (set os fd none) j ≡ none
unfolding argfd
argfd-set_still [] fd j h = h
argfd-set_still (o ∷ os) zero zero h = refl
argfd-set_still (o ∷ os) zero (suc j) h = h
argfd-set_still (o ∷ os) (suc fd) zero h = h
argfd-set_still (o ∷ os) (suc fd) (suc j) h = argfd-set_still os fd j h

ofile_of-set :
    (table : List File) (ofiles : List (List (Option ℕ))) (p : ℕ) (os new : List (Option ℕ))
    → get_elem? ofiles p ≡ some os
    → ofile_of (record { table = table; ofiles = set ofiles p new }) p ≡ new
ofile_of-set table ofiles p os new e = rw (get_elem?-set_known ofiles p os new e, ofile_of) refl

sys_close-Shuts : (s : Files) (p fd : ℕ) → IsCounted s → Shuts s p fd (sys_close s p fd)
unfolding sys_close
sys_close-Shuts s p fd c = elim (Option-cases (argfd (ofile_of s p) fd)) [
  | inl e ↦ rw (e, sys_close) (c, e, λ j h. h)
  | inr (i, e) ↦
      let (a, b) = argfd-open s p fd i e in
      rw (e, sys_close)
        (closed a b (fileclose s.table i)
          (subst Keeps (rw (e, sys_close) refl) (sys_close-Keeps s p fd c)))
]
  where
    closed :
        {i : ℕ}
        → get_elem? s.ofiles p ≡ some (ofile_of s p)
        → get_elem? (ofile_of s p) fd ≡ some (some i)
        → (o : Outcome (Closing × List File))
        → Keeps (
            o >>= λ r. ret (
              some r.0,
              record { table = r.1; ofiles = set s.ofiles p (set (ofile_of s p) fd none) },
            ))
        → Shuts s p fd (
            o >>= λ r. ret (
              some r.0,
              record { table = r.1; ofiles = set s.ofiles p (set (ofile_of s p) fd none) },
            ))
    closed a b panic k = absurd k
    closed {i} a b (ret (x, table)) k =
        let eq = ofile_of-set table s.ofiles p (ofile_of s p) (set (ofile_of s p) fd none) a in
        (
          k,
          ap (λ os. argfd os fd) eq ∙ argfd-set (ofile_of s p) fd (some i) b,
          λ j h. ap (λ os. argfd os j) eq ∙ argfd-set_still (ofile_of s p) fd j h,
        )

-- The files after a loop that shut `n` descriptors from `fd` on.
abbrev ShutsAll : Files → ℕ → ℕ → ℕ → Outcome (List Closing × Files) → Type 0
ShutsAll s p fd n o =
    (cs : List Closing) × (s' : Files) × (o ≡ ret (cs, s'))
    × IsCounted s'
    × ((j : ℕ) → j < n → IsShut s' p (fd + j))
    × ((j : ℕ) → IsShut s p j → IsShut s' p j)

close_all-ShutsAll :
    (n : ℕ) (s : Files) (p fd : ℕ) → IsCounted s → ShutsAll s p fd n (close_all n s p fd)
unfolding close_all
close_all-ShutsAll zero s p fd c = ([], s, refl, c, λ j h. absurd (omega arith), λ j h. h)
close_all-ShutsAll (suc n) s p fd c =
    go (sys_close s p fd) refl (sys_close-Shuts s p fd c)
      (λ t k. close_all-ShutsAll n t p (fd + 1) k)
  where
    go :
        (o : Outcome (Option Closing × Files))
        → sys_close s p fd ≡ o
        → Shuts s p fd o
        → ((t : Files) → IsCounted t → ShutsAll t p (fd + 1) n (close_all n t p (fd + 1)))
        → ShutsAll s p fd (suc n) (close_all (suc n) s p fd)
    go panic e h rest = absurd h
    go (ret (x, t)) e (k, shut, still) rest =
        let (cs, s', a, b, all, more) = rest t k in
        (
          closings x ++ cs,
          s',
          rw (e, ◌>>=◌) (rw (a, ◌>>=◌) refl),
          b,
          λ j h.
              elim j as (λ (i : ℕ). i < suc n → IsShut s' p (fd + i)) [
                | zero ↦ λ _. ap (λ (i : ℕ). argfd (ofile_of s' p) i) (omega arith) ∙ more fd shut
                | suc i ↦
                    λ l. ap (λ (m : ℕ). argfd (ofile_of s' p) m) (omega arith) ∙ all i (omega arith)
              ]
                h,
          λ j h. more j (still j h),
        )

-- A process other than init exits without a panic: the reference counts still are the numbers of
-- descriptors, its 16 descriptors are shut, and the last of what is left to close is its working
-- directory.
pub exit-IsShut :
    (k : Kernel) (s : Files) (ds : Dirs) (nproc cur : ℕ) (parent : Option ℕ)
    → IsCounted s
    → parent_is k.initproc cur ≡ false
    → (cs : List Closing) × (s' : Files) × (exit k s ds nproc cur parent
        ≡ ret (
          cs ++ (put_inode (get_or ds.cwds cur 0) ∷ []),
          record k { procs = exit_locked nproc k.procs cur parent k.initproc },
          s',
        ))
      × IsCounted s'
      × ((fd : ℕ) → fd < 16 → IsShut s' cur fd)
unfolding exit exit_locked
exit-IsShut k s ds nproc cur parent c e =
    let (cs, s', a, b, all, _) = close_all-ShutsAll 16 s cur 0 c in
    (
      cs,
      s',
      rw (exit, e, a, ◌>>=◌) refl,
      b,
      λ fd h. ap (λ (i : ℕ). argfd (ofile_of s' cur) i) (omega arith) ∙ all fd h,
    )
