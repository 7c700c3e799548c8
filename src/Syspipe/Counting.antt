-- ===== src/Syspipe/Counting.antt =====
-- sys_pipe keeps the reference counts of files. The files that it has allocated and not yet given
-- to a descriptor are counted like the descriptors of one more process.
use pcs_ii.Base.{
  ℕ, ◌≡◌, ◌≢◌, refl, ap, ◌∙◌, sym, Option-cases, inl, inr, List, [], ◌∷◌, Option, none, some,
  get_elem?, get_elem?-set_known, get_elem?-set_ne, set, arith,
}
use pcs_ii.Base.Outcome.{Outcome, ret, panic, ◌>>=◌}
use pcs_ii.Kalloc.{Kmem}
use pcs_ii.File.{File, Files, fdalloc, argfd, ofile_of, Closing}
use pcs_ii.File.Counts.{count, count-set, count_all-set}
use pcs_ii.File.Refs.{IsCounted, fdalloc-set, IsCounted-same}
use pcs_ii.Syspipe.{pipealloc, pipe_fds, sys_pipe}
use pcs_ii.Syspipe.Allocation.{close_both-IsCounted, Connects, Allocates, pipealloc-Allocates}

-- The descriptors of a process that has one at all.
ofile_of-known :
    (s : Files) (p fd : ℕ) (x : Option ℕ)
    → get_elem? (ofile_of s p) fd ≡ some x
    → get_elem? s.ofiles p ≡ some (ofile_of s p)
ofile_of-known s p fd x h = go (get_elem? s.ofiles p) refl
  where
    nothing_at : (os : List (Option ℕ)) → os ≡ [] → get_elem? os fd ≡ some x → ⊥
    nothing_at os e a = ground (arith, ap (λ ys. get_elem? ys fd) e)

    go :
        (o : Option (List (Option ℕ)))
        → get_elem? s.ofiles p ≡ o
        → get_elem? s.ofiles p ≡ some (ofile_of s p)
    go none e = absurd (nothing_at (ofile_of s p) (rw (e, ofile_of) refl) h)
    go (some os) e = e ∙ ap some (sym (rw (e, ofile_of) refl))

-- What sys_pipe leaves.
abbrev pub PipeKeeps : ℕ → Outcome (Option (ℕ × ℕ) × List Closing × Files × Kmem) → Type 0
PipeKeeps p panic = ⊥
PipeKeeps p (ret (none, cs, s, k)) = IsCounted s
PipeKeeps p (ret (some (fd0, fd1), cs, s, k)) =
    IsCounted s
    × ((rf : ℕ) × (wf : ℕ) × (argfd (ofile_of s p) fd0 ≡ some rf)
        × (argfd (ofile_of s p) fd1 ≡ some wf)
        × Connects s.table rf wf)

-- The descriptors of process `p` after `fd0` and `fd1` have been given out.
both_given :
    (s : Files) (p rf wf fd0 fd1 : ℕ) (os os' : List (Option ℕ))
    → fdalloc (ofile_of s p) rf ≡ some (fd0, os)
    → fdalloc os wf ≡ some (fd1, os')
    → IsCounted (record { table = s.table; ofiles = (some wf ∷ some rf ∷ []) ∷ s.ofiles })
    → let t : Files = record s { ofiles = set s.ofiles p os' } in
      IsCounted t × (argfd (ofile_of t p) fd0 ≡ some rf) × (argfd (ofile_of t p) fd1 ≡ some wf)
unfolding argfd
both_given s p rf wf fd0 fd1 os os' e e' c =
    let (a, h) = fdalloc-set (ofile_of s p) os rf fd0 e in
    let (b, h') = fdalloc-set os os' wf fd1 e' in
    let there = ofile_of-known s p fd0 none a in
    let first : get_elem? os fd0 ≡ some (some rf) =
      ap (λ ys. get_elem? ys fd0) h ∙ get_elem?-set_known (ofile_of s p) fd0 none (some rf) a in
    let second : get_elem? os' fd1 ≡ some (some wf) =
      ap (λ ys. get_elem? ys fd1) h' ∙ get_elem?-set_known os fd1 none (some wf) b in
    let apart : fd1 ≢ fd0 =
      λ z. not_both (get_elem? os fd0) first (ap (get_elem? os) (sym z) ∙ b) in
    let kept : get_elem? os' fd0 ≡ some (some rf) =
      ap (λ ys. get_elem? ys fd0) h' ∙ get_elem?-set_ne os (some wf) apart ∙ first in
    let now : get_elem? (set s.ofiles p os') p ≡ some os' =
      get_elem?-set_known s.ofiles p (ofile_of s p) os' there in
    let held : ofile_of (record s { ofiles = set s.ofiles p os' }) p ≡ os' =
      rw (now, ofile_of) refl in
    (
      IsCounted-same s.table ((some wf ∷ some rf ∷ []) ∷ s.ofiles) (set s.ofiles p os')
          (λ i. omega (
            arith,
            count-set i (ofile_of s p) fd0 none (some rf) a,
            count-set i os fd1 none (some wf) b,
            count_all-set i s.ofiles p (ofile_of s p) os' there,
            ap (count i) h,
            ap (count i) h',
          ))
          c,
      ap (λ ys. argfd ys fd0) held ∙ rw (kept, argfd) refl,
      ap (λ ys. argfd ys fd1) held ∙ rw (second, argfd) refl,
    )
  where
    not_both : (o : Option (Option ℕ)) → o ≡ some (some rf) → o ≡ some none → ⊥
    not_both o x y = cc

pipe_fds-Keeps :
    (s : Files) (k : Kmem) (p rf wf : ℕ)
    → IsCounted (record { table = s.table; ofiles = (some wf ∷ some rf ∷ []) ∷ s.ofiles })
    → Connects s.table rf wf
    → PipeKeeps p (pipe_fds s k p rf wf)
unfolding pipe_fds
pipe_fds-Keeps s k p rf wf c n =
    let (cs, t, shut, d) = close_both-IsCounted s.table s.ofiles rf wf c in
    elim (Option-cases (fdalloc (ofile_of s p) rf)) [
      | inl e ↦ rw (e, pipe_fds) (rw (shut, ◌>>=◌) d)
      | inr ((fd0, os), e) ↦ elim (Option-cases (fdalloc os wf)) [
        | inl e' ↦
            let (a, h) = fdalloc-set (ofile_of s p) os rf fd0 e in
            let first : get_elem? os fd0 ≡ some (some rf) =
              ap (λ ys. get_elem? ys fd0) h
              ∙ get_elem?-set_known (ofile_of s p) fd0 none (some rf) a in
            rw (e, pipe_fds)
              (rw (e', pipe_fds)
                (rw (shut, ◌>>=◌)
                  (IsCounted-same t s.ofiles (set s.ofiles p (set os fd0 none))
                    (λ i. omega (
                      arith,
                      count-set i (ofile_of s p) fd0 none (some rf) a,
                      count-set i os fd0 (some rf) none first,
                      count_all-set i s.ofiles p (ofile_of s p) (set os fd0 none)
                          (ofile_of-known s p fd0 none a),
                      ap (count i) h,
                    ))
                    d)))
        | inr ((fd1, os'), e') ↦
            let (d', x, y) = both_given s p rf wf fd0 fd1 os os' e e' c in
            rw (e, pipe_fds) (rw (e', pipe_fds) (d', (rf, wf, x, y, n)))
      ]
    ]

-- From a state in which the reference count of every file is the number of descriptors that refer
-- to it, sys_pipe does not panic and leaves such a state, also when it fails. When it succeeds, the
-- two descriptors are open in the calling process, the first on a file that can only be read and the
-- second on one that can only be written, both of the same pipe.
pub sys_pipe-PipeKeeps : (s : Files) (k : Kmem) (p : ℕ) → IsCounted s → PipeKeeps p (sys_pipe s k p)
unfolding sys_pipe
sys_pipe-PipeKeeps s k p c = go (pipealloc s.table k) (pipealloc-Allocates s k c)
  where
    go :
        (r : Outcome (Option (ℕ × ℕ) × List File × Kmem))
        → Allocates s.ofiles r
        → PipeKeeps p (
            r >>= λ r. elim r.0 [
              | none ↦ ret (none, [], record s { table = r.1 }, r.2)
              | some (rf, wf) ↦ pipe_fds (record s { table = r.1 }) r.2 p rf wf
            ])
    go panic a = a
    go (ret (none, table, k')) a = a
    go (ret (some (rf, wf), table, k')) a =
        pipe_fds-Keeps (record s { table = table }) k' p rf wf a.0 a.1
