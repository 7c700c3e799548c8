-- ===== src/File/Refs.antt =====
-- The reference count of every open file is the number of descriptors that refer to it.
use pcs_ii.Base.{
  modify, ltb→lt, ℕ, ◌+◌, ◌-◌, ◌≤◌, ◌<◌, ◌≡◌, ◌≢◌, refl, ap, ◌∙◌, sym, Bool-cases, Option-cases,
  inl, inr, List, [], Option, none, some, set, get_elem?, ltb, ◌==◌, arith, ==_iff, ==-ne, ==-refl,
}
use pcs_ii.Base.Outcome.{Outcome, ret, panic}
use pcs_ii.File.{
  File, Files, with_ref, released, closing, nothing, free_fd, fdalloc, argfd, ofile_of, filedup,
  fileclose, sys_dup, sys_close, Closing,
}
use pcs_ii.File.Counts.{
  refers, count, count_all, count-set, count_all-set, get_elem?-modify, free_fd-none, count-le,
  count_all-le,
}

pub record IsCounted (s : Files) : Type 0 where
  pub counted : (i : ℕ) (f : File) → get_elem? s.table i ≡ some f → f.ref ≡ count_all i s.ofiles
  pub in_table : (i : ℕ) → 0 < count_all i s.ofiles → (f : File) × (get_elem? s.table i ≡ some f)

-- The call returns, and the counts agree.
abbrev pub Keeps {ℓ} : {A : Type ℓ} → Outcome (A × Files) → Type 0
Keeps panic = ⊥
Keeps (ret r) = IsCounted r.1

-- A change of one count, in the table and among the descriptors.
pub recount :
    (s : Files) (i : ℕ) (f : File) (g : File → File) (ofiles : List (List (Option ℕ)))
    → IsCounted s
    → get_elem? s.table i ≡ some f
    → (g f).ref ≡ count_all i ofiles
    → ((j : ℕ) → i ≢ j → count_all j ofiles ≡ count_all j s.ofiles)
    → IsCounted (record { table = modify s.table i g; ofiles = ofiles })
recount s i f g ofiles c e h o = record {
  counted = λ j x a. elim (Bool-cases (i == j)) [
    | inl z ↦ same j x a ((==_iff i j).0 z)
    | inr z ↦
        c.counted j x (ground (arith, get_elem?-modify s.table i j g)) ∙ sym (o j (ground arith))
  ];
  in_table = λ j a. elim (Bool-cases (i == j)) [
    | inl z ↦ (g f, get_elem?-modify s.table i j g ∙ rw (z, ← (==_iff i j).0 z, e) refl)
    | inr z ↦
        let (x, b) = c.in_table j (omega (arith, o j (ground arith))) in
        (x, get_elem?-modify s.table i j g ∙ rw z b)
  ];
}
  where
    same :
        (j : ℕ) (x : File)
        → get_elem? (modify s.table i g) j ≡ some x
        → i ≡ j
        → x.ref ≡ count_all j ofiles
    same j x a z =
        let b : get_elem? (modify s.table i g) i ≡ some (g f) =
          get_elem?-modify s.table i i g ∙ rw (==-refl i, e) refl in
        let d : some x ≡ some (g f) = sym a ∙ ap (get_elem? (modify s.table i g)) (sym z) ∙ b in
        let q : x ≡ g f = cc in ap (λ (y : File). y.ref) q ∙ h ∙ ap (λ k. count_all k ofiles) z

pub refers_self : (i : ℕ) → refers i (some i) ≡ 1
refers_self i = rw (==-refl i) refl

pub refers-other : (i j : ℕ) → i ≢ j → refers j (some i) ≡ 0
refers-other i j h = rw (==-ne i j h) refl

-- The descriptors of a process that has an open one.
pub argfd-open :
    (s : Files) (p fd f : ℕ)
    → argfd (ofile_of s p) fd ≡ some f
    → (get_elem? s.ofiles p ≡ some (ofile_of s p)) × (get_elem? (ofile_of s p) fd ≡ some (some f))
unfolding argfd
argfd-open s p fd f h = (go (get_elem? s.ofiles p) refl, slot (get_elem? (ofile_of s p) fd) refl)
  where
    closed : (os : List (Option ℕ)) → os ≡ [] → argfd os fd ≡ some f → ⊥
    closed os e a = ground (arith, ap (λ xs. argfd xs fd) e)

    go :
        (o : Option (List (Option ℕ)))
        → get_elem? s.ofiles p ≡ o
        → get_elem? s.ofiles p ≡ some (ofile_of s p)
    go none e = absurd (closed (ofile_of s p) (rw (e, ofile_of) refl) h)
    go (some os) e = e ∙ ap some (sym (rw (e, ofile_of) refl))

    slot :
        (o : Option (Option ℕ))
        → get_elem? (ofile_of s p) fd ≡ o
        → get_elem? (ofile_of s p) fd ≡ some (some f)
    slot none e = ground arith
    slot (some o) e = ground arith

pub fdalloc-set :
    (os os' : List (Option ℕ)) (f fd : ℕ)
    → fdalloc os f ≡ some (fd, os')
    → (get_elem? os fd ≡ some none) × (os' ≡ set os fd (some f))
unfolding fdalloc
fdalloc-set os os' f fd h = elim (Option-cases (free_fd os 0)) [
  | inl e ↦ absurd (ground arith)
  | inr (n, e) ↦
      let (m, a, b) = free_fd-none os 0 n e in
      let same : n ≡ fd = ground arith in (ap (get_elem? os) (omega arith) ∙ b, ground arith)
]

pub filedup_lem :
    (fs : List File) (i : ℕ) (f : File)
    → get_elem? fs i ≡ some f
    → 1 ≤ f.ref
    → filedup fs i ≡ ret (modify fs i (with_ref (f.ref + 1)))
unfolding filedup
filedup_lem fs i f e h = ground arith

-- From a state in which the reference count of every file is the number of descriptors that refer
-- to it, sys_dup does not panic and leaves such a state.
pub sys_dup-Keeps : (s : Files) (p fd : ℕ) → IsCounted s → Keeps (sys_dup s p fd)
unfolding sys_dup
sys_dup-Keeps s p fd c = elim (Option-cases (argfd (ofile_of s p) fd)) [
  | inl e ↦ rw (e, sys_dup) c
  | inr (i, e) ↦ elim (Option-cases (fdalloc (ofile_of s p) i)) [
    | inl d ↦ rw (e, sys_dup) (rw (d, sys_dup) c)
    | inr ((fd', os'), d) ↦
        let (a, b) = argfd-open s p fd i e in
        let (g, h) = fdalloc-set (ofile_of s p) os' i fd' d in
        let one = count-le i (ofile_of s p) fd b in
        let all = count_all-le i s.ofiles p (ofile_of s p) a in
        let (f, t) = c.in_table i (omega arith) in
        let n = c.counted i f t in
        let count_new = λ (j : ℕ). count-set j (ofile_of s p) fd' none (some i) g in
        let all_new = λ (j : ℕ). count_all-set j s.ofiles p (ofile_of s p) os' a in
        let same = λ (j : ℕ). ap (count j) h in
        rw (e, sys_dup)
          (rw (d, sys_dup)
            (rw (filedup_lem s.table i f t (omega arith)) (
              recount s i f (with_ref (f.ref + 1)) (set s.ofiles p os') c t
                (omega (arith, n, count_new i, all_new i, same i, refers_self i))
                (λ j z. omega (arith, count_new j, all_new j, same j, refers-other i j z)))))
  ]
]

fileclose_last :
    (fs : List File) (i : ℕ) (f : File)
    → get_elem? fs i ≡ some f
    → f.ref ≡ 1
    → fileclose fs i ≡ ret (closing f, modify fs i released)
unfolding fileclose
fileclose_last fs i f e h = rw (e, fileclose) (rw h refl)

fileclose_more :
    (fs : List File) (i : ℕ) (f : File)
    → get_elem? fs i ≡ some f
    → 1 < f.ref
    → fileclose fs i ≡ ret (nothing, modify fs i (with_ref (f.ref - 1)))
unfolding fileclose
fileclose_more fs i f e h = ground arith

-- Descriptors that refer to the same files, as often.
pub IsCounted-same :
    (table : List File) (os os' : List (List (Option ℕ)))
    → ((i : ℕ) → count_all i os ≡ count_all i os')
    → IsCounted (record { table = table; ofiles = os })
    → IsCounted (record { table = table; ofiles = os' })
IsCounted-same table os os' h c = record {
  counted = λ i f e. c.counted i f e ∙ h i;
  in_table = λ i e. c.in_table i (omega (arith, h i));
}

-- fileclose of a file that one descriptor less refers to afterwards.
pub fileclose-IsCounted :
    (s : Files) (i : ℕ) (os : List (List (Option ℕ)))
    → IsCounted s
    → count_all i s.ofiles ≡ count_all i os + 1
    → ((j : ℕ) → i ≢ j → count_all j os ≡ count_all j s.ofiles)
    → (x : Closing) × (table : List File) × (fileclose s.table i ≡ ret (x, table))
      × IsCounted (record { table = table; ofiles = os })
fileclose-IsCounted s i os c one others =
    let (f, t) = c.in_table i (omega arith) in
    let n = c.counted i f t in
    elim (Bool-cases (ltb 1 f.ref)) [
      | inl m ↦ (
        nothing,
        modify s.table i (with_ref (f.ref - 1)),
        fileclose_more s.table i f t (ltb→lt 1 f.ref m),
        recount s i f (with_ref (f.ref - 1)) os c t (omega (arith, n, one)) others,
      )
      | inr m ↦
          let last : f.ref ≡ 1 = ground (arith, n, one, m) in
          (
            closing f,
            modify s.table i released,
            fileclose_last s.table i f t last,
            recount s i f released os c t (omega (arith, n, one, last)) others,
          )
    ]

-- From a state in which the reference count of every file is the number of descriptors that refer
-- to it, sys_close does not panic and leaves such a state.
pub sys_close-Keeps : (s : Files) (p fd : ℕ) → IsCounted s → Keeps (sys_close s p fd)
unfolding sys_close
sys_close-Keeps s p fd c = elim (Option-cases (argfd (ofile_of s p) fd)) [
  | inl e ↦ rw (e, sys_close) c
  | inr (i, e) ↦
      let (a, b) = argfd-open s p fd i e in
      let os' = set (ofile_of s p) fd none in
      let count_new = λ (j : ℕ). count-set j (ofile_of s p) fd (some i) none b in
      let all_new = λ (j : ℕ). count_all-set j s.ofiles p (ofile_of s p) os' a in
      let (x, table, h, k) =
        fileclose-IsCounted s i (set s.ofiles p os') c
          (omega (arith, count_new i, all_new i, refers_self i))
          (λ j z. omega (arith, count_new j, all_new j, refers-other i j z)) in
      rw (e, sys_close) (rw h k)
]
