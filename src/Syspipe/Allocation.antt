-- ===== src/Syspipe/Allocation.antt =====
-- The counts of files through pipealloc. The files that it has allocated and not yet given to a descriptor
-- are counted like the descriptors of one more process.
use pcs_ii.Base.{
  ℕ, suc, ◌+◌, ◌<◌, ◌≡◌, ◌≢◌, refl, ap, ◌∙◌, sym, true, false, Bool-cases, Option-cases, inl, inr,
  List, [], ◌∷◌, Option, none, some, get_elem?, get_elem?-modify_self, get_elem?-modify_ne, modify,
  ◌==◌, arith,
}
use pcs_ii.Base.Outcome.{Outcome, ret, panic, ◌>>=◌}
use pcs_ii.Kalloc.{Kmem, kalloc}
use pcs_ii.File.{File, fd_pipe, Files, with_ref, find_free, filealloc, fileclose, Closing}
use pcs_ii.File.Counts.{count_all}
use pcs_ii.File.Refs.{
  IsCounted, recount, refers_self, refers-other, fileclose-IsCounted, IsCounted-same,
}
use pcs_ii.Syspipe.{as_end, close_both, pipe_files, pipealloc}

abbrev also_holding : List (Option ℕ) → Files → Files
also_holding held s = record s { ofiles = held ∷ s.ofiles }

find_free_slot :
    (fs : List File) (i n : ℕ)
    → find_free fs i ≡ some n
    → (m : ℕ) × (f : File) × (n ≡ i + m) × (get_elem? fs m ≡ some f) × (f.ref ≡ 0)
unfolding find_free
find_free_slot [] i n h = cc
find_free_slot (f ∷ fs) i n h = elim (Bool-cases (f.ref == 0)) [
  | inl z ↦ (0, f, ground (arith, z), refl, ground (arith, z))
  | inr z ↦
      let (m, g, a, b, c) = find_free_slot fs (i + 1) n (ground (arith, z)) in
      (suc m, g, omega arith, b, c)
]

-- A file that filealloc gives is one that is held.
filealloc-IsCounted :
    (held : List (Option ℕ)) (s : Files) (i : ℕ) (table : List File)
    → IsCounted (also_holding held s)
    → filealloc s.table ≡ (some i, table)
    → IsCounted (record { table = table; ofiles = (some i ∷ held) ∷ s.ofiles })
unfolding filealloc
filealloc-IsCounted held s i table c e = elim (Option-cases (find_free s.table 0)) [
  | inl z ↦ absurd (ground (arith, z))
  | inr (n, z) ↦
      let (m, f, a, b, r) = find_free_slot s.table 0 n z in
      let same : i ≡ m = ground (arith, z) in
      let changed : table ≡ modify s.table i (with_ref 1) = ground (arith, z) in
      let there : get_elem? s.table i ≡ some f = ap (get_elem? s.table) same ∙ b in
      let k = c.counted i f there in
      rw changed (
        recount (also_holding held s) i f (with_ref 1) ((some i ∷ held) ∷ s.ofiles) c there
          (omega (arith, k, refers_self i)) (λ j x. omega (arith, refers-other i j x)))
]

pub close_both-IsCounted :
    (table : List File) (os : List (List (Option ℕ))) (rf wf : ℕ)
    → IsCounted (record { table = table; ofiles = (some wf ∷ some rf ∷ []) ∷ os })
    → (cs : List Closing) × (t : List File) × (close_both table rf wf ≡ ret (cs, t))
      × IsCounted (record { table = t; ofiles = os })
unfolding close_both
close_both-IsCounted table os rf wf c =
    let s0 : Files = record { table = table; ofiles = (some wf ∷ some rf ∷ []) ∷ os } in
    let (x, t, e, c1) =
      fileclose-IsCounted s0 rf ((some wf ∷ []) ∷ os) c (omega (arith, refers_self rf))
        (λ j z. omega (arith, refers-other rf j z)) in
    let s1 : Files = record { table = t; ofiles = (some wf ∷ []) ∷ os } in
    let (y, u, f, c2) =
      fileclose-IsCounted s1 wf os c1 (omega (arith, refers_self wf))
        (λ j z. omega (arith, refers-other wf j z)) in
    (x ∷ y ∷ [], u, rw (e, ◌>>=◌) (rw (f, ◌>>=◌) refl), c2)

-- A change of a file that is no change of its count.
modify-IsCounted :
    (table : List File) (os : List (List (Option ℕ))) (i : ℕ) (g : File → File)
    → ((f : File) → (g f).ref ≡ f.ref)
    → 0 < count_all i os
    → IsCounted (record { table = table; ofiles = os })
    → IsCounted (record { table = modify table i g; ofiles = os })
modify-IsCounted table os i g h o c =
    let (f, t) = c.in_table i o in
    recount (record { table = table; ofiles = os }) i f g os c t (h f ∙ c.counted i f t)
      (λ j z. refl)

-- The two files are the ends of one pipe.
pub record Connects (table : List File) (rf wf : ℕ) : Type 0 where
  pub reader : File
  pub writer : File
  pub at_reader : get_elem? table rf ≡ some reader
  pub at_writer : get_elem? table wf ≡ some writer
  pub kinds : (reader.kind ≡ fd_pipe) × (writer.kind ≡ fd_pipe)
  pub reads : (reader.readable ≡ true) × (reader.writable ≡ false)
  pub writes : (writer.readable ≡ false) × (writer.writable ≡ true)
  pub one_pipe : reader.pipe ≡ writer.pipe

-- What pipealloc answers, with the files that it has still to give away.
abbrev pub Allocates : List (List (Option ℕ)) → Outcome (Option (ℕ × ℕ) × List File × Kmem) → Type 0
Allocates os panic = ⊥
Allocates os (ret (none, table, k)) = IsCounted (record { table = table; ofiles = os })
Allocates os (ret (some (rf, wf), table, k)) =
    IsCounted (record { table = table; ofiles = (some wf ∷ some rf ∷ []) ∷ os })
    × Connects table rf wf

pipe_files-Allocates :
    (table : List File) (os : List (List (Option ℕ))) (k : Kmem) (rf wf : ℕ)
    → rf ≢ wf
    → IsCounted (record { table = table; ofiles = (some wf ∷ some rf ∷ []) ∷ os })
    → Allocates os (pipe_files table k rf wf)
unfolding pipe_files
pipe_files-Allocates table os k rf wf n c = elim (Bool-cases ((kalloc k).0 == 0)) [
  | inl z ↦ let (cs, t, e, d) = close_both-IsCounted table os rf wf c in rw z (rw (e, ◌>>=◌) d)
  | inr z ↦
      let p = (kalloc k).0 in
      let held : List (List (Option ℕ)) = (some wf ∷ some rf ∷ []) ∷ os in
      let t1 = modify table rf (as_end p false) in
      let c1 =
        modify-IsCounted table held rf (as_end p false) (λ f. refl) (omega (arith, refers_self rf))
          c in
      let c2 =
        modify-IsCounted t1 held wf (as_end p true) (λ f. refl) (omega (arith, refers_self wf))
          c1 in
      let (f, tf) = c.in_table rf (omega (arith, refers_self rf)) in
      let (g, tg) = c1.in_table wf (omega (arith, refers_self wf)) in
      rw z (
        c2,
        record {
          reader = as_end p false f;
          writer = as_end p true g;
          at_reader =
              get_elem?-modify_ne t1 wf rf (as_end p true) (λ e. n (sym e))
              ∙ get_elem?-modify_self table rf (as_end p false) tf;
          at_writer = get_elem?-modify_self t1 wf (as_end p true) tg;
          kinds = (refl, refl);
          reads = (refl, refl);
          writes = (refl, refl);
          one_pipe = refl;
        },
      )
]

-- An allocated file is not free, so the second one is another.
filealloc-ne :
    (table : List File) (os : List (List (Option ℕ))) (rf wf : ℕ) (table' : List File)
    → IsCounted (record { table = table; ofiles = (some rf ∷ []) ∷ os })
    → filealloc table ≡ (some wf, table')
    → rf ≢ wf
unfolding filealloc
filealloc-ne table os rf wf table' c e = elim (Option-cases (find_free table 0)) [
  | inl z ↦ absurd (ground (arith, z))
  | inr (n, z) ↦ λ same.
      let (m, f, a, b, r) = find_free_slot table 0 n z in
      let eq : rf ≡ m = ground (arith, z) in
      let there : get_elem? table rf ≡ some f = ap (get_elem? table) eq ∙ b in
      omega (arith, c.counted rf f there, refers_self rf, r)
]

-- Where no file is free, the table is as it was.
unchanged : (t t' : List File) → filealloc t ≡ (none, t') → t' ≡ t
unfolding filealloc
unchanged t t' e = elim (Option-cases (find_free t 0)) [
  | inl z ↦ ground (arith, z)
  | inr (n, z) ↦ absurd (ground (arith, z))
]

pub pipealloc-Allocates :
    (s : Files) (k : Kmem) → IsCounted s → Allocates s.ofiles (pipealloc s.table k)
unfolding pipealloc
pipealloc-Allocates s k c = first (filealloc s.table) refl
  where
    start : IsCounted (also_holding [] s)
    start = IsCounted-same s.table s.ofiles ([] ∷ s.ofiles) (λ i. omega arith) c

    second :
        (rf : ℕ) (t0 : List File)
        → IsCounted (record { table = t0; ofiles = (some rf ∷ []) ∷ s.ofiles })
        → (r : Option ℕ × List File) → filealloc t0 ≡ r
        → Allocates s.ofiles (elim r.0 [
          | none ↦ fileclose r.1 rf >>= λ q. ret (none, q.1, k)
          | some wf ↦ pipe_files r.1 k rf wf
        ])
    second rf t0 c0 (none, t1) e =
        let same : t1 ≡ t0 = unchanged t0 t1 e in
        let (x, t, h, d) =
          fileclose-IsCounted (record { table = t0; ofiles = (some rf ∷ []) ∷ s.ofiles }) rf
            s.ofiles c0 (omega (arith, refers_self rf))
            (λ j z. omega (arith, refers-other rf j z)) in
        rw same (rw (h, ◌>>=◌) d)
    second rf t0 c0 (some wf, t1) e =
        pipe_files-Allocates t1 s.ofiles k rf wf (filealloc-ne t0 s.ofiles rf wf t1 c0 e)
          (filealloc-IsCounted (some rf ∷ []) (record { table = t0; ofiles = s.ofiles }) wf t1 c0 e)

    first :
        (r : Option ℕ × List File)
        → filealloc s.table ≡ r
        → Allocates s.ofiles (elim r.0 [
          | none ↦ ret (none, r.1, k)
          | some rf ↦
              let q = filealloc r.1 in
              elim q.0 [
                | none ↦ fileclose q.1 rf >>= λ x. ret (none, x.1, k)
                | some wf ↦ pipe_files q.1 k rf wf
              ]
        ])
    first (none, t0) e = rw (unchanged s.table t0 e) c
    first (some rf, t0) e =
        second rf t0 (filealloc-IsCounted [] s rf t0 start e) (filealloc t0) refl
