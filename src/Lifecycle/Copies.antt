-- ===== src/Lifecycle/Copies.antt =====
-- The descriptors that fork copies, and the counts of their files.
use pcs_ii.Base.{
  ℕ, ◌+◌, ◌≤◌, ◌≡◌, refl, ap, ◌∙◌, sym, Bool-cases, inl, inr, List, [], ◌∷◌, Option, none, some,
  get_elem?, get_elem?-modify_self, get_elem?-modify_ne, set, modify, All, length, ltb, ◌==◌,
  ==_iff, arith,
}
use pcs_ii.Base.Outcome.{ret}
use pcs_ii.File.{File, Files, with_ref, ofile_of}
use pcs_ii.File.Counts.{refers, count, count_all, count_all-set, count-le, count_all-le}
use pcs_ii.File.Refs.{IsCounted, filedup_lem}
use pcs_ii.Lifecycle.{dup_all, copy_ofile}

-- A slot of the table that a descriptor may refer to.
abbrev IsOpen : List File → Option ℕ → Type 0
IsOpen table none = Unit
IsOpen table (some i) = (f : File) × (get_elem? table i ≡ some f) × (1 ≤ f.ref)

-- The table with each file's count raised by the descriptors in `os` that refer to it.
pub record Raised (table : List File) (os : List (Option ℕ)) (table' : List File) : Type 0 where
  pub raised :
      (i : ℕ) (f : File)
      → get_elem? table i ≡ some f
      → get_elem? table' i ≡ some (with_ref (f.ref + count i os) f)
  pub no_more :
      (i : ℕ) (f : File) → get_elem? table' i ≡ some f → (g : File) × (get_elem? table i ≡ some g)

IsOpen-dup :
    (table : List File) (i : ℕ) (f : File) (o : Option ℕ)
    → get_elem? table i ≡ some f
    → IsOpen table o
    → IsOpen (modify table i (with_ref (f.ref + 1))) o
IsOpen-dup table i f none e h = tt
IsOpen-dup table i f (some j) e (g, a, b) = elim (Bool-cases (i == j)) [
  | inl z ↦
      let same : i ≡ j = (==_iff i j).0 z in
      (
        with_ref (f.ref + 1) f,
        ap (get_elem? (modify table i (with_ref (f.ref + 1)))) (sym same)
            ∙ get_elem?-modify_self table i (with_ref (f.ref + 1)) e,
        omega arith,
      )
  | inr z ↦ (g, get_elem?-modify_ne table i j (with_ref (f.ref + 1)) (ground arith) ∙ a, b)
]

All-IsOpen-dup :
    (os : List (Option ℕ)) (table : List File) (i : ℕ) (f : File)
    → get_elem? table i ≡ some f
    → All (IsOpen table) os
    → All (IsOpen (modify table i (with_ref (f.ref + 1)))) os
All-IsOpen-dup [] table i f e h = tt
All-IsOpen-dup (o ∷ os) table i f e h =
    (IsOpen-dup table i f o e h.0, All-IsOpen-dup os table i f e h.1)

Raised-dup :
    (table table' : List File) (i : ℕ) (f : File) (os : List (Option ℕ))
    → get_elem? table i ≡ some f
    → Raised (modify table i (with_ref (f.ref + 1))) os table'
    → Raised table (some i ∷ os) table'
Raised-dup table table' i f os e r = record {
  raised = λ j g a. elim (Bool-cases (i == j)) [
    | inl z ↦
        let q : i ≡ j = (==_iff i j).0 z in
        let gf : some g ≡ some f = sym a ∙ ap (get_elem? table) (sym q) ∙ e in
        let same : g ≡ f = cc in
        ap (get_elem? table') (sym q)
        ∙ r.raised i (with_ref (f.ref + 1) f)
            (get_elem?-modify_self table i (with_ref (f.ref + 1)) e)
        ∙ ap (λ (x : File). some (with_ref (x.ref + 1 + count i os) x)) (sym same)
        ∙ ap (λ (n : ℕ). some (with_ref n g)) (rw z (omega (arith, ap (λ (k : ℕ). count k os) q)))
    | inr z ↦
        r.raised j g (get_elem?-modify_ne table i j (with_ref (f.ref + 1)) (ground arith) ∙ a)
        ∙ ap (λ (n : ℕ). some (with_ref n g)) (rw z (omega arith))
  ];
  no_more = λ j g a.
      let (x, b) = r.no_more j g a in
      elim (Bool-cases (i == j)) [
        | inl z ↦ (f, ap (get_elem? table) (sym ((==_iff i j).0 z)) ∙ e)
        | inr z ↦ (x, sym (get_elem?-modify_ne table i j (with_ref (f.ref + 1)) (ground arith)) ∙ b)
      ];
}

pub dup_all-Raised :
    (os : List (Option ℕ)) (table : List File)
    → All (IsOpen table) os
    → (table' : List File) × (dup_all table os ≡ ret table') × Raised table os table'
unfolding dup_all
dup_all-Raised [] table h = (
  table,
  refl,
  record {
    raised = λ i f a. a ∙ ap (λ (n : ℕ). some (with_ref n f)) (omega arith);
    no_more = λ i f a. (f, a);
  },
)
dup_all-Raised (none ∷ os) table h =
    let (t, e, r) = dup_all-Raised os table h.1 in
    (
      t,
      e,
      record {
        raised = λ i f a. r.raised i f a ∙ ap (λ (n : ℕ). some (with_ref n f)) (omega arith);
        no_more = r.no_more;
      },
    )
dup_all-Raised (some i ∷ os) table h =
    let (f, a, b) = h.0 in
    let (t, e, r) =
      dup_all-Raised os (modify table i (with_ref (f.ref + 1)))
        (All-IsOpen-dup os table i f a h.1) in
    (t, rw (filedup_lem table i f a b) e, Raised-dup table t i f os a r)

-- The descriptors of a process refer to open files.
pub All-IsOpen :
    (fs : Files) (os : List (Option ℕ))
    → IsCounted fs
    → ((i : ℕ) → count i os ≤ count_all i fs.ofiles)
    → All (IsOpen fs.table) os
All-IsOpen fs [] c h = tt
All-IsOpen fs (none ∷ os) c h = (tt, All-IsOpen fs os c (λ i. omega (arith, h i)))
All-IsOpen fs (some i ∷ os) c h =
    let one : 1 ≤ count_all i fs.ofiles = omega (arith, h i, count-le i (some i ∷ os) 0 refl) in
    let (f, t) = c.in_table i one in
    ((f, t, omega (arith, c.counted i f t)), All-IsOpen fs os c (λ j. omega (arith, h j)))

abbrev pub IsClosed : List (Option ℕ) → Type 0
IsClosed os = All (λ o. o ≡ none) os

count-IsClosed : (i : ℕ) (os : List (Option ℕ)) → IsClosed os → count i os ≡ 0
count-IsClosed i [] h = refl
count-IsClosed i (o ∷ os) h = omega (arith, ap (refers i) h.0, count-IsClosed i os h.1)

pub copy_ofile-eq :
    (os child : List (Option ℕ))
    → IsClosed child
    → length child ≡ length os
    → copy_ofile os child ≡ os
unfolding copy_ofile
copy_ofile-eq [] [] h l = refl
copy_ofile-eq [] (c ∷ cs) h l = absurd (omega arith)
copy_ofile-eq (o ∷ os) [] h l = absurd (omega arith)
copy_ofile-eq (none ∷ os) (c ∷ cs) h l = rw (h.0, copy_ofile-eq os cs h.1 (omega arith)) refl
copy_ofile-eq (some i ∷ os) (c ∷ cs) h l = rw (copy_ofile-eq os cs h.1 (omega arith)) refl

pub ofile_of-le : (fs : Files) (p i : ℕ) → count i (ofile_of fs p) ≤ count_all i fs.ofiles
ofile_of-le fs p i = go (get_elem? fs.ofiles p) refl
  where
    go :
        (o : Option (List (Option ℕ)))
        → get_elem? fs.ofiles p ≡ o
        → count i (ofile_of fs p) ≤ count_all i fs.ofiles
    go none e = rw (e, ofile_of) (omega arith)
    go (some os) e = rw (e, ofile_of) (count_all-le i fs.ofiles p os e)

-- The copied descriptors are counted.
pub copied-IsCounted :
    (fs : Files) (cur n : ℕ) (child : List (Option ℕ)) (table : List File)
    → IsCounted fs
    → Raised fs.table (ofile_of fs cur) table
    → get_elem? fs.ofiles n ≡ some child
    → IsClosed child
    → length child ≡ length (ofile_of fs cur)
    → IsCounted
        (record { table = table; ofiles = set fs.ofiles n (copy_ofile (ofile_of fs cur) child) })
copied-IsCounted fs cur n child table c r e h l =
    rw (copy_ofile-eq (ofile_of fs cur) child h l) (record {
      counted = λ i f a.
          let (g, b) = r.no_more i f a in
          let same : some f ≡ some (with_ref (g.ref + count i (ofile_of fs cur)) g) =
            sym a ∙ r.raised i g b in
          let eq : f ≡ with_ref (g.ref + count i (ofile_of fs cur)) g = cc in
          omega (arith, ap (λ (x : File). x.ref) eq, c.counted i g b, moves i);
      in_table = λ i a. elim (Bool-cases (ltb 0 (count_all i fs.ofiles))) [
        | inl z ↦ let (g, b) = c.in_table i (ground (arith, z)) in (_, r.raised i g b)
        | inr z ↦ absurd (ground (arith, z, moves i, ofile_of-le fs cur i, a))
      ];
    })
  where
    moves :
        (i : ℕ)
        → count_all i (set fs.ofiles n (ofile_of fs cur))
          ≡ count_all i fs.ofiles + count i (ofile_of fs cur)
    moves i =
        omega
          (arith, count_all-set i fs.ofiles n child (ofile_of fs cur) e, count-IsClosed i child h)
