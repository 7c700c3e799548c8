-- ===== src/Pipe/Read.antt =====
-- piperead: which bytes it returns; and the pipe as a stream.
use pcs_ii.Base.{
  ◌⊎◌, ℕ, zero, suc, ◌≡◌, ◌≢◌, refl, ap, ◌∙◌, sym, List, [], ◌∷◌, ◌++◌, take, arith, true, false,
  Bool, Bool-cases, inl, inr, if◌then◌else◌,
}
use pcs_ii.Pipe.{
  Pipe, Channel, writers, ReadEnd, read_bytes, read_failed, read_sleeps, is_empty, first, advance,
  read_loop, piperead,
}
use pcs_ii.Pipe.Window.{held, IsValid, contents, is_empty-held, advance-IsValid, contents-advance}

pub record Reads (n : ℕ) (p : Pipe) (r : List ℕ × Pipe) : Type 0 where
  pub valid : IsValid r.1
  pub oldest : r.0 ≡ take n (contents p)
  pub rest : contents p ≡ r.0 ++ contents r.1
  pub keeps_ends :
      (r.1.readopen ≡ p.readopen) × (r.1.writeopen ≡ p.writeopen) × (r.1.nwrite ≡ p.nwrite)

contents-empty : (p : Pipe) → IsValid p → is_empty p ≡ true → contents p ≡ []
contents-empty p v e = let z : held p ≡ 0 = ground (arith, is_empty-held p v) in rw z refl

take-nil : (n : ℕ) → take {A = ℕ} n [] ≡ []
take-nil zero = refl
take-nil (suc n) = refl

pub read_loop-Reads : (n : ℕ) (p : Pipe) → IsValid p → Reads n p (read_loop n p)
unfolding read_loop
read_loop-Reads zero p v = record {
  valid = v;
  oldest = refl;
  rest = refl;
  keeps_ends = (refl, refl, refl);
}
read_loop-Reads (suc n) p v = elim (Bool-cases (is_empty p)) [
  | inl e ↦ rw e (record {
    valid = v;
    oldest = rw (contents-empty p v e) refl;
    rest = refl;
    keeps_ends = (refl, refl, refl);
  })
  | inr e ↦
      let ih = read_loop-Reads n (advance p) (advance-IsValid p v e) in
      let c = contents-advance p v e in
      rw e (record {
        valid = ih.valid;
        oldest = ap (λ xs. first p ∷ xs) ih.oldest ∙ sym (ap (take (suc n)) c);
        rest = c ∙ ap (λ xs. first p ∷ xs) ih.rest;
        keeps_ends = unfold advance in ih.keeps_ends;
      })
]

-- How a read ends: it sleeps or fails exactly on an empty pipe with an open writing end, and then
-- changes nothing; otherwise it takes the oldest bytes, as many as asked and present, and wakes the
-- writers.
abbrev pub ReadsEnd : Bool → ℕ → Pipe → ReadEnd × Pipe × List Channel → Type 0
ReadsEnd killed n p r =
    ((contents p ≡ [])
      × (p.writeopen ≡ true)
      × (r ≡ ((if killed then read_failed else read_sleeps), p, [])))
    ⊎ ((bs : List ℕ) × (q : Pipe) × (r ≡ (read_bytes bs, q, writers ∷ []))
        × Reads n p (bs, q)
        × ((contents p ≢ []) ⊎ (p.writeopen ≡ false)))

contents-ne : (p : Pipe) → IsValid p → is_empty p ≡ false → contents p ≢ []
contents-ne p v e h = ground (arith, contents-advance p v e)

-- On an empty pipe with an open writing end a read sleeps, or fails if the process was killed, and
-- changes nothing. In every other case it returns the oldest bytes, as many as were asked for and
-- are there, leaves the rest in order, keeps the pipe valid, and wakes the writers.
pub piperead-ReadsEnd :
    (killed : Bool) (p : Pipe) (n : ℕ) → IsValid p → ReadsEnd killed n p (piperead killed p n)
unfolding piperead
piperead-ReadsEnd killed p n v = elim (Bool-cases (is_empty p)) [
  | inl e ↦ elim (Bool-cases p.writeopen) [
    | inl w ↦ inl (contents-empty p v e, w, simp (e, w) (ends killed))
    | inr w ↦ inr ((read_loop n p).0, (read_loop n p).1, simp (e, w), read_loop-Reads n p v, inr w)
  ]
  | inr e ↦ inr (
    (read_loop n p).0,
    (read_loop n p).1,
    rw e refl,
    read_loop-Reads n p v,
    inl (contents-ne p v e),
  )
]
  where
    ends :
        (b : Bool)
        → ◌≡◌ {A = ReadEnd × Pipe × List Channel}
            (if b then (read_failed, p, []) else (read_sleeps, p, []))
            ((if b then read_failed else read_sleeps), p, [])
    ends true = refl
    ends false = refl
