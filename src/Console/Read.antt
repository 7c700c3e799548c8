-- ===== src/Console/Read.antt =====
-- consoleread of console.c: what it copies is the oldest characters of the buffer.
use pcs_ii.Base.{
  ℕ, zero, suc, ◌+◌, ◌%◌, ◌^◌, ◌≤◌, ◌<◌, ◌≡◌, refl, ap, ◌∙◌, Bool, true, false, Bool-cases, inl,
  inr, ◌⊎◌, List, [], ◌∷◌, length, get_or, ◌==◌, if◌then◌else◌, arith,
}
use pcs_ii.Console.{
  Input, char_at, before, read_line, consoleread, ReadStop, read_done, read_killed, read_blocks,
}
use pcs_ii.Console.Line.{IsValid, ahead}

-- What a read of at most `n` characters does to the buffer; a ^D is consumed but not copied.
pub record Copies (n : ℕ) (s : Input) (r : ReadStop × Input × List ℕ) : Type 0 where
  pub few : (length r.2 ≤ n) × (length r.2 ≤ ahead s s.w)
  pub valid : IsValid r.1
  pub untouched : ((r.1).w ≡ s.w) × ((r.1).e ≡ s.e) × ((r.1).buf ≡ s.buf)
  pub oldest : (j : ℕ) → j < length r.2 → get_or r.2 j 0 ≡ char_at s ((s.r + j) % 2 ^ 32)
  pub consumed :
      ((r.1).r ≡ (s.r + length r.2) % 2 ^ 32) ⊎ ((r.1).r ≡ (s.r + length r.2 + 1) % 2 ^ 32)

abbrev step : Input → Input
step s = record s { r = (s.r + 1) % 2 ^ 32 }

step-IsValid : (s : Input) → IsValid s → (s.r == s.w) ≡ false → IsValid (step s)
step-IsValid s v h = record {
  storage = v.storage;
  words = (omega arith, v.words.1, v.words.2);
  ordered = ground (arith, v.ordered, v.words.0, v.words.1, v.words.2);
  fits = ground (arith, v.ordered, v.fits, v.words.0, v.words.1, v.words.2);
}

stops : (n : ℕ) (stop : ReadStop) (s : Input) → IsValid s → Copies n s (stop, s, [])
stops n stop s v = record {
  few = (omega arith, omega arith);
  valid = v;
  untouched = (refl, refl, refl);
  oldest = λ j l. absurd (omega arith);
  consumed = inl (omega (arith, v.words.0));
}

unread : (s : Input) → IsValid s → before ((s.r + 1) % 2 ^ 32) ≡ s.r
unread s v = omega (arith, v.words.0)

-- The end of file: kept for the next read if this one copied something.
eof :
    (n : ℕ) (s : Input) (v : IsValid s) (b : Bool)
    → (s.r == s.w) ≡ false
    → Copies
        (suc n)
        s
        (read_done, (if b then record (step s) { r = before ((s.r + 1) % 2 ^ 32) } else step s), [])
eof n s v true e = record {
  few = (omega arith, omega arith);
  valid =
      rw (unread s v)
        (record { storage = v.storage; words = v.words; ordered = v.ordered; fits = v.fits });
  untouched = (refl, refl, refl);
  oldest = λ j l. absurd (omega arith);
  consumed = inl (omega (arith, v.words.0));
}
eof n s v false e = record {
  few = (omega arith, omega arith);
  valid = step-IsValid s v e;
  untouched = (refl, refl, refl);
  oldest = λ j l. absurd (omega arith);
  consumed = inr (omega arith);
}

later :
    (s : Input) (out : List ℕ) (v : IsValid s)
    → ((j : ℕ) → j < length out → get_or out j 0 ≡ char_at s (((s.r + 1) % 2 ^ 32 + j) % 2 ^ 32))
    → (j : ℕ) → j < suc (length out)
    → get_or (char_at s s.r ∷ out) j 0 ≡ char_at s ((s.r + j) % 2 ^ 32)
later s out v f zero h = ap (char_at s) (omega (arith, v.words.0))
later s out v f (suc j) h = f j (omega arith) ∙ ap (char_at s) (omega arith)

read_line-Copies :
    (n : ℕ) (killed some_read : Bool) (s : Input)
    → IsValid s
    → Copies n s (read_line n killed some_read s)
unfolding read_line
read_line-Copies zero killed some_read s v = stops 0 read_done s v
read_line-Copies (suc n) killed some_read s v = elim (Bool-cases (s.r == s.w)) [
  | inl e ↦ rw e (stops (suc n) (if killed then read_killed else read_blocks) s v)
  | inr e ↦ elim (Bool-cases (char_at s s.r == 4)) [
    | inl d ↦ rw (e, d) (eof n s v some_read e)
    | inr d ↦ elim (Bool-cases (char_at s s.r == 10)) [
      | inl l ↦
          rw (e, d, l)
            (record {
              few = (omega arith, ground (arith, v.words.0, v.words.1));
              valid = valid1 e;
              untouched = (refl, refl, refl);
              oldest = later s [] v (λ j h. absurd (omega arith));
              consumed = inl (omega arith);
            })
      | inr l ↦
          let rest = read_line-Copies n killed true (step s) (valid1 e) in
          rw (e, d, l)
            (record {
              few = (omega (arith, rest.few), ground (arith, rest.few, v.words.0, v.words.1));
              valid = rest.valid;
              untouched = rest.untouched;
              oldest = later s (read_line n killed true (step s)).2 v rest.oldest;
              consumed = omega (arith, rest.consumed);
            })
    ]
  ]
]
  where
    valid1 : (s.r == s.w) ≡ false → IsValid (step s)
    valid1 e = step-IsValid s v e

-- From a valid buffer consoleread copies at most n characters, the oldest ones that are unread, in
-- order. It consumes these and at most one more, changes neither w, e nor the characters, and
-- leaves a valid buffer, whether it returns, fails or sleeps.
pub consoleread-Copies :
    (killed : Bool) (n : ℕ) (s : Input) → IsValid s → Copies n s (consoleread killed n s)
unfolding consoleread
consoleread-Copies killed n s v = read_line-Copies n killed false s v
