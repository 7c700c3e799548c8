-- ===== src/Shell/Ending.antt =====
-- The parser ends on every line, and reads all of it.
use pcs_ii.Base.{
  ℕ, zero, suc, ◌+◌, ◌<◌, ◌≡◌, refl, ◌∙◌, sym, ◌≤◌, ◌⊎◌, All, true, Bool-cases, inl, inr, List, [],
  ◌∷◌, length, leb, if◌then◌else◌, arith,
}
use pcs_ii.Shell.{
  Cmd, exec, back, Parse, parsed, fails, tires, ◌>>=◌, is_space, skip_space, Token, end_of_line,
  symbol, append, word, gettoken, peek, redirected, parseredirs, reversed, parse_args, parseblock,
  parseexec, parsepipe, parse_backs, parseline, nothing_left, parsecmd,
}
use pcs_ii.Shell.Tokens.{
  Shrinks, Shrinks-bind, Shrinks-le, Shrinks-cond, length-skip_space, gettoken_lt, gettoken_le,
  peek_more, word_more,
}

parseredirs-Shrinks :
    (f : ℕ) (k : Cmd → Cmd) (s : List ℕ) → length s < f → Shrinks (length s) (parseredirs f k s)
unfolding parseredirs
parseredirs-Shrinks zero k s h = absurd (omega arith)
parseredirs-Shrinks (suc f) k s h = elim (Bool-cases (peek (b'<' ∷ b'>' ∷ []) s)) [
  | inr x ↦ rw x (length-skip_space s)
  | inl x ↦ rw x (
      named (gettoken (gettoken s).1).0 _ (λ w.
        Shrinks-le (length (gettoken (gettoken s).1).1) (length s) _
          (omega (arith, fewer x, gettoken_le (gettoken s).1))
          (parseredirs-Shrinks f (λ cmd. redirected (gettoken s).0 w (k cmd))
            (gettoken (gettoken s).1).1 (omega (arith, fewer x, gettoken_le (gettoken s).1)))))
]
  where
    fewer : peek (b'<' ∷ b'>' ∷ []) s ≡ true → length (gettoken s).1 < length s
    fewer x = gettoken_lt s (peek_more (b'<' ∷ b'>' ∷ []) s x)

    named :
        (t : Token) (rest : List ℕ → Parse (Cmd → Cmd))
        → ((w : List ℕ) → Shrinks (length s) (rest w))
        → Shrinks
            (length s)
            (elim t [ word w ↦ rest w | symbol c ↦ fails | append ↦ fails | end_of_line ↦ fails ])
    named end_of_line rest g = tt
    named (symbol c) rest g = tt
    named append rest g = tt
    named (word w) rest g = g w

parse_args-Shrinks :
    (f : ℕ) (argv : List (List ℕ)) (k : Cmd → Cmd) (s : List ℕ)
    → length s < f
    → Shrinks (length s) (parse_args f argv k s)
unfolding parse_args
parse_args-Shrinks zero argv k s h = absurd (omega arith)
parse_args-Shrinks (suc f) argv k s h =
    elim (Bool-cases (peek (b'|' ∷ b')' ∷ b'&' ∷ b';' ∷ []) s)) [
      | inl x ↦ rw x (length-skip_space s)
      | inr x ↦ rw x (
          taken (gettoken s).0 _ refl (λ w e.
            let fewer = gettoken_lt s (word_more s w e) in
            Shrinks-bind (length (gettoken s).1) (length s)
              (parseredirs (suc (length (gettoken s).1)) k (gettoken s).1) _
              (parseredirs-Shrinks (suc (length (gettoken s).1)) k (gettoken s).1 (omega arith))
              (λ k' s2 l.
                Shrinks-le (length s2) (length s) _ (omega (arith, l, fewer))
                  (parse_args-Shrinks f (w ∷ argv) k' s2 (omega (arith, l, fewer))))))
    ]
  where
    taken :
        (t : Token) (next : List ℕ → Parse Cmd)
        → (gettoken s).0 ≡ t
        → ((w : List ℕ) → (gettoken s).0 ≡ word w → Shrinks (length s) (next w))
        → Shrinks (length s) (elim t [
          | end_of_line ↦ parsed (k (exec (reversed argv []))) (gettoken s).1
          | word w ↦ if leb 10 (length argv + 1) then fails else next w
          | symbol c ↦ fails
          | append ↦ fails
        ])
    taken end_of_line next e g = gettoken_le s
    taken (symbol c) next e g = tt
    taken append next e g = tt
    taken (word w) next e g = elim (Bool-cases (leb 10 (length argv + 1))) [
      | inl x ↦ rw x tt
      | inr x ↦ rw x (g w e)
    ]

-- `line` ends on all that is shorter than `n`.
abbrev EndsBelow : ℕ → (List ℕ → Parse Cmd) → Type 0
EndsBelow n line = (t : List ℕ) → length t < n → Shrinks (length t) (line t)

parseblock-Shrinks :
    (line : List ℕ → Parse Cmd) (s : List ℕ)
    → EndsBelow (length s) line
    → Shrinks (length s) (parseblock line s)
unfolding parseblock
parseblock-Shrinks line s g = elim (Bool-cases (peek (b'(' ∷ []) s)) [
  | inr x ↦ rw x tt
  | inl x ↦
      let fewer = gettoken_lt s (peek_more (b'(' ∷ []) s x) in
      rw x (
        Shrinks-bind (length (gettoken s).1) (length s) (line (gettoken s).1) _
          (g (gettoken s).1 fewer)
          (λ cmd s1 l. elim (Bool-cases (peek (b')' ∷ []) s1)) [
            | inr y ↦ rw y tt
            | inl y ↦ rw y (
                Shrinks-bind (length (gettoken s1).1) (length s) _ _
                  (parseredirs-Shrinks (suc (length (gettoken s1).1)) (λ c. c) (gettoken s1).1
                    (omega arith))
                  (λ k s2 m. omega (arith, m, gettoken_le s1, l, fewer)))
          ]))
]

parseexec-Shrinks :
    (line : List ℕ → Parse Cmd) (s : List ℕ)
    → EndsBelow (length s) line
    → Shrinks (length s) (parseexec line s)
unfolding parseexec
parseexec-Shrinks line s g =
    Shrinks-cond (length s) (peek (b'(' ∷ []) s) (parseblock line s) _
      (λ x. parseblock-Shrinks line s g)
      (λ x.
        Shrinks-bind (length s) (length s) (parseredirs (suc (length s)) (λ c. c) s) _
          (parseredirs-Shrinks (suc (length s)) (λ c. c) s (omega arith))
          (λ k s1 l.
            Shrinks-le (length s1) (length s) _ l
              (parse_args-Shrinks (suc (length s1)) [] k s1 (omega arith))))

parsepipe-Shrinks :
    (f : ℕ) (line : List ℕ → Parse Cmd) (s : List ℕ)
    → length s < f
    → EndsBelow (length s) line
    → Shrinks (length s) (parsepipe f line s)
unfolding parsepipe
parsepipe-Shrinks zero line s h g = absurd (omega arith)
parsepipe-Shrinks (suc f) line s h g =
    Shrinks-bind (length s) (length s) (parseexec line s) _ (parseexec-Shrinks line s g)
      (λ cmd s1 l. elim (Bool-cases (peek (b'|' ∷ []) s1)) [
        | inr x ↦ rw x l
        | inl x ↦
            let fewer = gettoken_lt s1 (peek_more (b'|' ∷ []) s1 x) in
            rw x (
              Shrinks-bind (length (gettoken s1).1) (length s) (parsepipe f line (gettoken s1).1) _
                (parsepipe-Shrinks f line (gettoken s1).1 (omega (arith, l, fewer))
                  (λ t m. g t (omega (arith, l, fewer, m))))
                (λ right s2 m. omega (arith, l, fewer, m)))
      ])

parse_backs-Shrinks :
    (f : ℕ) (cmd : Cmd) (s : List ℕ) → length s < f → Shrinks (length s) (parse_backs f cmd s)
unfolding parse_backs
parse_backs-Shrinks zero cmd s h = absurd (omega arith)
parse_backs-Shrinks (suc f) cmd s h = elim (Bool-cases (peek (b'&' ∷ []) s)) [
  | inr x ↦ rw x (length-skip_space s)
  | inl x ↦
      let fewer = gettoken_lt s (peek_more (b'&' ∷ []) s x) in
      rw x (
        Shrinks-le (length (gettoken s).1) (length s) _ (omega (arith, fewer))
          (parse_backs-Shrinks f (back cmd) (gettoken s).1 (omega (arith, fewer))))
]

parseline-Shrinks : (f : ℕ) (s : List ℕ) → length s < f → Shrinks (length s) (parseline f s)
unfolding parseline
parseline-Shrinks zero s h = absurd (omega arith)
parseline-Shrinks (suc f) s h =
    Shrinks-bind (length s) (length s) (parsepipe (suc (length s)) (parseline f) s) _
      (parsepipe-Shrinks (suc (length s)) (parseline f) s (omega arith)
        (λ t m. parseline-Shrinks f t (omega (arith, m))))
      (λ first s1 l.
        Shrinks-bind (length s1) (length s) (parse_backs (suc (length s1)) first s1) _
          (parse_backs-Shrinks (suc (length s1)) first s1 (omega arith))
          (λ cmd s2 m. elim (Bool-cases (peek (b';' ∷ []) s2)) [
            | inr x ↦ rw x (omega (arith, l, m))
            | inl x ↦
                let fewer = gettoken_lt s2 (peek_more (b';' ∷ []) s2 x) in
                rw x (
                  Shrinks-bind (length (gettoken s2).1) (length s) (parseline f (gettoken s2).1) _
                    (parseline-Shrinks f (gettoken s2).1 (omega (arith, l, m, fewer)))
                    (λ right s3 n. omega (arith, l, m, n, fewer)))
          ]))

-- Is nothing but white space left?
abbrev pub IsBlank : List ℕ → Type 0
IsBlank s = All (λ c. is_space c ≡ true) s

skip_space-IsBlank : (s : List ℕ) → nothing_left (skip_space s) ≡ true → IsBlank s
unfolding skip_space
skip_space-IsBlank [] h = tt
skip_space-IsBlank (c ∷ s) h = elim (Bool-cases (is_space c)) [
  | inl x ↦ (x, skip_space-IsBlank s (sym (rw x refl) ∙ h))
  | inr x ↦ absurd (ground (arith, x, h))
]

IsBlank-skip_space : (s : List ℕ) → IsBlank s → nothing_left (skip_space s) ≡ true
unfolding skip_space
IsBlank-skip_space [] h = refl
IsBlank-skip_space (c ∷ s) h = rw h.0 (IsBlank-skip_space s h.1)

-- What comes of a line: the command that parseline read, with the rest blank; or a panic, because
-- parseline panicked or left more than white space.
abbrev pub Parses : List ℕ → Parse Cmd → Type 0
Parses s (parsed cmd t) =
    (rest : List ℕ) × (parseline (suc (length s)) s ≡ parsed cmd rest)
    × (length rest ≤ length s)
    × IsBlank rest
Parses s fails =
    (parseline (suc (length s)) s ≡ fails)
    ⊎ ((cmd : Cmd) × (rest : List ℕ) × (parseline (suc (length s)) s ≡ parsed cmd rest)
        × ¬ IsBlank rest)
Parses s tires = ⊥

-- The shell always comes to an end with a line: one level of recursion for each byte and one
-- more are enough. It accepts the line, with the command that parseline read, only if parseline
-- left no more than white space, and rejects it with a panic only if parseline panicked or left
-- more than that.
pub parsecmd-Parses : (s : List ℕ) → Parses s (parsecmd s)
unfolding parsecmd
parsecmd-Parses s =
    go (parseline (suc (length s)) s) refl (parseline-Shrinks (suc (length s)) s (omega arith))
  where
    go :
        (p : Parse Cmd)
        → parseline (suc (length s)) s ≡ p
        → Shrinks (length s) p
        → Parses s
            (p >>= λ cmd rest. if nothing_left (skip_space rest) then parsed cmd [] else fails)
    go fails e h = inl e
    go tires e h = h
    go (parsed cmd rest) e h = elim (Bool-cases (nothing_left (skip_space rest))) [
      | inl x ↦ rw x (rest, e, h, skip_space-IsBlank rest x)
      | inr x ↦
          rw x (inr (cmd, rest, e, λ b. absurd (ground (arith, x, IsBlank-skip_space rest b))))
    ]
