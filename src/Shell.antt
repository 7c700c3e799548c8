-- ===== src/Shell.antt =====
-- sh.c: the parser of command lines. A line is its bytes up to the NUL; a parser gives what it
-- parsed and the rest of the line. Words are what nulterminate makes of the argument pointers: the
-- bytes of the token, ended.
pub mod Tokens
pub mod Ending
mod Tests
use pcs_ii.Base.{
  ℕ, zero, suc, ◌+◌, ◌-◌, ◌*◌, Bool, true, false, not, ◌&&◌, ◌||◌, List, [], ◌∷◌, ◌++◌, length, ltb,
  leb, ◌==◌, if◌then◌else◌,
}

pub data Cmd : Type 0 where
  exec : List (List ℕ) → Cmd
  redir : Cmd → List ℕ → ℕ → ℕ → Cmd
  pipe : Cmd → Cmd → Cmd
  list : Cmd → Cmd → Cmd
  back : Cmd → Cmd

-- `fails` is the panic of the shell, and `tires` where the fuel is too little.
pub data Parse {ℓ} (A : Type ℓ) : Type ℓ where
  parsed : A → List ℕ → Parse A
  fails tires : Parse A

infixl 5 ◌>>=◌
abbrev pub ◌>>=◌ : {A B : Type 0} → Parse A → (A → List ℕ → Parse B) → Parse B
◌>>=◌ p f = elim p [ parsed a s ↦ f a s | fails ↦ fails | tires ↦ tires ]

abbrev pub has_char : List ℕ → ℕ → Bool
has_char [] c = false
has_char (d ∷ ds) c = d == c || has_char ds c

-- " \t\r\n\v" and "<|>&;()"
abbrev pub is_space : ℕ → Bool
is_space c = has_char (32 ∷ 9 ∷ 13 ∷ 10 ∷ 11 ∷ []) c

abbrev pub is_symbol : ℕ → Bool
is_symbol c = has_char (b'<' ∷ b'|' ∷ b'>' ∷ b'&' ∷ b';' ∷ b'(' ∷ b')' ∷ []) c

unfoldable pub skip_space : List ℕ → List ℕ
skip_space [] = []
skip_space (c ∷ s) = if is_space c then skip_space s else c ∷ s

-- The values of gettoken: 0, the symbol, '+' for >>, and 'a' with the bytes of the word.
pub data Token : Type 0 where
  end_of_line : Token
  symbol : ℕ → Token
  append : Token
  word : List ℕ → Token

-- The bytes up to the next space or symbol.
unfoldable pub take_word : List ℕ → List ℕ × List ℕ
take_word [] = ([], [])
take_word (c ∷ s) =
    let (w, rest) = take_word s in if is_space c || is_symbol c then ([], c ∷ s) else (c ∷ w, rest)

-- What follows a '>'.
abbrev pub after_greater : List ℕ → Token × List ℕ
after_greater [] = (symbol b'>', [])
after_greater (d ∷ s) = if d == b'>' then (append, s) else (symbol b'>', d ∷ s)

abbrev pub token_at : List ℕ → Token × List ℕ
unfolding take_word
token_at [] = (end_of_line, [])
token_at (c ∷ s) =
    if c == b'>'
    then after_greater s
    else if is_symbol c
    then (symbol c, s)
    else let (w, rest) = take_word (c ∷ s) in (word w, rest)

unfoldable pub gettoken : List ℕ → Token × List ℕ
unfolding skip_space take_word
gettoken s = let (t, rest) = token_at (skip_space s) in (t, skip_space rest)

-- Is the next character one of `toks`?
abbrev pub starts_with : List ℕ → List ℕ → Bool
starts_with toks [] = false
starts_with toks (c ∷ s) = has_char toks c

unfoldable pub peek : List ℕ → List ℕ → Bool
unfolding skip_space
peek toks s = starts_with toks (skip_space s)

-- O_RDONLY on descriptor 0, and O_WRONLY|O_CREATE on descriptor 1; nothing for another token.
abbrev pub redirected : Token → List ℕ → Cmd → Cmd
redirected (symbol c) file cmd =
    if c == b'<' then redir cmd file 0 0 else if c == b'>' then redir cmd file 513 1 else cmd
redirected append file cmd = redir cmd file 513 1
redirected end_of_line file cmd = cmd
redirected (word w) file cmd = cmd

-- The loop of parseredirs, with fuel: the redirections as a change of the command.
unfoldable pub parseredirs : ℕ → (Cmd → Cmd) → List ℕ → Parse (Cmd → Cmd)
unfolding peek gettoken
parseredirs zero k s = tires
parseredirs (suc f) k s =
    let (tok, s1) = gettoken s in
    let (name, s2) = gettoken s1 in
    let rest = λ (w : List ℕ). parseredirs f (λ cmd. redirected tok w (k cmd)) s2 in
    if peek (b'<' ∷ b'>' ∷ []) s
    then (elim name [ word w ↦ rest w | symbol c ↦ fails | append ↦ fails | end_of_line ↦ fails ])
    else parsed k (skip_space s)

abbrev pub reversed : List (List ℕ) → List (List ℕ) → List (List ℕ)
reversed [] ws = ws
reversed (v ∷ vs) ws = reversed vs (v ∷ ws)

-- The loop of parseexec over the arguments, the last one first in `argv`; `k` has the redirections.
unfoldable pub parse_args : ℕ → List (List ℕ) → (Cmd → Cmd) → List ℕ → Parse Cmd
unfolding peek gettoken parseredirs
parse_args zero argv k s = tires
parse_args (suc f) argv k s =
    let (tok, s1) = gettoken s in
    let next = λ (w : List ℕ).
      parseredirs (suc (length s1)) k s1 >>= λ k' s2. parse_args f (w ∷ argv) k' s2 in
    if peek (b'|' ∷ b')' ∷ b'&' ∷ b';' ∷ []) s
    then parsed (k (exec (reversed argv []))) (skip_space s)
    else (elim tok [
      | end_of_line ↦ parsed (k (exec (reversed argv []))) s1
      | word w ↦ if leb 10 (length argv + 1) then fails else next w
      | symbol c ↦ fails
      | append ↦ fails
    ])

-- `line` is parseline.
unfoldable pub parseblock : (List ℕ → Parse Cmd) → List ℕ → Parse Cmd
unfolding peek gettoken parseredirs
parseblock line s =
    if not (peek (b'(' ∷ []) s)
    then fails
    else (line (gettoken s).1 >>= λ cmd s1.
        if not (peek (b')' ∷ []) s1)
        then fails
        else (parseredirs (suc (length (gettoken s1).1)) (λ c. c) (gettoken s1).1 >>= λ k s2.
            parsed (k cmd) s2))

unfoldable pub parseexec : (List ℕ → Parse Cmd) → List ℕ → Parse Cmd
unfolding peek parseblock parseredirs parse_args
parseexec line s =
    if peek (b'(' ∷ []) s
    then parseblock line s
    else (parseredirs (suc (length s)) (λ c. c) s >>= λ k s1. parse_args (suc (length s1)) [] k s1)

unfoldable pub parsepipe : ℕ → (List ℕ → Parse Cmd) → List ℕ → Parse Cmd
unfolding peek gettoken parseexec
parsepipe zero line s = tires
parsepipe (suc f) line s = parseexec line s >>= λ cmd s1.
    let rest = parsepipe f line (gettoken s1).1 in
    if peek (b'|' ∷ []) s1 then (rest >>= λ right s2. parsed (pipe cmd right) s2) else parsed cmd s1

-- The loop of parseline over the ampersands.
unfoldable pub parse_backs : ℕ → Cmd → List ℕ → Parse Cmd
unfolding peek gettoken
parse_backs zero cmd s = tires
parse_backs (suc f) cmd s =
    let rest = parse_backs f (back cmd) (gettoken s).1 in
    if peek (b'&' ∷ []) s then rest else parsed cmd (skip_space s)

unfoldable pub parseline : ℕ → List ℕ → Parse Cmd
unfolding peek gettoken parsepipe parse_backs
parseline zero s = tires
parseline (suc f) s = parsepipe (suc (length s)) (parseline f) s >>= λ first s1.
    parse_backs (suc (length s1)) first s1 >>= λ cmd s2.
    let rest = parseline f (gettoken s2).1 in
    if peek (b';' ∷ []) s2 then (rest >>= λ right s3. parsed (list cmd right) s3) else parsed cmd s2

abbrev pub nothing_left : List ℕ → Bool
nothing_left [] = true
nothing_left (c ∷ s) = false

unfoldable pub parsecmd : List ℕ → Parse Cmd
unfolding skip_space parseline
parsecmd s = parseline (suc (length s)) s >>= λ cmd rest.
    if nothing_left (skip_space rest) then parsed cmd [] else fails
