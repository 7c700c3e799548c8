-- ===== src/Screen/Bounds.antt =====
-- Output stays on the screen, and text that fits is shown as it is.
use pcs_ii.Base.{
  ℕ, zero, suc, ◌+◌, ◌-◌, ◌*◌, ◌/◌, ◌≤◌, ◌<◌, ◌≡◌, refl, ap, ◌∙◌, sym, false, Bool-cases, inl, inr,
  List, [], ◌∷◌, ◌++◌, Option, none, some, All, length, get_or, ltb, leb, ◌==◌, ==-ne, ==-refl,
  if◌then◌else◌, arith,
}
use mathlib.Core.List.{append_assoc, append-nil}
use pcs_ii.Base.Outcome.{Outcome, ret, panic, ◌>>=◌}
use pcs_ii.Screen.{
  Screen, cell, put_cell, next_pos, is_control, scrolled, sent, consputc, put_all, cprintf_chars,
  cprintf,
}

-- The rows that scroll, without the last of the 25.
abbrev pub last_cell : ℕ
last_cell = 24 * 80

abbrev pub IsPlain : ℕ → Type 0
IsPlain c = is_control c ≡ false

-- The screen after one character.
record Puts (c : ℕ) (s t : Screen) : Type 0 where
  in_rows : t.pos < last_cell
  serial : t.serial ≡ s.serial ++ sent c
  panicked : t.panicked ≡ s.panicked
  beyond : (j : ℕ) → last_cell ≤ j → t.crt j ≡ s.crt j
  shown :
      IsPlain c
      → s.pos + 1 < last_cell
      → (t.pos ≡ s.pos + 1) × (t.crt s.pos ≡ cell c) × ((j : ℕ) → j < s.pos → t.crt j ≡ s.crt j)

module _ (c : ℕ) (s : Screen) (h : s.pos < last_cell) (p : s.panicked ≡ false) where
  abbrev written : ℕ → ℕ
  written = if is_control c then s.crt else put_cell s.crt s.pos (cell c)

  written_beyond : (j : ℕ) → last_cell ≤ j → written j ≡ s.crt j
  written_beyond j l = elim (Bool-cases (is_control c)) [
    | inl x ↦ rw x refl
    | inr x ↦ rw x (ground arith)
  ]

  next_pos_le : next_pos c s.pos ≤ last_cell
  next_pos_le = ground arith

  written_plain :
      is_control c ≡ false → (j : ℕ) → written j ≡ (if j == s.pos then cell c else s.crt j)
  written_plain x j = rw x refl

  next_pos_plain : is_control c ≡ false → next_pos c s.pos ≡ s.pos + 1
  next_pos_plain x = ground (arith, x)

  -- Where the character goes to a cell and the cursor to the next one.
  cell_shown : is_control c ≡ false → put_cell written (next_pos c s.pos) (cell 32) s.pos ≡ cell c
  cell_shown x =
      rw (next_pos_plain x) (
        rw (==-ne s.pos (s.pos + 1) (omega arith))
          (written_plain x s.pos ∙ rw (==-refl s.pos) refl))

  cell_kept :
      is_control c ≡ false
      → (j : ℕ) → j < s.pos
      → put_cell written (next_pos c s.pos) (cell 32) j ≡ s.crt j
  cell_kept x j m = rw (next_pos_plain x) (
      rw (==-ne j (s.pos + 1) (omega arith))
        (written_plain x j ∙ rw (==-ne j s.pos (omega arith)) refl))

  consputc-Puts : (t : Screen) × (consputc c s ≡ ret t) × Puts c s t
  unfolding consputc
  consputc-Puts =
      let crt = written in
      let pos = next_pos c s.pos in
      let up = pos - 80 in
      let few : ltb (25 * 80) pos ≡ false = ground (arith, next_pos_le) in
      elim (Bool-cases (leb 24 (pos / 80))) [
        | inl x ↦ (
          record s {
            serial = s.serial ++ sent c;
            crt = put_cell (scrolled crt up) up (cell 32);
            pos = up;
          },
          rw (p, few, x) refl,
          record {
            in_rows = omega (arith, next_pos_le);
            serial = refl;
            panicked = refl;
            beyond = λ j l. ground (arith, written_beyond j l, next_pos_le);
            shown = λ q l. absurd (ground (arith, x, q));
          },
        )
        | inr x ↦ (
          record s { serial = s.serial ++ sent c; crt = put_cell crt pos (cell 32); pos = pos },
          rw (p, few, x) refl,
          record {
            in_rows = ground (arith, x);
            serial = refl;
            panicked = refl;
            beyond = λ j l. ground (arith, written_beyond j l, x);
            shown = λ q l. (next_pos_plain q, cell_shown q, λ j m. cell_kept q j m);
          },
        )
      ]

abbrev pub sent_all : List ℕ → List ℕ
sent_all [] = []
sent_all (c ∷ cs) = sent c ++ sent_all cs

-- The screen after the characters `cs`.
pub record Prints (cs : List ℕ) (s t : Screen) : Type 0 where
  pub in_rows : t.pos < last_cell
  pub serial : t.serial ≡ s.serial ++ sent_all cs
  pub beyond : (j : ℕ) → last_cell ≤ j → t.crt j ≡ s.crt j
  pub shown :
      All IsPlain cs
      → s.pos + length cs < last_cell
      → (t.pos ≡ s.pos + length cs)
        × ((j : ℕ) → j < length cs → t.crt (s.pos + j) ≡ cell (get_or cs j 0))
        × ((j : ℕ) → j < s.pos → t.crt j ≡ s.crt j)

Prints-cons :
    (c : ℕ) (cs : List ℕ) (s t u : Screen) → Puts c s t → Prints cs t u → Prints (c ∷ cs) s u
Prints-cons c cs s t u p q = record {
  in_rows = q.in_rows;
  serial =
      q.serial
      ∙ ap (λ bs. bs ++ sent_all cs) p.serial
      ∙ append_assoc s.serial (sent c) (sent_all cs);
  beyond = λ j l. q.beyond j l ∙ p.beyond j l;
  shown = λ a l.
      let (next, here, before) = p.shown a.0 (omega arith) in
      let (last, cells, kept) = q.shown a.1 (omega (arith, next)) in
      (
        last ∙ omega (arith, next),
        λ j m.
            elim j
                as (λ (i : ℕ).
                  i < suc (length cs) → u.crt (s.pos + i) ≡ cell (get_or (c ∷ cs) i 0)) [
                    | zero ↦ λ _. ap u.crt (omega arith) ∙ kept s.pos (omega (arith, next)) ∙ here
                    | suc i ↦ λ n. ap u.crt (omega (arith, next)) ∙ cells i (omega (arith, n))
                  ]
              m,
        λ j m. kept j (omega (arith, next)) ∙ before j m,
      );
}

-- How a call of cprintf ends.
abbrev pub CprintfEnds : (ℕ → List ℕ) → Option (List ℕ) → List ℕ → Screen → Outcome Screen → Type 0
CprintfEnds string none args s o = o ≡ panic
CprintfEnds string (some fmt) args s o =
    (t : Screen) × (o ≡ ret t) × Prints (cprintf_chars string fmt args) s t

put_all-Prints :
    (cs : List ℕ) (s : Screen)
    → s.pos < last_cell
    → s.panicked ≡ false
    → (t : Screen) × (put_all cs s ≡ ret t) × Prints cs s t
unfolding put_all
put_all-Prints [] s h p = (
  s,
  refl,
  record {
    in_rows = h;
    serial = sym (append-nil s.serial);
    beyond = λ j l. refl;
    shown = λ a l. (omega arith, λ j m. absurd (omega arith), λ j m. refl);
  },
)
put_all-Prints (c ∷ cs) s h p =
    let (t, e, x) = consputc-Puts c s h p in
    let (u, f, y) = put_all-Prints cs t x.in_rows (x.panicked ∙ p) in
    (u, rw (e, ◌>>=◌) f, Prints-cons c cs s t u x y)

-- With the cursor in the first 24 rows and no panic before, cprintf panics if and only if its
-- format is the null pointer. Otherwise, whatever the format and the arguments are, it leaves
-- the cursor in these rows, changes no cell past them, and sends every character to the serial
-- port. If its output has no newline and no backspace and ends within the rows, the output
-- stands on the screen from the old cursor to the new one, and what stood before it is
-- unchanged.
pub cprintf-Prints :
    (string : ℕ → List ℕ) (fmt : Option (List ℕ)) (args : List ℕ) (s : Screen)
    → s.pos < last_cell
    → s.panicked ≡ false
    → CprintfEnds string fmt args s (cprintf string fmt args s)
unfolding cprintf
cprintf-Prints string none args s h p = refl
cprintf-Prints string (some fmt) args s h p = put_all-Prints (cprintf_chars string fmt args) s h p
