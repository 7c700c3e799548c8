-- ===== src/Ulib.antt =====
-- ulib.c: the string functions of user programs. A string is its bytes up to the NUL; the functions
-- that write memory share theirs with Memory.
pub mod Decimal
mod Tests
use pcs_ii.Base.{
  ℕ, zero, suc, ◌+◌, ◌-◌, ◌*◌, ◌/◌, ◌%◌, ◌^◌, Bool, true, false, not, ◌&&◌, ◌||◌, List, [], ◌∷◌,
  ◌++◌, Option, none, some, ltb, leb, ◌==◌, if◌then◌else◌,
}
use pcs_ii.Base.Int.{ℤ, pos, negsuc, sub_ℕ}
use pcs_ii.Memory.{Memory, store, stosb, copy_up}

unfoldable pub strcmp : List ℕ → List ℕ → ℤ
strcmp [] [] = pos 0
strcmp [] (d ∷ q) = sub_ℕ 0 d
strcmp (c ∷ p) [] = sub_ℕ c 0
strcmp (c ∷ p) (d ∷ q) = if c == d then strcmp p q else sub_ℕ c d

-- The string from the first `c` on.
unfoldable pub strchr : List ℕ → ℕ → Option (List ℕ)
strchr [] c = none
strchr (d ∷ s) c = if d == c then some (d ∷ s) else strchr s c

abbrev pub is_digit : ℕ → Bool
is_digit c = leb b'0' c && leb c b'9'

-- The loop of atoi; n is a 32-bit pattern.
unfoldable pub atoi_from : ℕ → List ℕ → ℕ
atoi_from n [] = n
atoi_from n (c ∷ s) =
    let rest = atoi_from ((n * 10 + c - b'0') % 2 ^ 32) s in if is_digit c then rest else n

unfoldable pub atoi : List ℕ → ℕ
unfolding atoi_from
atoi s = atoi_from 0 s

-- The loop of gets for the `room` characters that fit, on what read gives one by one: the characters
-- that are stored before the NUL.
unfoldable pub gets_from : ℕ → List ℕ → List ℕ
gets_from zero input = []
gets_from (suc room) [] = []
gets_from (suc room) (c ∷ input) =
    let rest = gets_from room input in if c == 10 || c == 13 then c ∷ [] else c ∷ rest

unfoldable pub gets : ℕ → List ℕ → List ℕ
unfolding gets_from
gets max input = gets_from (max - 1) input

-- The user's memset and memmove, with one loop each.
unfoldable pub user_memset : Memory → ℕ → ℕ → ℕ → Memory
user_memset m dst c n = stosb m dst c n

unfoldable pub user_memmove : Memory → ℕ → ℕ → ℕ → Memory
user_memmove m dst src n = copy_up m dst src n

-- while((*s++ = *t++) != 0), with fuel.
unfoldable pub strcpy : ℕ → Memory → ℕ → ℕ → Option Memory
strcpy zero m s t = none
strcpy (suc f) m s t =
    let m' = store m s (m t) in
    let rest = strcpy f m' (s + 1) (t + 1) in if m t == 0 then some m' else rest
