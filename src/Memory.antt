-- ===== src/Memory.antt =====
-- string.c over a memory of bytes: memset, memcmp, memmove, memcpy and the string routines,
-- with the `rep stos` loops of x86.h that memset calls.
pub mod Fill
pub mod Move
pub mod Strings
mod Tests
use Prim.Native.Nat.{bit_or}
use pcs_ii.Base.{
  ℕ, zero, suc, ◌+◌, ◌-◌, ◌*◌, ◌/◌, ◌%◌, ◌^◌, Bool, ◌&&◌, Option, none, some, ltb, ◌==◌,
  if◌then◌else◌,
}
use pcs_ii.Base.Int.{ℤ, pos, sub_ℕ}

-- An address holds a byte.
abbrev pub Memory : Type 0
Memory = ℕ → ℕ

abbrev pub store : Memory → ℕ → ℕ → Memory
store m a v b = if a == b then v else m b

-- x86.h: `rep stosb`.
unfoldable pub stosb : Memory → ℕ → ℕ → ℕ → Memory
stosb m addr c zero = m
stosb m addr c (suc n) = stosb (store m addr (c % 256)) (addr + 1) c n

-- A 32-bit word, the low byte first.
abbrev pub store_word : Memory → ℕ → ℕ → Memory
store_word m a w =
    store (store (store (store m a (w % 256)) (a + 1) (w / 2 ^ 8 % 256)) (a + 2) (w / 2 ^ 16 % 256))
      (a + 3) (w / 2 ^ 24 % 256)

-- x86.h: `rep stosl`.
unfoldable pub stosl : Memory → ℕ → ℕ → ℕ → Memory
stosl m addr w zero = m
stosl m addr w (suc n) = stosl (store_word m addr w) (addr + 4) w n

-- (c<<24)|(c<<16)|(c<<8)|c
unfoldable pub repeat_byte : ℕ → ℕ
repeat_byte c = bit_or (bit_or (bit_or (c * 2 ^ 24) (c * 2 ^ 16)) (c * 2 ^ 8)) c

unfoldable pub memset : Memory → ℕ → ℕ → ℕ → Memory
memset m dst c n =
    if dst % 4 == 0 && n % 4 == 0
    then stosl m dst (repeat_byte (c % 256)) (n / 4)
    else stosb m dst c n

unfoldable pub memcmp : Memory → ℕ → ℕ → ℕ → ℤ
memcmp m s1 s2 zero = pos 0
memcmp m s1 s2 (suc n) = if m s1 == m s2 then memcmp m (s1 + 1) (s2 + 1) n else sub_ℕ (m s1) (m s2)

-- while(n-- > 0) *d++ = *s++;
unfoldable pub copy_up : Memory → ℕ → ℕ → ℕ → Memory
copy_up m d s zero = m
copy_up m d s (suc n) = copy_up (store m d (m s)) (d + 1) (s + 1) n

-- while(n-- > 0) *--d = *--s;
unfoldable pub copy_down : Memory → ℕ → ℕ → ℕ → Memory
copy_down m d s zero = m
copy_down m d s (suc n) = copy_down (store m (d - 1) (m (s - 1))) (d - 1) (s - 1) n

unfoldable pub memmove : Memory → ℕ → ℕ → ℕ → Memory
memmove m dst src n =
    if ltb src dst && ltb dst (src + n)
    then copy_down m (dst + n) (src + n) n
    else copy_up m dst src n

unfoldable pub memcpy : Memory → ℕ → ℕ → ℕ → Memory
memcpy m dst src n = memmove m dst src n

unfoldable pub strncmp : Memory → ℕ → ℕ → ℕ → ℤ
strncmp m p q zero = pos 0
strncmp m p q (suc n) =
    if m p == 0
    then sub_ℕ (m p) (m q)
    else if m p == m q
    then strncmp m (p + 1) (q + 1) n
    else sub_ℕ (m p) (m q)

-- while(n-- > 0) *s++ = 0;
unfoldable pub pad : Memory → ℕ → ℕ → Memory
pad m s zero = m
pad m s (suc n) = pad (store m s 0) (s + 1) n

unfoldable pub strncpy : Memory → ℕ → ℕ → ℕ → Memory
strncpy m s t zero = m
strncpy m s t (suc n) =
    let m' = store m s (m t) in
    let stop = pad m' (s + 1) n in if m t == 0 then stop else strncpy m' (s + 1) (t + 1) n

unfoldable pub safestrcpy : Memory → ℕ → ℕ → ℕ → Memory
safestrcpy m s t zero = m
safestrcpy m s t (suc zero) = store m s 0
safestrcpy m s t (suc (suc n)) =
    let m' = store m s (m t) in
    if m t == 0 then store m' (s + 1) 0 else safestrcpy m' (s + 1) (t + 1) (suc n)

-- `for(n = 0; s[n]; n++)` with fuel: `none` means that the fuel ran out.
unfoldable pub strlen_from : ℕ → Memory → ℕ → ℕ → Option ℕ
strlen_from zero m s n = none
strlen_from (suc f) m s n =
    let rest = strlen_from f m s (n + 1) in if m (s + n) == 0 then some n else rest

unfoldable pub strlen : ℕ → Memory → ℕ → Option ℕ
strlen fuel m s = strlen_from fuel m s 0
