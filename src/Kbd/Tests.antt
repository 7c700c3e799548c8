-- ===== src/Kbd/Tests.antt =====
-- The key a, alone, with SHIFT held and with caps lock, and the release of SHIFT.
use pcs_ii.Base.{◌≡◌, refl, some}
use pcs_ii.Kbd.{kbdgetc}

key_alone : kbdgetc 1 0x1E 0 ≡ (some b'a', 0)
unfolding kbdgetc
key_alone = refl

key_with_shift : kbdgetc 1 0x1E 1 ≡ (some b'A', 1)
unfolding kbdgetc
key_with_shift = refl

key_with_capslock : kbdgetc 1 0x1E 8 ≡ (some b'A', 8)
unfolding kbdgetc
key_with_capslock = refl

shift_released : kbdgetc 1 0xAA 9 ≡ (some 0, 8)
unfolding kbdgetc
shift_released = refl
