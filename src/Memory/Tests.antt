-- ===== src/Memory/Tests.antt =====
-- Overlapping runs in a small memory.
use sonna_os.Prelude.{◌≡◌, refl}
use sonna_os.Memory.{Mem, memmove, memcmp, minus_one, copy_up, copy_down, memcmp_loop, write}
use sonna_os.Memory.Copy.{memmove-at}

-- Each byte is its address.
abbrev numbered : Mem
numbered a = a

moves_up : memmove numbered 12 10 4 15 ≡ 13
unfolding memmove copy_up copy_down write
moves_up = refl

compares : memcmp numbered 10 20 4 ≡ minus_one
unfolding memcmp memcmp_loop
compares = refl

memmove-at_example : memmove numbered 12 10 4 15 ≡ 13
memmove-at_example = memmove-at numbered 12 10 4 15
