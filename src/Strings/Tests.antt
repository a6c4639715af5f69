-- ===== src/Strings/Tests.antt =====
-- Texts in a small memory.
use sonna_os.Prelude.{
  ℕ, ◌≡◌, refl, some, List, [], ◌∷◌, pos, ap, sym, eq_of_some, ◌==◌, if◌then◌else◌,
}
use sonna_os.Memory.{Mem, write}
use sonna_os.Strings.{strncmp, strcat, u64_to_hex, find_end, append_loop, hex_loop}

abbrev empty_memory : Mem
empty_memory a = 0

-- "ab" at 100 and "ac" at 200.
abbrev two_texts : Mem
two_texts a =
    if a == 100
    then 97
    else if a == 101
    then 98
    else if a == 200
    then 97
    else if a == 201
    then 99
    else 0

hex_of_beef : u64_to_hex 0xBEEF empty_memory 10 27 ≡ 70
unfolding u64_to_hex hex_loop write
hex_of_beef = refl

joined : (m : Mem) → strcat 4 two_texts 100 200 ≡ some m → m 102 ≡ 97
unfolding strcat find_end append_loop write
joined m h = ap (λ f. f 102) (sym (eq_of_some h))

strncmp_prefix : strncmp two_texts 100 200 1 ≡ pos 0
unfolding strncmp
strncmp_prefix = refl

abbrev the_b : List ℕ
the_b = 97 ∷ 98 ∷ []

abbrev the_c : List ℕ
the_c = 97 ∷ 99 ∷ []
