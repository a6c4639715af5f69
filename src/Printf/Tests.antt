-- ===== src/Printf/Tests.antt =====
-- A format in memory: `a%s%%` at 10, and the text `hi` at 30.
use sonna_os.Prelude.{ℕ, ◌-◌, ◌≡◌, refl, some, List, [], ◌∷◌, get_or, ltb, if◌then◌else◌, arith}
use sonna_os.Memory.{Mem}
use sonna_os.Printf.{bytes_from, convert, printf}
use sonna_os.Printf.Items.{Item, plain, percent, string, args_of, output_of, printf-items}

abbrev cells : List ℕ
cells =
    97 ∷ 37 ∷ 115 ∷ 37 ∷ 37 ∷ 0 ∷ 0 ∷ 0 ∷ 0 ∷ 0 ∷ 0 ∷ 0 ∷ 0 ∷ 0 ∷ 0 ∷ 0 ∷ 0 ∷ 0 ∷ 0 ∷ 0 ∷ 104 ∷ 105
    ∷ []

abbrev memory : Mem
memory = λ p. if ltb p 10 then 0 else get_or cells (p - 10) 0

abbrev items : List Item
items = plain 97 ∷ string 30 (104 ∷ 105 ∷ []) ∷ percent ∷ []

printf-items_example : printf 9 5 memory 100 10 (args_of items) [] ≡ some (output_of items, memory)
printf-items_example =
    printf-items 5 memory 100 items 9 10 [] (omega arith)
      (
        refl,
        omega arith,
        (refl, omega arith, (refl, omega arith, (refl, omega arith, (refl, omega arith, refl)))),
      )
      (omega arith, (omega arith, (refl, omega arith, (refl, omega arith, refl)), tt))

-- A `%` at the end of the format: the NUL is taken for its letter, and the loop goes on behind it.
abbrev open_format : Mem
open_format = λ p. if ltb p 10 then 0 else get_or (37 ∷ 0 ∷ 88 ∷ 0 ∷ []) (p - 10) 0

runs_past_the_end : printf 9 5 open_format 100 10 [] [] ≡ some (63 ∷ 88 ∷ [], open_format)
unfolding printf convert bytes_from
runs_past_the_end = refl
