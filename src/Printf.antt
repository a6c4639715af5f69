-- ===== src/Printf.antt =====
-- userspace/lib/printf.c with `strlen` of userspace/lib/string.c: what `printf` hands to
-- `write(1, …)`, in order. The arguments are 64-bit words; the result is `none` if there is none
-- left, if a text does not end within the fuel, or if the fuel runs out.
pub mod Items
mod Tests
use sonna_os.Prelude.{
  ℕ, zero, suc, ◌+◌, ◌-◌, ◌%◌, ◌^◌, Option, none, some, List, [], ◌∷◌, ◌++◌, ltb, ◌==◌,
  if◌then◌else◌,
}
use sonna_os.Memory.{Mem}
use sonna_os.Strings.{strlen_loop}
use sonna_os.Numfmt.{utoa_base, itoa_signed}

-- The `len` bytes from `p` on, which `write` sends.
unfoldable pub bytes_from : Mem → (p len : ℕ) → List ℕ
bytes_from m p zero = []
bytes_from m p (suc len) = m p ∷ bytes_from m (p + 1) len

-- What a conversion leaves: the text written, the arguments that are left, memory, and where in
-- the format it stopped.
pub record Piece : Type 0 where
  pub text : List ℕ
  pub args : List ℕ
  pub mem : Mem
  pub fmt : ℕ

-- A 32-bit `int` as the `long` that `itoa_signed` takes.
abbrev pub sign_extended : ℕ → ℕ
sign_extended d = let w = d % 2 ^ 32 in if ltb w (2 ^ 31) then w else w + (2 ^ 64 - 2 ^ 32)

abbrev pub number_piece : (buf fmt : ℕ) → List ℕ → Option (ℕ × Mem) → Option Piece
number_piece buf fmt args none = none
number_piece buf fmt args (some (len, m)) =
    some (record { text = bytes_from m buf len; args = args; mem = m; fmt = fmt })

abbrev pub text_piece : Mem → (s fmt : ℕ) → List ℕ → Option ℕ → Option Piece
text_piece m s fmt args none = none
text_piece m s fmt args (some len) =
    some (record { text = bytes_from m s len; args = args; mem = m; fmt = fmt })

abbrev pub one_char : Mem → (c fmt : ℕ) → List ℕ → Option Piece
one_char m c fmt args = some (record { text = c ∷ []; args = args; mem = m; fmt = fmt })

abbrev pub with_arg : List ℕ → (ℕ → List ℕ → Option Piece) → Option Piece
with_arg [] use_it = none
with_arg (a ∷ args) use_it = use_it a args

-- The case `'l'`, with `fmt` behind it.
unfoldable pub convert_long : Mem → (buf fmt : ℕ) → List ℕ → Option Piece
unfolding itoa_signed bytes_from
convert_long m buf fmt args =
    let signed : (at : ℕ) → Option Piece =
      λ at. with_arg args λ d rest. number_piece buf at rest (itoa_signed (d % 2 ^ 64) m buf) in
    if m fmt == 108
    then (if m (fmt + 1) == 100 then signed (fmt + 1) else one_char m 63 (fmt + 1) args)
    else if m fmt == 100
    then signed fmt
    else one_char m 63 fmt args

-- The `switch` on the character at `fmt`, behind the `%`.
unfoldable pub convert : (fuel : ℕ) → Mem → (buf fmt : ℕ) → List ℕ → Option Piece
unfolding convert_long utoa_base itoa_signed strlen_loop bytes_from
convert fuel m buf fmt args =
    let c = m fmt in
    if c == 115
    then with_arg args (λ s rest. text_piece m s fmt rest (strlen_loop fuel m s 0))
    else if c == 100
    then with_arg args (λ d rest. number_piece buf fmt rest (itoa_signed (sign_extended d) m buf))
    else if c == 120
    then with_arg args (λ x rest. number_piece buf fmt rest (utoa_base (x % 2 ^ 32) m buf 16))
    else if c == 108
    then convert_long m buf (fmt + 1) args
    else if c == 37
    then one_char m 37 fmt args
    else one_char m 63 fmt args

abbrev pub after_piece : (Piece → Option (List ℕ × Mem)) → Option Piece → Option (List ℕ × Mem)
after_piece next none = none
after_piece next (some piece) = next piece

-- `printf`: `out` is what was written before, `length` the fuel for a text argument.
unfoldable pub printf :
    (fuel length : ℕ) → Mem → (buf fmt : ℕ) → (args out : List ℕ) → Option (List ℕ × Mem)
unfolding convert
printf zero length m buf fmt args out = none
printf (suc fuel) length m buf fmt args out =
    let next : Piece → Option (List ℕ × Mem) =
      λ p. printf fuel length p.mem buf (p.fmt + 1) p.args (out ++ p.text) in
    if m fmt == 0
    then some (out, m)
    else if m fmt == 37
    then after_piece next (convert length m buf (fmt + 1) args)
    else after_piece next (one_char m (m fmt) fmt args)
