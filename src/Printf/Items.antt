-- ===== src/Printf/Items.antt =====
-- What `printf` writes for a format of plain characters, `%%` and `%s`.
use sonna_os.Prelude.{
  ℕ, zero, suc, ◌+◌, ◌%◌, ◌^◌, ◌<◌, ◌≡◌, ◌≢◌, refl, sym, ◌∙◌, ap, ap₂, Option, some, List, [], ◌∷◌,
  ◌++◌, length, append_assoc, append-nil, ==_ne, ◌==◌, if◌then◌else◌, arith,
}
use sonna_os.Memory.{Mem}
use sonna_os.Strings.{strlen_loop}
use sonna_os.Strings.Text.{IsText, strlen_loop-length}
use sonna_os.Printf.{
  Piece, bytes_from, sign_extended, number_piece, one_char, text_piece, with_arg, convert_long,
  convert, after_piece, printf,
}
use sonna_os.Numfmt.{utoa_base, itoa_signed}

-- A part of a format; `string p cs` is `%s` for the text `cs` at `p`.
pub data Item : Type 0 where
  plain : ℕ → Item
  percent : Item
  string : ℕ → List ℕ → Item

-- The format, the arguments and the output.
abbrev pub format_of : List Item → List ℕ
format_of [] = []
format_of (plain c ∷ items) = c ∷ format_of items
format_of (percent ∷ items) = 37 ∷ 37 ∷ format_of items
format_of (string p cs ∷ items) = 37 ∷ 115 ∷ format_of items

abbrev pub args_of : List Item → List ℕ
args_of [] = []
args_of (plain c ∷ items) = args_of items
args_of (percent ∷ items) = args_of items
args_of (string p cs ∷ items) = p ∷ args_of items

abbrev pub output_of : List Item → List ℕ
output_of [] = []
output_of (plain c ∷ items) = c ∷ output_of items
output_of (percent ∷ items) = 37 ∷ output_of items
output_of (string p cs ∷ items) = cs ++ output_of items

-- Plain characters are not `%`, and the texts are in memory and shorter than `limit`.
abbrev pub AreItems : Mem → (limit : ℕ) → List Item → Type 0
AreItems m limit [] = Unit
AreItems m limit (plain c ∷ items) = (c ≢ 37) × AreItems m limit items
AreItems m limit (percent ∷ items) = AreItems m limit items
AreItems m limit (string p cs ∷ items) =
    (length cs < limit) × IsText m p cs × AreItems m limit items

bytes_from-text : (m : Mem) (p : ℕ) (cs : List ℕ) → IsText m p cs → bytes_from m p (length cs) ≡ cs
unfolding bytes_from
bytes_from-text m p [] text = refl
bytes_from-text m p (c ∷ cs) (e, ne, text) =
    ap₂ (λ x xs. x ∷ xs) e (bytes_from-text m (p + 1) cs text)

-- The tests of the loop and of the `switch`.
abbrev loop_case {ℓ} : {X : Type ℓ} → (c : ℕ) → (end marked kept : X) → X
loop_case c end marked kept = if c == 0 then end else if c == 37 then marked else kept

abbrev switch {ℓ} : {X : Type ℓ} → (c : ℕ) → (s d x l marked other : X) → X
switch c s d x l marked other =
    if c == 115
    then s
    else if c == 100
    then d
    else if c == 120
    then x
    else if c == 108
    then l
    else if c == 37
    then marked
    else other

loop_end {ℓ} :
    {X : Type ℓ} (c : ℕ) (end marked kept : X) → c ≡ 0 → loop_case c end marked kept ≡ end
loop_end c end marked kept e = rw e refl

loop_plain {ℓ} :
    {X : Type ℓ} (c : ℕ) (end marked kept : X) → c ≢ 0 → c ≢ 37 → loop_case c end marked kept ≡ kept
loop_plain c end marked kept ne other = rw (==_ne c 0 ne, ==_ne c 37 other) refl

loop_percent {ℓ} :
    {X : Type ℓ} (c : ℕ) (end marked kept : X) → c ≡ 37 → loop_case c end marked kept ≡ marked
loop_percent c end marked kept e = rw e refl

switch_string {ℓ} :
    {X : Type ℓ} (c : ℕ) (s d x l marked other : X) → c ≡ 115 → switch c s d x l marked other ≡ s
switch_string c s d x l marked other e = rw e refl

switch_percent {ℓ} :
    {X : Type ℓ} (c : ℕ) (s d x l marked other : X)
    → c ≡ 37
    → switch c s d x l marked other ≡ marked
switch_percent c s d x l marked other e = rw e refl

-- A step of the loop at each kind of item.
module _ (fuel limit : ℕ) (m : Mem) (buf fmt : ℕ) (args out : List ℕ) where
  abbrev go_on : (at : ℕ) → (args text : List ℕ) → Option (List ℕ × Mem)
  go_on at args text = printf fuel limit m buf at args (out ++ text)

  abbrev next : Piece → Option (List ℕ × Mem)
  next p = printf fuel limit p.mem buf (p.fmt + 1) p.args (out ++ p.text)

  printf_lem :
      printf (suc fuel) limit m buf fmt args out
      ≡ loop_case
          (m fmt)
          (some (out, m))
          (after_piece next (convert limit m buf (fmt + 1) args))
          (go_on (fmt + 1) args (m fmt ∷ []))
  unfolding printf
  printf_lem = refl

  at_plain :
      (c : ℕ)
      → m fmt ≡ c
      → c ≢ 0
      → c ≢ 37
      → printf (suc fuel) limit m buf fmt args out ≡ go_on (fmt + 1) args (c ∷ [])
  at_plain c e ne other =
      printf_lem
      ∙ loop_plain (m fmt) _ _ _ (λ z. ne (sym e ∙ z)) (λ z. other (sym e ∙ z))
      ∙ ap (λ c. go_on (fmt + 1) args (c ∷ [])) e

  at_percent_sign :
      m fmt ≡ 37
      → printf (suc fuel) limit m buf fmt args out
        ≡ after_piece next (convert limit m buf (fmt + 1) args)
  at_percent_sign e = printf_lem ∙ loop_percent (m fmt) _ _ _ e

module _ (limit : ℕ) (m : Mem) (buf at : ℕ) (args : List ℕ) where
  convert_lem :
      convert limit m buf at args
      ≡ switch
          (m at)
          (with_arg args λ s rest. text_piece m s at rest (strlen_loop limit m s 0))
          (with_arg args λ d rest. number_piece buf at rest (itoa_signed (sign_extended d) m buf))
          (with_arg args λ x rest. number_piece buf at rest (utoa_base (x % 2 ^ 32) m buf 16))
          (convert_long m buf (at + 1) args)
          (one_char m 37 at args)
          (one_char m 63 at args)
  unfolding convert
  convert_lem = refl

  convert_percent : m at ≡ 37 → convert limit m buf at args ≡ one_char m 37 at args
  convert_percent e = convert_lem ∙ switch_percent (m at) _ _ _ _ _ _ e

convert_string :
    (limit : ℕ) (m : Mem) (buf at : ℕ) (args : List ℕ) (p : ℕ) (cs : List ℕ)
    → m at ≡ 115
    → length cs < limit
    → IsText m p cs
    → convert limit m buf at (p ∷ args)
      ≡ some (record { text = cs; args = args; mem = m; fmt = at })
convert_string limit m buf at args p cs e short text =
    let start : p + 0 ≡ p = omega arith in
    let total : 0 + length cs ≡ length cs = omega arith in
    convert_lem limit m buf at (p ∷ args)
    ∙ switch_string (m at) _ _ _ _ _ _ e
    ∙ ap (text_piece m p at args)
        (strlen_loop-length limit m p 0 cs short (rw start text) ∙ ap some total)
    ∙ ap (λ x. some (record { text = x; args = args; mem = m; fmt = at }))
        (bytes_from-text m p cs text)

module _ (limit : ℕ) (m : Mem) (buf : ℕ) where
  regroup :
      (out text rest : List ℕ) {r : Option (List ℕ × Mem)}
      → r ≡ some ((out ++ text) ++ rest, m)
      → r ≡ some (out ++ (text ++ rest), m)
  regroup out text rest e = e ∙ ap (λ o. some (o, m)) (append_assoc out text rest)

  -- For a format of plain characters, %% and %s, with the texts of the %s as arguments in memory,
  -- printf writes the characters, a % for each %% and the texts, in order, and leaves memory as it
  -- is; fuel above the format's length is enough.
  pub printf-items :
      (items : List Item) (fuel fmt : ℕ) (out : List ℕ)
      → length (format_of items) < fuel
      → IsText m fmt (format_of items)
      → AreItems m limit items
      → printf fuel limit m buf fmt (args_of items) out ≡ some (out ++ output_of items, m)
  printf-items items zero fmt out enough text are = absurd (omega arith)
  printf-items [] (suc fuel) fmt out enough text are =
      printf_lem fuel limit m buf fmt [] out
      ∙ loop_end (m fmt) _ _ _ text
      ∙ ap (λ o. some (o, m)) (sym (append-nil out))
  printf-items (plain c ∷ items) (suc fuel) fmt out enough (e, ne, text) (other, are) =
      regroup out (c ∷ []) (output_of items) (
        at_plain fuel limit m buf fmt (args_of items) out c e ne other
        ∙ printf-items items fuel (fmt + 1) (out ++ (c ∷ [])) (omega arith) text are)
  printf-items (percent ∷ items) (suc fuel) fmt out enough (e, ne, (e', ne', text)) are =
      regroup out (37 ∷ []) (output_of items) (
        at_percent_sign fuel limit m buf fmt (args_of items) out e
        ∙ ap (after_piece (next fuel limit m buf fmt (args_of items) out))
            (convert_percent limit m buf (fmt + 1) (args_of items) e')
        ∙ printf-items items fuel (fmt + 1 + 1) (out ++ (37 ∷ [])) (omega arith) text are)
  printf-items (string p cs ∷ items) (suc fuel) fmt out enough (e, ne, (e', ne', text))
        (short, at, are) =
      regroup out cs (output_of items) (
        at_percent_sign fuel limit m buf fmt (p ∷ args_of items) out e
        ∙ ap (after_piece (next fuel limit m buf fmt (p ∷ args_of items) out))
            (convert_string limit m buf (fmt + 1) (args_of items) p cs e' short at)
        ∙ printf-items items fuel (fmt + 1 + 1) (out ++ cs) (omega arith) text are)
