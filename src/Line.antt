-- ===== src/Line.antt =====
-- What a line editor promises: the specification that `SYS_READ` (arch/x86_64/syscalls/syscalls.c)
-- and the kernel shell (shell_kspace/kernelshell.c) implement in buffers of 256 bytes.
use sonna_os.Prelude.{
  ℕ, zero, suc, ◌+◌, ◌-◌, ◌<◌, ◌≤◌, ◌≡◌, refl, sym, subst, ◌∙◌, ap, Bool, true, false, ◌&&◌, List,
  [], ◌∷◌, ◌++◌, ltb, leb, if◌then◌else◌, length, take, get_or, set, length-set, arith,
}

-- `c >= 32 && c <= 126`.
abbrev pub is_printable : ℕ → Bool
is_printable c = leb 32 c && leb c 126

abbrev pub drop_last : List ℕ → List ℕ
drop_last xs = take (length xs - 1) xs

-- A character typed at the end of a line of at most 255, where `erases` are the erasing ones.
abbrev pub edit : (erases : ℕ → Bool) → List ℕ → ℕ → List ℕ
edit erases xs c =
    if erases c
    then drop_last xs
    else if is_printable c && ltb (length xs) 255
    then xs ++ c ∷ []
    else xs

unfoldable pub edited : (erases : ℕ → Bool) → List ℕ → List ℕ → List ℕ
edited erases xs [] = xs
edited erases xs (c ∷ cs) = edited erases (edit erases xs c) cs

-- A buffer with a position: the line is what stands before it.
pub record IsLine (buffer : List ℕ) (n : ℕ) : Type 0 where
  pub size : length buffer ≡ 256
  pub room : n ≤ 255

pub length-take : (xs : List ℕ) (n : ℕ) → n ≤ length xs → length (take n xs) ≡ n
length-take xs zero le = refl
length-take [] (suc n) le = absurd (omega arith)
length-take (x ∷ xs) (suc n) le = ap suc (length-take xs n (omega arith))

take-set : (xs : List ℕ) (n c : ℕ) → n < length xs → take (suc n) (set xs n c) ≡ take n xs ++ c ∷ []
take-set [] n c lt = absurd (omega arith)
take-set (x ∷ xs) zero c lt = refl
take-set (x ∷ xs) (suc n) c lt = ap (λ ys. x ∷ ys) (take-set xs n c (omega arith))

take-take : (xs : List ℕ) (n : ℕ) → n < length xs → take n (take (suc n) xs) ≡ take n xs
take-take [] n lt = absurd (omega arith)
take-take (x ∷ xs) zero lt = refl
take-take (x ∷ xs) (suc n) lt = ap (λ ys. x ∷ ys) (take-take xs n (omega arith))

pub get_or-take : (xs : List ℕ) (n i : ℕ) → i < n → get_or (take n xs) i 0 ≡ get_or xs i 0
get_or-take [] zero i lt = refl
get_or-take [] (suc n) i lt = refl
get_or-take (x ∷ xs) zero i lt = absurd (omega arith)
get_or-take (x ∷ xs) (suc n) zero lt = refl
get_or-take (x ∷ xs) (suc n) (suc i) lt = get_or-take xs n i (omega arith)

-- The buffer without the last character of the line.
take-drop_last :
    (buffer : List ℕ) (n : ℕ)
    → IsLine buffer n
    → 0 < n
    → take (n - 1) buffer ≡ drop_last (take n buffer)
take-drop_last buffer n is lt =
    let len = length-take buffer n (omega (arith, is.size, is.room)) in
    let next : suc (n - 1) ≡ n = omega arith in
    sym (
      ap (λ k. take (k - 1) (take n buffer)) len
      ∙ ap (λ k. take (n - 1) (take k buffer)) (sym next)
      ∙ take-take buffer (n - 1) (omega (arith, is.size, is.room)))

-- The buffer with a character behind the line.
take-push :
    (buffer : List ℕ) (n c : ℕ)
    → IsLine buffer n
    → n < 255
    → (take (n + 1) (set buffer n c) ≡ take n buffer ++ c ∷ []) × IsLine (set buffer n c) (n + 1)
take-push buffer n c is lt = (
  ap (λ k. take k (set buffer n c)) (next n) ∙ take-set buffer n c (omega (arith, is.size)),
  record { size = length-set buffer n c ∙ is.size; room = omega arith },
)
  where
    next : (n : ℕ) → n + 1 ≡ suc n
    next n = omega arith

-- The buffer and the position after a character, as both editors change them.
abbrev pub type_at : (erases : ℕ → Bool) → (buffer : List ℕ) → (n c : ℕ) → List ℕ × ℕ
type_at erases buffer n c =
    if erases c
    then (if ltb 0 n then (buffer, n - 1) else (buffer, n))
    else if is_printable c
    then (if ltb n 255 then (set buffer n c, n + 1) else (buffer, n))
    else (buffer, n)

-- What holds on both branches of a test that two programs share.
pub both {ℓ ℓ' ℓ''} :
    {A : Type ℓ} {B : Type ℓ'} (P : A → B → Type ℓ'') (b : Bool) (a a' : A) (x x' : B)
    → (b ≡ true → P a x)
    → (b ≡ false → P a' x')
    → P (if b then a else a') (if b then x else x')
both P true a a' x x' p p' = p refl
both P false a a' x x' p p' = p' refl

-- A buffer with a position that hold the line `xs`.
pub record Holds (xs : List ℕ) (r : List ℕ × ℕ) : Type 0 where
  pub is_line : IsLine r.0 r.1
  pub line_is : take r.1 r.0 ≡ xs

erase-Holds :
    (buffer : List ℕ) (n : ℕ)
    → IsLine buffer n
    → Holds (drop_last (take n buffer)) (if ltb 0 n then (buffer, n - 1) else (buffer, n))
erase-Holds buffer n is =
    either (ltb 0 n)
      (λ behind. record {
        is_line = record { size = is.size; room = omega (arith, is.room) };
        line_is = take-drop_last buffer n is (ground arith);
      })
      (λ start.
        let zero_is : n ≡ 0 = ground arith in
        let empty = ap (λ k. take k buffer) zero_is in
        record { is_line = is; line_is = empty ∙ sym (ap drop_last empty) })
  where
    either :
        (b : Bool)
        → (b ≡ true → Holds (drop_last (take n buffer)) (buffer, n - 1))
        → (b ≡ false → Holds (drop_last (take n buffer)) (buffer, n))
        → Holds (drop_last (take n buffer)) (if b then (buffer, n - 1) else (buffer, n))
    either true p q = p refl
    either false p q = q refl

add-Holds :
    (buffer : List ℕ) (n c : ℕ)
    → IsLine buffer n
    → Holds
        (if ltb n 255 then take n buffer ++ c ∷ [] else take n buffer)
        (if ltb n 255 then (set buffer n c, n + 1) else (buffer, n))
add-Holds buffer n c is =
    both Holds (ltb n 255) (take n buffer ++ c ∷ []) (take n buffer) (set buffer n c, n + 1)
      (buffer, n)
      (λ room.
        let (pushed, is_line) = take-push buffer n c is (ground arith) in
        record { is_line = is_line; line_is = pushed })
      (λ full. record { is_line = is; line_is = refl })

nested :
    (a b : Bool) (xs ys : List ℕ)
    → (if a then (if b then xs else ys) else ys) ≡ (if a && b then xs else ys)
nested true b xs ys = refl
nested false b xs ys = refl

-- A typed character edits the line.
pub type_at-Holds :
    (erases : ℕ → Bool) (buffer : List ℕ) (n c : ℕ)
    → IsLine buffer n
    → Holds (edit erases (take n buffer) c) (type_at erases buffer n c)
type_at-Holds erases buffer n c is =
    let xs = take n buffer in
    let len = length-take buffer n (omega (arith, is.size, is.room)) in
    let added : List ℕ × ℕ = if ltb n 255 then (set buffer n c, n + 1) else (buffer, n) in
    let kept : Holds xs (buffer, n) = record { is_line = is; line_is = refl } in
    let printed =
      both Holds (is_printable c) (if ltb n 255 then xs ++ c ∷ [] else xs) xs added (buffer, n)
        (λ e. add-Holds buffer n c is) (λ e. kept) in
    both Holds (erases c) (drop_last xs)
      (if is_printable c && ltb (length xs) 255 then xs ++ c ∷ [] else xs)
      (if ltb 0 n then (buffer, n - 1) else (buffer, n))
      (if is_printable c then added else (buffer, n)) (λ e. erase-Holds buffer n is)
      (λ e.
        subst (λ ys. Holds ys (if is_printable c then added else (buffer, n)))
          (nested (is_printable c) (ltb n 255) (xs ++ c ∷ []) xs
            ∙ ap (λ k. if is_printable c && ltb k 255 then xs ++ c ∷ [] else xs) (sym len))
          printed)
