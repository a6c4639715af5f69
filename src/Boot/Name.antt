-- ===== src/Boot/Name.antt =====
-- The text that `print_system_info` makes of the bootloader's name and version.
use sonna_os.Prelude.{
  ℕ, zero, suc, ◌+◌, ◌-◌, ◌<◌, ◌≤◌, ◌≡◌, refl, sym, ◌∙◌, ap, inl, inr, Bool-cases, true, false,
  some, List, [], ◌∷◌, ◌++◌, length, length-append, take, append_assoc, append-nil, ltb, ==_ne,
  arith,
}
use sonna_os.Memory.{Mem}
use sonna_os.Strings.Text.{IsText}
use sonna_os.Boot.{copy_text, add_space, then_version, bootloader_str, end_of}

take-whole : (n : ℕ) (cs : List ℕ) → length cs ≤ n → take n cs ≡ cs
take-whole zero [] le = refl
take-whole zero (c ∷ cs) le = absurd (omega arith)
take-whole (suc n) [] le = refl
take-whole (suc n) (c ∷ cs) le = ap (λ xs. c ∷ xs) (take-whole n cs (omega arith))

length-take_le : (n : ℕ) (cs : List ℕ) → length (take n cs) ≤ n
length-take_le zero cs = omega arith
length-take_le (suc n) [] = omega arith
length-take_le (suc n) (c ∷ cs) = omega (arith, length-take_le n cs)

-- Taking beyond the first of two lists, and within it.
take-append : (n : ℕ) (cs ds : List ℕ) → take (length cs + n) (cs ++ ds) ≡ cs ++ take n ds
take-append n [] ds = let sum : 0 + n ≡ n = omega arith in ap (λ k. take k ds) sum
take-append n (c ∷ cs) ds =
    let sum : length (c ∷ cs) + n ≡ suc (length cs + n) = omega arith in
    ap (λ k. take k (c ∷ cs ++ ds)) sum ∙ ap (λ xs. c ∷ xs) (take-append n cs ds)

take-within : (n : ℕ) (cs ds : List ℕ) → n ≤ length cs → take n (cs ++ ds) ≡ take n cs
take-within zero cs ds le = refl
take-within (suc n) [] ds le = absurd (omega arith)
take-within (suc n) (c ∷ cs) ds le = ap (λ xs. c ∷ xs) (take-within n cs ds (omega arith))

-- A copying loop appends what there is room for.
copy_text-take :
    (fuel : ℕ) (m : Mem) (text i room : ℕ) (out cs : List ℕ)
    → length out + room ≡ 63
    → room < fuel
    → IsText m (text + i) cs
    → copy_text fuel m text i out ≡ some (out ++ take room cs)
unfolding copy_text
copy_text-take zero m text i room out cs sum lt is = absurd (omega arith)
copy_text-take (suc fuel) m text i room out [] sum lt is =
    rw is (
      ap some
        (sym (append-nil out) ∙ ap (λ xs. out ++ xs) (sym (take-whole room [] (omega arith)))))
copy_text-take (suc fuel) m text i zero out (c ∷ cs) sum lt (e, ne, is) =
    let full : ltb (length out + 1) 64 ≡ false = ground arith in
    rw (e, ==_ne c 0 ne, full) (ap some (sym (append-nil out)))
copy_text-take (suc fuel) m text i (suc room) out (c ∷ cs) sum lt (e, ne, is) =
    let fits : ltb (length out + 1) 64 ≡ true = ground arith in
    let at : text + i + 1 ≡ text + (i + 1) = omega arith in
    let more : length (out ++ (c ∷ [])) + room ≡ 63 =
      omega (arith, length-append out (c ∷ []), sum) in
    rw (e, ==_ne c 0 ne, fits)
      (copy_text-take fuel m text (i + 1) room (out ++ (c ∷ [])) cs more (omega arith)
          (rw (sym at) is)
        ∙ ap some (append_assoc out (c ∷ []) (take room cs)))

length-take_full : (n : ℕ) (cs : List ℕ) → n ≤ length cs → length (take n cs) ≡ n
length-take_full zero cs le = refl
length-take_full (suc n) [] le = absurd (omega arith)
length-take_full (suc n) (c ∷ cs) le = omega (arith, length-take_full n cs (omega arith))

-- What the two loops and the space come to.
joined :
    (ns vs : List ℕ)
    → add_space (take 63 ns) ++ take (63 - length (add_space (take 63 ns))) vs
      ≡ take 63 (ns ++ 32 ∷ vs)
joined ns vs = elim (Bool-cases (ltb (length ns) 63)) [
  | inl short ↦
      let whole = take-whole 63 ns (ground arith) in
      let fits : ltb (length ns + 1) 64 ≡ true = ground arith in
      let spaced : add_space (take 63 ns) ≡ ns ++ (32 ∷ []) = ap add_space whole ∙ rw fits refl in
      let total = length-append ns (32 ∷ []) in
      let room : length (ns ++ (32 ∷ [])) + (63 - length (ns ++ (32 ∷ []))) ≡ 63 =
        ground (arith, total) in
      ap (λ out. out ++ take (63 - length out) vs) spaced
      ∙ sym (take-append (63 - length (ns ++ (32 ∷ []))) (ns ++ (32 ∷ [])) vs)
      ∙ ap (λ n. take n ((ns ++ (32 ∷ [])) ++ vs)) room
      ∙ ap (take 63) (append_assoc ns (32 ∷ []) vs)
  | inr long ↦
      let size = length-take_full 63 ns (ground arith) in
      let full : ltb (length (take 63 ns) + 1) 64 ≡ false = ground (arith, size) in
      let unspaced : add_space (take 63 ns) ≡ take 63 ns = rw full refl in
      let no_room : 63 - length (take 63 ns) ≡ 0 = omega (arith, size) in
      ap (λ out. out ++ take (63 - length out) vs) unspaced
      ∙ ap (λ n. take 63 ns ++ take n vs) no_room
      ∙ append-nil (take 63 ns)
      ∙ sym (take-within 63 ns (32 ∷ vs) (ground arith))
]

add_space-le : (out : List ℕ) → length out ≤ 63 → length (add_space out) ≤ 63
add_space-le out le = elim (Bool-cases (ltb (length out + 1) 64)) [
  | inl fits ↦ rw fits (ground (arith, length-append out (32 ∷ [])))
  | inr full ↦ rw full le
]

bootloader_str_lem :
    (fuel : ℕ) (m : Mem) (name version : ℕ)
    → bootloader_str fuel m name version ≡ then_version fuel m version (copy_text fuel m name 0 [])
unfolding bootloader_str
bootloader_str_lem fuel m name version = refl

-- For NUL-terminated texts the loops of print_system_info end, and bootloader_str holds the
-- first 63 characters of the name, a space and the version, with its NUL behind them inside the
-- array.
pub bootloader_str-take :
    (fuel : ℕ) (m : Mem) (name version : ℕ) (ns vs : List ℕ)
    → 63 < fuel
    → IsText m name ns
    → IsText m version vs
    → (bootloader_str fuel m name version ≡ some (take 63 (ns ++ 32 ∷ vs)))
      × (end_of (length (take 63 (ns ++ 32 ∷ vs))) ≡ length (take 63 (ns ++ 32 ∷ vs)))
unfolding end_of
bootloader_str-take fuel m name version ns vs enough is_name is_version =
    let start : name + 0 ≡ name = omega arith in
    let next : version + 0 ≡ version = omega arith in
    let first = copy_text-take fuel m name 0 63 [] ns refl enough (rw start is_name) in
    let out = add_space (take 63 ns) in
    let small = add_space-le (take 63 ns) (length-take_le 63 ns) in
    let second =
      copy_text-take fuel m version 0 (63 - length out) out vs (omega (arith, small))
        (omega (arith, enough)) (rw next is_version) in
    let size = length-take_le 63 (ns ++ 32 ∷ vs) in
    let inside : ltb (length (take 63 (ns ++ 32 ∷ vs))) 64 ≡ true = ground (arith, size) in
    (
      bootloader_str_lem fuel m name version
          ∙ ap (then_version fuel m version) first
          ∙ second
          ∙ ap some (joined ns vs),
      rw inside refl,
    )
