-- ===== src/Strings/Text.antt =====
-- What the string functions do on NUL-terminated text.
use sonna_os.Prelude.{
  ℕ, zero, suc, ◌+◌, ◌<◌, ◌≡◌, ◌≢◌, refl, sym, ◌∙◌, ap, ap₂, eq_of_some, ◌↔◌, inl, inr, Bool-cases,
  some, List, [], ◌∷◌, ◌==◌, if◌then◌else◌, length, ==_ne, ==_self, ==→eq, ==→ne, ℤ, pos,
  difference, All, arith,
}
use sonna_os.Memory.{Mem}
use sonna_os.Strings.{strlen_loop, strlen, strcmp}

-- At `p` stands the text `cs`, closed by a NUL.
abbrev pub IsText : Mem → (p : ℕ) → List ℕ → Type 0
IsText m p [] = m p ≡ 0
IsText m p (c ∷ cs) = (m p ≡ c) × (c ≢ 0) × IsText m (p + 1) cs

pub strlen_loop-length :
    (fuel : ℕ) (m : Mem) (s len : ℕ) (cs : List ℕ)
    → length cs < fuel
    → IsText m (s + len) cs
    → strlen_loop fuel m s len ≡ some (len + length cs)
unfolding strlen_loop
strlen_loop-length zero m s len cs lt text = absurd (omega arith)
strlen_loop-length (suc fuel) m s len [] lt text = rw text (ap some (omega arith))
strlen_loop-length (suc fuel) m s len (c ∷ cs) lt (e, ne, text) =
    let at : s + len + 1 ≡ s + (len + 1) = omega arith in
    let sum : len + 1 + length cs ≡ len + suc (length cs) = omega arith in
    rw (e, ==_ne c 0 ne)
      (strlen_loop-length fuel m s (len + 1) cs (omega arith) (rw (sym at) text) ∙ ap some sum)

-- strlen of a NUL-terminated text at an address other than NULL is the text's length; fuel above
-- that length is enough.
pub strlen-length :
    (fuel : ℕ) (m : Mem) (s : ℕ) (cs : List ℕ)
    → length cs < fuel
    → s ≢ 0
    → IsText m s cs
    → strlen fuel m s ≡ some (length cs)
unfolding strlen
strlen-length fuel m s cs lt ne text =
    let at : s + 0 ≡ s = omega arith in
    rw (==_ne s 0 ne) (strlen_loop-length fuel m s 0 cs lt (rw at text) ∙ ap some (omega arith))

-- The order of two texts by their first difference; the end counts as 0.
abbrev pub compared : List ℕ → List ℕ → ℤ
compared [] [] = pos 0
compared [] (d ∷ ds) = difference 0 d
compared (c ∷ cs) [] = difference c 0
compared (c ∷ cs) (d ∷ ds) = if c == d then compared cs ds else difference c d

-- On two NUL-terminated texts strcmp gives the difference of the first bytes that differ, the
-- end of a text counting as 0.
pub strcmp-compared :
    (fuel : ℕ) (m : Mem) (s1 s2 : ℕ) (cs ds : List ℕ)
    → length cs < fuel
    → IsText m s1 cs
    → IsText m s2 ds
    → strcmp fuel m s1 s2 ≡ some (compared cs ds)
unfolding strcmp
strcmp-compared zero m s1 s2 cs ds lt left right = absurd (omega arith)
strcmp-compared (suc fuel) m s1 s2 [] [] lt left right = rw (left, right) refl
strcmp-compared (suc fuel) m s1 s2 [] (d ∷ ds) lt left (e, ne, right) = rw (left, e) refl
strcmp-compared (suc fuel) m s1 s2 (c ∷ cs) [] lt (e, ne, left) right =
    rw (e, right, ==_ne c 0 ne) refl
strcmp-compared (suc fuel) m s1 s2 (c ∷ cs) (d ∷ ds) lt (e, ne, left) (e', ne', right) =
    let rest = strcmp-compared fuel m (s1 + 1) (s2 + 1) cs ds (omega arith) left right in
    elim (Bool-cases (c == d)) [
      | inl same ↦ rw (e, e', ==_ne c 0 ne, same) rest
      | inr differ ↦ rw (e, e', ==_ne c 0 ne, differ) refl
    ]

difference-null : (a b : ℕ) → difference a b ≡ pos 0 → a ≡ b
difference-null a b h = ground (arith, h)

pub compared-null :
    (cs ds : List ℕ) → All (λ c. c ≢ 0) cs → All (λ d. d ≢ 0) ds → compared cs ds ≡ pos 0 → cs ≡ ds
compared-null [] [] nc nd h = refl
compared-null [] (d ∷ ds) nc (nz, nd) h = absurd (nz (sym (difference-null 0 d h)))
compared-null (c ∷ cs) [] (nz, nc) nd h = absurd (nz (difference-null c 0 h))
compared-null (c ∷ cs) (d ∷ ds) (nz, nc) (nz', nd) h = elim (Bool-cases (c == d)) [
  | inl same ↦
      ap₂ (λ x xs. x ∷ xs) (==→eq c d same) (compared-null cs ds nc nd (sym (rw same refl) ∙ h))
  | inr differ ↦ absurd (==→ne c d differ (difference-null c d (sym (rw differ refl) ∙ h)))
]

compared_self : (cs : List ℕ) → compared cs cs ≡ pos 0
compared_self [] = refl
compared_self (c ∷ cs) = rw (==_self c) (compared_self cs)

IsText-All : (m : Mem) (p : ℕ) (cs : List ℕ) → IsText m p cs → All (λ c. c ≢ 0) cs
IsText-All m p [] text = tt
IsText-All m p (c ∷ cs) (e, ne, text) = (ne, IsText-All m (p + 1) cs text)

-- On two NUL-terminated texts strcmp returns, and its result is 0 exactly when the texts are
-- equal; fuel above the first text's length is enough.
pub strcmp-null :
    (fuel : ℕ) (m : Mem) (s1 s2 : ℕ) (cs ds : List ℕ)
    → length cs < fuel
    → IsText m s1 cs
    → IsText m s2 ds
    → (strcmp fuel m s1 s2 ≡ some (pos 0)) ↔ (cs ≡ ds)
strcmp-null fuel m s1 s2 cs ds lt left right =
    let run = strcmp-compared fuel m s1 s2 cs ds lt left right in
    (
      λ h.
          compared-null cs ds (IsText-All m s1 cs left) (IsText-All m s2 ds right)
            (eq_of_some (sym run ∙ h)),
      λ e. run ∙ ap some (ap (compared cs) (sym e) ∙ compared_self cs),
    )
