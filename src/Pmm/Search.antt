-- ===== src/Pmm/Search.antt =====
-- The two search loops of kernel/mm/pmm.c against one scan over a predicate "is used": the loop's
-- wrap-around flag stops it after exactly two passes, so that a scan of `2 * frames` steps is it.
use sonna_os.Prelude.{
  ℕ, zero, suc, ◌+◌, ◌-◌, ◌%◌, ◌^◌, ◌≤◌, ◌<◌, ◌≡◌, sym, ap, ◌∙◌, ◌⊎◌, inl, inr, Bool, true, false,
  not, ◌&&◌, ◌||◌, List, ◌==◌, ltb, if◌then◌else◌, Bool-cases, add64, mul64, arith,
}
use native.Mathlib.Nat.{mod-eq_of_lt, mod_self}
use sonna_os.Pmm.{Found, found, not_found, page_size, test_frame, search_run, search_aligned}

abbrev pub next : ℕ → ℕ → ℕ
next frames f = if suc f == frames then 0 else suc f

-- One frame after another round the bitmap, with no stopping flag: a run may start where `ok`.
module _ (used ok : ℕ → Bool) where
  abbrev pub start_at : ℕ → ℕ → ℕ → ℕ
  start_at f start len = if not (used f) && (ok f && (len == 0)) then f else start

  abbrev pub len_at : ℕ → ℕ → ℕ
  len_at f len = if used f then 0 else if not (ok f) && (len == 0) then 0 else suc len

  unfoldable pub scan : (frames count fuel f start len : ℕ) → Found
  scan frames count zero f start len = not_found
  scan frames count (suc fuel) f start len =
      let rest = scan frames count fuel (next frames f) (start_at f start len) (len_at f len) in
      if not (used f) && (len_at f len == count) then found (start_at f start len) else rest

next_lem : (f frames : ℕ) → f < frames → frames ≤ 2 ^ 52 → add64 f 1 % frames ≡ next frames f
next_lem f frames h small = elim (Bool-cases (suc f == frames)) [
  | inl last ↦ rw last (ap (λ (t : ℕ). t % frames) (ground arith) ∙ mod_self frames)
  | inr more ↦ rw more (ground (arith, mod-eq_of_lt {n = suc f} {m = frames}))
]

-- `d` steps of the loop remain until it meets its starting point again.
abbrev pub Ahead : (frames wrap f d : ℕ) → Type 0
Ahead frames wrap f d = (0 < d) × (d ≤ frames) × ((f + d ≡ wrap) ⊎ (f + d ≡ wrap + frames))

abbrev pub left : (frames d : ℕ) → Bool → ℕ
left frames d wrapped = d + (if wrapped then 0 else frames)

-- The end of one round: the loop stops where the scan's fuel ends.
stop :
    (frames wrap fuel d f : ℕ) (wrapped : Bool) (more : Bool → Found) (rest : Found)
    → wrap < frames
    → f < frames
    → Ahead frames wrap f d
    → suc fuel ≡ left frames d wrapped
    → (fuel ≡ 0 → rest ≡ not_found)
    → ((d' : ℕ) (w : Bool)
        → Ahead frames wrap (next frames f) d'
        → fuel ≡ left frames d' w
        → more w ≡ rest)
    → (if (next frames f == wrap) && wrapped
        then not_found
        else more (wrapped || (next frames f == wrap)))
      ≡ rest
stop frames wrap fuel d f true more rest at hf ahead e done go =
    elim (Bool-cases (next frames f == wrap)) [
      | inl met ↦ rw met (sym (done (ground arith)))
      | inr on ↦ rw on (go (d - 1) true (ground arith) (ground arith))
    ]
stop frames wrap fuel d f false more rest at hf ahead e done go =
    elim (Bool-cases (next frames f == wrap)) [
      | inl met ↦ rw met (go frames true (ground arith) (ground arith))
      | inr on ↦ rw on (go (d - 1) false (ground arith) (ground arith))
    ]

abbrev pub any : ℕ → Bool
any f = true

abbrev pub aligned : ℕ → ℕ → Bool
aligned alignment f = mul64 f page_size % alignment == 0

module _ (bm : List ℕ) (frames count wrap : ℕ) (small : frames ≤ 2 ^ 52) (few : count < 2 ^ 64)
    (at : wrap < frames) where
  -- The loop of `pmm_alloc_frames` is the scan in which a run may start anywhere.
  pub search_run-scan :
      (fuel d f start len : ℕ) (wrapped : Bool)
      → f < frames
      → len < count
      → Ahead frames wrap f d
      → fuel ≡ left frames d wrapped
      → search_run bm frames count wrap fuel f start len wrapped
        ≡ scan (test_frame bm) any frames count fuel f start len
  unfolding search_run scan
  search_run-scan zero d f start len wrapped hf hl ahead e = absurd (omega arith)
  search_run-scan (suc fuel) d f start len wrapped hf hl ahead e =
      rw (next_lem f frames hf small) (elim (Bool-cases (test_frame bm f)) [
        | inl used ↦ rw used (
            stop frames wrap fuel d f wrapped _ _ at hf ahead e (end start 0) λ d' w.
              search_run-scan fuel d' (next frames f) start 0 w (ground arith) (omega arith))
        | inr clear ↦
            rw (clear, inc)
              (elim (Bool-cases (suc len == count)) [
                | inl full ↦ rw full
                | inr part ↦ rw part (
                    stop frames wrap fuel d f wrapped _ _ at hf ahead e (end _ (suc len)) λ d' w.
                      search_run-scan fuel d' (next frames f) (if len == 0 then f else start)
                        (suc len) w (ground arith) (ground arith))
              ])
      ])
    where
      inc : add64 len 1 ≡ suc len
      inc = omega arith

      end :
          (start len : ℕ)
          → fuel ≡ 0
          → scan (test_frame bm) any frames count fuel (next frames f) start len ≡ not_found
      end start len z = rw (z, scan)

  -- The loop of `pmm_alloc_frames_aligned` is the scan in which a run starts at an aligned frame.
  pub search_aligned-scan :
      (alignment fuel d f start len : ℕ) (wrapped : Bool)
      → f < frames
      → len < count
      → Ahead frames wrap f d
      → fuel ≡ left frames d wrapped
      → search_aligned bm frames count alignment wrap fuel f start len wrapped
        ≡ scan (test_frame bm) (aligned alignment) frames count fuel f start len
  unfolding search_aligned scan
  search_aligned-scan alignment zero d f start len wrapped hf hl ahead e = absurd (omega arith)
  search_aligned-scan alignment (suc fuel) d f start len wrapped hf hl ahead e =
      rw (next_lem f frames hf small) (elim (Bool-cases (test_frame bm f)) [
        | inl used ↦ rw used (
            stop frames wrap fuel d f wrapped _ _ at hf ahead e (end start 0) λ d' w.
              search_aligned-scan alignment fuel d' (next frames f) start 0 w (ground arith)
                (omega arith))
        | inr clear ↦
            rw (clear, swap, same)
              (elim (Bool-cases (longer == count)) [
                | inl full ↦ rw full
                | inr part ↦ rw part (
                    stop frames wrap fuel d f wrapped _ _ at hf ahead e (end _ longer) λ d' w.
                      search_aligned-scan alignment fuel d' (next frames f)
                        (if aligned alignment f && (len == 0) then f else start) longer w
                        (ground arith) (ground arith))
              ])
      ])
    where
      longer : ℕ
      longer = if not (aligned alignment f) && (len == 0) then 0 else suc len

      swap : ((len == 0) && aligned alignment f) ≡ (aligned alignment f && (len == 0))
      swap = ground arith

      same :
          (if aligned alignment f && (len == 0) then 1 else if ltb 0 len then add64 len 1 else len)
          ≡ (if not (aligned alignment f) && (len == 0) then 0 else suc len)
      same = ground arith

      end :
          (start len : ℕ)
          → fuel ≡ 0
          → scan (test_frame bm) (aligned alignment) frames count fuel (next frames f) start len
            ≡ not_found
      end start len z = rw (z, scan)
