-- ===== src/Pmm/Scan.antt =====
-- The scan over the frames of a bitmap finds a run of clear frames exactly when there is one.
use sonna_os.Prelude.{
  ℕ, zero, suc, ◌+◌, ◌-◌, ◌≤◌, ◌<◌, ◌≡◌, refl, ap, subst, ◌∙◌, ◌≢◌, ◌⊎◌, inl, inr, Bool, true,
  false, ◌&&◌, ◌==◌, ltb, leb, if◌then◌else◌, Bool-cases, ==_iff, ==_self, ==_ne, arith,
}
use sonna_os.Pmm.{found, not_found, out_of_fuel}
use sonna_os.Pmm.Search.{next, start_at, len_at, scan}

-- The frames `start` up to `start + len` are clear, and a run may start at the first.
abbrev pub IsRun : (used ok : ℕ → Bool) (start len : ℕ) → Type 0
IsRun used ok start len =
    (ok start ≡ true) × ((g : ℕ) → start ≤ g → g < start + len → used g ≡ false)

and-false : (b : Bool) → (b && false) ≡ false
and-false true = refl
and-false false = refl

found_injective : {a b : ℕ} → found a ≡ found b → a ≡ b
found_injective e = cc

found-ne : {a : ℕ} → found a ≢ not_found
found-ne e = cc

false-ne : {b : Bool} → b ≡ false → b ≢ true
false-ne p q = cc

module _ (used ok : ℕ → Bool) (frames count : ℕ) (first : used 0 ≡ true)
    (some_frames : 0 < count) where
  -- What a search that stands before frame `f` knows: frame 0 is used, so no run crosses the end.
  abbrev Known : ℕ → ℕ → ℕ → Type 0
  Known f start len =
      (len ≡ 0) ⊎ (IsRun used ok start len × (start + len ≡ (if f == 0 then frames else f)))

  extend :
      (f start len : ℕ)
      → Known f start len
      → used f ≡ false
      → (len_at used ok f len ≡ 0)
        ⊎ (IsRun used ok (start_at used ok f start len) (len_at used ok f len)
            × (start_at used ok f start len + len_at used ok f len ≡ suc f))
  extend f start zero known clear = rw clear (elim (Bool-cases (ok f)) [
    | inl may ↦ rw may (inr ((may, λ g lo hi. ap used (omega arith) ∙ clear), omega arith))
    | inr not_here ↦ rw not_here (inl refl)
  ])
  extend f start (suc len) (inl z) clear = absurd (omega arith)
  extend f start (suc len) (inr (run, at)) clear =
      let ne : f ≢ 0 = λ e. cc in
      let end : start + suc len ≡ f = ground arith in
      rw (clear, positive, and-false, and-false)
        (inr (
          (
            run.0,
            λ g lo hi. elim (Bool-cases (ltb g f)) [
              | inl before ↦ run.1 g lo (ground arith)
              | inr last ↦ ap used (ground arith) ∙ clear
            ],
          ),
          omega arith,
        ))
    where
      positive : (suc len == 0) ≡ false
      positive = ground arith

  scan_used :
      (fuel f start len : ℕ)
      → used f ≡ true
      → scan used ok frames count (suc fuel) f start len
        ≡ scan used ok frames count fuel (next frames f) start 0
  unfolding scan
  scan_used fuel f start len busy = rw busy

  scan_full :
      (fuel f start len : ℕ)
      → used f ≡ false
      → len_at used ok f len ≡ count
      → scan used ok frames count (suc fuel) f start len ≡ found (start_at used ok f start len)
  unfolding scan
  scan_full fuel f start len clear full = rw (full, clear, ==_self count)

  scan_part :
      (fuel f start len : ℕ)
      → used f ≡ false
      → len_at used ok f len ≢ count
      → scan used ok frames count (suc fuel) f start len
        ≡ scan used ok frames count fuel
            (next frames f)
            (start_at used ok f start len)
            (len_at used ok f len)
  unfolding scan
  scan_part fuel f start len clear part = rw (==_ne (len_at used ok f len) count part, clear)

  report :
      (f start len s : ℕ)
      → f < frames
      → (len ≡ 0) ⊎ (IsRun used ok start len × (start + len ≡ suc f))
      → len ≡ count
      → start ≡ s
      → IsRun used ok s count × (s + count ≤ frames) × (0 < s)
  report f start len s hf (inl z) full same = absurd (omega arith)
  report f start len s hf (inr (run, at)) full same = (
    subst (λ n. IsRun used ok n count) same (subst (λ n. IsRun used ok start n) full run),
    omega arith,
    elim (Bool-cases (s == 0)) [
      | inl at_zero ↦ absurd (ground (arith, run.1 start))
      | inr ne ↦ ground arith
    ],
  )

  continue :
      (f start len : ℕ)
      → f < frames
      → (len ≡ 0) ⊎ (IsRun used ok start len × (start + len ≡ suc f))
      → Known (next frames f) start len
  continue f start len hf (inl z) = inl z
  continue f start len hf (inr (run, at)) = inr (run, ground arith)

  -- A run that the scan reports is one, inside the bitmap and not at frame 0.
  pub scan_sound :
      (fuel f start len s : ℕ)
      → f < frames
      → Known f start len
      → scan used ok frames count fuel f start len ≡ found s
      → IsRun used ok s count × (s + count ≤ frames) × (0 < s)
  scan_sound zero f start len s hf known e = absurd (unfold scan in cc)
  scan_sound (suc fuel) f start len s hf known e = elim (Bool-cases (used f)) [
    | inl busy ↦
        scan_sound fuel (next frames f) start 0 s (ground arith) (inl refl)
          (rw (scan_used fuel f start len busy) at e)
    | inr clear ↦ elim (Bool-cases (len_at used ok f len == count)) [
      | inl full ↦
          let full' = (==_iff _ _).0 full in
          report f (start_at used ok f start len) (len_at used ok f len) s hf
            (extend f start len known clear) full'
            (found_injective (rw (scan_full fuel f start len clear full') at e))
      | inr part ↦
          scan_sound fuel (next frames f) (start_at used ok f start len) (len_at used ok f len) s
            (ground arith) (continue f _ _ hf (extend f start len known clear))
            (rw (scan_part fuel f start len clear (λ h. ground arith)) at e)
    ]
  ]

  len_at-suc :
      (f len : ℕ) → used f ≡ false → ((len ≡ 0) → ok f ≡ true) → len_at used ok f len ≡ suc len
  len_at-suc f len clear may = rw clear (ground arith)

  len_at-lt :
      (f len : ℕ) → len < count → len_at used ok f len ≢ count → len_at used ok f len < count
  len_at-lt f len h ne = elim (Bool-cases (used f)) [
    | inl busy ↦ rw busy some_frames
    | inr clear ↦ ground arith
  ]

  -- A scan that stands before enough clear frames finds a run.
  reach :
      (k fuel f start len : ℕ)
      → f + k ≤ frames
      → ((g : ℕ) → f ≤ g → g < f + k → used g ≡ false)
      → k ≤ fuel
      → len < count
      → count ≤ len + k
      → ((len ≡ 0) → ok f ≡ true)
      → scan used ok frames count fuel f start len ≢ not_found
  reach zero fuel f start len fits clear more short enough may = absurd (omega arith)
  reach (suc k) zero f start len fits clear more short enough may = absurd (omega arith)
  reach (suc k) (suc fuel) f start len fits clear more short enough may =
      let here = clear f (omega arith) (omega arith) in
      let longer = len_at-suc f len here may in
      elim (Bool-cases (suc len == count)) [
        | inl full ↦ rw (scan_full fuel f start len here (ground arith)) (λ e. cc)
        | inr part ↦
            rw (scan_part fuel f start len here (λ e. ground arith), longer, next_suc part)
              (reach k fuel (suc f) (start_at used ok f start len) (suc len) (omega arith)
                (λ g lo hi. clear g (omega arith) (omega arith)) (omega arith) (ground arith)
                (omega arith) (λ z. absurd (omega arith)))
      ]
    where
      next_suc : (suc len == count) ≡ false → next frames f ≡ suc f
      next_suc part = ground arith

  -- A scan that finds nothing has gone past every frame on its way.
  skip :
      (j fuel f start len s rest : ℕ)
      → fuel ≡ j + rest
      → f < frames
      → s < frames
      → len < count
      → (f + j ≡ s) ⊎ (f + j ≡ s + frames)
      → scan used ok frames count fuel f start len ≡ not_found
      → (st : ℕ) × (l : ℕ) × (l < count) × (scan used ok frames count rest s st l ≡ not_found)
  skip zero fuel f start len s rest e hf hs short path h =
      let same : f ≡ s = ground arith in
      let all : fuel ≡ rest = omega arith in
      (
        start,
        len,
        short,
        subst (λ n. scan used ok frames count n s start len ≡ not_found) all
            (subst (λ n. scan used ok frames count fuel n start len ≡ not_found) same h),
      )
  skip (suc j) zero f start len s rest e hf hs short path h = absurd (omega arith)
  skip (suc j) (suc fuel) f start len s rest e hf hs short path h = elim (Bool-cases (used f)) [
    | inl busy ↦
        skip j fuel (next frames f) start 0 s rest (omega arith) (ground arith) hs some_frames
          (ground arith) (rw (scan_used fuel f start len busy) at h)
    | inr clear ↦ elim (Bool-cases (len_at used ok f len == count)) [
      | inl full ↦
          absurd (found-ne (rw (scan_full fuel f start len clear ((==_iff _ _).0 full)) at h))
      | inr part ↦
          let ne = λ (q : len_at used ok f len ≡ count). false-ne part ((==_iff _ _).1 q) in
          skip j fuel (next frames f) (start_at used ok f start len) (len_at used ok f len) s rest
            (omega arith) (ground arith) hs (len_at-lt f len short ne) (ground arith)
            (rw (scan_part fuel f start len clear ne) at h)
    ]
  ]

  -- Two passes over the bitmap from any frame find a run, if there is one behind frame 0.
  pub scan_complete :
      (f start s : ℕ)
      → f < frames
      → 0 < s
      → s + count ≤ frames
      → IsRun used ok s count
      → scan used ok frames count (frames + frames) f start 0 ≢ not_found
  scan_complete f start s hf hs fits run h =
      let j = if leb f s then s - f else s + frames - f in
      let (st, l, short, e) =
        skip j (frames + frames) f start 0 s (frames + frames - j) (ground arith) hf (omega arith)
          some_frames (ground arith) h in
      reach count (frames + frames - j) s st l fits run.1 (ground arith) short (omega arith)
        (λ z. run.0) e

pub scan-ne-out_of_fuel :
    (used ok : ℕ → Bool) (frames count fuel f start len : ℕ)
    → scan used ok frames count fuel f start len ≢ out_of_fuel
unfolding scan
scan-ne-out_of_fuel used ok frames count zero f start len e = cc
scan-ne-out_of_fuel used ok frames count (suc fuel) f start len e = ground (
  arith,
  scan-ne-out_of_fuel used ok frames count fuel (next frames f) (start_at used ok f start len)
      (len_at used ok f len),
)
