-- ===== src/Pmm/Init/Regions.antt =====
-- The parts of `pmm_init`: what it measures, where it puts the bitmap, and which frames it clears.
use sonna_os.Prelude.{
  ℕ, zero, suc, ◌+◌, ◌*◌, ◌/◌, ◌%◌, ◌^◌, ◌≤◌, ◌<◌, ◌≡◌, refl, ◌∙◌, ◌⊎◌, inl, inr, Bool, true, false,
  ◌&&◌, ◌||◌, List, [], ◌∷◌, ◌==◌, ltb, leb, Bool-cases, ltb→lt, add64, sub64, arith, some,
  eq_of_some, All, replicate, length-replicate, get_or-replicate, get_or-out, bit_and, u8, u32, shl,
  ==_iff,
}
use sonna_os.Prelude.Bits.{every_below, every_below-at}
use sonna_os.Pmm.{Pmm, page_size, test_frame, set_frame}
use sonna_os.Pmm.Align.{align_up_lem, align_down_lem}
use sonna_os.Pmm.Bitmap.{IsBytes, length-set_frame, set_frame-IsBytes, test-set_frame}
use sonna_os.Pmm.Frames.{clears, clears-le, clears-mark}
use sonna_os.Pmm.Init.{
  Entry, Totals, region_start, region_end, measure, measure_entry, find_place, clear_region,
  clear_regions, protect_zero, rounds,
}
use sonna_os.Pmm.Init.Loops.{Tracks, clear_region-Tracks, mark_step}

-- The region ends within the physical address space.
abbrev pub IsSmall : Entry → Type 0
IsSmall e = e.base + e.len ≤ 2 ^ 52

-- The whole of frame `g` lies in a usable region of the memory map.
abbrev pub InUsable : List Entry → ℕ → Type 0
InUsable [] g = ⊥
InUsable (e ∷ es) g =
    ((e.type ≡ 0) × (e.base ≤ g * page_size) × (g * page_size + page_size ≤ e.base + e.len))
    ⊎ InUsable es g

region_lem :
    (e : Entry)
    → IsSmall e
    → (region_start e ≡ (e.base + 4095) / page_size * page_size)
      × (region_end e ≡ (e.base + e.len) / page_size * page_size)
region_lem e h = (
  align_up_lem e.base (omega arith),
  align_down_lem (add64 e.base e.len) (omega arith) ∙ omega arith,
)

pub measure_bounds :
    (es : List Entry) (t : Totals)
    → All IsSmall es
    → t.max_addr ≤ 2 ^ 52
    → t.usable_frames < 2 ^ 64
    → ((measure es t).max_addr ≤ 2 ^ 52) × ((measure es t).usable_frames < 2 ^ 64)
unfolding measure measure_entry
measure_bounds [] t small max word = (max, word)
measure_bounds (e ∷ es) t (h, hs) max word =
    measure_bounds es (measure_entry e t) hs (ground (arith, region_lem e h)) (ground arith)

pub find_place_bounds :
    (es : List Entry) (size : ℕ) {p : ℕ}
    → All IsSmall es
    → find_place es size ≡ some p
    → (p % page_size ≡ 0) × (p + size ≤ 2 ^ 52)
unfolding find_place
find_place_bounds [] size small e = absurd (cc)
find_place_bounds (e ∷ es) size {p} (h, hs) q =
    let start = region_start e in
    let end = add64 e.base e.len in
    elim (Bool-cases ((e.type == 0) && (ltb start end && leb size (sub64 end start)))) [
      | inl fits ↦
          let same : start ≡ p = eq_of_some (rw fits at q) in ground (arith, region_lem e h)
      | inr no_room ↦ find_place_bounds es size hs (rw no_room at q)
    ]

-- A byte of ones has every bit set.
ones_table : every_below 8 (λ k. ltb 0 (bit_and 0xff (u8 (u32 (shl 1 k))))) ≡ true
unfolding every_below
ones_table = refl

pub test-ones : (n g : ℕ) → g < 8 * n → test_frame (replicate n 0xff) g ≡ true
unfolding test_frame
test-ones n g h = rw (get_or-replicate {A = ℕ} n (g / 8) 0xff 0 (omega arith)) (
    ground (
      arith,
      every_below-at 8 (λ k. ltb 0 (bit_and 0xff (u8 (u32 (shl 1 k))))) (g % 8) ones_table
          (omega arith),
    ))

pub ones-IsBytes : (n : ℕ) → IsBytes (replicate n 0xff)
ones-IsBytes n i = elim (Bool-cases (ltb i n)) [
  | inl inside ↦ ground (arith, get_or-replicate {A = ℕ} n i 0xff 0)
  | inr outside ↦
      ground (arith, get_or-out {A = ℕ} (replicate n 0xff) i 0, length-replicate {A = ℕ} n 0xff)
]

pub clears-none : (used : ℕ → Bool) (n : ℕ) → ((g : ℕ) → g < n → used g ≡ true) → clears used n ≡ 0
unfolding clears
clears-none used zero all = refl
clears-none used (suc n) all =
    ground (arith, all n, clears-none used n (λ g h. all g (omega arith)))

weaken :
    {P : Type 0} (e : Entry) (es : List Entry) (g : ℕ) → P ⊎ InUsable es g → P ⊎ InUsable (e ∷ es) g
weaken e es g (inl h) = inl h
weaken e es g (inr h) = inr (inr h)

combine :
    {P Q : Type 0} (e : Entry) (es : List Entry) (g : ℕ)
    → IsSmall e
    → e.type ≡ 0
    → (Q → P ⊎ ((region_start e ≤ g * page_size) × (g * page_size < region_end e)))
    → Q ⊎ InUsable es g
    → P ⊎ InUsable (e ∷ es) g
combine e es g h t one (inr there) = inr (inr there)
combine e es g h t one (inl cleared) = elim (one cleared) [
  | inl before ↦ inl before
  | inr (lo, hi) ↦ inr (inl (t, omega (arith, region_lem e h), omega (arith, region_lem e h)))
]

module _ (e : Entry) (es : List Entry) (s : Pmm) where
  clear_regions-usable :
      (e.type == 0) ≡ true
      → clear_regions (e ∷ es) s
        ≡ clear_regions es (
            clear_region (rounds (region_start e) (region_end e)) (region_start e) (region_end e) s)
  unfolding clear_regions
  clear_regions-usable h = rw h

  clear_regions-other : (e.type == 0) ≡ false → clear_regions (e ∷ es) s ≡ clear_regions es s
  unfolding clear_regions
  clear_regions-other h = rw h

module _ (size frames usable : ℕ) (small : frames ≤ 2 ^ 52) (covers : frames ≤ 8 * size) where
  pub clear_regions-Tracks :
      (es : List Entry) (s : Pmm)
      → All IsSmall es
      → Tracks size frames usable 0 s
      → Tracks size frames usable 0 (clear_regions es s)
        × ((g : ℕ)
            → test_frame (clear_regions es s).bitmap g ≡ false
            → (test_frame s.bitmap g ≡ false) ⊎ InUsable es g)
  clear_regions-Tracks [] s hs tracks = unfold clear_regions in (tracks, λ g h. inl h)
  clear_regions-Tracks (e ∷ es) s (h, hs) tracks = elim (Bool-cases (e.type == 0)) [
    | inr other ↦
        let rest = clear_regions-Tracks es s hs tracks in
        rw (clear_regions-other e es s other) (rest.0, λ g q. weaken e es g (rest.1 g q))
    | inl is_usable ↦
        let (start, end) = region_lem e h in
        let one =
          clear_region-Tracks size frames usable 0 small covers
            (rounds (region_start e) (region_end e)) (region_start e) (region_end e) s (omega arith)
            (omega arith) tracks in
        let rest = clear_regions-Tracks es _ hs one.0 in
        rw (clear_regions-usable e es s is_usable)
          (rest.0, λ g q. combine e es g h ((==_iff _ _).0 is_usable) (one.1 g) (rest.1 g q))
  ]

  module _ (s : Pmm) (pos : 0 < frames) (tracks : Tracks size frames usable 0 s) where
    abbrev bm0 : List ℕ
    bm0 = set_frame s.bitmap 0

    marks_zero : (g : ℕ) → test_frame bm0 g ≡ ((0 == g) || test_frame s.bitmap g)
    marks_zero g = test-set_frame s.bitmap 0 tracks.bytes g (omega (arith, tracks.same_size))

    -- Marking a frame that is used already leaves the count alone.
    already :
        test_frame s.bitmap 0 ≡ true
        → clears (test_frame bm0) frames ≡ clears (test_frame s.bitmap) frames
    already taken =
        ground (arith, clears-mark (test_frame s.bitmap) (test_frame bm0) 0 marks_zero frames)

    -- Frame 0 is marked; the counter is then one below the clear frames if frame 0 was used before.
    pub protect_zero-Tracks :
        (slack : ℕ) × (slack ≤ 1)
        × Tracks size frames usable slack (protect_zero s)
        × ((g : ℕ) → test_frame (protect_zero s).bitmap g ≡ ((0 == g) || test_frame s.bitmap g))
    unfolding protect_zero
    protect_zero-Tracks = elim (Bool-cases (test_frame s.bitmap 0)) [
      | inr clear ↦
          let total = clears-mark (test_frame s.bitmap) (test_frame bm0) 0 marks_zero frames in
          let le = clears-le (test_frame s.bitmap) frames in
          let some_free : ltb 0 s.free_frames ≡ true = ground (arith, tracks.counted) in
          rw some_free (
            0,
            omega arith,
            mark_step size frames usable 0 small covers s tracks 0 pos clear,
            marks_zero,
          )
      | inl taken ↦ elim (Bool-cases (ltb 0 s.free_frames)) [
        | inl some_free ↦ rw some_free (
          1,
          omega arith,
          record {
            bytes = set_frame-IsBytes s.bitmap 0 tracks.bytes;
            same_size = length-set_frame s.bitmap 0 ∙ tracks.same_size;
            same_frames = tracks.same_frames;
            same_usable = tracks.same_usable;
            hint_zero = tracks.hint_zero;
            word = omega arith;
            counted =
                omega (arith, tracks.counted, already taken, tracks.word, ltb→lt _ _ some_free);
            balanced = omega (arith, tracks.balanced, tracks.word);
          },
          marks_zero,
        )
        | inr none_free ↦ rw none_free (
          0,
          omega arith,
          record {
            bytes = set_frame-IsBytes s.bitmap 0 tracks.bytes;
            same_size = length-set_frame s.bitmap 0 ∙ tracks.same_size;
            same_frames = tracks.same_frames;
            same_usable = tracks.same_usable;
            hint_zero = tracks.hint_zero;
            word = tracks.word;
            counted = omega (arith, tracks.counted, already taken);
            balanced = tracks.balanced;
          },
          marks_zero,
        )
      ]
    ]
