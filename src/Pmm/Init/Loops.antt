-- ===== src/Pmm/Init/Loops.antt =====
-- The two loops over addresses of `pmm_init`, round by round: their counters follow the number of
-- clear frames, and their fuel is enough.
use sonna_os.Prelude.{
  ℕ, zero, suc, ◌+◌, ◌*◌, ◌/◌, ◌%◌, ◌^◌, ◌≤◌, ◌<◌, ◌≡◌, refl, ◌∙◌, ◌⊎◌, inl, inr, true, false, not,
  ◌&&◌, ◌==◌, ltb, ltb→lt, le→ltb, Bool-cases, add64, sub64, arith, length,
}
use sonna_os.Pmm.{Pmm, page_size, test_frame, clear_frame, set_frame}
use sonna_os.Pmm.Bitmap.{
  IsBytes, length-clear_frame, clear_frame-IsBytes, test-clear_frame, length-set_frame,
  set_frame-IsBytes, test-set_frame,
}
use sonna_os.Pmm.Frames.{clears, clears-le, clears-unmark, clears-mark}
use sonna_os.Pmm.Init.{clear_region, protect_region}

module _ (end : ℕ) (low : end ≤ 2 ^ 52) where
  -- Fuel that covers the pages left is enough: more changes nothing.
  pub clear_region-fuel :
      (n m addr : ℕ) (s : Pmm)
      → end ≤ addr + n * page_size
      → end ≤ addr + m * page_size
      → clear_region n addr end s ≡ clear_region m addr end s
  unfolding clear_region
  clear_region-fuel zero zero addr s hn hm = refl
  clear_region-fuel zero (suc m) addr s hn hm = rw (le→ltb addr end (omega arith))
  clear_region-fuel (suc n) zero addr s hn hm = rw (le→ltb addr end (omega arith))
  clear_region-fuel (suc n) (suc m) addr s hn hm = elim (Bool-cases (ltb addr end)) [
    | inl more ↦ rw more (
        clear_region-fuel n m (add64 addr page_size) _ (omega (arith, ltb→lt addr end more))
          (omega (arith, ltb→lt addr end more)))
    | inr done ↦ rw done
  ]

  pub protect_region-fuel :
      (n m addr : ℕ) (s : Pmm)
      → end ≤ addr + n * page_size
      → end ≤ addr + m * page_size
      → protect_region n addr end s ≡ protect_region m addr end s
  unfolding protect_region
  protect_region-fuel zero zero addr s hn hm = refl
  protect_region-fuel zero (suc m) addr s hn hm = rw (le→ltb addr end (omega arith))
  protect_region-fuel (suc n) zero addr s hn hm = rw (le→ltb addr end (omega arith))
  protect_region-fuel (suc n) (suc m) addr s hn hm = elim (Bool-cases (ltb addr end)) [
    | inl more ↦ rw more (
        protect_region-fuel n m (add64 addr page_size) _ (omega (arith, ltb→lt addr end more))
          (omega (arith, ltb→lt addr end more)))
    | inr done ↦ rw done
  ]

module _ (size frames usable slack : ℕ) where
  -- The bitmap has `size` bytes, and the free counter is `slack` below the number of clear frames.
  pub record Tracks (s : Pmm) : Type 0 where
    pub bytes : IsBytes s.bitmap
    pub same_size : length s.bitmap ≡ size
    pub same_frames : s.bitmap_frames ≡ frames
    pub same_usable : s.usable_frames ≡ usable
    pub hint_zero : s.next_fit_hint ≡ 0
    pub word : s.free_frames < 2 ^ 64
    pub counted : add64 s.free_frames slack ≡ clears (test_frame s.bitmap) frames
    pub balanced : add64 s.free_frames s.used_frames ≡ usable

module _ (size frames usable slack : ℕ) (small : frames ≤ 2 ^ 52) (covers : frames ≤ 8 * size) where
  abbrev Kept : Pmm → Type 0
  Kept = Tracks size frames usable slack

  module _ (s : Pmm) (tracks : Kept s) (f : ℕ) (inside : f < frames) where
    clear_step :
        test_frame s.bitmap f ≡ true
        → Kept (record s {
          bitmap = clear_frame s.bitmap f;
          free_frames = add64 s.free_frames 1;
          used_frames = sub64 s.used_frames 1;
        })
    clear_step taken =
        let room : f / 8 < length s.bitmap = omega (arith, tracks.same_size) in
        let test = λ (g : ℕ). test-clear_frame s.bitmap f tracks.bytes g room in
        let total =
          clears-unmark (test_frame s.bitmap) (test_frame (clear_frame s.bitmap f)) f test frames in
        let grown : clears (test_frame (clear_frame s.bitmap f)) frames
            ≡ clears (test_frame s.bitmap) frames + 1 =
          ground arith in
        let le = clears-le (test_frame (clear_frame s.bitmap f)) frames in
        record {
          bytes = clear_frame-IsBytes s.bitmap f tracks.bytes;
          same_size = length-clear_frame s.bitmap f ∙ tracks.same_size;
          same_frames = tracks.same_frames;
          same_usable = tracks.same_usable;
          hint_zero = tracks.hint_zero;
          word = omega arith;
          counted = omega (arith, tracks.counted);
          balanced = omega (arith, tracks.balanced);
        }

    pub mark_step :
        test_frame s.bitmap f ≡ false
        → Kept (record s {
          bitmap = set_frame s.bitmap f;
          free_frames = sub64 s.free_frames 1;
          used_frames = add64 s.used_frames 1;
        })
    mark_step clear =
        let room : f / 8 < length s.bitmap = omega (arith, tracks.same_size) in
        let test = λ (g : ℕ). test-set_frame s.bitmap f tracks.bytes g room in
        let total =
          clears-mark (test_frame s.bitmap) (test_frame (set_frame s.bitmap f)) f test frames in
        let fewer : clears (test_frame (set_frame s.bitmap f)) frames + 1
            ≡ clears (test_frame s.bitmap) frames =
          ground arith in
        let le = clears-le (test_frame s.bitmap) frames in
        record {
          bytes = set_frame-IsBytes s.bitmap f tracks.bytes;
          same_size = length-set_frame s.bitmap f ∙ tracks.same_size;
          same_frames = tracks.same_frames;
          same_usable = tracks.same_usable;
          hint_zero = tracks.hint_zero;
          word = omega arith;
          counted = omega (arith, tracks.counted);
          balanced = omega (arith, tracks.balanced);
        }

  -- A region's loop keeps track, and clears frames of the region only.
  pub clear_region-Tracks :
      (fuel addr end : ℕ) (s : Pmm)
      → addr % page_size ≡ 0
      → end ≤ 2 ^ 52
      → Kept s
      → Kept (clear_region fuel addr end s)
        × ((g : ℕ)
            → test_frame (clear_region fuel addr end s).bitmap g ≡ false
            → (test_frame s.bitmap g ≡ false) ⊎ ((addr ≤ g * page_size) × (g * page_size < end)))
  unfolding clear_region
  clear_region-Tracks zero addr end s al low tracks = (tracks, λ g h. inl h)
  clear_region-Tracks (suc fuel) addr end s al low tracks = elim (Bool-cases (ltb addr end)) [
    | inr done ↦ rw done (tracks, λ g h. inl h)
    | inl more ↦
        elim (Bool-cases
          (ltb (addr / page_size) s.bitmap_frames && test_frame s.bitmap (addr / page_size))) [
            | inr kept ↦
                let lt = ltb→lt addr end more in
                let rest =
                  clear_region-Tracks fuel (add64 addr page_size) end s (omega arith) low tracks in
                rw (more, kept) (rest.0, λ g h. ground (arith, rest.1 g h))
            | inl taken ↦
                let lt = ltb→lt addr end more in
                let step =
                  clear_step s tracks (addr / page_size) (ground (arith, tracks.same_frames))
                    (ground arith) in
                let rest =
                  clear_region-Tracks fuel (add64 addr page_size) end _ (omega arith) low step in
                rw (more, taken)
                  (
                    rest.0,
                    λ g h. ground (
                      arith,
                      rest.1 g h,
                      test-clear_frame s.bitmap (addr / page_size) tracks.bytes g
                          (ground (arith, tracks.same_frames, tracks.same_size)),
                    ),
                  )
          ]
  ]

  -- The loop over the bitmap's own frames keeps track, clears none, and marks all of them.
  pub protect_region-Tracks :
      (fuel addr end : ℕ) (s : Pmm)
      → addr % page_size ≡ 0
      → end ≤ 2 ^ 52
      → end ≤ addr + fuel * page_size
      → Kept s
      → Kept (protect_region fuel addr end s)
        × ((g : ℕ)
            → test_frame (protect_region fuel addr end s).bitmap g ≡ false
            → (test_frame s.bitmap g ≡ false)
              × (g < frames → addr ≤ g * page_size → end ≤ g * page_size))
  unfolding protect_region
  protect_region-Tracks zero addr end s al low enough tracks =
      (tracks, λ g h. (h, λ hg lo. omega arith))
  protect_region-Tracks (suc fuel) addr end s al low enough tracks =
      elim (Bool-cases (ltb addr end)) [
        | inr done ↦ rw done (tracks, λ g h. (h, λ hg lo. ground arith))
        | inl more ↦
            elim (Bool-cases (
              ltb (addr / page_size) s.bitmap_frames
              && not (test_frame s.bitmap (addr / page_size)))) [
                | inr kept ↦
                    let lt = ltb→lt addr end more in
                    let rest =
                      protect_region-Tracks fuel (add64 addr page_size) end s (omega arith) low
                        (omega arith) tracks in
                    rw (more, kept)
                      (
                        rest.0,
                        λ g h. (
                          (rest.1 g h).0,
                          λ hg lo. elim (Bool-cases (addr / page_size == g)) [
                            | inl same ↦ absurd (ground (arith, tracks.same_frames, (rest.1 g h).0))
                            | inr other ↦ (rest.1 g h).1 hg (ground arith)
                          ],
                        ),
                      )
                | inl marked ↦
                    let lt = ltb→lt addr end more in
                    let step =
                      mark_step s tracks (addr / page_size) (ground (arith, tracks.same_frames))
                        (ground arith) in
                    let test = λ (g : ℕ).
                      test-set_frame s.bitmap (addr / page_size) tracks.bytes g
                        (ground (arith, tracks.same_frames, tracks.same_size)) in
                    let rest =
                      protect_region-Tracks fuel (add64 addr page_size) end _ (omega arith) low
                        (omega arith) step in
                    rw (more, marked)
                      (
                        rest.0,
                        λ g h. (
                          ground (arith, (rest.1 g h).0, test g),
                          λ hg lo. elim (Bool-cases (addr / page_size == g)) [
                            | inl same ↦ absurd (ground (arith, (rest.1 g h).0, test g))
                            | inr other ↦ (rest.1 g h).1 hg (ground arith)
                          ],
                        ),
                      )
              ]
      ]
