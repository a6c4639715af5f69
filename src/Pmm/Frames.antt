-- ===== src/Pmm/Frames.antt =====
-- Counting clear frames, and marking a run of frames as used.
use sonna_os.Prelude.{
  ℕ, zero, suc, ◌+◌, ◌*◌, ◌^◌, ◌≤◌, ◌<◌, ◌≡◌, refl, ◌∙◌, Bool, false, not, ◌&&◌, ◌||◌, List, ◌==◌,
  ltb, leb, if◌then◌else◌, add64, arith, length,
}
use sonna_os.Pmm.{test_frame, set_frame, set_frames}
use sonna_os.Pmm.Bitmap.{IsBytes, length-set_frame, set_frame-IsBytes, test-set_frame}

-- How many of the first `n` frames are clear.
unfoldable pub clears : (ℕ → Bool) → ℕ → ℕ
clears used zero = 0
clears used (suc n) = (if used n then 0 else 1) + clears used n

module _ (p q : ℕ → Bool) (f : ℕ) where
  pub clears-mark :
      ((g : ℕ) → q g ≡ ((f == g) || p g))
      → (n : ℕ) → clears q n + (if ltb f n && not (p f) then 1 else 0) ≡ clears p n
  unfolding clears
  clears-mark h zero = ground arith
  clears-mark h (suc n) = ground (arith, h n, clears-mark h n)

  pub clears-unmark :
      ((g : ℕ) → q g ≡ (not (f == g) && p g))
      → (n : ℕ) → clears q n ≡ clears p n + (if ltb f n && p f then 1 else 0)
  unfolding clears
  clears-unmark h zero = ground arith
  clears-unmark h (suc n) = ground (arith, h n, clears-unmark h n)

pub clears-le : (used : ℕ → Bool) (n : ℕ) → clears used n ≤ n
unfolding clears
clears-le used zero = omega arith
clears-le used (suc n) = ground (arith, clears-le used n)

-- `bm'` is `bm` with the frames from `f` up to `f + left` marked as used.
pub record Marked (bm : List ℕ) (left f : ℕ) (bm' : List ℕ) : Type 0 where
  pub same_length : length bm' ≡ length bm
  pub bytes : IsBytes bm'
  pub test : (g : ℕ) → test_frame bm' g ≡ ((leb f g && ltb g (f + left)) || test_frame bm g)

pub set_frames-Marked :
    (left f : ℕ) (bm : List ℕ)
    → IsBytes bm
    → f + left ≤ 8 * length bm
    → f + left < 2 ^ 64
    → Marked bm left f (set_frames bm left f)
unfolding set_frames
set_frames-Marked zero f bm bytes fits small = record {
  same_length = refl;
  bytes = bytes;
  test = λ g. ground arith;
}
set_frames-Marked (suc left) f bm bytes fits small =
    let inc : add64 f 1 ≡ f + 1 = omega arith in
    let rest =
      set_frames-Marked left (add64 f 1) (set_frame bm f) (set_frame-IsBytes bm f bytes)
        (omega (arith, length-set_frame bm f)) (omega arith) in
    record {
      same_length = rest.same_length ∙ length-set_frame bm f;
      bytes = rest.bytes;
      test = λ g. ground (arith, rest.test g, test-set_frame bm f bytes g (omega arith));
    }

-- Marking a run of clear frames takes its length from the count.
pub clears-set_frames :
    (left f n : ℕ) (bm : List ℕ)
    → IsBytes bm
    → f + left ≤ 8 * length bm
    → f + left < 2 ^ 64
    → f + left ≤ n
    → ((g : ℕ) → f ≤ g → g < f + left → test_frame bm g ≡ false)
    → clears (test_frame (set_frames bm left f)) n + left ≡ clears (test_frame bm) n
unfolding set_frames
clears-set_frames zero f n bm bytes fits small below run = omega arith
clears-set_frames (suc left) f n bm bytes fits small below run =
    let inc : add64 f 1 ≡ f + 1 = omega arith in
    let one =
      clears-mark (test_frame bm) (test_frame (set_frame bm f)) f
        (λ g. test-set_frame bm f bytes g (omega arith)) n in
    ground (
      arith,
      one,
      run f,
      clears-set_frames left (add64 f 1) n (set_frame bm f) (set_frame-IsBytes bm f bytes)
          (omega (arith, length-set_frame bm f)) (omega arith) (omega arith)
          (λ g lo hi. ground (arith, test-set_frame bm f bytes g (omega arith), run g)),
    )
