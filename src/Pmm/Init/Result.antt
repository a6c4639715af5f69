-- ===== src/Pmm/Init/Result.antt =====
-- What `pmm_init` leaves behind: the allocator's invariant, and clear bits for usable memory only.
use sonna_os.Prelude.{
  ℕ, zero, suc, ◌+◌, ◌*◌, ◌^◌, ◌≤◌, ◌<◌, ◌≡◌, refl, sym, ap, ◌∙◌, ◌≢◌, ◌⊎◌, inl, inr, Bool, false,
  List, ◌==◌, leb, Bool-cases, leb→le, add64, arith, some, All, replicate, length-replicate,
}
use sonna_os.Pmm.{Pmm, page_size, test_frame}
use sonna_os.Pmm.Align.{align_up_lem}
use sonna_os.Pmm.Frames.{clears}
use sonna_os.Pmm.Valid.{IsValid}
use sonna_os.Pmm.Init.{
  Entry, Totals, measure, find_place, rounds, measured, bitmap_size, fill, place, init,
}
use sonna_os.Pmm.Init.Loops.{Tracks, protect_region-Tracks}
use sonna_os.Pmm.Init.Regions.{
  IsSmall, InUsable, measure_bounds, find_place_bounds, test-ones, ones-IsBytes, clears-none,
  clear_regions-Tracks, protect_zero-Tracks,
}

clears-pos : (used : ℕ → Bool) (n g : ℕ) → g < n → used g ≡ false → 0 < clears used n
unfolding clears
clears-pos used zero g h clear = absurd (omega arith)
clears-pos used (suc n) g h clear = elim (Bool-cases (g == n)) [
  | inl last ↦ ground arith
  | inr before ↦ ground (arith, clears-pos used n g (ground arith) clear)
]

-- Frame `g` shares no byte with the `size` bytes from `p`.
abbrev pub Apart : (p size g : ℕ) → Type 0
Apart p size g = (g * page_size + page_size ≤ p) ⊎ (p + size ≤ g * page_size)

module _ (entries : List Entry) (hhdm_offset p : ℕ) (small : All IsSmall entries)
    (placed : find_place entries (bitmap_size (measured entries hhdm_offset)) ≡ some p)
    (any_frames : 0 < (measured entries hhdm_offset).bitmap_frames) where
  abbrev start : Pmm
  start = measured entries hhdm_offset

  abbrev totals : Totals
  totals = measure entries (record { max_addr = 0; total_ram_frames = 0; usable_frames = 0 })

  bounds : (totals.max_addr ≤ 2 ^ 52) × (totals.usable_frames < 2 ^ 64)
  bounds = measure_bounds entries _ small (omega arith) (omega arith)

  frames_small : start.bitmap_frames ≤ 2 ^ 52
  frames_small = omega (arith, bounds.0, align_up_lem totals.max_addr (omega (arith, bounds.0)))

  covers : start.bitmap_frames ≤ 8 * start.bitmap_bytes
  covers = omega (arith, frames_small)

  -- Before the loops every bit is set and no frame counts as free.
  all_used :
      Tracks start.bitmap_bytes start.bitmap_frames start.usable_frames 0
        (record start { bitmap = replicate start.bitmap_bytes 0xff })
  all_used = record {
    bytes = ones-IsBytes start.bitmap_bytes;
    same_size = length-replicate {A = ℕ} start.bitmap_bytes 0xff;
    same_frames = refl;
    same_usable = refl;
    hint_zero = refl;
    word = omega arith;
    counted = sym (
        clears-none _ start.bitmap_frames
          λ g h. test-ones start.bitmap_bytes g (omega (arith, covers)));
    balanced = omega (arith, bounds.1);
  }

  -- The state and what is known of frame `g` once all three loops have run.
  filled :
      (slack : ℕ) × (slack ≤ 1)
      × Tracks start.bitmap_bytes start.bitmap_frames start.usable_frames slack
          (fill entries start p)
      × ((g : ℕ)
          → g < start.bitmap_frames
          → test_frame (fill entries start p).bitmap g ≡ false
          → (g ≢ 0) × InUsable entries g × Apart p (bitmap_size start) g)
  unfolding fill
  filled =
      let at = find_place_bounds entries (bitmap_size start) small placed in
      let regions =
        clear_regions-Tracks start.bitmap_bytes start.bitmap_frames start.usable_frames frames_small
          covers entries _ small all_used in
      let (slack, few, zero_marked, test) =
        protect_zero-Tracks start.bitmap_bytes start.bitmap_frames start.usable_frames frames_small
          covers _ (omega arith) regions.0 in
      let own =
        protect_region-Tracks start.bitmap_bytes start.bitmap_frames start.usable_frames slack
          frames_small covers (rounds p (add64 p (bitmap_size start))) p
          (add64 p (bitmap_size start)) _ at.0 (omega arith) (omega arith) zero_marked in
      (
        slack,
        few,
        own.0,
        λ g below clear.
            let before = own.1 g clear in
            let ne : g ≢ 0 = λ z. ground (arith, before.0, test g) in
            (
              ne,
              not_before g below (regions.1 g (ground (arith, before.0, test g))),
              elim (Bool-cases (leb p (g * page_size))) [
                | inl behind ↦ inr (omega (arith, before.1 below (leb→le _ _ behind), at.1))
                | inr ahead ↦ inl (ground (arith, at.0))
              ],
            ),
      )
    where
      not_before :
          (g : ℕ)
          → g < start.bitmap_frames
          → (test_frame (replicate start.bitmap_bytes 0xff) g ≡ false) ⊎ InUsable entries g
          → InUsable entries g
      not_before g below (inl clear) =
          absurd (ground (arith, test-ones start.bitmap_bytes g (omega (arith, covers))))
      not_before g below (inr usable) = usable

  chosen : init entries hhdm_offset ≡ fill entries start p
  unfolding init
  chosen = ap (place entries start) placed

  Tracks-IsValid :
      (g : ℕ)
      → g < start.bitmap_frames
      → test_frame (fill entries start p).bitmap g ≡ false
      → IsValid (fill entries start p)
  Tracks-IsValid g below clear =
      let (slack, few, tracks, own) = filled in
      let out = fill entries start p in
      let pos = clears-pos (test_frame out.bitmap) start.bitmap_frames g below clear in
      let counted : out.free_frames ≤ clears (test_frame out.bitmap) start.bitmap_frames =
        omega (arith, tracks.counted, tracks.word) in
      record {
        bytes = tracks.bytes;
        covers = omega (arith, tracks.same_frames, tracks.same_size, covers);
        small = omega (arith, tracks.same_frames, frames_small);
        hint_in = omega (arith, tracks.hint_zero, tracks.same_frames);
        zero_used = elim (Bool-cases (test_frame out.bitmap 0)) [
          | inl taken ↦ taken
          | inr zero_clear ↦ absurd ((own 0 any_frames zero_clear).0 refl)
        ];
        counted = rw tracks.same_frames counted;
        balanced = tracks.balanced ∙ sym tracks.same_usable;
      }

-- Where the bootloader's regions end below 2^52, a place for the bitmap was found and some frame
-- came out clear, the state that `pmm_init` leaves satisfies the allocator's invariant.
pub init-IsValid :
    (entries : List Entry) (hhdm_offset : ℕ) {p : ℕ} (g : ℕ)
    → All IsSmall entries
    → find_place entries (bitmap_size (measured entries hhdm_offset)) ≡ some p
    → g < (measured entries hhdm_offset).bitmap_frames
    → test_frame (init entries hhdm_offset).bitmap g ≡ false
    → IsValid (init entries hhdm_offset)
init-IsValid entries hhdm_offset {p} g small placed below clear =
    let same = chosen entries hhdm_offset p small placed (omega arith) in
    rw same
      (Tracks-IsValid entries hhdm_offset p small placed (omega arith) g below (rw same at clear))

-- Under the same conditions on the memory map, each frame that `pmm_init` leaves clear lies wholly
-- in a usable region of the map, is not frame 0, and shares no byte with the bitmap.
pub init-InUsable :
    (entries : List Entry) (hhdm_offset : ℕ) {p : ℕ} (g : ℕ)
    → All IsSmall entries
    → find_place entries (bitmap_size (measured entries hhdm_offset)) ≡ some p
    → g < (measured entries hhdm_offset).bitmap_frames
    → test_frame (init entries hhdm_offset).bitmap g ≡ false
    → (g ≢ 0) × InUsable entries g × Apart p (bitmap_size (measured entries hhdm_offset)) g
init-InUsable entries hhdm_offset {p} g small placed below clear =
    let same = chosen entries hhdm_offset p small placed (omega arith) in
    (filled entries hhdm_offset p small placed (omega arith)).3 g below (rw same at clear)
