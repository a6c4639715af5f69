-- ===== src/Pmm/Bitmap.antt =====
-- The bitmap of kernel/mm/pmm.c seen frame by frame: setting, clearing and testing a frame's bit.
use sonna_os.Prelude.{
  ℕ, ◌/◌, ◌%◌, ◌<◌, bit_and, bit_or, ◌≡◌, refl, Bool, true, not, ◌&&◌, ◌||◌, List, inl, inr, ◌==◌,
  ltb, if◌then◌else◌, ==_iff, Bool-cases, ltb→lt, get_or, set, length, length-set, get_or-set_self,
  get_or-set_ne, get_or-out, arith, u8, u32, shl, not32,
}
use sonna_os.Prelude.Bits.{every_below, every_below-at}
use sonna_os.Pmm.{frame_bit, set_frame, clear_frame, test_frame}

-- Every element is a byte.
abbrev pub IsBytes : List ℕ → Type 0
IsBytes bm = (i : ℕ) → get_or bm i 0 < 256

-- Bit `k` of a byte, and the mask without it, as the code computes them.
abbrev mask : ℕ → ℕ
mask k = u8 (u32 (shl 1 k))

abbrev unmask : ℕ → ℕ
unmask k = u8 (not32 (u32 (shl 1 k)))

abbrev set_row : ℕ → ℕ → ℕ → Bool
set_row b k j =
    bit_and (bit_or b (mask k)) (mask j) == (if k == j then mask j else bit_and b (mask j))

abbrev clear_row : ℕ → ℕ → ℕ → Bool
clear_row b k j =
    bit_and (bit_and b (unmask k)) (mask j) == (if k == j then 0 else bit_and b (mask j))

set_table : every_below 256 (λ b. every_below 8 (λ k. every_below 8 (λ j. set_row b k j))) ≡ true
unfolding every_below
set_table = refl

clear_table :
    every_below 256 (λ b. every_below 8 (λ k. every_below 8 (λ j. clear_row b k j))) ≡ true
unfolding every_below
clear_table = refl

byte_table :
    every_below 256
      (λ b. every_below 8 (λ k. ltb (bit_or b (mask k)) 256 && ltb (bit_and b (unmask k)) 256))
    ≡ true
unfolding every_below
byte_table = refl

mask_table : every_below 8 (λ k. ltb 0 (mask k)) ≡ true
unfolding every_below
mask_table = refl

-- A table over a byte and two bit positions, read at one entry.
at_entry :
    (row : ℕ → ℕ → ℕ → Bool) (b k j : ℕ)
    → every_below 256 (λ b. every_below 8 (λ k. every_below 8 (λ j. row b k j))) ≡ true
    → b < 256
    → k < 8
    → j < 8
    → row b k j ≡ true
at_entry row b k j table hb hk hj =
    every_below-at 8 (λ j. row b k j) j
      (every_below-at 8 (λ k. every_below 8 (λ j. row b k j)) k
        (every_below-at 256 (λ b. every_below 8 (λ k. every_below 8 (λ j. row b k j))) b table hb)
        hk)
      hj

set-bit :
    (b k j : ℕ)
    → b < 256
    → k < 8
    → j < 8
    → bit_and (bit_or b (mask k)) (mask j) ≡ (if k == j then mask j else bit_and b (mask j))
set-bit b k j hb hk hj = (==_iff _ _).0 (at_entry set_row b k j set_table hb hk hj)

clear-bit :
    (b k j : ℕ)
    → b < 256
    → k < 8
    → j < 8
    → bit_and (bit_and b (unmask k)) (mask j) ≡ (if k == j then 0 else bit_and b (mask j))
clear-bit b k j hb hk hj = (==_iff _ _).0 (at_entry clear_row b k j clear_table hb hk hj)

mask-pos : (k : ℕ) → k < 8 → 0 < mask k
mask-pos k h = ltb→lt _ _ (every_below-at 8 (λ k. ltb 0 (mask k)) k mask_table h)

stays_byte : (b k : ℕ) → b < 256 → k < 8 → (bit_or b (mask k) < 256) × (bit_and b (unmask k) < 256)
stays_byte b k hb hk = ground (
  arith,
  every_below-at 8 (λ k. ltb (bit_or b (mask k)) 256 && ltb (bit_and b (unmask k)) 256) k
      (every_below-at 256
        (λ b. every_below 8 (λ k. ltb (bit_or b (mask k)) 256 && ltb (bit_and b (unmask k)) 256)) b
        byte_table hb)
      hk,
)

module _ (bm : List ℕ) (f : ℕ) where
  pub length-set_frame : length (set_frame bm f) ≡ length bm
  unfolding set_frame
  length-set_frame = length-set bm (f / 8) _

  pub length-clear_frame : length (clear_frame bm f) ≡ length bm
  unfolding clear_frame
  length-clear_frame = length-set bm (f / 8) _

-- Writing a byte keeps a list of bytes one.
set-IsBytes : (bm : List ℕ) (i v : ℕ) → IsBytes bm → v < 256 → IsBytes (set bm i v)
set-IsBytes bm i v h hv j = elim (Bool-cases (i == j)) [
  | inl same ↦
      ground (arith, get_or-set_self bm i v 0, get_or-out (set bm i v) j 0, length-set bm i v)
  | inr other ↦ ground (arith, get_or-set_ne bm i j v 0, h j)
]

module _ (bm : List ℕ) (f : ℕ) (bytes : IsBytes bm) where
  pub set_frame-IsBytes : IsBytes (set_frame bm f)
  unfolding set_frame
  set_frame-IsBytes =
      set-IsBytes bm (f / 8) _ bytes (stays_byte _ (f % 8) (bytes (f / 8)) (omega arith)).0

  pub clear_frame-IsBytes : IsBytes (clear_frame bm f)
  unfolding clear_frame
  clear_frame-IsBytes =
      set-IsBytes bm (f / 8) _ bytes (stays_byte _ (f % 8) (bytes (f / 8)) (omega arith)).1

  module _ (g : ℕ) (inside : f / 8 < length bm) where
    -- Setting a frame's bit sets that frame and no other.
    pub test-set_frame : test_frame (set_frame bm f) g ≡ ((f == g) || test_frame bm g)
    unfolding test_frame set_frame
    test-set_frame = elim (Bool-cases (f / 8 == g / 8)) [
      | inl same ↦ ground (
        arith,
        get_or-set_self bm (f / 8) (bit_or (get_or bm (f / 8) 0) (frame_bit f)) 0,
        set-bit (get_or bm (f / 8) 0) (f % 8) (g % 8) (bytes (f / 8)),
        mask-pos (g % 8),
      )
      | inr other ↦
          ground
            (arith, get_or-set_ne bm (f / 8) (g / 8) (bit_or (get_or bm (f / 8) 0) (frame_bit f)) 0)
    ]

    -- Clearing a frame's bit clears that frame and no other.
    pub test-clear_frame : test_frame (clear_frame bm f) g ≡ (not (f == g) && test_frame bm g)
    unfolding test_frame clear_frame
    test-clear_frame = elim (Bool-cases (f / 8 == g / 8)) [
      | inl same ↦ ground (
        arith,
        get_or-set_self bm (f / 8) (bit_and (get_or bm (f / 8) 0) (unmask (f % 8))) 0,
        clear-bit (get_or bm (f / 8) 0) (f % 8) (g % 8) (bytes (f / 8)),
      )
      | inr other ↦ ground (
        arith,
        get_or-set_ne bm (f / 8) (g / 8) (bit_and (get_or bm (f / 8) 0) (unmask (f % 8))) 0,
      )
    ]
