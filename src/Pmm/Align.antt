-- ===== src/Pmm/Align.antt =====
-- `align_up`, `align_down` and `bytes_to_frames_ceil` of kernel/mm/pmm.c as arithmetic.
use sonna_os.Prelude.{
  ℕ, ◌+◌, ◌-◌, ◌*◌, ◌/◌, ◌^◌, ◌≤◌, ◌<◌, ◌≡◌, ◌∙◌, ap, bit_and, sub64, not64, arith,
}
use sonna_os.Prelude.Bits.{bit_and_high, bit_and_low}
use sonna_os.Pmm.{page_size, align_up, align_down, bytes_to_frames_ceil}

pub page_mask :
    (x : ℕ) → x < 2 ^ 64 → bit_and x (not64 (sub64 page_size 1)) ≡ x / page_size * page_size
page_mask x h =
    bit_and_high 12 x (2 ^ 52 - 1)
    ∙ ap (λ (t : ℕ). t * page_size) (bit_and_low 52 (x / page_size) ∙ omega arith)

pub align_up_lem :
    (v : ℕ) → v + 4095 < 2 ^ 64 → align_up v page_size ≡ (v + 4095) / page_size * page_size
unfolding align_up
align_up_lem v h = page_mask _ (omega arith) ∙ omega arith

pub align_down_lem : (v : ℕ) → v < 2 ^ 64 → align_down v page_size ≡ v / page_size * page_size
unfolding align_down
align_down_lem v h = page_mask v h

-- The frames that hold `bytes` bytes: enough of them, and not one too many.
pub bytes_to_frames_ceil_bounds :
    (bytes : ℕ)
    → bytes + 4096 < 2 ^ 64
    → (bytes ≤ bytes_to_frames_ceil bytes * page_size)
      × (bytes_to_frames_ceil bytes * page_size < bytes + page_size)
unfolding bytes_to_frames_ceil
bytes_to_frames_ceil_bounds bytes h = omega arith
