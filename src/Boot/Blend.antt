-- ===== src/Boot/Blend.antt =====
-- The channels of a blended pixel fit their byte.
use native.Mathlib.Nat.{mul-le-mul}
use sonna_os.Prelude.{ℕ, ◌-◌, ◌*◌, ◌/◌, ◌≤◌, ◌≡◌, bit_and, shr, arith}
use sonna_os.Prelude.Bits.{bit_and_low}
use sonna_os.Boot.{mixed, channel}

share : (x a : ℕ) → x ≤ 255 → a ≤ 255 → x * a / 255 ≤ a
share x a lx la =
    let bound : x * a ≤ 255 * a = mul-le-mul {n₂ = 255} {m₂ = a} lx (omega arith) in
    omega (arith, bound)

byte-le : (x : ℕ) → bit_and x 0xFF ≤ 255
byte-le x = omega (arith, bit_and_low 8 x)

-- For an alpha of 8 bits a channel of a blended pixel is 255 at most, so that storing it in a
-- uint8_t does not cut it.
pub mixed-bounds :
    (pixel bg a shift : ℕ)
    → a ≤ 255
    → (mixed pixel bg a shift ≤ 255) × (channel pixel bg a shift ≡ mixed pixel bg a shift)
unfolding mixed
mixed-bounds pixel bg a shift la =
    let over = share (bit_and (shr pixel shift) 0xFF) a (byte-le (shr pixel shift)) la in
    let under =
      share (bit_and (shr bg shift) 0xFF) (255 - a) (byte-le (shr bg shift)) (omega arith) in
    (omega (arith, over, under, la), omega (arith, over, under, la))
