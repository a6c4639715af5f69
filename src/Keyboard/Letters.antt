-- ===== src/Keyboard/Letters.antt =====
-- What a key types: the scancode tables under Shift and Caps Lock.
use sonna_os.Prelude.{
  ℕ, ◌-◌, ◌<◌, ◌≡◌, refl, ◌∙◌, Bool, true, false, not, ◌||◌, ◌==◌, if◌then◌else◌, [], get_or, ==→eq,
}
use sonna_os.Prelude.Bits.{every_below, every_below-at}
use sonna_os.Keyboard.{
  Kbd, ascii_base, ascii_shift, is_shift_pressed, is_lower, get_char_from_scancode,
}

abbrev pub xor : Bool → Bool → Bool
xor true b = not b
xor false b = b

-- A letter is upper case when exactly one of Shift and Caps Lock is on; on any other key Caps Lock
-- has no effect.
abbrev pub char_of_key : (code : ℕ) → (shift caps : Bool) → ℕ
char_of_key code shift caps =
    let base = get_or ascii_base code 0 in
    if is_lower base
    then if xor shift caps then base - 32 else base
    else get_or (if shift then ascii_shift else ascii_base) code 0

abbrev flags : Bool → Bool → Kbd
flags shift caps = record {
  kbd_buffer = [];
  kbd_head = 0;
  kbd_tail = 0;
  left_shift = shift;
  right_shift = false;
  caps_lock = caps;
}

abbrev agrees : Bool → Bool → ℕ → Bool
agrees shift caps code =
    get_char_from_scancode code (flags shift caps) == char_of_key code shift caps

all-agree : (shift caps : Bool) → every_below 128 (agrees shift caps) ≡ true
unfolding every_below get_char_from_scancode
all-agree true true = refl
all-agree true false = refl
all-agree false true = refl
all-agree false false = refl

or_false : (b : Bool) → (b || false) ≡ b
or_false true = refl
or_false false = refl

flags-get_char :
    (code : ℕ) (k : Kbd)
    → get_char_from_scancode code k
      ≡ get_char_from_scancode code (flags (is_shift_pressed k) k.caps_lock)
unfolding get_char_from_scancode
flags-get_char code k = rw (or_false (is_shift_pressed k)) refl

-- For every scancode below 128, a letter key gives upper case exactly when one of Shift and Caps
-- Lock is on but not both, and any other key gives the entry of the table that Shift selects,
-- whatever Caps Lock is.
pub get_char_from_scancode_lem :
    (code : ℕ) (k : Kbd)
    → code < 128
    → get_char_from_scancode code k ≡ char_of_key code (is_shift_pressed k) k.caps_lock
get_char_from_scancode_lem code k lt =
    let shift = is_shift_pressed k in
    flags-get_char code k
    ∙ ==→eq (get_char_from_scancode code (flags shift k.caps_lock))
        (char_of_key code shift k.caps_lock)
        (every_below-at 128 (agrees shift k.caps_lock) code (all-agree shift k.caps_lock) lt)
