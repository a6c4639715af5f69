-- ===== src/Keyboard.antt =====
-- kernel/drivers/keyboard.c: the ring of typed characters, the scancode tables and the interrupt
-- handler. A character is its code; those of the tables are below 128, so `char` may be signed.
pub mod Queue
pub mod Letters
mod Tests
use sonna_os.Prelude.{
  ℕ, ◌+◌, ◌-◌, ◌%◌, bit_and, Bool, true, false, not, ◌&&◌, ◌||◌, List, [], ◌∷◌, ◌==◌, ltb, leb,
  if◌then◌else◌, get_or, set,
}

abbrev pub kbd_buffer_size : ℕ
kbd_buffer_size = 128

pub record Kbd : Type 0 where
  pub kbd_buffer : List ℕ
  pub kbd_head : ℕ
  pub kbd_tail : ℕ
  pub left_shift : Bool
  pub right_shift : Bool
  pub caps_lock : Bool

unfoldable pub kbd_buffer_empty : Kbd → Bool
kbd_buffer_empty k = k.kbd_head == k.kbd_tail

unfoldable pub kbd_buffer_full : Kbd → Bool
kbd_buffer_full k = ((k.kbd_head + 1) % kbd_buffer_size) == k.kbd_tail

unfoldable pub kbd_buffer_push : ℕ → Kbd → Kbd
unfolding kbd_buffer_full
kbd_buffer_push c k =
    if not (kbd_buffer_full k)
    then record k {
      kbd_buffer = set k.kbd_buffer k.kbd_head c;
      kbd_head = (k.kbd_head + 1) % kbd_buffer_size;
    }
    else k

unfoldable pub kbd_buffer_pop : Kbd → ℕ × Kbd
unfolding kbd_buffer_empty
kbd_buffer_pop k = if kbd_buffer_empty k then (0, k) else (
  get_or k.kbd_buffer k.kbd_tail 0,
  record k { kbd_tail = (k.kbd_tail + 1) % kbd_buffer_size },
)

abbrev pub ascii_base : List ℕ
ascii_base =
    0 ∷ 0 ∷ 49 ∷ 50 ∷ 51 ∷ 52 ∷ 53 ∷ 54 ∷ 55 ∷ 56 ∷ 57 ∷ 48 ∷ 45 ∷ 61 ∷ 8 ∷ 9 ∷ 113 ∷ 119 ∷ 101
    ∷ 114 ∷ 116 ∷ 121 ∷ 117 ∷ 105 ∷ 111 ∷ 112 ∷ 91 ∷ 93 ∷ 10 ∷ 0 ∷ 97 ∷ 115 ∷ 100 ∷ 102 ∷ 103 ∷ 104
    ∷ 106 ∷ 107 ∷ 108 ∷ 59 ∷ 39 ∷ 96 ∷ 0 ∷ 92 ∷ 122 ∷ 120 ∷ 99 ∷ 118 ∷ 98 ∷ 110 ∷ 109 ∷ 44 ∷ 46 ∷ 47
    ∷ 0 ∷ 42 ∷ 0 ∷ 32 ∷ 0 ∷ 0 ∷ 0 ∷ 0 ∷ 0 ∷ 0 ∷ 0 ∷ 0 ∷ 0 ∷ 0 ∷ 0 ∷ 0 ∷ 0 ∷ 55 ∷ 56 ∷ 57 ∷ 45 ∷ 52
    ∷ 53 ∷ 54 ∷ 43 ∷ 49 ∷ 50 ∷ 51 ∷ 48 ∷ 46 ∷ 0 ∷ 0 ∷ 0 ∷ 0 ∷ 0 ∷ 0 ∷ 0 ∷ 0 ∷ 0 ∷ 0 ∷ 0 ∷ 0 ∷ 0 ∷ 0
    ∷ 0 ∷ 0 ∷ 0 ∷ 0 ∷ 0 ∷ 0 ∷ 0 ∷ 0 ∷ 0 ∷ 0 ∷ 0 ∷ 0 ∷ 0 ∷ 0 ∷ 0 ∷ 0 ∷ 0 ∷ 0 ∷ 0 ∷ 0 ∷ 0 ∷ 0 ∷ 0 ∷ 0
    ∷ 0 ∷ 0 ∷ 0 ∷ 0 ∷ 0 ∷ 0 ∷ []

abbrev pub ascii_shift : List ℕ
ascii_shift =
    0 ∷ 0 ∷ 33 ∷ 64 ∷ 35 ∷ 36 ∷ 37 ∷ 94 ∷ 38 ∷ 42 ∷ 40 ∷ 41 ∷ 95 ∷ 43 ∷ 8 ∷ 9 ∷ 81 ∷ 87 ∷ 69 ∷ 82
    ∷ 84 ∷ 89 ∷ 85 ∷ 73 ∷ 79 ∷ 80 ∷ 123 ∷ 125 ∷ 10 ∷ 0 ∷ 65 ∷ 83 ∷ 68 ∷ 70 ∷ 71 ∷ 72 ∷ 74 ∷ 75 ∷ 76
    ∷ 58 ∷ 34 ∷ 126 ∷ 0 ∷ 124 ∷ 90 ∷ 88 ∷ 67 ∷ 86 ∷ 66 ∷ 78 ∷ 77 ∷ 60 ∷ 62 ∷ 63 ∷ 0 ∷ 42 ∷ 0 ∷ 32
    ∷ 0 ∷ 0 ∷ 0 ∷ 0 ∷ 0 ∷ 0 ∷ 0 ∷ 0 ∷ 0 ∷ 0 ∷ 0 ∷ 0 ∷ 0 ∷ 55 ∷ 56 ∷ 57 ∷ 45 ∷ 52 ∷ 53 ∷ 54 ∷ 43 ∷ 49
    ∷ 50 ∷ 51 ∷ 48 ∷ 46 ∷ 0 ∷ 0 ∷ 0 ∷ 0 ∷ 0 ∷ 0 ∷ 0 ∷ 0 ∷ 0 ∷ 0 ∷ 0 ∷ 0 ∷ 0 ∷ 0 ∷ 0 ∷ 0 ∷ 0 ∷ 0 ∷ 0
    ∷ 0 ∷ 0 ∷ 0 ∷ 0 ∷ 0 ∷ 0 ∷ 0 ∷ 0 ∷ 0 ∷ 0 ∷ 0 ∷ 0 ∷ 0 ∷ 0 ∷ 0 ∷ 0 ∷ 0 ∷ 0 ∷ 0 ∷ 0 ∷ 0 ∷ 0 ∷ 0 ∷ 0
    ∷ 0 ∷ []

abbrev pub is_shift_pressed : Kbd → Bool
is_shift_pressed k = k.left_shift || k.right_shift

-- `'a' … 'z'` and `'A' … 'Z'`.
abbrev pub is_lower : ℕ → Bool
is_lower ch = leb 97 ch && leb ch 122

abbrev pub is_upper : ℕ → Bool
is_upper ch = leb 65 ch && leb ch 90

unfoldable pub get_char_from_scancode : ℕ → Kbd → ℕ
get_char_from_scancode code k =
    let table = if is_shift_pressed k then ascii_shift else ascii_base in
    let ch = if ltb code 128 then get_or table code 0 else 0 in
    if k.caps_lock && is_lower ch
    then ch - 32
    else if k.caps_lock && is_upper ch && is_shift_pressed k
    then ch + 32
    else ch

-- `keyboard_handler` with the byte that port 0x60 gives.
unfoldable pub keyboard_handler : ℕ → Kbd → Kbd
unfolding get_char_from_scancode kbd_buffer_push
keyboard_handler scancode k =
    let is_break = not (bit_and scancode 128 == 0) in
    let code = bit_and scancode 127 in
    if is_break
    then record k {
      left_shift = if code == 42 then false else k.left_shift;
      right_shift = if code == 54 then false else k.right_shift;
    }
    else if code == 42
    then record k { left_shift = true }
    else if code == 54
    then record k { right_shift = true }
    else if code == 58
    then record k { caps_lock = not k.caps_lock }
    else kbd_buffer_push (get_char_from_scancode code k) k

unfoldable pub keyboard_has_data : Kbd → Bool
unfolding kbd_buffer_empty
keyboard_has_data k = not (kbd_buffer_empty k)

unfoldable pub keyboard_get_char : Kbd → ℕ × Kbd
unfolding kbd_buffer_pop
keyboard_get_char k = kbd_buffer_pop k
