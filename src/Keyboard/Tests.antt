-- ===== src/Keyboard/Tests.antt =====
-- Shift and `a`, typed into an empty ring.
use sonna_os.Prelude.{ℕ, ◌≡◌, refl, true, false, [], ◌∷◌, replicate, length-replicate, arith}
use sonna_os.Keyboard.{
  Kbd, kbd_buffer_push, kbd_buffer_pop, get_char_from_scancode, keyboard_handler, kbd_buffer_full,
}
use sonna_os.Keyboard.Queue.{
  IsValid, contents, enqueue, front, rest, kbd_buffer_push-contents, kbd_buffer_pop-contents,
}

abbrev shifted : Kbd
shifted = record {
  kbd_buffer = replicate 128 0;
  kbd_head = 127;
  kbd_tail = 126;
  left_shift = true;
  right_shift = false;
  caps_lock = false;
}

shifted-IsValid : IsValid shifted
shifted-IsValid = record {
  size = length-replicate {A = ℕ} 128 0;
  head = omega arith;
  tail = omega arith;
}

types_capital : contents (keyboard_handler 30 shifted) ≡ 0 ∷ 65 ∷ []
unfolding keyboard_handler get_char_from_scancode kbd_buffer_push kbd_buffer_full
types_capital = refl

releases_shift : (keyboard_handler 170 shifted).left_shift ≡ false
unfolding keyboard_handler
releases_shift = refl

kbd_buffer_push-contents_example :
    IsValid (kbd_buffer_push 65 shifted)
    × (contents (kbd_buffer_push 65 shifted) ≡ enqueue (contents shifted) 65)
kbd_buffer_push-contents_example = kbd_buffer_push-contents 65 shifted shifted-IsValid

kbd_buffer_pop-contents_example :
    IsValid (kbd_buffer_pop shifted).1
    × ((kbd_buffer_pop shifted).0 ≡ front (contents shifted))
    × (contents (kbd_buffer_pop shifted).1 ≡ rest (contents shifted))
kbd_buffer_pop-contents_example = kbd_buffer_pop-contents shifted shifted-IsValid
