-- ===== src/Syscalls/Tests.antt =====
-- SYS_READ of kernel/arch/x86_64/syscalls/syscalls.c on some typed characters.
use sonna_os.Prelude.{
  ℕ, ◌-◌, ◌^◌, ◌≡◌, ◌≢◌, refl, false, none, List, [], ◌∷◌, ◌++◌, All, replicate, length-replicate,
  arith,
}
use sonna_os.Line.{edited}
use sonna_os.Syscalls.{Sys, waiting, is_erase, sys_read, syscall_common_handler, returns}
use sonna_os.Syscalls.Typing.{IsReader, Typed, line}
use sonna_os.Syscalls.Read.{LineRead, sys_read-LineRead, sys_read-Typed}

-- No screen, and nothing typed.
abbrev idle : Sys
idle = record {
  line_buffer = replicate 256 0;
  line_pos = 0;
  mem = λ a. 0;
  console = record {
    g_fb = none;
    g_font = none;
    text = record {
      g_cursor_x = 20;
      g_cursor_y = 15;
      overwrite = false;
      overwrite_pos = 0;
      pixels = λ i. 0;
    };
  };
}

idle-IsReader : IsReader idle
idle-IsReader = record { size = length-replicate {A = ℕ} 256 0; room = omega arith }

-- "a", backspace, "bc".
abbrev keys : List ℕ
keys = 97 ∷ 8 ∷ 98 ∷ 99 ∷ []

keys-plain : All (λ c. c ≢ 10) keys
keys-plain = (
  (λ e. absurd (omega arith)),
  ((λ e. absurd (omega arith)), ((λ e. absurd (omega arith)), ((λ e. absurd (omega arith)), tt))),
)

keys_line : edited is_erase [] keys ≡ 98 ∷ 99 ∷ []
unfolding edited
keys_line = refl

sys_read-LineRead_example :
    LineRead idle
      (edited is_erase (line idle) keys)
      0x1000
      8
      (7 ∷ [])
      (sys_read 0 0x1000 8 (keys ++ 10 ∷ 7 ∷ []) idle)
sys_read-LineRead_example =
    sys_read-LineRead idle 0x1000 8 keys (7 ∷ []) idle-IsReader (omega arith) keys-plain

sys_read-Typed_example :
    (s' : Sys) × (sys_read 0 0x1000 8 keys idle ≡ waiting s')
    × Typed idle (edited is_erase (line idle) keys) s'
sys_read-Typed_example = sys_read-Typed idle 0x1000 8 keys idle-IsReader (omega arith) keys-plain

-- The process number, and a file that is not the screen.
getpid : syscall_common_handler 39 0 0 0 7 [] idle ≡ returns 7 idle
unfolding syscall_common_handler
getpid = refl

other_file : syscall_common_handler 1 2 0x1000 5 7 [] idle ≡ returns (2 ^ 64 - 1) idle
unfolding syscall_common_handler
other_file = refl
