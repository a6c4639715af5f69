-- ===== src/Shell/Tests.antt =====
-- The kernel shell on typed characters.
use sonna_os.Prelude.{
  ℕ, ◌≡◌, ◌≢◌, refl, false, ◌==◌, ==→ne, none, List, [], ◌∷◌, ◌++◌, All, replicate,
  length-replicate, arith,
}
use sonna_os.Fbtext.{Console}
use sonna_os.Line.{edited}
use sonna_os.Shell.{Shell, choose, halt_system, shell_loop}
use sonna_os.Shell.Lines.{IsShell, Executes, is_backspace, line, shell_loop-Executes}

abbrev no_screen : Console
no_screen = record {
  g_fb = none;
  g_font = none;
  text = record {
    g_cursor_x = 20;
    g_cursor_y = 15;
    overwrite = false;
    overwrite_pos = 0;
    pixels = λ i. 0;
  };
}

abbrev shell : Shell
shell = record { cmd_buffer = replicate 256 0; cmd_pos = 0; console = no_screen }

shell-IsShell : IsShell shell
shell-IsShell = record {
  is_line = record { size = length-replicate {A = ℕ} 256 0; room = omega arith };
  text = tt;
}

-- "hx", backspace, "alt".
abbrev keys : List ℕ
keys = 104 ∷ 120 ∷ 8 ∷ 97 ∷ 108 ∷ 116 ∷ []

halts_it : choose (edited is_backspace [] keys) ≡ halt_system
unfolding choose edited
halts_it = refl

no_newline : (c : ℕ) → (c == 10) ≡ false → c ≢ 10
no_newline c e = ==→ne c 10 e

keys-plain : All (λ c. c ≢ 10) keys
keys-plain = (
  no_newline 104 refl,
  (
    no_newline 120 refl,
    (no_newline 8 refl, (no_newline 97 refl, (no_newline 108 refl, (no_newline 116 refl, tt)))),
  ),
)

shell_loop-Executes_example :
    Executes
      (edited is_backspace (line shell) keys)
      []
      (7 ∷ [])
      (shell_loop (keys ++ 10 ∷ 7 ∷ []) [] shell)
shell_loop-Executes_example = shell_loop-Executes keys [] (7 ∷ []) shell shell-IsShell keys-plain
