-- ===== src/Shell.antt =====
-- kernel/shell_kspace/kernelshell.c: the shell in the kernel. The characters that the keyboard
-- gives are a list; the text of `time_get_current` is an argument. A command is the string in the
-- buffer, the bytes before the first zero, so `strcmp` is the comparison of two lists.
pub mod Lines
mod Tests
use sonna_os.Prelude.{
  ℕ, zero, suc, ◌+◌, ◌-◌, Bool, true, false, ◌&&◌, List, [], ◌∷◌, ◌++◌, ◌==◌, ltb, leb,
  if◌then◌else◌, take, set, some, Option, none,
}
use sonna_os.Fbtext.{Console, fb_put_char, fb_print, fb_clear}
use sonna_os.Line.{is_printable}

-- `strcmp(a, b) == 0`.
unfoldable pub same_text : List ℕ → List ℕ → Bool
same_text [] [] = true
same_text [] (y ∷ ys) = false
same_text (x ∷ xs) [] = false
same_text (x ∷ xs) (y ∷ ys) = (x == y) && same_text xs ys

abbrev pub help : List ℕ
help = 104 ∷ 101 ∷ 108 ∷ 112 ∷ []

abbrev pub clear : List ℕ
clear = 99 ∷ 108 ∷ 101 ∷ 97 ∷ 114 ∷ []

abbrev pub about : List ℕ
about = 97 ∷ 98 ∷ 111 ∷ 117 ∷ 116 ∷ []

abbrev pub time : List ℕ
time = 116 ∷ 105 ∷ 109 ∷ 101 ∷ []

abbrev pub panic : List ℕ
panic = 112 ∷ 97 ∷ 110 ∷ 105 ∷ 99 ∷ []

abbrev pub halt : List ℕ
halt = 104 ∷ 97 ∷ 108 ∷ 116 ∷ []

-- The branches of `execute_command`.
pub data Command : Type 0 where
  none_given show_help clear_screen show_about show_time trigger_panic halt_system unknown : Command

unfoldable pub choose : List ℕ → Command
unfolding same_text
choose [] = none_given
choose (c ∷ cs) =
    if same_text (c ∷ cs) help
    then show_help
    else if same_text (c ∷ cs) clear
    then clear_screen
    else if same_text (c ∷ cs) about
    then show_about
    else if same_text (c ∷ cs) time
    then show_time
    else if same_text (c ∷ cs) panic
    then trigger_panic
    else if same_text (c ∷ cs) halt
    then halt_system
    else unknown

-- The strings that are printed.
abbrev pub help_text : List ℕ
help_text =
    65 ∷ 118 ∷ 97 ∷ 105 ∷ 108 ∷ 97 ∷ 98 ∷ 108 ∷ 101 ∷ 32 ∷ 99 ∷ 111 ∷ 109 ∷ 109 ∷ 97 ∷ 110 ∷ 100
    ∷ 115 ∷ 58 ∷ 32 ∷ 104 ∷ 101 ∷ 108 ∷ 112 ∷ 44 ∷ 32 ∷ 99 ∷ 108 ∷ 101 ∷ 97 ∷ 114 ∷ 44 ∷ 32 ∷ 97
    ∷ 98 ∷ 111 ∷ 117 ∷ 116 ∷ 44 ∷ 32 ∷ 116 ∷ 105 ∷ 109 ∷ 101 ∷ 44 ∷ 32 ∷ 112 ∷ 97 ∷ 110 ∷ 105 ∷ 99
    ∷ 44 ∷ 32 ∷ 104 ∷ 97 ∷ 108 ∷ 116 ∷ 10 ∷ []

abbrev pub about_text : List ℕ
about_text =
    69 ∷ 115 ∷ 116 ∷ 101 ∷ 108 ∷ 108 ∷ 97 ∷ 32 ∷ 115 ∷ 104 ∷ 101 ∷ 108 ∷ 108 ∷ 32 ∷ 40 ∷ 82 ∷ 105
    ∷ 110 ∷ 103 ∷ 32 ∷ 48 ∷ 41 ∷ 10 ∷ []

abbrev pub time_text : List ℕ
time_text = 116 ∷ 105 ∷ 109 ∷ 101 ∷ 32 ∷ 40 ∷ 85 ∷ 84 ∷ 67 ∷ 41 ∷ 58 ∷ 32 ∷ []

abbrev pub panic_text : List ℕ
panic_text =
    84 ∷ 114 ∷ 105 ∷ 103 ∷ 103 ∷ 101 ∷ 114 ∷ 105 ∷ 110 ∷ 103 ∷ 32 ∷ 107 ∷ 101 ∷ 114 ∷ 110 ∷ 101
    ∷ 108 ∷ 32 ∷ 112 ∷ 97 ∷ 110 ∷ 105 ∷ 99 ∷ 46 ∷ 46 ∷ 46 ∷ 10 ∷ []

abbrev pub halt_text : List ℕ
halt_text =
    72 ∷ 97 ∷ 108 ∷ 116 ∷ 105 ∷ 110 ∷ 103 ∷ 32 ∷ 115 ∷ 121 ∷ 115 ∷ 116 ∷ 101 ∷ 109 ∷ 46 ∷ 46 ∷ 46
    ∷ 10 ∷ []

abbrev pub unknown_text : List ℕ
unknown_text =
    85 ∷ 110 ∷ 107 ∷ 110 ∷ 111 ∷ 119 ∷ 110 ∷ 32 ∷ 99 ∷ 111 ∷ 109 ∷ 109 ∷ 97 ∷ 110 ∷ 100 ∷ 58 ∷ 32
    ∷ []

abbrev pub welcome_text : List ℕ
welcome_text =
    87 ∷ 101 ∷ 108 ∷ 99 ∷ 111 ∷ 109 ∷ 101 ∷ 32 ∷ 116 ∷ 111 ∷ 32 ∷ 69 ∷ 115 ∷ 116 ∷ 101 ∷ 108 ∷ 108
    ∷ 97 ∷ 32 ∷ 107 ∷ 101 ∷ 114 ∷ 110 ∷ 101 ∷ 108 ∷ 32 ∷ 115 ∷ 104 ∷ 101 ∷ 108 ∷ 108 ∷ 32 ∷ 10 ∷ []

abbrev pub hint_text : List ℕ
hint_text =
    84 ∷ 121 ∷ 112 ∷ 101 ∷ 32 ∷ 39 ∷ 104 ∷ 101 ∷ 108 ∷ 112 ∷ 39 ∷ 32 ∷ 102 ∷ 111 ∷ 114 ∷ 32 ∷ 99
    ∷ 111 ∷ 109 ∷ 109 ∷ 97 ∷ 110 ∷ 100 ∷ 115 ∷ 46 ∷ 10 ∷ 10 ∷ []

abbrev pub prompt_text : List ℕ
prompt_text = 115 ∷ 104 ∷ 62 ∷ 32 ∷ []

-- What a command comes to: the shell goes on, or `ud2` or `hlt` is reached. `none` as a result is a
-- NULL framebuffer in `fb_clear`.
pub data After : Type 0 where
  goes_on : Console → After
  panics : Console → After
  halts : Console → After

abbrev print : List ℕ → (color : ℕ) → Console → Console
print text color c = fb_print (some text) color c

abbrev clear_it : Option Console → Option After
clear_it none = none
clear_it (some c) = some (goes_on c)

abbrev run_command : Command → (cmd now : List ℕ) → Console → Option After
run_command none_given cmd now c = some (goes_on c)
run_command show_help cmd now c = some (goes_on (print help_text 0x00FF00 c))
run_command clear_screen cmd now c = clear_it (fb_clear c)
run_command show_about cmd now c = some (goes_on (print about_text 0x00BFFF c))
run_command show_time cmd now c =
    some (goes_on (print (10 ∷ []) 0 (print now 0xFFFFFF (print time_text 0xFFAA00 c))))
run_command trigger_panic cmd now c = some (panics (print panic_text 0xFF0000 c))
run_command halt_system cmd now c = some (halts (print halt_text 0x00FFFF c))
run_command unknown cmd now c =
    some (goes_on (print (10 ∷ []) 0 (print cmd 0xAAAAAA (print unknown_text 0xAA0000 c))))

-- `execute_command`.
unfoldable pub execute_command : (cmd now : List ℕ) → Console → Option After
unfolding choose fb_print fb_clear
execute_command cmd now c = run_command (choose cmd) cmd now c

pub record Shell : Type 0 where
  pub cmd_buffer : List ℕ
  pub cmd_pos : ℕ
  pub console : Console

-- A character other than the newline.
unfoldable pub key : ℕ → Shell → Shell
unfolding fb_put_char
key c s =
    let erased =
      if ltb 0 s.cmd_pos
      then record s { cmd_pos = s.cmd_pos - 1; console = fb_put_char 8 0xAAAAAA s.console }
      else s in
    let added =
      if ltb s.cmd_pos 255
      then record s {
        cmd_buffer = set s.cmd_buffer s.cmd_pos c;
        cmd_pos = s.cmd_pos + 1;
        console = fb_put_char c 0xAAAAAA s.console;
      }
      else s in
    if c == 8 then erased else if is_printable c then added else s

-- Where the shell stands once the typed characters are used up, or stopped before; `fails` is the
-- NULL framebuffer.
pub data Shown : Type 0 where
  running : Shell → Shown
  panicked : Console → Shown
  halted : Console → Shown
  fails : Shown

abbrev pub and_then : Option After → (Console → Shown) → Shown
and_then none more = fails
and_then (some (goes_on c)) more = more c
and_then (some (panics c)) more = panicked c
and_then (some (halts c)) more = halted c

unfoldable pub prompt : Console → Console
unfolding fb_print
prompt c = print prompt_text 0x7FFFD4 c

-- The string that starts at the buffer: what stands before the first zero. A buffer without one
-- ends the string here; in memory it would go on.
unfoldable pub string_in : List ℕ → List ℕ
string_in [] = []
string_in (x ∷ xs) = if x == 0 then [] else x ∷ string_in xs

-- The loop of `launch_shell`.
unfoldable pub shell_loop : (typed now : List ℕ) → Shell → Shown
unfolding string_in key execute_command prompt fb_put_char
shell_loop [] now s = running s
shell_loop (c ∷ cs) now s =
    let ended = record s {
      cmd_buffer = set s.cmd_buffer s.cmd_pos 0;
      console = fb_put_char 10 0xAAAAAA s.console;
    } in
    let next : Console → Shown =
      λ console. shell_loop cs now (record ended { cmd_pos = 0; console = prompt console }) in
    let executed = and_then (execute_command (string_in ended.cmd_buffer) now ended.console) next in
    let other = shell_loop cs now (key c s) in if c == 10 then executed else other

-- `launch_shell`, with `buffer` as the uninitialised array.
unfoldable pub launch_shell : (buffer typed now : List ℕ) → Console → Shown
unfolding shell_loop prompt fb_print
launch_shell buffer typed now c =
    let greeted = print hint_text 0x7FFFD4 (print welcome_text 0x7FFFD4 c) in
    shell_loop typed now (record { cmd_buffer = buffer; cmd_pos = 0; console = prompt greeted })
