-- ===== src/Syscalls.antt =====
-- kernel/arch/x86_64/syscalls/syscalls.c: the system calls. The characters that the keyboard gives
-- from here on are a list; waiting for one is not a step. Pointers from user space are addresses
-- of the memory, which the code does not check. The end of a task (SYS_EXIT) is
-- `exit_current` of `Scheduler`; the messages are printed here.
pub mod Typing
pub mod Read
mod Tests
use sonna_os.Prelude.{
  ℕ, zero, suc, ◌+◌, ◌-◌, ◌*◌, ◌^◌, Bool, not, ◌&&◌, ◌||◌, List, [], ◌∷◌, ◌++◌, ◌==◌, ltb, leb,
  if◌then◌else◌, get_or, set, bit_or, u32, some,
}
use sonna_os.Memory.{Mem, write}
use sonna_os.Fbtext.{Console, fb_put_char, fb_print}
use sonna_os.Strings.{dec_loop}
use sonna_os.Line.{is_printable}

-- `wrmsr` of a register and a value.
pub record MsrWrite : Type 0 where
  pub register : ℕ
  pub value : ℕ

-- `syscalls_init`, when EFER holds `efer` and `handler` is the address of `syscall_handler`.
unfoldable pub syscalls_init : (efer handler : ℕ) → List MsrWrite
syscalls_init efer handler =
    record { register = 0xC0000080; value = bit_or efer 1 }
    ∷ record { register = 0xC0000082; value = handler }
    ∷ record { register = 0xC0000081; value = bit_or (0x08 * 2 ^ 32) (0x10 * 2 ^ 48) }
    ∷ record { register = 0xC0000084; value = 2 ^ 9 }
    ∷ []

-- What the calls change: the line of SYS_READ, memory and the screen.
pub record Sys : Type 0 where
  pub line_buffer : List ℕ
  pub line_pos : ℕ
  pub mem : Mem
  pub console : Console

unfoldable pub show : (c color : ℕ) → Sys → Sys
unfolding fb_put_char
show c color s = record s { console = fb_put_char c color s.console }

-- `char` is signed: a byte from 128 on is a negative number, and a huge codepoint.
abbrev pub codepoint_of : ℕ → ℕ
codepoint_of b = if ltb b 128 then b else 2 ^ 32 - 256 + b

-- The loop of SYS_WRITE with `left` bytes to go.
unfoldable pub write_loop : (left : ℕ) → (buf i : ℕ) → Sys → Sys
unfolding show
write_loop zero buf i s = s
write_loop (suc left) buf i s =
    write_loop left buf (i + 1) (show (codepoint_of (s.mem (buf + i))) 0xAAAAAA s)

-- `return -1`.
abbrev pub minus_one : ℕ
minus_one = 2 ^ 64 - 1

unfoldable pub sys_write : (fd buf len : ℕ) → Sys → ℕ × Sys
unfolding write_loop
sys_write fd buf len s = if fd == 1 then (len, write_loop len buf 0 s) else (minus_one, s)

-- The copy of the line to the user's buffer.
unfoldable pub copy_line : (left : ℕ) → Mem → (line : List ℕ) → (user_buf i : ℕ) → Mem
unfolding write
copy_line zero m line user_buf i = m
copy_line (suc left) m line user_buf i =
    copy_line left (write m (user_buf + i) (get_or line i 0)) line user_buf (i + 1)

abbrev pub is_erase : ℕ → Bool
is_erase c = (c == 8) || (c == 127)

-- A character other than the newline.
unfoldable pub type_char : ℕ → Sys → Sys
unfolding show
type_char c s =
    let erased =
      if ltb 0 s.line_pos then show 8 0xFFFFFF (record s { line_pos = s.line_pos - 1 }) else s in
    let added =
      if ltb s.line_pos 255
      then show c 0xFFFFFF
          (record s { line_buffer = set s.line_buffer s.line_pos c; line_pos = s.line_pos + 1 })
      else s in
    if is_erase c then erased else if is_printable c then added else s

-- The newline: how much is copied, and the state afterwards.
unfoldable pub end_line : (user_buf count : ℕ) → Sys → ℕ × Sys
unfolding copy_line show
end_line user_buf count s =
    let copy_size = if ltb s.line_pos count then s.line_pos else count in
    let copied = record s {
      mem = copy_line copy_size s.mem s.line_buffer user_buf 0;
      line_pos = 0;
    } in
    (copy_size, show 10 0xFFFFFF copied)

-- What the loop of SYS_READ comes to: it waits for the next character, or returns a number, with
-- the characters that are left.
pub data Reading : Type 0 where
  waiting : Sys → Reading
  returned : ℕ → Sys → List ℕ → Reading

abbrev return_line : ℕ × Sys → List ℕ → Reading
return_line (n, s) rest = returned n s rest

unfoldable pub read_loop : (typed : List ℕ) → (user_buf count : ℕ) → Sys → Reading
unfolding type_char end_line
read_loop [] user_buf count s = waiting s
read_loop (c ∷ cs) user_buf count s =
    let rest = read_loop cs user_buf count (type_char c s) in
    if c == 10 then return_line (end_line user_buf count s) cs else rest

unfoldable pub sys_read : (fd user_buf count : ℕ) → (typed : List ℕ) → Sys → Reading
unfolding read_loop
sys_read fd user_buf count typed s =
    if not (fd == 0) || count == 0
    then returned minus_one s typed
    else read_loop typed user_buf count s

-- The digits that `u64_to_dec` stores.
unfoldable pub decimal_text : ℕ → List ℕ
unfolding dec_loop
decimal_text value = if value == 0 then 48 ∷ [] else dec_loop 21 value []

abbrev say : List ℕ → (color : ℕ) → Sys → Sys
say text color s = record s { console = fb_print (some text) color s.console }

-- "\n[task pid: ", "] exited with code " and "\n".
unfoldable pub exit_message : (pid code : ℕ) → Sys → Sys
unfolding decimal_text fb_print
exit_message pid code s =
    let s1 =
      say (10 ∷ 91 ∷ 116 ∷ 97 ∷ 115 ∷ 107 ∷ 32 ∷ 112 ∷ 105 ∷ 100 ∷ 58 ∷ 32 ∷ []) 0xAAAAAA s in
    let s2 = say (decimal_text pid) 0xAAAAAA s1 in
    let s3 =
      say
        (93 ∷ 32 ∷ 101 ∷ 120 ∷ 105 ∷ 116 ∷ 101 ∷ 100 ∷ 32 ∷ 119 ∷ 105 ∷ 116 ∷ 104 ∷ 32 ∷ 99 ∷ 111
          ∷ 100 ∷ 101 ∷ 32 ∷ [])
        0xAAAAAA s2 in
    say (10 ∷ []) 0 (say (decimal_text code) 0xAAAAAA s3)

-- "unhandled syscall #" and "\n".
unfoldable pub unhandled : (number : ℕ) → Sys → Sys
unfolding decimal_text fb_print
unhandled number s =
    let s1 =
      say
        (117 ∷ 110 ∷ 104 ∷ 97 ∷ 110 ∷ 100 ∷ 108 ∷ 101 ∷ 100 ∷ 32 ∷ 115 ∷ 121 ∷ 115 ∷ 99 ∷ 97 ∷ 108
          ∷ 108 ∷ 32 ∷ 35 ∷ [])
        0xAAAAAA s in
    say (10 ∷ []) 0 (say (decimal_text number) 0xAAAAAA s1)

-- What a call comes to: a value, a wait for the keyboard, or the end of the task.
pub data Outcome : Type 0 where
  returns : ℕ → Sys → Outcome
  waits : Sys → Outcome
  exits : Sys → Outcome

abbrev read_outcome : Reading → Outcome
read_outcome (waiting s) = waits s
read_outcome (returned n s rest) = returns n s

abbrev write_outcome : ℕ × Sys → Outcome
write_outcome (n, s) = returns n s

-- `syscall_common_handler`, by the registers that it reads.
unfoldable pub syscall_common_handler :
    (rax rdi rsi rdx : ℕ) → (current_pid : ℕ) → (typed : List ℕ) → Sys → Outcome
unfolding sys_write sys_read exit_message unhandled
syscall_common_handler rax rdi rsi rdx current_pid typed s =
    if rax == 1
    then write_outcome (sys_write rdi rsi rdx s)
    else if rax == 0
    then read_outcome (sys_read rdi rsi rdx typed s)
    else if rax == 39
    then returns current_pid s
    else if rax == 60
    then exits (exit_message current_pid rdi s)
    else returns minus_one (unhandled rax s)
