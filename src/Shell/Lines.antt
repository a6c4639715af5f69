-- ===== src/Shell/Lines.antt =====
-- The kernel shell executes the line that was edited.
use sonna_os.Prelude.{
  ℕ, zero, suc, ap, true, ◌<◌, ◌&&◌, length, ◌+◌, ◌-◌, ◌≡◌, ◌≢◌, refl, sym, subst, ◌∙◌, Bool, List,
  [], ◌∷◌, ◌++◌, All, ◌==◌, ==_ne, ltb, if◌then◌else◌, take, set, length-set, arith,
}
use sonna_os.Fbtext.{Console, fb_put_char}
use sonna_os.Line.{
  IsLine, is_printable, drop_last, edit, edited, type_at, both, Holds, type_at-Holds,
}
use sonna_os.Shell.{Shell, Shown, key, and_then, prompt, string_in, execute_command, shell_loop}

abbrev pub is_backspace : ℕ → Bool
is_backspace c = c == 8

abbrev pub line : Shell → List ℕ
line s = take s.cmd_pos s.cmd_buffer

-- The position is in the buffer, and no byte before it is zero.
pub record IsShell (s : Shell) : Type 0 where
  pub is_line : IsLine s.cmd_buffer s.cmd_pos
  pub text : All (λ c. c ≢ 0) (line s)

All-take {ℓ} : (P : ℕ → Type ℓ) (xs : List ℕ) (n : ℕ) → All P xs → All P (take n xs)
All-take P xs zero all = tt
All-take P [] (suc n) all = tt
All-take P (x ∷ xs) (suc n) (p, all) = (p, All-take P xs n all)

All-push {ℓ} : (P : ℕ → Type ℓ) (xs : List ℕ) (c : ℕ) → All P xs → P c → All P (xs ++ c ∷ [])
All-push P [] c all p = (p, tt)
All-push P (x ∷ xs) c (q, all) p = (q, All-push P xs c all p)

-- Editing puts no zero into a line.
edit-text : (xs : List ℕ) (c : ℕ) → All (λ c. c ≢ 0) xs → All (λ c. c ≢ 0) (edit is_backspace xs c)
edit-text xs c all =
    let P : List ℕ → Bool → Type 0 = λ ys b. All (λ c. c ≢ 0) ys in
    both P (is_backspace c) (drop_last xs)
      (if is_printable c && ltb (length xs) 255 then xs ++ c ∷ [] else xs) true true
      (λ e. All-take (λ c. c ≢ 0) xs (length xs - 1) all)
      (λ e.
        both P (is_printable c && ltb (length xs) 255) (xs ++ c ∷ []) xs true true
          (λ printable. All-push (λ c. c ≢ 0) xs c all (λ zero_is. absurd (ground arith)))
          (λ e. all))

-- The zero that the newline writes ends the string where the line ends.
string_in-set :
    (buffer : List ℕ) (n : ℕ)
    → n < length buffer
    → All (λ c. c ≢ 0) (take n buffer)
    → string_in (set buffer n 0) ≡ take n buffer
unfolding string_in
string_in-set [] n lt all = absurd (omega arith)
string_in-set (x ∷ xs) zero lt all = refl
string_in-set (x ∷ xs) (suc n) lt (other, all) =
    rw (==_ne x 0 other) (ap (λ ys. x ∷ ys) (string_in-set xs n (omega arith) all))

key-type_at :
    (c : ℕ) (s : Shell)
    → type_at is_backspace s.cmd_buffer s.cmd_pos c ≡ ((key c s).cmd_buffer, (key c s).cmd_pos)
unfolding key
key-type_at c s =
    let P : List ℕ × ℕ → Shell → Type 0 = λ r s'. r ≡ (s'.cmd_buffer, s'.cmd_pos) in
    let n = s.cmd_pos in
    let here : List ℕ × ℕ = (s.cmd_buffer, n) in
    let pushed : List ℕ × ℕ = (set s.cmd_buffer n c, n + 1) in
    let erased = record s { cmd_pos = n - 1; console = fb_put_char 8 0xAAAAAA s.console } in
    let added = record s {
      cmd_buffer = set s.cmd_buffer n c;
      cmd_pos = n + 1;
      console = fb_put_char c 0xAAAAAA s.console;
    } in
    both P (is_backspace c) (if ltb 0 n then (s.cmd_buffer, n - 1) else here)
      (if is_printable c then (if ltb n 255 then pushed else here) else here)
      (if ltb 0 n then erased else s)
      (if is_printable c then (if ltb n 255 then added else s) else s)
      (λ e. both P (ltb 0 n) (s.cmd_buffer, n - 1) here erased s (λ e. refl) (λ e. refl))
      (λ e.
        both P (is_printable c) (if ltb n 255 then pushed else here) here
          (if ltb n 255 then added else s) s
          (λ e. both P (ltb n 255) pushed here added s (λ e. refl) (λ e. refl)) (λ e. refl))

key-Holds :
    (c : ℕ) (s : Shell)
    → IsLine s.cmd_buffer s.cmd_pos
    → Holds (edit is_backspace (line s) c) ((key c s).cmd_buffer, (key c s).cmd_pos)
key-Holds c s is =
    subst (Holds (edit is_backspace (line s) c)) (key-type_at c s)
      (type_at-Holds is_backspace s.cmd_buffer s.cmd_pos c is)

shell_loop-step :
    (c : ℕ) (cs now : List ℕ) (s : Shell)
    → c ≢ 10
    → shell_loop (c ∷ cs) now s ≡ shell_loop cs now (key c s)
unfolding shell_loop
shell_loop-step c cs now s other = rw (==_ne c 10 other) refl

-- What follows the line `xs`: the command is executed, and the shell goes on with an empty line.
pub record Executes (xs now rest : List ℕ) (shown : Shown) : Type 0 where
  pub console : Console
  pub buffer : List ℕ
  pub is_line : IsLine buffer 0
  pub result :
      shown
      ≡ and_then (execute_command xs now console) (λ c.
        shell_loop rest now (record { cmd_buffer = buffer; cmd_pos = 0; console = prompt c }))

newline-Executes :
    (now rest : List ℕ) (s : Shell)
    → IsShell s
    → Executes (line s) now rest (shell_loop (10 ∷ rest) now s)
unfolding shell_loop
newline-Executes now rest s is =
    let buffer = set s.cmd_buffer s.cmd_pos 0 in
    let console = fb_put_char 10 0xAAAAAA s.console in
    let next : Console → Shown =
      λ c. shell_loop rest now (record { cmd_buffer = buffer; cmd_pos = 0; console = prompt c }) in
    let inside : s.cmd_pos < length s.cmd_buffer =
      omega (arith, is.is_line.size, is.is_line.room) in
    record {
      console = console;
      buffer = buffer;
      is_line = record {
        size = length-set s.cmd_buffer s.cmd_pos 0 ∙ is.is_line.size;
        room = omega arith;
      };
      result =
          ap (λ xs. and_then (execute_command xs now console) next)
            (string_in-set s.cmd_buffer s.cmd_pos inside is.text);
    }

-- The kernel shell implements a line editor: from a line without a zero byte, of the characters
-- typed up to a newline it executes the edited line (printable characters appended up to 255,
-- backspace taking the last away), as the string that the zero written behind it ends, and,
-- unless that stops it, goes on with the characters behind from an empty line and a new prompt.
pub shell_loop-Executes :
    (typed now rest : List ℕ) (s : Shell)
    → IsShell s
    → All (λ c. c ≢ 10) typed
    → Executes (edited is_backspace (line s) typed) now rest (shell_loop (typed ++ 10 ∷ rest) now s)
unfolding edited
shell_loop-Executes [] now rest s is plain = newline-Executes now rest s is
shell_loop-Executes (c ∷ cs) now rest s is (other, plain) =
    let held = key-Holds c s is.is_line in
    let is_shell : IsShell (key c s) = record {
      is_line = held.is_line;
      text = subst (All (λ c. c ≢ 0)) (sym held.line_is) (edit-text (line s) c is.text);
    } in
    subst (Executes (edited is_backspace (edit is_backspace (line s) c) cs) now rest)
      (sym (shell_loop-step c (cs ++ 10 ∷ rest) now s other))
      (subst
        (λ xs.
          Executes (edited is_backspace xs cs) now rest
            (shell_loop (cs ++ 10 ∷ rest) now (key c s)))
        held.line_is (shell_loop-Executes cs now rest (key c s) is_shell plain))
