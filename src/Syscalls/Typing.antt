-- ===== src/Syscalls/Typing.antt =====
-- What the characters before the newline do in SYS_READ.
use sonna_os.Prelude.{ℕ, ◌+◌, ◌-◌, ◌≡◌, refl, subst, List, ltb, if◌then◌else◌, take, set}
use sonna_os.Line.{type_at, both, Holds, type_at-Holds, IsLine, is_printable, edit}
use sonna_os.Syscalls.{Sys, show, is_erase, type_char}

abbrev pub IsReader : Sys → Type 0
IsReader s = IsLine s.line_buffer s.line_pos

-- What has been typed of the line.
abbrev pub line : Sys → List ℕ
line s = take s.line_pos s.line_buffer

-- What a typed character does.
pub record Typed (s : Sys) (xs : List ℕ) (s' : Sys) : Type 0 where
  pub is_reader : IsReader s'
  pub line_is : line s' ≡ xs
  pub mem : s'.mem ≡ s.mem

-- The line in the buffer is what the specification has.
abbrev Agrees : Sys → (r : List ℕ × ℕ) → Sys → Type 0
Agrees s r s' = (r ≡ (s'.line_buffer, s'.line_pos)) × (s'.mem ≡ s.mem)

type_char-Agrees :
    (c : ℕ) (s : Sys) → Agrees s (type_at is_erase s.line_buffer s.line_pos c) (type_char c s)
unfolding type_char show
type_char-Agrees c s =
    let P = Agrees s in
    let n = s.line_pos in
    let here : List ℕ × ℕ = (s.line_buffer, n) in
    let pushed : List ℕ × ℕ = (set s.line_buffer n c, n + 1) in
    let erased : Sys = show 8 0xFFFFFF (record s { line_pos = n - 1 }) in
    let added : Sys =
      show c 0xFFFFFF (record s { line_buffer = set s.line_buffer n c; line_pos = n + 1 }) in
    both P (is_erase c) (if ltb 0 n then (s.line_buffer, n - 1) else here)
      (if is_printable c then (if ltb n 255 then pushed else here) else here)
      (if ltb 0 n then erased else s)
      (if is_printable c then (if ltb n 255 then added else s) else s)
      (λ e.
        both P (ltb 0 n) (s.line_buffer, n - 1) here erased s (λ e. (refl, refl))
          (λ e. (refl, refl)))
      (λ e.
        both P (is_printable c) (if ltb n 255 then pushed else here) here
          (if ltb n 255 then added else s) s
          (λ e. both P (ltb n 255) pushed here added s (λ e. (refl, refl)) (λ e. (refl, refl)))
          (λ e. (refl, refl)))

pub type_char-Typed :
    (c : ℕ) (s : Sys) → IsReader s → Typed s (edit is_erase (line s) c) (type_char c s)
type_char-Typed c s is =
    let (same, mem) = type_char-Agrees c s in
    let held =
      subst (Holds (edit is_erase (line s) c)) same
        (type_at-Holds is_erase s.line_buffer s.line_pos c is) in
    record { is_reader = held.is_line; line_is = held.line_is; mem = mem }
