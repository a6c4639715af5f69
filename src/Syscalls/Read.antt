-- ===== src/Syscalls/Read.antt =====
-- SYS_READ is a line editor.
use sonna_os.Prelude.{
  ℕ, zero, suc, ◌+◌, ◌-◌, ◌<◌, ◌≤◌, ◌≡◌, ◌≢◌, refl, sym, subst, ◌∙◌, ap, inl, inr, Bool-cases, List,
  [], ◌∷◌, ◌++◌, All, ◌==◌, ==_ne, ltb, if◌then◌else◌, length, take, get_or, min, arith,
}
use sonna_os.Memory.{Mem, write}
use sonna_os.Memory.Copy.{within}
use sonna_os.Line.{edit, edited, length-take, get_or-take}
use sonna_os.Syscalls.{
  Sys, Reading, waiting, returned, show, is_erase, type_char, copy_line, end_line, read_loop,
  sys_read,
}
use sonna_os.Syscalls.Typing.{IsReader, line, Typed, type_char-Typed}

copy_line-at :
    (left : ℕ) (m : Mem) (xs : List ℕ) (user_buf i a : ℕ)
    → copy_line left m xs user_buf i a
      ≡ (if within (user_buf + i) left a then get_or xs (a - user_buf) 0 else m a)
unfolding copy_line write
copy_line-at zero m xs user_buf i a = ground arith
copy_line-at (suc left) m xs user_buf i a =
    copy_line-at left (write m (user_buf + i) (get_or xs i 0)) xs user_buf (i + 1) a
    ∙ here (a - user_buf) refl
  where
    here :
        (d : ℕ)
        → a - user_buf ≡ d
        → (if within (user_buf + (i + 1)) left a
            then get_or xs d 0
            else if a == user_buf + i
            then get_or xs i 0
            else m a)
          ≡ (if within (user_buf + i) (suc left) a then get_or xs d 0 else m a)
    here d e = elim (Bool-cases (a == user_buf + i)) [
      | inl same ↦ let at : d ≡ i = ground arith in rw at (ground arith)
      | inr other ↦ rw other (ground arith)
    ]

-- What the newline does.
record Ended (s : Sys) (user_buf count n : ℕ) (s' : Sys) : Type 0 where
  is_reader : IsReader s'
  stored : n ≡ min (length (line s)) count
  empty : s'.line_pos ≡ 0
  mem :
      (a : ℕ)
      → s'.mem a ≡ (if within user_buf n a then get_or (line s) (a - user_buf) 0 else s.mem a)

end_line-Ended :
    (user_buf count : ℕ) (s : Sys)
    → IsReader s
    → Ended s user_buf count (end_line user_buf count s).0 (end_line user_buf count s).1
unfolding end_line show
end_line-Ended user_buf count s is =
    let n = if ltb s.line_pos count then s.line_pos else count in
    let le : n ≤ s.line_pos = ground arith in
    let len = length-take s.line_buffer s.line_pos (omega (arith, is.size, is.room)) in
    record {
      is_reader = record { size = is.size; room = omega arith };
      stored = ground (arith, len);
      empty = refl;
      mem = λ a.
          copy_line-at n s.mem s.line_buffer user_buf 0 a
          ∙ of_line s.line_buffer s.line_pos n user_buf a (s.mem a) le;
    }
  where
    of_line :
        (buffer : List ℕ) (pos n user_buf a v : ℕ)
        → n ≤ pos
        → (if within (user_buf + 0) n a then get_or buffer (a - user_buf) 0 else v)
          ≡ (if within user_buf n a then get_or (take pos buffer) (a - user_buf) 0 else v)
    of_line buffer pos n user_buf a v le = elim (Bool-cases (within user_buf n a)) [
      | inl inside ↦
          let same = get_or-take buffer pos (a - user_buf) (ground arith) in
          rw (inside, same) (ground arith)
      | inr outside ↦ rw outside (ground arith)
    ]

-- What a line that is read to its end leaves.
pub record LineRead (s : Sys) (xs : List ℕ) (user_buf count : ℕ) (rest : List ℕ) (r : Reading)
    : Type 0 where
  pub after : Sys
  pub result : r ≡ returned (min (length xs) count) after rest
  pub is_reader : IsReader after
  pub empty : after.line_pos ≡ 0
  pub stored :
      (a : ℕ)
      → after.mem a ≡ (
          if within user_buf (min (length xs) count) a then get_or xs (a - user_buf) 0 else s.mem a)

newline-LineRead :
    (s : Sys) (user_buf count : ℕ) (rest : List ℕ)
    → IsReader s
    → LineRead s (line s) user_buf count rest (read_loop (10 ∷ rest) user_buf count s)
unfolding read_loop
newline-LineRead s user_buf count rest is =
    let ended = end_line-Ended user_buf count s is in
    record {
      after = (end_line user_buf count s).1;
      result = ap (λ n. returned n (end_line user_buf count s).1 rest) ended.stored;
      is_reader = ended.is_reader;
      empty = ended.empty;
      stored = λ a.
          ended.mem a
          ∙ ap (λ n. if within user_buf n a then get_or (line s) (a - user_buf) 0 else s.mem a)
              ended.stored;
    }

waits : (user_buf count : ℕ) (s : Sys) → read_loop [] user_buf count s ≡ waiting s
unfolding read_loop
waits user_buf count s = refl

read_loop-step :
    (c : ℕ) (cs : List ℕ) (user_buf count : ℕ) (s : Sys)
    → c ≢ 10
    → read_loop (c ∷ cs) user_buf count s ≡ read_loop cs user_buf count (type_char c s)
unfolding read_loop
read_loop-step c cs user_buf count s other = rw (==_ne c 10 other) refl

sys_read_lem :
    (user_buf count : ℕ) (typed : List ℕ) (s : Sys)
    → 0 < count
    → sys_read 0 user_buf count typed s ≡ read_loop typed user_buf count s
unfolding sys_read
sys_read_lem user_buf count typed s some_room = rw (==_ne count 0 (λ e. absurd (omega arith))) refl

read_loop-LineRead :
    (s : Sys) (user_buf count : ℕ) (typed rest : List ℕ)
    → IsReader s
    → All (λ c. c ≢ 10) typed
    → LineRead s
        (edited is_erase (line s) typed)
        user_buf
        count
        rest
        (read_loop (typed ++ 10 ∷ rest) user_buf count s)
unfolding edited
read_loop-LineRead s user_buf count [] rest is plain = newline-LineRead s user_buf count rest is
read_loop-LineRead s user_buf count (c ∷ cs) rest is (other, plain) =
    let typed = type_char-Typed c s is in
    let later =
      subst
        (λ xs.
          LineRead (type_char c s) (edited is_erase xs cs) user_buf count rest
            (read_loop (cs ++ 10 ∷ rest) user_buf count (type_char c s)))
        typed.line_is
        (read_loop-LineRead (type_char c s) user_buf count cs rest typed.is_reader plain) in
    record {
      after = later.after;
      result = read_loop-step c (cs ++ 10 ∷ rest) user_buf count s other ∙ later.result;
      is_reader = later.is_reader;
      empty = later.empty;
      stored = λ a.
          later.stored a
          ∙ ap
              (λ v.
                if within user_buf
                  (min (length (edited is_erase (edit is_erase (line s) c) cs)) count) a
                then get_or (edited is_erase (edit is_erase (line s) c) cs) (a - user_buf) 0
                else v)
              (ap (λ (m : Mem). m a) typed.mem);
    }

-- SYS_READ implements a line editor: from the characters typed up to a newline it copies the
-- first count bytes of the edited line (printable characters appended up to 255, backspace and
-- delete taking the last away) to the user's buffer, changes no other byte of memory, returns
-- how many it copied, leaves the later characters unread and starts the next line empty, for
-- count above 0.
pub sys_read-LineRead :
    (s : Sys) (user_buf count : ℕ) (typed rest : List ℕ)
    → IsReader s
    → 0 < count
    → All (λ c. c ≢ 10) typed
    → LineRead s
        (edited is_erase (line s) typed)
        user_buf
        count
        rest
        (sys_read 0 user_buf count (typed ++ 10 ∷ rest) s)
sys_read-LineRead s user_buf count typed rest is some_room plain =
    subst (LineRead s (edited is_erase (line s) typed) user_buf count rest)
      (sym (sys_read_lem user_buf count (typed ++ 10 ∷ rest) s some_room))
      (read_loop-LineRead s user_buf count typed rest is plain)

read_loop-Typed :
    (s : Sys) (user_buf count : ℕ) (typed : List ℕ)
    → IsReader s
    → All (λ c. c ≢ 10) typed
    → (s' : Sys) × (read_loop typed user_buf count s ≡ waiting s')
      × Typed s (edited is_erase (line s) typed) s'
unfolding edited
read_loop-Typed s user_buf count [] is plain =
    (s, waits user_buf count s, record { is_reader = is; line_is = refl; mem = refl })
read_loop-Typed s user_buf count (c ∷ cs) is (other, plain) =
    let typed = type_char-Typed c s is in
    let (s', e, later) = read_loop-Typed (type_char c s) user_buf count cs typed.is_reader plain in
    (
      s',
      read_loop-step c cs user_buf count s other ∙ e,
      record {
        is_reader = later.is_reader;
        line_is = later.line_is ∙ ap (λ xs. edited is_erase xs cs) typed.line_is;
        mem = later.mem ∙ typed.mem;
      },
    )

-- For descriptor 0 and a count above 0, while no newline has been typed SYS_READ waits; its
-- buffer holds the edited line with the position in the buffer's 256 bytes, and memory is as it
-- was.
pub sys_read-Typed :
    (s : Sys) (user_buf count : ℕ) (typed : List ℕ)
    → IsReader s
    → 0 < count
    → All (λ c. c ≢ 10) typed
    → (s' : Sys) × (sys_read 0 user_buf count typed s ≡ waiting s')
      × Typed s (edited is_erase (line s) typed) s'
sys_read-Typed s user_buf count typed is some_room plain =
    let (s', e, t) = read_loop-Typed s user_buf count typed is plain in
    (s', sys_read_lem user_buf count typed s some_room ∙ e, t)
