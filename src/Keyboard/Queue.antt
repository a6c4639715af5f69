-- ===== src/Keyboard/Queue.antt =====
-- The ring of characters is a queue of at most 127.
use sonna_os.Prelude.{
  ℕ, zero, suc, ◌+◌, ◌-◌, ◌%◌, ◌<◌, ◌≡◌, ◌≢◌, refl, ◌∙◌, ap, ap₂, Bool-cases, inl, inr, List, [],
  ◌∷◌, ◌++◌, ◌==◌, if◌then◌else◌, ltb, ==→eq, ==→ne, lt→ltb, length, get_or, set, length-set,
  get_or-set_self, get_or-set_ne, arith,
}
use sonna_os.Keyboard.{Kbd, kbd_buffer_empty, kbd_buffer_full, kbd_buffer_push, kbd_buffer_pop}

pub record IsValid (k : Kbd) : Type 0 where
  pub size : length k.kbd_buffer ≡ 128
  pub head : k.kbd_head < 128
  pub tail : k.kbd_tail < 128

-- `n` characters of the ring from `t` on.
abbrev pub window : List ℕ → (t n : ℕ) → List ℕ
window buf t zero = []
window buf t (suc n) = get_or buf t 0 ∷ window buf ((t + 1) % 128) n

abbrev pub count : Kbd → ℕ
count k = ((k.kbd_head + 128) - k.kbd_tail) % 128

-- The characters that wait, oldest first.
abbrev pub contents : Kbd → List ℕ
contents k = window k.kbd_buffer k.kbd_tail (count k)

pub length-window : (buf : List ℕ) (t n : ℕ) → length (window buf t n) ≡ n
length-window buf t zero = refl
length-window buf t (suc n) = ap suc (length-window buf ((t + 1) % 128) n)

-- A write at the place behind the window lengthens it.
window-push :
    (buf : List ℕ) (h t n c : ℕ)
    → length buf ≡ 128
    → t < 128
    → h ≡ (t + n) % 128
    → n < 128
    → window (set buf h c) t (suc n) ≡ window buf t n ++ c ∷ []
window-push buf h t zero c size lt at few =
    ap (λ x. x ∷ [])
      (ap (λ i. get_or (set buf h c) i 0) (omega arith) ∙ get_or-set_self buf h c 0 (omega arith))
window-push buf h t (suc n) c size lt at few =
    ap₂ (λ x xs. x ∷ xs) (get_or-set_ne buf h t c 0 (omega arith))
      (window-push buf h ((t + 1) % 128) n c size (omega arith) (omega arith) (omega arith))

-- What a bounded queue does on a push.
abbrev pub enqueue : List ℕ → ℕ → List ℕ
enqueue xs c = if ltb (length xs) 127 then xs ++ c ∷ [] else xs

abbrev pub front : List ℕ → ℕ
front [] = 0
front (x ∷ xs) = x

abbrev pub rest : List ℕ → List ℕ
rest [] = []
rest (x ∷ xs) = xs

-- The counting of a ring of 128.
full-count : (h t : ℕ) → h < 128 → t < 128 → (h + 1) % 128 ≡ t → ((h + 128) - t) % 128 ≡ 127
full-count h t lh lt e = omega arith

push-count :
    (h t : ℕ)
    → h < 128
    → t < 128
    → (h + 1) % 128 ≢ t
    → ((((h + 1) % 128 + 128) - t) % 128 ≡ suc (((h + 128) - t) % 128))
      × (((h + 128) - t) % 128 < 127)
      × (h ≡ (t + (((h + 128) - t) % 128)) % 128)
push-count h t lh lt ne = (omega arith, omega arith, omega arith)

pop-count :
    (h t : ℕ)
    → h < 128
    → t < 128
    → h ≢ t
    → ((h + 128) - t) % 128 ≡ suc (((h + 128) - ((t + 1) % 128)) % 128)
pop-count h t lh lt ne = omega arith

-- On a well-formed ring, storing a character appends it to the waiting characters unless 127
-- already wait, and then changes nothing; the ring stays well-formed.
pub kbd_buffer_push-contents :
    (c : ℕ) (k : Kbd)
    → IsValid k
    → IsValid (kbd_buffer_push c k) × (contents (kbd_buffer_push c k) ≡ enqueue (contents k) c)
unfolding kbd_buffer_push kbd_buffer_full
kbd_buffer_push-contents c k valid = elim (Bool-cases (((k.kbd_head + 1) % 128) == k.kbd_tail)) [
  | inl full ↦
      let n =
        full-count k.kbd_head k.kbd_tail valid.head valid.tail
          (==→eq (((k.kbd_head + 1) % 128)) k.kbd_tail full) in
      (rw full valid, rw full (rw (length-window k.kbd_buffer k.kbd_tail (count k), n) refl))
  | inr free ↦
      let (grown, few, at) =
        push-count k.kbd_head k.kbd_tail valid.head valid.tail
          (==→ne ((k.kbd_head + 1) % 128) k.kbd_tail free) in
      (
        rw free (record {
          size = length-set k.kbd_buffer k.kbd_head c ∙ valid.size;
          head = omega arith;
          tail = valid.tail;
        }),
        rw (free, length-window k.kbd_buffer k.kbd_tail (count k), lt→ltb (count k) 127 few, grown)
            (window-push k.kbd_buffer k.kbd_head k.kbd_tail (count k) c valid.size valid.tail at
              (omega arith)),
      )
]

-- On a well-formed ring, taking a character gives and removes the oldest waiting one, or gives 0
-- when none waits; the ring stays well-formed.
pub kbd_buffer_pop-contents :
    (k : Kbd)
    → IsValid k
    → IsValid (kbd_buffer_pop k).1
      × ((kbd_buffer_pop k).0 ≡ front (contents k))
      × (contents (kbd_buffer_pop k).1 ≡ rest (contents k))
unfolding kbd_buffer_pop kbd_buffer_empty
kbd_buffer_pop-contents k valid = elim (Bool-cases (k.kbd_head == k.kbd_tail)) [
  | inl empty ↦
      let n : count k ≡ 0 = omega (arith, ==→eq k.kbd_head k.kbd_tail empty) in
      (rw empty valid, rw (empty, n) refl, rw (empty, n) refl)
  | inr some_left ↦
      let n =
        pop-count k.kbd_head k.kbd_tail valid.head valid.tail
          (==→ne k.kbd_head k.kbd_tail some_left) in
      (
        rw some_left (record { size = valid.size; head = valid.head; tail = omega arith }),
        rw (some_left, n) refl,
        rw (some_left, n) refl,
      )
]
