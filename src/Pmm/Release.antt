-- ===== src/Pmm/Release.antt =====
-- `pmm_free_frames` and `pmm_free` in kernel/mm/pmm.c: which frames they clear, how the counters
-- follow, and that they undo an allocation.
use sonna_os.Prelude.{
  ℕ, zero, suc, ◌+◌, ◌/◌, ◌≤◌, ◌<◌, ◌≡◌, refl, subst, fun_ext, ap₂, leb→le, ◌∙◌, ◌⊎◌, inl, inr,
  true, false, not, ◌&&◌, ◌==◌, ltb, leb, Bool-cases, add64, sub64, arith, length, some,
}
use sonna_os.Pmm.{Pmm, page_size, test_frame, clear_frame, free_loop, free_frames, alloc_frames}
use sonna_os.Pmm.Bitmap.{length-clear_frame, clear_frame-IsBytes, test-clear_frame}
use sonna_os.Pmm.Frames.{clears, clears-le, clears-unmark}
use sonna_os.Pmm.Valid.{IsValid}
use sonna_os.Pmm.Alloc.{alloc_frames-Allocated}

-- `s'` is `s` after the frames from `cur` up to `cur + left` were given back, as far as the bitmap
-- goes: the free counter grows by the number of frames that were not clear before.
pub record Freed (s : Pmm) (left cur : ℕ) (s' : Pmm) : Type 0 where
  pub test :
      (g : ℕ)
      → test_frame s'.bitmap g
        ≡ (test_frame s.bitmap g && not (leb cur g && ltb g (cur + left) && ltb g s.bitmap_frames))
  pub counter :
      s'.free_frames + clears (test_frame s.bitmap) s.bitmap_frames
      ≡ s.free_frames + clears (test_frame s'.bitmap) s.bitmap_frames
  pub same_frames : s'.bitmap_frames ≡ s.bitmap_frames
  pub valid : IsValid s'

module _ (s : Pmm) (cur : ℕ) (valid : IsValid s) (pos : 0 < cur)
    (inside : cur < s.bitmap_frames) where
  abbrev released : Pmm
  released = record s {
    bitmap = clear_frame s.bitmap cur;
    free_frames = add64 s.free_frames 1;
    used_frames = sub64 s.used_frames 1;
  }

  released-Freed : test_frame s.bitmap cur ≡ true → Freed s 1 cur released
  released-Freed taken =
      let room : cur / 8 < length s.bitmap = omega (arith, valid.covers) in
      let test = λ (g : ℕ). test-clear_frame s.bitmap cur valid.bytes g room in
      let total =
        clears-unmark (test_frame s.bitmap) (test_frame (clear_frame s.bitmap cur)) cur test
          s.bitmap_frames in
      let grown : clears (test_frame (clear_frame s.bitmap cur)) s.bitmap_frames
          ≡ clears (test_frame s.bitmap) s.bitmap_frames + 1 =
        ground arith in
      let le = clears-le (test_frame (clear_frame s.bitmap cur)) s.bitmap_frames in
      record {
        test = λ g. ground (arith, test g);
        counter = omega (arith, valid.small, valid.counted);
        same_frames = refl;
        valid = record {
          bytes = clear_frame-IsBytes s.bitmap cur valid.bytes;
          covers = omega (arith, valid.covers, length-clear_frame s.bitmap cur);
          small = valid.small;
          hint_in = valid.hint_in;
          zero_used = ground (arith, test 0, valid.zero_used);
          counted = omega (arith, valid.small, valid.counted);
          balanced = omega (arith, valid.small, valid.counted, valid.balanced);
        };
      }

  kept-Freed : test_frame s.bitmap cur ≡ false → Freed s 1 cur s
  kept-Freed clear = record {
    test = λ g. elim (Bool-cases (cur == g)) [ inl same ↦ ground arith | inr other ↦ ground arith ];
    counter = refl;
    same_frames = refl;
    valid = valid;
  }

Freed-step :
    (s t u : Pmm) (left cur : ℕ)
    → Freed s 1 cur t
    → Freed t left (suc cur) u
    → Freed s (suc left) cur u
Freed-step s t u left cur one rest =
    let counter : u.free_frames + clears (test_frame t.bitmap) s.bitmap_frames
        ≡ t.free_frames + clears (test_frame u.bitmap) s.bitmap_frames =
      subst
        (λ n.
          u.free_frames + clears (test_frame t.bitmap) n
          ≡ t.free_frames + clears (test_frame u.bitmap) n)
        one.same_frames rest.counter in
    record {
      test = λ g. ground (arith, one.test g, rest.test g, one.same_frames);
      counter = omega (arith, one.counter);
      same_frames = rest.same_frames ∙ one.same_frames;
      valid = rest.valid;
    }

Freed-self :
    (s : Pmm) (left cur : ℕ) → IsValid s → (left ≡ 0) ⊎ (s.bitmap_frames ≤ cur) → Freed s left cur s
Freed-self s left cur valid nothing = record {
  test = λ g. ground arith;
  counter = refl;
  same_frames = refl;
  valid = valid;
}

free_loop-Freed :
    (left cur : ℕ) (s : Pmm) → IsValid s → 0 < cur → Freed s left cur (free_loop s left cur)
unfolding free_loop
free_loop-Freed zero cur s valid pos = Freed-self s 0 cur valid (inl refl)
free_loop-Freed (suc left) cur s valid pos = elim (Bool-cases (leb s.bitmap_frames cur)) [
  | inl out ↦ rw out (Freed-self s (suc left) cur valid (inr (leb→le _ _ out)))
  | inr within ↦
      let inside : cur < s.bitmap_frames = ground arith in
      let inc : add64 cur 1 ≡ suc cur = omega (arith, valid.small) in
      elim (Bool-cases (test_frame s.bitmap cur)) [
        | inl taken ↦
            let one = released-Freed s cur valid pos inside taken in
            rw (within, taken, inc)
              (Freed-step s (released s cur valid pos inside) _ left cur one (
                free_loop-Freed left (suc cur) (released s cur valid pos inside) one.valid
                  (omega arith)))
        | inr clear ↦
            let one = kept-Freed s cur valid pos inside clear in
            rw (within, clear, inc)
              (Freed-step s s _ left cur one (free_loop-Freed left (suc cur) s valid (omega arith)))
      ]
]

-- `pmm_free_frames` of an address behind the first page clears the `count` frames from that
-- address's frame on, as far as the bitmap goes, and no other; frames that are clear already are
-- not counted again; and the invariant is kept.
pub free_frames-Freed :
    (s : Pmm) (phys_addr count : ℕ)
    → IsValid s
    → page_size ≤ phys_addr
    → Freed s count (phys_addr / page_size) (free_frames s phys_addr count)
unfolding free_frames
free_frames-Freed s phys_addr count valid far = elim (Bool-cases (count == 0)) [
  | inl nothing ↦ rw nothing (Freed-self s count _ valid (inl (ground arith)))
  | inr more ↦ rw more (free_loop-Freed count _ s valid (omega arith))
]

-- Giving back what `pmm_alloc_frames` handed out, at its address and with its count, restores every
-- frame's bit and the free counter.
pub free_frames-alloc_frames :
    (s : Pmm) (count : ℕ) {a : ℕ} {s' : Pmm}
    → IsValid s
    → alloc_frames s count ≡ (some a, s')
    → ((g : ℕ) → test_frame (free_frames s' a count).bitmap g ≡ test_frame s.bitmap g)
      × ((free_frames s' a count).free_frames ≡ s.free_frames)
      × IsValid (free_frames s' a count)
free_frames-alloc_frames s count {a} {s'} valid e =
    let out = alloc_frames-Allocated s valid count e in
    let back = free_frames-Freed s' a count out.valid (omega (arith, out.not_null, out.address)) in
    let frame : a / page_size ≡ out.start = omega (arith, out.address) in
    let test : (g : ℕ) → test_frame (free_frames s' a count).bitmap g ≡ test_frame s.bitmap g =
      λ g. ground (arith, back.test g, out.marked g, out.run.1 g, out.inside, out.same_frames) in
    let total : clears (test_frame (free_frames s' a count).bitmap) s'.bitmap_frames
        ≡ clears (test_frame s.bitmap) s.bitmap_frames =
      ap₂ clears (fun_ext test) out.same_frames in
    let fewer : clears (test_frame s'.bitmap) s'.bitmap_frames + count
        ≡ clears (test_frame s.bitmap) s.bitmap_frames =
      rw out.same_frames out.fewer in
    (test, omega (arith, back.counter, out.counter), back.valid)
