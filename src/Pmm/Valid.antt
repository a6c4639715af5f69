-- ===== src/Pmm/Valid.antt =====
-- The invariant of kernel/mm/pmm.c between two calls, and what the searches of the bitmap come to
-- under it.
use sonna_os.Prelude.{
  ℕ, ◌+◌, ◌*◌, ◌%◌, ◌^◌, ◌≤◌, ◌<◌, ◌≡◌, refl, sym, ap, ◌∙◌, ◌≢◌, ◌⊎◌, inl, inr, Bool, true, false,
  ◌&&◌, ◌||◌, ltb, leb, add64, mul64, arith, length, Option, none, some, ==_iff, subst,
}
use sonna_os.Pmm.{
  Pmm, page_size, Found, found, not_found, out_of_fuel, test_frame, search_run, search_aligned,
  take_run, finish, search_fuel,
}
use sonna_os.Pmm.Bitmap.{IsBytes}
use sonna_os.Pmm.Frames.{clears, clears-le, set_frames-Marked, clears-set_frames}
use sonna_os.Pmm.Search.{scan, any, aligned, search_run-scan, search_aligned-scan}
use sonna_os.Pmm.Scan.{IsRun, scan_sound, scan_complete, scan-ne-out_of_fuel}

-- The state between two calls, once `pmm_init` has found a place for the bitmap.
pub record IsValid (s : Pmm) : Type 0 where
  pub bytes : IsBytes s.bitmap
  pub covers : s.bitmap_frames ≤ 8 * length s.bitmap
  pub small : s.bitmap_frames ≤ 2 ^ 52
  pub hint_in : s.next_fit_hint < s.bitmap_frames
  pub zero_used : test_frame s.bitmap 0 ≡ true
  pub counted : s.free_frames ≤ clears (test_frame s.bitmap) s.bitmap_frames
  pub balanced : add64 s.free_frames s.used_frames ≡ s.usable_frames

-- `s'` is `s` after `count` clear frames from `start` were handed out at address `a`.
pub record Allocated (s : Pmm) (ok : ℕ → Bool) (count a : ℕ) (s' : Pmm) : Type 0 where
  pub start : ℕ
  pub address : a ≡ start * page_size
  pub not_null : 0 < start
  pub inside : start + count ≤ s.bitmap_frames
  pub run : IsRun (test_frame s.bitmap) ok start count
  pub marked :
      (g : ℕ)
      → test_frame s'.bitmap g ≡ ((leb start g && ltb g (start + count)) || test_frame s.bitmap g)
  pub counter : s'.free_frames + count ≡ s.free_frames
  pub fewer :
      clears (test_frame s'.bitmap) s.bitmap_frames + count
      ≡ clears (test_frame s.bitmap) s.bitmap_frames
  pub same_frames : s'.bitmap_frames ≡ s.bitmap_frames
  pub same_hhdm : s'.hhdm_offset ≡ s.hhdm_offset
  pub valid : IsValid s'

-- No run of `count` clear frames that starts where `ok` lies behind frame 0.
abbrev pub NoRun : Pmm → (ℕ → Bool) → ℕ → Type 0
NoRun s ok count =
    (start : ℕ)
    → 0 < start
    → start + count ≤ s.bitmap_frames
    → ¬ IsRun (test_frame s.bitmap) ok start count

-- Why an allocation can be refused.
abbrev pub Refusal : Pmm → (ℕ → Bool) → ℕ → Type 0
Refusal s ok count = (count ≡ 0) ⊎ (s.free_frames < count) ⊎ NoRun s ok count

module _ (s : Pmm) (valid : IsValid s) (ok : ℕ → Bool) (count : ℕ) (pos : 0 < count)
    (enough : count ≤ s.free_frames) where
  pub take_run-Allocated :
      (start : ℕ)
      → 0 < start
      → start + count ≤ s.bitmap_frames
      → IsRun (test_frame s.bitmap) ok start count
      → Allocated s ok count (mul64 start page_size) (take_run s count start)
  unfolding take_run
  take_run-Allocated start hs inside run =
      let room : start + count ≤ 8 * length s.bitmap = omega (arith, valid.covers) in
      let lt : start + count < 2 ^ 64 = omega (arith, valid.small) in
      let marks = set_frames-Marked count start s.bitmap valid.bytes room lt in
      let total =
        clears-set_frames count start s.bitmap_frames s.bitmap valid.bytes room lt inside run.1 in
      let le = clears-le (test_frame s.bitmap) s.bitmap_frames in
      record {
        start = start;
        address = omega (arith, valid.small);
        not_null = hs;
        inside = inside;
        run = run;
        marked = marks.test;
        counter = omega (arith, valid.small, valid.counted, le);
        fewer = total;
        same_frames = refl;
        same_hhdm = refl;
        valid = record {
          bytes = marks.bytes;
          covers = omega (arith, marks.same_length, valid.covers);
          small = valid.small;
          hint_in = omega (arith, valid.hint_in);
          zero_used = ground (arith, marks.test 0, valid.zero_used);
          counted = omega (arith, valid.small, valid.counted, le);
          balanced = omega (arith, valid.small, valid.counted, le, valid.balanced);
        };
      }

  pub finish-Allocated :
      (r : Found) {a : ℕ} {s' : Pmm}
      → ((start : ℕ)
          → r ≡ found start
          → IsRun (test_frame s.bitmap) ok start count
            × (start + count ≤ s.bitmap_frames)
            × (0 < start))
      → finish s count r ≡ (some a, s')
      → Allocated s ok count a s'
  finish-Allocated (found start) {a} {s'} sound e =
      let (run, inside, hs) = sound start refl in
      let addr : mul64 start page_size ≡ a = cc in
      let after : take_run s count start ≡ s' = ap (λ (r : Option ℕ × Pmm). r.1) e in
      subst (λ b. Allocated s ok count b s') addr
        (subst (λ t. Allocated s ok count (mul64 start page_size) t) after
          (take_run-Allocated start hs inside run))
  finish-Allocated not_found sound e = absurd (cc)
  finish-Allocated out_of_fuel sound e = absurd (cc)

  pub finish-none :
      (r : Found)
      → r ≢ out_of_fuel
      → (finish s count r).0 ≡ none
      → (r ≡ not_found) × ((finish s count r).1 ≡ s)
  finish-none (found start) terminates e = absurd (cc)
  finish-none not_found terminates e = (refl, refl)
  finish-none out_of_fuel terminates e = absurd (terminates refl)

  few : count < 2 ^ 64
  few = omega (arith, valid.small, valid.counted, clears-le (test_frame s.bitmap) s.bitmap_frames)

  pub run_from_hint :
      search_run s.bitmap s.bitmap_frames count s.next_fit_hint
        (search_fuel s)
        s.next_fit_hint
        0
        0
        false
      ≡ scan (test_frame s.bitmap) any s.bitmap_frames count (search_fuel s) s.next_fit_hint 0 0
  run_from_hint =
      search_run-scan s.bitmap s.bitmap_frames count s.next_fit_hint valid.small few valid.hint_in
        (search_fuel s) s.bitmap_frames s.next_fit_hint 0 0 false valid.hint_in pos
        (omega (arith, valid.hint_in)) refl

  pub aligned_from_hint :
      (alignment : ℕ)
      → search_aligned s.bitmap s.bitmap_frames count alignment s.next_fit_hint
          (search_fuel s)
          s.next_fit_hint
          0
          0
          false
        ≡ scan
            (test_frame s.bitmap)
            (aligned alignment)
            s.bitmap_frames
            count
            (search_fuel s)
            s.next_fit_hint
            0
            0
  aligned_from_hint alignment =
      search_aligned-scan s.bitmap s.bitmap_frames count s.next_fit_hint valid.small few
        valid.hint_in alignment (search_fuel s) s.bitmap_frames s.next_fit_hint 0 0 false
        valid.hint_in pos (omega (arith, valid.hint_in)) refl

  pub finish-unfound :
      (r : Found) → r ≢ out_of_fuel → ((start : ℕ) → r ≢ found start) → finish s count r ≡ (none, s)
  finish-unfound (found start) ends none_found = absurd (none_found start refl)
  finish-unfound not_found ends none_found = refl
  finish-unfound out_of_fuel ends none_found = absurd (ends refl)

  pub finish-NoRun :
      (r : Found)
      → r ≡ scan (test_frame s.bitmap) ok s.bitmap_frames count (search_fuel s) s.next_fit_hint 0 0
      → ((finish s count r).0 ≡ none → NoRun s ok count)
        × (NoRun s ok count → finish s count r ≡ (none, s))
  finish-NoRun r e =
      let ends : r ≢ out_of_fuel = λ q.
        scan-ne-out_of_fuel (test_frame s.bitmap) ok s.bitmap_frames count (search_fuel s)
          s.next_fit_hint 0 0 (sym e ∙ q) in
      (
        λ h start hs inside run.
            scan_complete (test_frame s.bitmap) ok s.bitmap_frames count valid.zero_used pos
              s.next_fit_hint 0 start valid.hint_in hs inside run
              (sym e ∙ (finish-none r ends h).0),
        λ runs. finish-unfound r ends λ start f.
            let (run, inside, hs) =
              scan_sound (test_frame s.bitmap) ok s.bitmap_frames count valid.zero_used pos
                (search_fuel s) s.next_fit_hint 0 0 start valid.hint_in (inl refl) (sym e ∙ f) in
            runs start hs inside run,
      )

  pub Refusal-NoRun : Refusal s ok count → NoRun s ok count
  Refusal-NoRun (inl z) = absurd (omega arith)
  Refusal-NoRun (inr (inl h)) = absurd (omega arith)
  Refusal-NoRun (inr (inr h)) = h

  pub address-aligned :
      {a : ℕ} {s' : Pmm} (alignment : ℕ)
      → Allocated s (aligned alignment) count a s'
      → a % alignment ≡ 0
  address-aligned alignment out =
      let same : mul64 out.start page_size ≡ out.start * page_size =
        omega (arith, valid.small, out.inside) in
      ap (λ (t : ℕ). t % alignment) (out.address ∙ sym same) ∙ (==_iff _ _).0 out.run.0
