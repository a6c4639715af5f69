-- ===== src/Pmm/Alloc.antt =====
-- `pmm_alloc_frames`, `pmm_alloc_frames_aligned` and their callers in kernel/mm/pmm.c: what they
-- return, when they return NULL, and the invariant that they keep.
use sonna_os.Prelude.{
  ℕ, ◌%◌, ◌≤◌, ◌<◌, ◌≡◌, refl, sym, ◌∙◌, ◌≢◌, ◌⊎◌, inl, inr, ◌||◌, ◌==◌, ltb, if◌then◌else◌,
  Bool-cases, arith, Option, none, some,
}
use sonna_os.Pmm.{Pmm, page_size, test_frame, search_fuel, alloc_frames, alloc_frames_aligned}
use sonna_os.Pmm.Search.{any, aligned}
use sonna_os.Pmm.Scan.{scan_sound}
use sonna_os.Pmm.Valid.{
  IsValid, Allocated, Refusal, finish-Allocated, run_from_hint, aligned_from_hint, finish-NoRun,
  Refusal-NoRun, address-aligned,
}

pair-ne : {s s' : Pmm} {a : ℕ} → ¬ (let l : Option ℕ × Pmm = (none, s) in l ≡ (some a, s'))
pair-ne e = cc

abbrev pub page_align : ℕ → ℕ
page_align alignment = if ltb alignment page_size then page_size else alignment

module _ (s : Pmm) (valid : IsValid s) (count : ℕ) where
  -- An address that `pmm_alloc_frames` returns is that of a run of `count` frames that were clear,
  -- inside the bitmap and not at frame 0: those frames and no others are marked, the free counter
  -- falls by `count`, and the invariant still holds.
  pub alloc_frames-Allocated :
      {a : ℕ} {s' : Pmm} → alloc_frames s count ≡ (some a, s') → Allocated s any count a s'
  unfolding alloc_frames
  alloc_frames-Allocated e = elim (Bool-cases ((count == 0) || ltb s.free_frames count)) [
    | inl refused ↦ absurd (pair-ne (rw refused at e))
    | inr tried ↦
        let pos : 0 < count = ground arith in
        let enough : count ≤ s.free_frames = ground arith in
        finish-Allocated s valid any count pos enough _
          (λ start f.
            scan_sound (test_frame s.bitmap) any s.bitmap_frames count valid.zero_used pos
              (search_fuel s) s.next_fit_hint 0 0 start valid.hint_in (inl refl)
              (sym (run_from_hint s valid any count pos enough) ∙ f))
          (rw tried at e)
  ]

  -- `pmm_alloc_frames` returns NULL exactly when `count` is 0 or above the free counter, or no run
  -- of `count` clear frames lies behind frame 0; and then it changes nothing.
  pub alloc_frames-none :
      ((alloc_frames s count).0 ≡ none → Refusal s any count)
      × (Refusal s any count → alloc_frames s count ≡ (none, s))
  unfolding alloc_frames
  alloc_frames-none = elim (Bool-cases ((count == 0) || ltb s.free_frames count)) [
    | inl refused ↦ rw refused ((λ e. ground arith), (λ r. refl))
    | inr tried ↦
        let pos : 0 < count = ground arith in
        let enough : count ≤ s.free_frames = ground arith in
        let both =
          finish-NoRun s valid any count pos enough _
            (run_from_hint s valid any count pos enough) in
        rw tried (
          (λ e. inr (inr (both.0 e))),
          (λ r. both.1 (Refusal-NoRun s valid any count pos enough r)),
        )
  ]

module _ (s : Pmm) (valid : IsValid s) (count alignment : ℕ) where
  -- An address that `pmm_alloc_frames_aligned` returns is that of a run as above whose address is
  -- a multiple of the alignment, rounded up to a page.
  pub alloc_frames_aligned-Allocated :
      {a : ℕ} {s' : Pmm}
      → alloc_frames_aligned s count alignment ≡ (some a, s')
      → Allocated s (aligned (page_align alignment)) count a s' × (a % page_align alignment ≡ 0)
  unfolding alloc_frames_aligned
  alloc_frames_aligned-Allocated e =
      elim (Bool-cases ((count == 0) || ltb s.free_frames count || (alignment == 0))) [
        | inl refused ↦ absurd (pair-ne (rw refused at e))
        | inr tried ↦
            let pos : 0 < count = ground arith in
            let enough : count ≤ s.free_frames = ground arith in
            let ok = aligned (page_align alignment) in
            let out =
              finish-Allocated s valid ok count pos enough _
                (λ start f.
                  scan_sound (test_frame s.bitmap) ok s.bitmap_frames count valid.zero_used pos
                    (search_fuel s) s.next_fit_hint 0 0 start valid.hint_in (inl refl)
                    (sym (aligned_from_hint s valid ok count pos enough (page_align alignment))
                      ∙ f))
                (rw tried at e) in
            (out, address-aligned s valid ok count pos enough (page_align alignment) out)
      ]

  -- `pmm_alloc_frames_aligned` returns NULL exactly when `count` or the alignment is 0, `count` is
  -- above the free counter, or no run of clear frames starts at an aligned frame; and then it
  -- changes nothing.
  pub alloc_frames_aligned-none :
      ((alloc_frames_aligned s count alignment).0 ≡ none
        → (alignment ≡ 0) ⊎ Refusal s (aligned (page_align alignment)) count)
      × ((alignment ≡ 0) ⊎ Refusal s (aligned (page_align alignment)) count
          → alloc_frames_aligned s count alignment ≡ (none, s))
  unfolding alloc_frames_aligned
  alloc_frames_aligned-none =
      elim (Bool-cases ((count == 0) || ltb s.free_frames count || (alignment == 0))) [
        | inl refused ↦ rw refused ((λ e. ground arith), (λ r. refl))
        | inr tried ↦
            let pos : 0 < count = ground arith in
            let enough : count ≤ s.free_frames = ground arith in
            let ok = aligned (page_align alignment) in
            let both =
              finish-NoRun s valid ok count pos enough _
                (aligned_from_hint s valid ok count pos enough (page_align alignment)) in
            let positive : alignment ≢ 0 = ground arith in
            rw tried (
              (λ e. inr (inr (inr (both.0 e)))),
              (λ r. both.1 (Refusal-NoRun s valid ok count pos enough (drop positive r))),
            )
      ]
    where
      drop :
          (alignment ≢ 0)
          → (alignment ≡ 0) ⊎ Refusal s (aligned (page_align alignment)) count
          → Refusal s (aligned (page_align alignment)) count
      drop ne (inl z) = absurd (ne z)
      drop ne (inr r) = r
