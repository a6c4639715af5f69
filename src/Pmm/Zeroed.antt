-- ===== src/Pmm/Zeroed.antt =====
-- `pmm_alloc_frames_zeroed` of kernel/mm/pmm.c clears the run that it returns and nothing else.
use sonna_os.Prelude.{
  ℕ, ◌+◌, ◌*◌, ◌^◌, ◌≤◌, ◌<◌, ◌≡◌, ◌⊎◌, Option, none, some, add64, mul64, arith, ap, subst, sym,
  ◌∙◌, ap₂, eq_of_some,
}
use sonna_os.Memory.{Mem, memset}
use sonna_os.Memory.Copy.{memset-at}
use sonna_os.Pmm.{Pmm, page_size, zero_pages, alloc_frames, alloc_frames_zeroed}
use sonna_os.Pmm.Search.{any}
use sonna_os.Pmm.Valid.{IsValid, Allocated}
use sonna_os.Pmm.Alloc.{alloc_frames-Allocated}

-- `m'` is `m` with the `n` bytes from `at` cleared.
pub record IsCleared (m : Mem) (at n : ℕ) (m' : Mem) : Type 0 where
  pub inside : (o : ℕ) → o < n → m' (at + o) ≡ 0
  pub outside : (b : ℕ) → (b < at) ⊎ (at + n ≤ b) → m' b ≡ m b

pub memset-IsCleared : (m : Mem) (at n : ℕ) → IsCleared m at n (memset m at 0 n)
memset-IsCleared m at n = record {
  inside = λ o h. ground (arith, memset-at m at 0 n (at + o));
  outside = λ b h. ground (arith, memset-at m at 0 n b);
}

zero_pages-some :
    (m : Mem) (count : ℕ) (r : Option ℕ × Pmm) {a : ℕ} {s' : Pmm} {m' : Mem}
    → zero_pages m count r ≡ (some a, s', m')
    → (r ≡ (some a, s')) × (m' ≡ memset m (add64 a s'.hhdm_offset) 0 (mul64 count page_size))
unfolding zero_pages
zero_pages-some m count (none, s) e = absurd (cc)
zero_pages-some m count (some p, s) e =
    let same_page = eq_of_some (ap (λ (r : Option ℕ × Pmm × Mem). r.0) e) in
    let same_state = ap (λ (r : Option ℕ × Pmm × Mem). r.1) e in
    (
      λ i. (some (same_page i), same_state i),
      sym (ap (λ (r : Option ℕ × Pmm × Mem). r.2) e)
          ∙ ap₂ (λ (a : ℕ) (t : Pmm). memset m (add64 a t.hhdm_offset) 0 (mul64 count page_size))
              same_page same_state,
    )

-- When `pmm_alloc_frames_zeroed` returns an address, it is one that `pmm_alloc_frames` hands out,
-- the `count` pages there read as 0 through the HHDM, and no other byte of memory is changed.
pub alloc_frames_zeroed-IsCleared :
    (s : Pmm) (m : Mem) (count : ℕ) {a : ℕ} {s' : Pmm} {m' : Mem}
    → IsValid s
    → s.hhdm_offset + s.bitmap_frames * page_size < 2 ^ 64
    → alloc_frames_zeroed s m count ≡ (some a, s', m')
    → Allocated s any count a s' × IsCleared m (a + s.hhdm_offset) (count * page_size) m'
unfolding alloc_frames_zeroed
alloc_frames_zeroed-IsCleared s m count {a} {s'} {m'} valid room e =
    let (allocated, filled) = zero_pages-some m count (alloc_frames s count) e in
    let out = alloc_frames-Allocated s valid count allocated in
    let size : mul64 count page_size ≡ count * page_size =
      omega (arith, out.inside, out.not_null, room) in
    let place : add64 a s'.hhdm_offset ≡ a + s.hhdm_offset =
      omega (arith, out.address, out.inside, out.same_hhdm, room, out.counter) in
    (
      out,
      subst (IsCleared m (a + s.hhdm_offset) (count * page_size)) (sym filled)
          (rw (size, place) (memset-IsCleared m _ _)),
    )
