-- ===== src/Pmm.antt =====
-- kernel/mm/pmm.c, the physical memory manager: a bitmap of frames, next-fit search, counters.
-- A function that updates the module's static variables takes and returns them as a `Pmm`.
-- The bitmap is a list of bytes; reading past it gives 0 and writing past it changes nothing
-- (`Pmm.Bitmap` shows which frames lie inside). A NULL `pmm_bitmap` is the empty list.
-- The memory that the `_zeroed` variants clear is a function from addresses to bytes.
pub mod Align
pub mod Alloc
pub mod Bitmap
pub mod Frames
pub mod Init
pub mod Release
pub mod Search
mod Tests
pub mod Valid
pub mod Zeroed
pub mod Scan
use sonna_os.Memory.{Mem, memset}
use sonna_os.Prelude.{
  ℕ, zero, suc, ◌+◌, ◌-◌, ◌*◌, ◌/◌, ◌%◌, ◌^◌, bit_and, bit_or, Bool, true, false, not, ◌&&◌, ◌||◌,
  Option, none, some, List, [], ◌∷◌, if◌then◌else◌, ltb, leb, ◌==◌, get_or, set, add64, sub64,
  mul64, not64, not32, u8, u32, shl,
}

abbrev pub page_size : ℕ
page_size = 4096

pub record Pmm : Type 0 where
  pub bitmap : List ℕ
  pub bitmap_bytes : ℕ
  pub bitmap_frames : ℕ
  pub total_frames : ℕ
  pub usable_frames : ℕ
  pub free_frames : ℕ
  pub used_frames : ℕ
  pub next_fit_hint : ℕ
  pub hhdm_offset : ℕ

unfoldable pub align_up : ℕ → ℕ → ℕ
align_up value align = bit_and (sub64 (add64 value align) 1) (not64 (sub64 align 1))

unfoldable pub align_down : ℕ → ℕ → ℕ
align_down value align = bit_and value (not64 (sub64 align 1))

unfoldable pub bytes_to_frames_ceil : ℕ → ℕ
bytes_to_frames_ceil bytes = sub64 (add64 bytes page_size) 1 / page_size

-- `(uint8_t)(1u << (frame % 8))`
abbrev pub frame_bit : ℕ → ℕ
frame_bit frame = u8 (u32 (shl 1 (frame % 8)))

unfoldable pub set_frame : List ℕ → ℕ → List ℕ
set_frame bm frame = set bm (frame / 8) (bit_or (get_or bm (frame / 8) 0) (frame_bit frame))

unfoldable pub clear_frame : List ℕ → ℕ → List ℕ
clear_frame bm frame =
    set bm (frame / 8) (bit_and (get_or bm (frame / 8) 0) (u8 (not32 (u32 (shl 1 (frame % 8))))))

unfoldable pub test_frame : List ℕ → ℕ → Bool
test_frame bm frame = not (bit_and (get_or bm (frame / 8) 0) (frame_bit frame) == 0)

-- What one search comes to; `out_of_fuel` is not an outcome of the code.
pub data Found : Type 0 where
  found : ℕ → Found
  not_found : Found
  out_of_fuel : Found

-- The loop of `pmm_alloc_frames`: the frame under test, the current run, and whether the search
-- has passed its starting point once.
unfoldable pub search_run :
    (bm : List ℕ) (frames count wrap_point : ℕ)
    → ℕ
    → (frame run_start run_length : ℕ) → Bool
    → Found
search_run bm frames count wrap_point zero frame run_start run_length wrapped = out_of_fuel
search_run bm frames count wrap_point (suc fuel) frame run_start run_length wrapped =
    let clear = not (test_frame bm frame) in
    let start = if clear && (run_length == 0) then frame else run_start in
    let len = if clear then add64 run_length 1 else 0 in
    let next = add64 frame 1 % frames in
    let more =
      search_run bm frames count wrap_point fuel next start len (wrapped || (next == wrap_point)) in
    if clear && (len == count)
    then found start
    else if (next == wrap_point) && wrapped
    then not_found
    else more

-- The loop of `pmm_alloc_frames_aligned`: a run starts at an aligned frame only.
unfoldable pub search_aligned :
    (bm : List ℕ) (frames count alignment wrap_point : ℕ)
    → ℕ
    → (frame run_start run_length : ℕ) → Bool
    → Found
search_aligned bm frames count alignment wrap_point zero frame run_start run_length wrapped =
    out_of_fuel
search_aligned bm frames count alignment wrap_point (suc fuel) frame run_start run_length wrapped =
    let clear = not (test_frame bm frame) in
    let begins = (run_length == 0) && (mul64 frame page_size % alignment == 0) in
    let start = if clear && begins then frame else run_start in
    let len =
      if clear
      then if begins then 1 else if ltb 0 run_length then add64 run_length 1 else run_length
      else 0 in
    let next = add64 frame 1 % frames in
    let more =
      search_aligned bm frames count alignment wrap_point fuel next start len
        (wrapped || (next == wrap_point)) in
    if clear && (len == count)
    then found start
    else if (next == wrap_point) && wrapped
    then not_found
    else more

-- `for (i = 0; i < count; i++) pmm_set_frame(run_start + i);` as `left` rounds from `frame`.
unfoldable pub set_frames : List ℕ → (left frame : ℕ) → List ℕ
set_frames bm zero frame = bm
set_frames bm (suc left) frame = set_frames (set_frame bm frame) left (add64 frame 1)

-- What both searches do with the run that they found.
unfoldable pub take_run : Pmm → (count run_start : ℕ) → Pmm
take_run s count run_start = record s {
  bitmap = set_frames s.bitmap count run_start;
  free_frames = sub64 s.free_frames count;
  used_frames = add64 s.used_frames count;
  next_fit_hint = add64 run_start count % s.bitmap_frames;
}

abbrev pub finish : Pmm → ℕ → Found → Option ℕ × Pmm
finish s count (found run_start) = (some (mul64 run_start page_size), take_run s count run_start)
finish s count not_found = (none, s)
finish s count out_of_fuel = (none, s)

-- Two passes over the bitmap.
abbrev pub search_fuel : Pmm → ℕ
search_fuel s = s.bitmap_frames + s.bitmap_frames

-- `none` is NULL.
unfoldable pub alloc_frames : Pmm → ℕ → Option ℕ × Pmm
unfolding search_run take_run
alloc_frames s count =
    let hint = s.next_fit_hint in
    let run = search_run s.bitmap s.bitmap_frames count hint (search_fuel s) hint 0 0 false in
    if (count == 0) || ltb s.free_frames count then (none, s) else finish s count run

unfoldable pub alloc : Pmm → Option ℕ × Pmm
unfolding alloc_frames
alloc s = alloc_frames s 1

unfoldable pub alloc_frames_aligned : Pmm → (count alignment : ℕ) → Option ℕ × Pmm
unfolding search_aligned take_run
alloc_frames_aligned s count alignment =
    let hint = s.next_fit_hint in
    let align = if ltb alignment page_size then page_size else alignment in
    let run =
      search_aligned s.bitmap s.bitmap_frames count align hint (search_fuel s) hint 0 0 false in
    if (count == 0) || ltb s.free_frames count || (alignment == 0)
    then (none, s)
    else finish s count run

unfoldable pub alloc_aligned : Pmm → (bytes alignment : ℕ) → Option ℕ × Pmm
unfolding alloc_frames_aligned bytes_to_frames_ceil
alloc_aligned s bytes alignment = alloc_frames_aligned s (bytes_to_frames_ceil bytes) alignment

-- The loop of `pmm_free_frames`, `left` rounds from frame `cur`. The serial message of the
-- double-free branch is not modelled.
unfoldable pub free_loop : Pmm → (left cur : ℕ) → Pmm
free_loop s zero cur = s
free_loop s (suc left) cur =
    let freed = record s {
      bitmap = clear_frame s.bitmap cur;
      free_frames = add64 s.free_frames 1;
      used_frames = sub64 s.used_frames 1;
    } in
    let rest = free_loop (if test_frame s.bitmap cur then freed else s) left (add64 cur 1) in
    if leb s.bitmap_frames cur then s else rest

unfoldable pub free_frames : Pmm → (phys_addr count : ℕ) → Pmm
unfolding free_loop
free_frames s phys_addr count = if count == 0 then s else free_loop s count (phys_addr / page_size)

unfoldable pub free : Pmm → ℕ → Pmm
unfolding free_frames
free s phys_addr = free_frames s phys_addr 1

-- What the four `_zeroed` variants add to the allocation that they call.
unfoldable pub zero_pages : Mem → (count : ℕ) → Option ℕ × Pmm → Option ℕ × Pmm × Mem
zero_pages m count (none, s) = (none, s, m)
zero_pages m count (some p, s) =
    (some p, s, memset m (add64 p s.hhdm_offset) 0 (mul64 count page_size))

unfoldable pub alloc_zeroed : Pmm → Mem → Option ℕ × Pmm × Mem
unfolding alloc zero_pages
alloc_zeroed s m = zero_pages m 1 (alloc s)

unfoldable pub alloc_frames_zeroed : Pmm → Mem → ℕ → Option ℕ × Pmm × Mem
unfolding alloc_frames zero_pages
alloc_frames_zeroed s m count = zero_pages m count (alloc_frames s count)

unfoldable pub alloc_frames_aligned_zeroed :
    Pmm → Mem → (count alignment : ℕ) → Option ℕ × Pmm × Mem
unfolding alloc_frames_aligned zero_pages
alloc_frames_aligned_zeroed s m count alignment =
    zero_pages m count (alloc_frames_aligned s count alignment)

unfoldable pub alloc_aligned_zeroed : Pmm → Mem → (bytes alignment : ℕ) → Option ℕ × Pmm × Mem
unfolding alloc_frames_aligned_zeroed bytes_to_frames_ceil
alloc_aligned_zeroed s m bytes alignment =
    alloc_frames_aligned_zeroed s m (bytes_to_frames_ceil bytes) alignment
