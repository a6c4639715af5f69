-- ===== src/Pmm/Tests.antt =====
-- The allocator of kernel/mm/pmm.c on a small bitmap and a small memory map, and its theorems there.
use sonna_os.Prelude.{ℕ, zero, suc, ◌<◌, ◌≡◌, ◌≢◌, refl, false, none, some, List, [], ◌∷◌, arith}
use sonna_os.Memory.{Mem, memset}
use sonna_os.Pmm.{
  Pmm, test_frame, set_frame, clear_frame, set_frames, align_up, align_down, alloc_frames,
  alloc_frames_aligned, alloc_frames_zeroed, free_frames,
}
use sonna_os.Pmm.Bitmap.{IsBytes}
use sonna_os.Pmm.Frames.{clears}
use sonna_os.Pmm.Search.{any}
use sonna_os.Pmm.Valid.{IsValid, Allocated, Refusal}
use sonna_os.Pmm.Alloc.{alloc_frames-Allocated, alloc_frames-none}
use sonna_os.Pmm.Release.{Freed, free_frames-Freed, free_frames-alloc_frames}
use sonna_os.Pmm.Zeroed.{IsCleared, alloc_frames_zeroed-IsCleared}
use sonna_os.Pmm.Init.{Entry, init, is_ram_type, measure, find_place, bitmap_size, measured}
use sonna_os.Pmm.Init.Regions.{InUsable}
use sonna_os.Pmm.Init.Result.{Apart, init-IsValid, init-InUsable}

-- 16 frames, of which 0, 1 and 6 are used; the search starts at 5.
abbrev small_state : Pmm
small_state = record {
  bitmap = 0x43 ∷ 0x00 ∷ [];
  bitmap_bytes = 2;
  bitmap_frames = 16;
  total_frames = 16;
  usable_frames = 16;
  free_frames = 13;
  used_frames = 3;
  next_fit_hint = 5;
  hhdm_offset = 0x100000;
}

small_state-IsBytes : IsBytes small_state.bitmap
small_state-IsBytes zero = omega arith
small_state-IsBytes (suc zero) = omega arith
small_state-IsBytes (suc (suc i)) = omega arith

small_state-IsValid : IsValid small_state
unfolding test_frame clears
small_state-IsValid = record {
  bytes = small_state-IsBytes;
  covers = omega arith;
  small = omega arith;
  hint_in = omega arith;
  zero_used = refl;
  counted = omega arith;
  balanced = refl;
}

abbrev after_three : Pmm
after_three = record small_state {
  bitmap = 0xc3 ∷ 0x03 ∷ [];
  free_frames = 10;
  used_frames = 6;
  next_fit_hint = 10;
}

-- Frames 7, 8 and 9 are the first three in a row behind the hint.
three : alloc_frames small_state 3 ≡ (some 0x7000, after_three)
unfolding alloc_frames set_frames set_frame test_frame
three = refl

alloc_frames-Allocated_example : Allocated small_state any 3 0x7000 after_three
alloc_frames-Allocated_example = alloc_frames-Allocated small_state small_state-IsValid 3 three

alloc_frames-none_example :
    ((alloc_frames small_state 14).0 ≡ none → Refusal small_state any 14)
    × (Refusal small_state any 14 → alloc_frames small_state 14 ≡ (none, small_state))
alloc_frames-none_example = alloc_frames-none small_state small_state-IsValid 14

abbrev after_aligned : Pmm
after_aligned = record small_state {
  bitmap = 0x43 ∷ 0x03 ∷ [];
  free_frames = 11;
  used_frames = 5;
  next_fit_hint = 10;
}

two_aligned : alloc_frames_aligned small_state 2 0x4000 ≡ (some 0x8000, after_aligned)
unfolding alloc_frames_aligned set_frames set_frame test_frame
two_aligned = refl

free_frames-Freed_example : Freed small_state 4 5 (free_frames small_state 0x5000 4)
free_frames-Freed_example = free_frames-Freed small_state 0x5000 4 small_state-IsValid (omega arith)

free_frames-alloc_frames_example :
    ((g : ℕ)
      → test_frame (free_frames after_three 0x7000 3).bitmap g ≡ test_frame small_state.bitmap g)
    × ((free_frames after_three 0x7000 3).free_frames ≡ 13)
    × IsValid (free_frames after_three 0x7000 3)
free_frames-alloc_frames_example = free_frames-alloc_frames small_state 3 small_state-IsValid three

abbrev ones_memory : Mem
ones_memory a = 1

three_zeroed :
    alloc_frames_zeroed small_state ones_memory 3
    ≡ (some 0x7000, after_three, memset ones_memory 0x107000 0 0x3000)
unfolding alloc_frames_zeroed set_frames set_frame test_frame
three_zeroed = refl

alloc_frames_zeroed-IsCleared_example :
    Allocated small_state any 3 0x7000 after_three
    × IsCleared ones_memory 0x107000 0x3000 (memset ones_memory 0x107000 0 0x3000)
alloc_frames_zeroed-IsCleared_example =
    alloc_frames_zeroed-IsCleared small_state ones_memory 3 small_state-IsValid (omega arith)
      three_zeroed

-- A reserved page, then eight usable pages from 0x1000.
abbrev small_map : List Entry
small_map =
    record { base = 0; len = 0x1000; type = 1 }
    ∷ record { base = 0x1000; len = 0x8000; type = 0 }
    ∷ []

placed_first : find_place small_map (bitmap_size (measured small_map 0)) ≡ some 0x1000
unfolding find_place measure align_up align_down is_ram_type
placed_first = refl

frame_two_clear : test_frame (init small_map 0).bitmap 2 ≡ false
unfolding init align_up align_down is_ram_type set_frame clear_frame test_frame
frame_two_clear = refl

nine_frames : 2 < (measured small_map 0).bitmap_frames
unfolding measure align_up align_down is_ram_type
nine_frames = omega arith

-- Seven frames are clear, and the counter says six: frame 0 was not usable to begin with.
counter_drift :
    ((init small_map 0).free_frames ≡ 6) × (clears (test_frame (init small_map 0).bitmap) 9 ≡ 7)
unfolding init align_up align_down is_ram_type set_frame clear_frame test_frame clears
counter_drift = (refl, refl)

init-IsValid_example : IsValid (init small_map 0)
init-IsValid_example =
    init-IsValid small_map 0 2 (omega arith) placed_first nine_frames frame_two_clear

init-InUsable_example :
    (◌≢◌ {A = ℕ} 2 0) × InUsable small_map 2 × Apart 0x1000 (bitmap_size (measured small_map 0)) 2
init-InUsable_example =
    init-InUsable small_map 0 2 (omega arith) placed_first nine_frames frame_two_clear
