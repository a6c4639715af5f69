-- ===== src/Pmm/Init.antt =====
-- `pmm_init` of kernel/mm/pmm.c: it measures the bootloader's memory map, finds a place for the
-- bitmap, clears the bits of usable frames, and protects frame 0 and the bitmap itself.
-- The memory map and the HHDM offset, which the bootloader hands over, are arguments. Each `for` loop over
-- addresses runs on fuel; `Init.Loops` shows that the fuel given is enough.
pub mod Loops
pub mod Regions
pub mod Result
use sonna_os.Prelude.{
  ℕ, zero, suc, ◌+◌, ◌-◌, ◌/◌, Bool, true, not, ◌&&◌, ◌||◌, Option, none, some, List, [], ◌∷◌,
  if◌then◌else◌, ltb, leb, ◌==◌, replicate, add64, sub64,
}
use sonna_os.Pmm.{Pmm, page_size, align_up, align_down, set_frame, clear_frame, test_frame}

-- `struct limine_memmap_entry`.
pub record Entry : Type 0 where
  pub base : ℕ
  pub len : ℕ
  pub type : ℕ

-- LIMINE_MEMMAP_USABLE, LIMINE_MEMMAP_ACPI_RECLAIMABLE, LIMINE_MEMMAP_BOOTLOADER_RECLAIMABLE.
unfoldable pub is_ram_type : ℕ → Bool
is_ram_type type = (type == 0) || (type == 5) || (type == 2)

abbrev pub region_start : Entry → ℕ
region_start e = align_up e.base page_size

abbrev pub region_end : Entry → ℕ
region_end e = align_down (add64 e.base e.len) page_size

-- The first loop: the end of RAM, and the frames of RAM and of usable memory.
pub record Totals : Type 0 where
  pub max_addr : ℕ
  pub total_ram_frames : ℕ
  pub usable_frames : ℕ

abbrev region_frames : Entry → ℕ
region_frames e =
    if ltb (region_start e) (region_end e)
    then sub64 (region_end e) (region_start e) / page_size
    else 0

unfoldable pub measure_entry : Entry → Totals → Totals
measure_entry e t = record {
  max_addr =
      if is_ram_type e.type && ltb t.max_addr (region_end e) then region_end e else t.max_addr;
  total_ram_frames =
      if is_ram_type e.type then add64 t.total_ram_frames (region_frames e) else t.total_ram_frames;
  usable_frames = if e.type == 0 then add64 t.usable_frames (region_frames e) else t.usable_frames;
}

unfoldable pub measure : List Entry → Totals → Totals
unfolding measure_entry
measure [] t = t
measure (e ∷ es) t = measure es (measure_entry e t)

-- The first usable entry with room for `bitmap_size` bytes behind its first page boundary.
unfoldable pub find_place : List Entry → ℕ → Option ℕ
find_place [] bitmap_size = none
find_place (e ∷ es) bitmap_size =
    let start = region_start e in
    let end = add64 e.base e.len in
    if (e.type == 0) && (ltb start end && leb bitmap_size (sub64 end start))
    then some start
    else find_place es bitmap_size

-- `for (addr = base; addr < end; addr += PAGE_SIZE)` over a usable region.
unfoldable pub clear_region : (fuel addr end : ℕ) → Pmm → Pmm
clear_region zero addr end s = s
clear_region (suc fuel) addr end s =
    let frame = addr / page_size in
    let freed = record s {
      bitmap = clear_frame s.bitmap frame;
      free_frames = add64 s.free_frames 1;
      used_frames = sub64 s.used_frames 1;
    } in
    let taken = ltb frame s.bitmap_frames && test_frame s.bitmap frame in
    let rest = clear_region fuel (add64 addr page_size) end (if taken then freed else s) in
    if ltb addr end then rest else s

abbrev pub rounds : (addr end : ℕ) → ℕ
rounds addr end = (end - addr) / page_size + 1

unfoldable pub clear_regions : List Entry → Pmm → Pmm
unfolding clear_region
clear_regions [] s = s
clear_regions (e ∷ es) s =
    let cleared =
      clear_region (rounds (region_start e) (region_end e)) (region_start e) (region_end e) s in
    clear_regions es (if e.type == 0 then cleared else s)

unfoldable pub protect_zero : Pmm → Pmm
protect_zero s =
    let marked = record s { bitmap = set_frame s.bitmap 0 } in
    if ltb 0 s.free_frames
    then record marked { free_frames = sub64 s.free_frames 1; used_frames = add64 s.used_frames 1 }
    else marked

-- The last loop, over the frames of the bitmap.
unfoldable pub protect_region : (fuel addr end : ℕ) → Pmm → Pmm
protect_region zero addr end s = s
protect_region (suc fuel) addr end s =
    let frame = addr / page_size in
    let marked = record s {
      bitmap = set_frame s.bitmap frame;
      free_frames = sub64 s.free_frames 1;
      used_frames = add64 s.used_frames 1;
    } in
    let open_frame = ltb frame s.bitmap_frames && not (test_frame s.bitmap frame) in
    let rest = protect_region fuel (add64 addr page_size) end (if open_frame then marked else s) in
    if ltb addr end then rest else s

-- The variables as the first part of `pmm_init` leaves them, with the bitmap not yet placed.
abbrev pub measured : List Entry → ℕ → Pmm
measured entries hhdm_offset =
    let t = measure entries (record { max_addr = 0; total_ram_frames = 0; usable_frames = 0 }) in
    let frames = align_up t.max_addr page_size / page_size in
    record {
      bitmap = [];
      bitmap_bytes = add64 frames 7 / 8;
      bitmap_frames = frames;
      total_frames = t.total_ram_frames;
      usable_frames = t.usable_frames;
      free_frames = 0;
      used_frames = t.usable_frames;
      next_fit_hint = 0;
      hhdm_offset = hhdm_offset;
    }

abbrev pub bitmap_size : Pmm → ℕ
bitmap_size s = align_up s.bitmap_bytes page_size

-- `memset(pmm_bitmap, 0xFF, pmm_bitmap_bytes)` and the three loops that follow it.
unfoldable pub fill : List Entry → Pmm → (bitmap_phys : ℕ) → Pmm
unfolding clear_regions protect_zero protect_region
fill entries s bitmap_phys =
    let end = add64 bitmap_phys (bitmap_size s) in
    protect_region (rounds bitmap_phys end) bitmap_phys end
      (protect_zero (clear_regions entries (record s { bitmap = replicate s.bitmap_bytes 0xff })))

abbrev pub place : List Entry → Pmm → Option ℕ → Pmm
place entries s none = s
place entries s (some bitmap_phys) = fill entries s bitmap_phys

unfoldable pub init : List Entry → ℕ → Pmm
unfolding measure find_place fill
init entries hhdm_offset =
    let s = measured entries hhdm_offset in place entries s (find_place entries (bitmap_size s))
