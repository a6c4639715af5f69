-- ===== src/Vmm/Take.antt =====
-- Frames taken from the allocator for data, and written to, beside a tree of page tables.
use sonna_os.Prelude.{
  ℕ, ◌+◌, ◌<◌, ◌≤◌, ◌≡◌, ◌⊎◌, refl, sym, ◌∙◌, ap, inl, inr, true, false, some, List, [], arith,
}
use sonna_os.Memory.{Mem}
use sonna_os.Memory.Word.{read64, read64-frame}
use sonna_os.Pmm.{Pmm, test_frame}
use sonna_os.Pmm.Search.{any}
use sonna_os.Pmm.Valid.{Allocated}
use sonna_os.Vmm.{Vm, slot}
use sonna_os.Vmm.Table.{
  Root, table_at, table_at-frame, final, final-frame, IsPath, IsPath-rest, page, Grows,
}
use sonna_os.Vmm.Space.{IsSpace-frame}
use sonna_os.Vmm.Extends.{IsVm, table_in}
use sonna_os.Vmm.Keep.{IsApart, IsPath-root}
use sonna_os.Vmm.Advance.{Advances}

-- The bytes of frames in use lie outside a run that is taken.
module _ (s : Pmm) (a count : ℕ) (s' : Pmm) (out : Allocated s any count a s') where
  byte_outside :
      (h n f b : ℕ)
      → (f < n) ⊎ (n + count ≤ f)
      → page h f ≤ b
      → b < page h f + 4096
      → (b < page h n) ⊎ (page h (n + count) ≤ b)
  byte_outside h n f b (inl lt) low high = inl (omega arith)
  byte_outside h n f b (inr le) low high = inr (omega arith)

  not_among :
      (n f : ℕ)
      → ((g : ℕ) → n ≤ g → g < n + count → test_frame s.bitmap g ≡ false)
      → test_frame s.bitmap f ≡ true
      → (f < n) ⊎ (n + count ≤ f)
  not_among n f unused used = ground (arith, unused f)

  pub used_outside :
      (f b : ℕ)
      → test_frame s.bitmap f ≡ true
      → page s.hhdm_offset f ≤ b
      → b < page s.hhdm_offset f + 4096
      → (b < page s.hhdm_offset out.start) ⊎ (page s.hhdm_offset (out.start + count) ≤ b)
  used_outside f b used low high =
      byte_outside s.hhdm_offset out.start f b (not_among out.start f ((out.run).1) used) low high

-- The allocation of `count` frames, and any change of memory within them.
module _ (vm : Vm) (root : Root) (a count : ℕ) (s' : Pmm) (m' : Mem) (is : IsVm vm root)
    (out : Allocated vm.pmm any count a s')
    (same : (b : ℕ)
      → (b < page vm.pmm.hhdm_offset out.start) ⊎ (page vm.pmm.hhdm_offset (out.start + count) ≤ b)
      → m' b ≡ vm.mem b) where
  kept_byte :
      (f b : ℕ)
      → test_frame vm.pmm.bitmap f ≡ true
      → page vm.pmm.hhdm_offset f ≤ b
      → b < page vm.pmm.hhdm_offset f + 4096
      → m' b ≡ vm.mem b
  kept_byte f b used low high = same b (used_outside vm.pmm a count s' out f b used low high)

  kept_entry :
      (path : List ℕ) (q j : ℕ)
      → IsPath root path
      → j < 512
      → table_in vm root path ≡ some q
      → read64 m' (slot q j) ≡ read64 vm.mem (slot q j)
  kept_entry path q j ip lj e =
      let placed = is.space.placed path q ip e in
      read64-frame vm.mem m' (slot q j) (λ b low high.
        kept_byte placed.frame b placed.used (omega (arith, placed.address, low))
          (omega (arith, placed.address, high, lj)))

  kept_table :
      (path : List ℕ)
      → IsPath root path
      → table_at m' vm.pmm.hhdm_offset root path ≡ table_in vm root path
  kept_table path ip =
      table_at-frame vm.mem m' vm.pmm.hhdm_offset root path
        (λ above q j ij e. kept_entry above q j (IsPath-rest j above ij) ((ij.indices).0) e) ip

  grows : Grows vm.pmm s'
  grows = record {
    hhdm = out.same_hhdm;
    frames = out.same_frames;
    marks = λ f u. ground (arith, out.marked f, u);
  }

  abbrev taken_vm : Vm
  taken_vm = record vm { pmm = s'; mem = m' }

  taken-IsVm : IsVm taken_vm root
  taken-IsVm = record {
    valid = out.valid;
    room = omega (arith, is.room, out.same_hhdm, out.same_frames);
    space = IsSpace-frame vm.pmm s' vm.mem m' root grows kept_table is.space;
  }

  taken_table :
      (path : List ℕ) (p : ℕ)
      → IsPath root path
      → table_in taken_vm root path ≡ some p
      → table_in vm root path ≡ some p
  taken_table path p ip e = sym (kept_table path ip) ∙ (rw (sym (out.same_hhdm)) e)

  pub taken-Advances : Advances vm root taken_vm
  taken-Advances = record {
    is_vm = taken-IsVm;
    hhdm = out.same_hhdm;
    keeps = record {
      frames = λ f apart. record {
        still = record {
          used = grows.marks f apart.used;
          no_table = λ path p ip e c.
              apart.no_table path p ip (taken_table path p ip e)
                (c ∙ ap (λ h. page h f) out.same_hhdm);
        };
        bytes = λ b low high. kept_byte f b apart.used low high;
      };
      shared = λ j lj off. kept_entry [] root.address j (IsPath-root root) lj refl;
    };
    stays = λ j path e lj ip deep there. rw (out.same_hhdm) (
        ap (final m' j) (kept_table path ip)
        ∙ final-frame vm.mem m' j (table_in vm root path) (λ q at. kept_entry path q j ip lj at)
        ∙ there);
  }

  -- The frames that were taken are in use, and none of them is a table.
  pub taken-IsApart : (k : ℕ) → k < count → IsApart taken_vm root (out.start + k)
  taken-IsApart k lt = record {
    used = ground (arith, out.marked (out.start + k));
    no_table = λ path p ip e c.
        let placed = is.space.placed path p ip (taken_table path p ip e) in
        let same_frame : placed.frame ≡ out.start + k =
          omega (arith, placed.address, c, out.same_hhdm) in
        let unused = (out.run).1 (out.start + k) (omega arith) (omega arith) in
        absurd (ground (arith, unused, ap (test_frame vm.pmm.bitmap) same_frame, placed.used));
  }
