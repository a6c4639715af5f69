-- ===== src/Vmm/Query.antt =====
-- `vmm_get_physical`: the translation that the tree of page tables gives.
use sonna_os.Prelude.{
  ℕ, ◌+◌, ◌*◌, ◌/◌, ◌%◌, ◌^◌, ◌<◌, arith, ◌≡◌, refl, ◌∙◌, ap, inl, inr, Bool, Bool-cases, true,
  false, Option, none, some, List, [], ◌∷◌,
}
use sonna_os.Memory.Word.{read64}
use sonna_os.Vmm.{
  Vm, is_present, is_huge, slot, below, phys_to_virt, pml4_index, pdp_index, pd_index, pt_index,
  get_pml4e, get_pdpe, get_pde, get_pte, pd_slot, pt_slot,
}
use sonna_os.Prelude.Bits.{bit_and_low}
use sonna_os.Vmm.Entry.{is_huge_lem, frame_of_lem}
use sonna_os.Vmm.Ops.{kernel_pml4, physical, physical_at, vmm_get_physical}
use sonna_os.Vmm.Table.{Root, step, final}
use sonna_os.Vmm.Extends.{table_in, lookup_in}
use sonna_os.Vmm.Map.{page_path}

-- The slot of a table, if there is a table.
abbrev pub at_slot : (i : ℕ) → Option ℕ → Option ℕ
at_slot i none = none
at_slot i (some p) = some (slot p i)

abbrev pub path_pd : (virt : ℕ) → List ℕ
path_pd virt = pdp_index virt ∷ pml4_index virt ∷ []

get_pdpe-table_in :
    (vm : Vm) (root : Root) (virt : ℕ)
    → get_pdpe vm root.address virt
      ≡ at_slot (pdp_index virt) (table_in vm root (pml4_index virt ∷ []))
unfolding get_pdpe get_pml4e below phys_to_virt
get_pdpe-table_in vm root virt =
    elim (Bool-cases (is_present (read64 vm.mem (slot root.address (pml4_index virt))))) [
      | inl there ↦ rw there refl
      | inr missing ↦ rw missing refl
    ]

pd_slot-step :
    (vm : Vm) (virt : ℕ) (o : Option ℕ)
    → pd_slot vm virt (at_slot (pdp_index virt) o)
      ≡ at_slot (pd_index virt) (step vm.mem vm.pmm.hhdm_offset (pdp_index virt) o)
unfolding below phys_to_virt
pd_slot-step vm virt none = refl
pd_slot-step vm virt (some p) =
    elim (Bool-cases (is_present (read64 vm.mem (slot p (pdp_index virt))))) [
      | inl there ↦ rw there refl
      | inr missing ↦ rw missing refl
    ]

pt_slot-step :
    (vm : Vm) (virt : ℕ) (o : Option ℕ)
    → ((p : ℕ) → o ≡ some p → is_huge (read64 vm.mem (slot p (pd_index virt))) ≡ false)
    → pt_slot vm virt (at_slot (pd_index virt) o)
      ≡ at_slot (pt_index virt) (step vm.mem vm.pmm.hhdm_offset (pd_index virt) o)
unfolding below phys_to_virt
pt_slot-step vm virt none plain = refl
pt_slot-step vm virt (some p) plain =
    elim (Bool-cases (is_present (read64 vm.mem (slot p (pd_index virt))))) [
      | inl there ↦ rw (there, plain p refl) refl
      | inr missing ↦ rw missing refl
    ]

abbrev physical_of : (virt : ℕ) → Option ℕ → ℕ
physical_of virt none = 0
physical_of virt (some e) = physical e virt

-- The address that an entry of a last table stands for: the bits from 12 on of the entry, and the
-- low twelve of the address; 0 if there is no entry.
abbrev pub translated : (virt : ℕ) → Option ℕ → ℕ
translated virt none = 0
translated virt (some e) = e / 4096 * 4096 + virt % 4096

-- An entry that is a word with a clear bit 7.
abbrev pub IsPlain : ℕ → Type 0
IsPlain e = (e < 2 ^ 64) × (e / 128 % 2 ≡ 0)

physical-translated :
    (virt : ℕ) (o : Option ℕ)
    → ((e : ℕ) → o ≡ some e → IsPlain e)
    → physical_of virt o ≡ translated virt o
unfolding physical
physical-translated virt none words = refl
physical-translated virt (some e) words =
    let (word, small) = words e refl in
    let plain : is_huge e ≡ false = is_huge_lem e ∙ ground arith in
    let low = bit_and_low 12 virt in
    let frame = frame_of_lem e word in rw plain (omega (arith, low, frame))

physical_at-final :
    (vm : Vm) (virt : ℕ) (o : Option ℕ)
    → physical_at vm virt (at_slot (pt_index virt) o)
      ≡ physical_of virt (final vm.mem (pt_index virt) o)
physical_at-final vm virt none = refl
physical_at-final vm virt (some p) =
    elim (Bool-cases (is_present (read64 vm.mem (slot p (pt_index virt))))) [
      | inl there ↦ rw there refl
      | inr missing ↦ rw missing refl
    ]

get_pde-table_in :
    (vm : Vm) (root : Root) (virt : ℕ)
    → get_pde vm root.address virt ≡ at_slot (pd_index virt) (table_in vm root (path_pd virt))
unfolding get_pde
get_pde-table_in vm root virt =
    ap (pd_slot vm virt) (get_pdpe-table_in vm root virt)
    ∙ pd_slot-step vm virt (table_in vm root (pml4_index virt ∷ []))

pub get_pte-table_in :
    (vm : Vm) (root : Root) (virt : ℕ)
    → ((p : ℕ)
        → table_in vm root (path_pd virt) ≡ some p
        → is_huge (read64 vm.mem (slot p (pd_index virt))) ≡ false)
    → get_pte vm root.address virt
      ≡ at_slot (pt_index virt) (table_in vm root (pd_index virt ∷ path_pd virt))
unfolding get_pte
get_pte-table_in vm root virt plain =
    ap (pt_slot vm virt) (get_pde-table_in vm root virt)
    ∙ pt_slot-step vm virt (table_in vm root (path_pd virt)) plain

-- The kernel's tree of tables.
abbrev pub kernel_root : Vm → (covers : ℕ → Bool) → Root
kernel_root vm covers = record { address = kernel_pml4 vm; covers = covers }

abbrev pub whole : Vm → Root
whole vm = kernel_root vm λ i. true

shut :
    (vm : Vm) (virt : ℕ)
    → vmm_get_physical vm virt ≡ physical_at vm virt (get_pte vm (kernel_pml4 vm) virt)
unfolding vmm_get_physical
shut vm virt = refl

-- For an address that no huge page of 2 MiB covers and whose last entry, if there is one, is a
-- word with bit 7 clear, vmm_get_physical gives the bits from 12 on of the entry at the end of
-- the address's four indices, the no-execute bit included if it is set, with the low twelve bits
-- of the address, and 0 if a table or the entry is missing.
pub vmm_get_physical-lookup :
    (vm : Vm) (virt : ℕ)
    → ((p : ℕ)
        → table_in vm (whole vm) (path_pd virt) ≡ some p
        → is_huge (read64 vm.mem (slot p (pd_index virt))) ≡ false)
    → ((e : ℕ) → lookup_in vm (whole vm) (page_path virt) ≡ some e → IsPlain e)
    → vmm_get_physical vm virt ≡ translated virt (lookup_in vm (whole vm) (page_path virt))
vmm_get_physical-lookup vm virt plain words =
    shut vm virt
    ∙ ap (physical_at vm virt) (get_pte-table_in vm (whole vm) virt plain)
    ∙ physical_at-final vm virt (table_in vm (whole vm) (pd_index virt ∷ path_pd virt))
    ∙ physical-translated virt (lookup_in vm (whole vm) (page_path virt)) words
