-- ===== src/Elf/Rounds.antt =====
-- The rounds of `load_elf`: each program header in turn, the number of them read anew.
use sonna_os.Prelude.{
  ℕ, zero, suc, ltb, ◌+◌, ◌*◌, ◌<◌, ◌≤◌, ◌≡◌, refl, sym, subst, ◌∙◌, ap, inl, inr, Bool, Bool-cases,
  true, false, ◌==◌, ==→eq, ==→ne, if◌then◌else◌, arith,
}
use sonna_os.Memory.Word.{bytes_value-frame}
use sonna_os.Vmm.{Vm}
use sonna_os.Vmm.Table.{Root}
use sonna_os.Vmm.Extends.{IsVm}
use sonna_os.Vmm.Advance.{
  Advances, Advances-refl, Advances-trans, InFrames, InFrame-byte, InFrame-Advances,
}
use sonna_os.Elf.{read_ehdr, read_phdr, load_segment, go_on, load_segments}
use sonna_os.Elf.Pages.{IsLoadable}
use sonna_os.Elf.Load.{load_segment-Loaded}
use sonna_os.Elf.Put.{
  read_phdr-frame, IsLoadable-Advances, IsPut, Loaded-IsPut, IsPut-Advances, IsPut-file,
}

-- The program headers `i` to `i + left` lie in frames in use that are no tables, and what they
-- say is to be loaded can be.
pub record AreLoadable (vm : Vm) (root : Root) (elf_data phdr i left : ℕ) : Type 0 where
  pub in_frames : (k : ℕ) → i ≤ k → k < i + left → InFrames vm root (phdr + 56 * k) 56
  pub loadable :
      (k : ℕ)
      → i ≤ k
      → k < i + left
      → (read_phdr vm.mem (phdr + 56 * k)).p_type ≡ 1
      → IsLoadable vm root elf_data (read_phdr vm.mem (phdr + 56 * k))

-- Each of those segments is in memory, with the bytes of the file as it was in `vm`.
pub record RoundsDone (vm : Vm) (root : Root) (elf_data phdr i left : ℕ) (vm' : Vm) : Type 0 where
  pub advances : Advances vm root vm'
  pub loaded :
      (k : ℕ)
      → i ≤ k
      → k < i + left
      → (read_phdr vm.mem (phdr + 56 * k)).p_type ≡ 1
      → IsPut vm root elf_data vm' (read_phdr vm.mem (phdr + 56 * k))

module _ (vm : Vm) (root : Root) (elf_data phdr i left : ℕ)
    (can : AreLoadable vm root elf_data phdr i (suc left)) where
  header_stays :
      (vm1 : Vm) (k : ℕ)
      → Advances vm root vm1
      → i ≤ k
      → k < i + suc left
      → read_phdr vm1.mem (phdr + 56 * k) ≡ read_phdr vm.mem (phdr + 56 * k)
  header_stays vm1 k step from to =
      read_phdr-frame vm.mem vm1.mem (phdr + 56 * k)
        (λ b low high. InFrame-byte vm vm1 root b step (can.in_frames k from to b low high))

  -- What is left to load after a round.
  rest_AreLoadable :
      (vm1 : Vm) → Advances vm root vm1 → AreLoadable vm1 root elf_data phdr (i + 1) left
  rest_AreLoadable vm1 step = record {
    in_frames = λ k low high b from to.
        InFrame-Advances vm vm1 root b step (can.in_frames k (omega arith) (omega arith) b from to);
    loadable = λ k low high load.
        let same = header_stays vm1 k step (omega arith) (omega arith) in
        subst (IsLoadable vm1 root elf_data) (sym same) (
          IsLoadable-Advances vm vm1 root elf_data (read_phdr vm.mem (phdr + 56 * k)) step
            (can.loadable k (omega arith) (omega arith) (ap (λ h. h.p_type) (sym same) ∙ load)));
  }

  -- A round and the rest.
  rounds :
      (vm1 vm2 : Vm)
      → Advances vm root vm1
      → ((read_phdr vm.mem (phdr + 56 * i)).p_type ≡ 1
          → IsPut vm root elf_data vm1 (read_phdr vm.mem (phdr + 56 * i)))
      → RoundsDone vm1 root elf_data phdr (i + 1) left vm2
      → RoundsDone vm root elf_data phdr i (suc left) vm2
  rounds vm1 vm2 step first rest = record {
    advances = Advances-trans vm vm1 vm2 root step rest.advances;
    loaded = λ k low high load.
        let ph = read_phdr vm.mem (phdr + 56 * k) in
        let can_load = can.loadable k low high load in
        elim (Bool-cases (k == i)) [
          | inl here ↦
              IsPut-Advances vm vm1 vm2 root elf_data ph rest.advances
                (IsLoadable-Advances vm vm1 root elf_data ph step can_load)
                (subst
                  (λ n.
                    (read_phdr vm.mem (phdr + 56 * n)).p_type ≡ 1
                    → IsPut vm root elf_data vm1 (read_phdr vm.mem (phdr + 56 * n)))
                  (sym (==→eq k i here)) first load)
          | inr later ↦
              let same = header_stays vm1 k step low high in
              IsPut-file vm vm1 vm2 root elf_data ph step can_load (
                subst (IsPut vm1 root elf_data vm2) same
                  (rest.loaded k (ground arith) (omega arith) (ap (λ h. h.p_type) same ∙ load)))
        ];
  }

load_segments_lem :
    (left elf_data pml4 phdr i : ℕ) (vm : Vm)
    → i < (read_ehdr vm.mem elf_data).e_phnum
    → load_segments (suc left) elf_data pml4 phdr i vm ≡ (
        if (read_phdr vm.mem (phdr + 56 * i)).p_type == 1
        then go_on
            (λ vm. load_segments left elf_data pml4 phdr (i + 1) vm)
            (load_segment elf_data pml4 (read_phdr vm.mem (phdr + 56 * i)) vm)
        else load_segments left elf_data pml4 phdr (i + 1) vm)
unfolding load_segments
load_segments_lem left elf_data pml4 phdr i vm more =
    let test : ltb i (read_ehdr vm.mem elf_data).e_phnum ≡ true = ground arith in rw test refl

-- Behind the last header the loop ends.
load_segments-end :
    (left elf_data pml4 phdr i : ℕ) (vm : Vm)
    → (read_ehdr vm.mem elf_data).e_phnum ≡ i
    → load_segments left elf_data pml4 phdr i vm ≡ (true, vm)
unfolding load_segments
load_segments-end zero elf_data pml4 phdr i vm at = refl
load_segments-end (suc left) elf_data pml4 phdr i vm at =
    let test : ltb i (read_ehdr vm.mem elf_data).e_phnum ≡ false = ground arith in rw test refl

-- The number of program headers stays while segments are loaded.
e_phnum-Advances :
    (vm vm' : Vm) (root : Root) (elf_data : ℕ)
    → Advances vm root vm'
    → InFrames vm root elf_data 64
    → (read_ehdr vm'.mem elf_data).e_phnum ≡ (read_ehdr vm.mem elf_data).e_phnum
unfolding read_ehdr
e_phnum-Advances vm vm' root elf_data step header =
    bytes_value-frame 2 vm.mem vm'.mem (elf_data + 56)
      (λ b low high. InFrame-byte vm vm' root b step (header b (omega arith) (omega arith)))

go_on-true :
    (next : Vm → Bool × Vm) (r : Bool × Vm)
    → (go_on next r).0 ≡ true
    → (r.0 ≡ true) × (go_on next r ≡ next r.1)
go_on-true next (true, vm) ok = (refl, refl)
go_on-true next (false, vm) ok = absurd (ground arith)

pub load_segments-RoundsDone :
    (left fuel : ℕ) (vm : Vm) (root : Root) (elf_data phdr i : ℕ)
    → left ≤ fuel
    → (read_ehdr vm.mem elf_data).e_phnum ≡ i + left
    → InFrames vm root elf_data 64
    → IsVm vm root
    → AreLoadable vm root elf_data phdr i left
    → (load_segments fuel elf_data root.address phdr i vm).0 ≡ true
    → RoundsDone vm root elf_data phdr i left (load_segments fuel elf_data root.address phdr i vm).1
load_segments-RoundsDone zero fuel vm root elf_data phdr i le count header is can ok =
    subst (λ (r : Bool × Vm). RoundsDone vm root elf_data phdr i 0 r.1)
      (sym (load_segments-end fuel elf_data root.address phdr i vm (omega (arith, count))))
      (record {
        advances = Advances-refl vm root is;
        loaded = λ k low high load. absurd (omega arith);
      })
load_segments-RoundsDone (suc left) zero vm root elf_data phdr i le count header is can ok =
    absurd (omega arith)
load_segments-RoundsDone (suc left) (suc fuel) vm root elf_data phdr i le count header is can ok =
    round (load_segments (suc fuel) elf_data root.address phdr i vm)
      (load_segments_lem fuel elf_data root.address phdr i vm (omega (arith, count))) ok
      (λ vm1 step.
        load_segments-RoundsDone left fuel vm1 root elf_data phdr (i + 1) (omega arith)
          (e_phnum-Advances vm vm1 root elf_data step header ∙ omega (arith, count))
          (λ b low high. InFrame-Advances vm vm1 root b step (header b low high)) step.is_vm)
  where
    round :
        (r : Bool × Vm)
        → r ≡ (
            if (read_phdr vm.mem (phdr + 56 * i)).p_type == 1
            then go_on
                (λ vm. load_segments fuel elf_data root.address phdr (i + 1) vm)
                (load_segment elf_data root.address (read_phdr vm.mem (phdr + 56 * i)) vm)
            else load_segments fuel elf_data root.address phdr (i + 1) vm)
        → r.0 ≡ true
        → ((vm1 : Vm)
            → Advances vm root vm1
            → AreLoadable vm1 root elf_data phdr (i + 1) left
            → (load_segments fuel elf_data root.address phdr (i + 1) vm1).0 ≡ true
            → RoundsDone vm1 root elf_data phdr
                (i + 1)
                left
                (load_segments fuel elf_data root.address phdr (i + 1) vm1).1)
        → RoundsDone vm root elf_data phdr i (suc left) r.1
    round r e ok rest = elim (Bool-cases ((read_phdr vm.mem (phdr + 56 * i)).p_type == 1)) [
      | inr skip ↦
          let passed : r ≡ load_segments fuel elf_data root.address phdr (i + 1) vm =
            e ∙ rw skip refl in
          let step = Advances-refl vm root is in
          subst (λ r. RoundsDone vm root elf_data phdr i (suc left) r.1) (sym passed)
            (rounds vm root elf_data phdr i left can vm
              (load_segments fuel elf_data root.address phdr (i + 1) vm).1 step
              (λ load. absurd (==→ne _ _ skip load))
              (rest vm step (rest_AreLoadable vm root elf_data phdr i left can vm step)
                (ap (λ r. r.0) (sym passed) ∙ ok)))
      | inl load ↦
          let ph = read_phdr vm.mem (phdr + 56 * i) in
          let type : ph.p_type ≡ 1 = ==→eq _ _ load in
          let next : Vm → Bool × Vm =
            λ vm. load_segments fuel elf_data root.address phdr (i + 1) vm in
          let one = load_segment elf_data root.address ph vm in
          let passed : r ≡ go_on next one = e ∙ rw load refl in
          let (ok1, went) = go_on-true next one (ap (λ r. r.0) (sym passed) ∙ ok) in
          let first =
            load_segment-Loaded vm root elf_data ph is
              (can.loadable i (omega arith) (omega arith) type) ok1 in
          subst (λ r. RoundsDone vm root elf_data phdr i (suc left) r.1) (sym (passed ∙ went))
            (rounds vm root elf_data phdr i left can one.1 (next one.1).1 first.advances
              (λ t. Loaded-IsPut vm one.1 root elf_data ph first)
              (rest one.1 first.advances
                (rest_AreLoadable vm root elf_data phdr i left can one.1 first.advances)
                (ap (λ r. r.0) (sym (passed ∙ went)) ∙ ok)))
    ]
