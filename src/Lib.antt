-- ===== src/Lib.antt =====
-- SonnaOS: the Estella kernel for x86-64 (kernel/) and its userspace library (userspace/).
--
-- The parts modelled here, the files that model them and how they meet:
-- * Pmm and Pmm/: kernel/mm/pmm.c, the physical memory manager. The record `Pmm` holds the static
--   variables, the bitmap as its list of bytes; each function has its own name without `pmm_`.
--   Pmm/Init models `pmm_init` over the bootloader's memory map, a list of `Entry`.
-- * Memory and Memory/: kernel/klib/memory.c. Memory is a function from addresses to bytes, on
--   which the zeroing allocators of Pmm and the string routines work too.
-- * Strings and Strings/: kernel/klib/string.c on that memory.
-- * Scheduler and Scheduler/: kernel/arch/x86_64/usermode/scheduler.c with the parts of
--   usermode.c (`task_enter`), syscalls/syscalls.c (`SYS_EXIT`) and interrupts/apictimer.c
--   (`lapic_timer_handler`) that work on its queue. A task is an address, a store gives the
--   `task_t` at each address, and the `next` pointers are read as a list (Scheduler/Ring).
-- * Keyboard and Keyboard/: kernel/drivers/keyboard.c, with the byte from port 0x60 as argument.
-- * Numfmt and Numfmt/: userspace/lib/numfmt.c on the same memory.
-- * Descriptors and Descriptors/: kernel/arch/x86_64/cpu/gdt.c and interrupts/idt.c, with the
--   addresses of code and data as arguments.
-- * Cpio and Cpio/: kernel/fs/cpio/cpio.c on the same memory.
-- * Ioapic and Ioapic/: kernel/arch/x86_64/interrupts/ioapic.c, an operation as its device writes.
-- * Time and Time/: kernel/arch/x86_64/time/time.c, with the counter's value and frequency as
--   arguments.
-- * Vmm and Vmm/: kernel/arch/x86_64/mm/vmm.c. The page tables lie in the same memory, their
--   words read and written byte by byte (Memory/Word), and their frames come from Pmm: the record
--   `Vm` has the allocator, memory and `kernel_pml4_phys`. Vmm/Ops has the operations, Vmm/Table
--   the tree that memory holds, by the indices that lead to each table.
-- * Elf and Elf/: kernel/arch/x86_64/usermode/elf.c on a `Vm`, the file being in memory: a
--   segment (Elf/Pages and Elf/Load, byte by byte in Elf/InMemory), what stays of it (Elf/Put),
--   the loop over them (Elf/Rounds) and the whole (Elf/Segments).
-- * Task and Task/: `task_create_from_elf` of usermode/scheduler.c and `runElf_ring3` of
--   usermode/usermode.c, with `task_t` and the registers laid out in memory. A tree of page tables
--   is a `Root`, the address of its first table and the entries of it that count, so that a task's
--   tree leaves out the half that it shares with the kernel. Vmm/Keep, Vmm/Advance, Vmm/Take and
--   Vmm/Store say what a change of one tree leaves as it was.
-- * Fbtext and Fbtext/: kernel/drivers/fbtext.c with `font_t` of font.h; the pixels are a function
--   of their index, and the file's variables the records `Console` and `Text`.
-- * Line.antt has what a line editor promises, with a buffer and a position that implement it, for
--   Syscalls and Syscalls/: kernel/arch/x86_64/syscalls/syscalls.c, and
--   Shell and Shell/: kernel/shell_kspace/kernelshell.c. The keyboard is the list of characters
--   that it gives; what is shown goes to Fbtext.
-- * Tsc and Tsc/: kernel/arch/x86_64/time/tsc.c and hpet.c; Lapic and Lapic/:
--   interrupts/lapic.c and apictimer.c, with the answers of the processor and the devices as
--   arguments and the writes as a list.
-- * Printf and Printf/: userspace/lib/printf.c, on Numfmt.
-- * Boot and Boot/: of kernel/arch/x86_64/boot/main.c the bootloader's name and the logo.
-- * Font and Serial: kernel/drivers/font.c and serial.c, the writes to the port as a list.
-- * Acpi and Acpi/: kernel/arch/x86_64/acpi/acpi.c on the same memory.
-- * Prelude and Prelude/: Boolean tests, lists over native numbers, machine words, bit operations.
--
-- Machine words are natural numbers and wrap where the code's types do (`add64`, `% 2 ^ w`);
-- pointers into one object are plain sums. A loop runs on its own counter where it has one, and on
-- fuel otherwise: the searches of Pmm on twice the bitmap's frames and one more, which their
-- wrap-around test needs; the walks of the run queue on the length of the queue; the year loop on
-- the number of days and the month loop on 12; a walk along a text on its length and one more; the
-- loop over program headers, which reads their number again in every round, on the 2^16 values of
-- its 16-bit counter.
-- The theorems show that this fuel is enough.
--
-- Not modelled: the messages on the serial line, the flush of the translation cache, port, MSR and
-- memory-mapped input and output, the assembly files, the requests of the bootloader's protocol
-- (kernel/include/limine.h), the boot code that calls the parts in turn, the programs of
-- userspace and its system call stubs.
pub mod Prelude
pub mod Pmm
pub mod Scheduler
pub mod Keyboard
pub mod Time
pub mod Memory
pub mod Strings
pub mod Numfmt
pub mod Printf
pub mod Descriptors
pub mod Cpio
pub mod Ioapic
pub mod Fbtext
pub mod Line
pub mod Syscalls
pub mod Task
pub mod Tsc
pub mod Lapic
pub mod Shell
pub mod Acpi
pub mod Vmm
pub mod Elf
pub mod Boot
pub mod Font
pub mod Serial
