-- ===== src/Cpu.antt =====
-- arch/x86_64/src/cpu_impl.cpp, `cpu_traits<x86_64>::init`: the setup of the processor from its parts.
pub mod Start
pub mod Requests
pub mod Clock
pub mod Segments
pub mod LocalApic
mod Tests
use oronyx.Base.{
  ℕ, ◌+◌, ◌/◌, ◌^◌, bit_or, u64, update, Bool, true, false, Option, none, some, ◌<<<◌, ◌>>=◌,
}
use oronyx.Base.{◌==◌, if◌then◌else◌}
use oronyx.Descriptors.{GdtEntry, GdtDescriptor, IdtDescriptor, tss_low, tss_high}
use oronyx.Interrupts.{Handler, setup}
use oronyx.Features.{Cpuid, Smp, detect, enable_sse, enable_avx}
use oronyx.Controllers.{init_controllers}
use oronyx.Machine.{Machine, rdmsr, wrmsr, enable_interrupt, say}
use oronyx.Pmm.{Print, write_line}

abbrev pub msr_efer : ℕ
msr_efer = 0xc0000080

abbrev pub msr_star : ℕ
msr_star = 0xc0000081

abbrev pub msr_lstar : ℕ
msr_lstar = 0xc0000082

abbrev pub msr_syscall_mask : ℕ
msr_syscall_mask = 0xc0000084

abbrev pub msr_gs_base : ℕ
msr_gs_base = 0xc0000101

abbrev pub msr_kernel_gs_base : ℕ
msr_kernel_gs_base = 0xc0000102

-- `sizeof(TSS)`.
abbrev pub tss_limit : ℕ
tss_limit = 104

abbrev pub segment : ℕ → ℕ → ℕ → ℕ → GdtEntry
segment limit_low access limit_high flags = record {
  limit_low = limit_low;
  base_low = 0;
  base_middle = 0;
  access = access;
  limit_high = limit_high;
  flags = flags;
  base_high = 0;
}

-- The static array `gdt`.
abbrev pub static_gdt : ℕ → GdtEntry
static_gdt i =
    if i == 1
    then segment 0xffff 0x9a 0xf 0xa
    else if i == 2
    then segment 0xffff 0x92 0xf 0xa
    else segment 0 0 0 0

-- The static `gdtr` and `idtr`: the linker puts the tables at `gdt_base` and `idt_base`.
abbrev pub static_gdtr : ℕ → GdtDescriptor
static_gdtr gdt_base = record { size = 39; offset = gdt_base }

abbrev pub static_idtr : ℕ → IdtDescriptor
static_idtr idt_base = record { limit = 4095; base = idt_base }

-- The instruction marks the descriptor that it loads as busy.
abbrev pub ltr : ℕ → Machine → Machine
ltr selector m = record m {
  tr = selector;
  gdt =
      update m.gdt (selector / 8)
        (record (m.gdt (selector / 8)) { access = bit_or (m.gdt (selector / 8)).access 0x2 });
}

-- The table of the segments, the code segment by a far return, the data segments, the descriptor of
-- the task state segment at `tss_base` and its selector.
unfoldable pub load_segments : ℕ → Machine → Machine
unfolding tss_low tss_high
load_segments tss_base m = ltr 0x18 (record m {
  gdt_register = m.gdtr;
  cs = 0x08;
  ds = 0x10;
  gdt = update (update m.gdt 3 (tss_low tss_limit tss_base)) 4 (tss_high tss_base);
  tss = record m.tss { iopb = tss_limit };
})

unfoldable pub enable_syscall : ℕ → Machine → Machine
unfolding rdmsr wrmsr
enable_syscall entry m =
    let n = wrmsr msr_efer (bit_or (rdmsr msr_efer m) (2 ^ 0)) m in
    wrmsr msr_kernel_gs_base 0 (
      wrmsr msr_gs_base 0 (
        wrmsr msr_syscall_mask 0x200
          (wrmsr msr_lstar entry (wrmsr msr_star (bit_or (0x13 <<< 48) (0x08 <<< 32)) n))))

-- The tables, with the offset of the response: the linker puts the handlers at `address` and `tss` at
-- `tss_base`.
unfoldable pub load_tables : (Handler → ℕ) → ℕ → ℕ → Machine → Machine
unfolding load_segments setup
load_tables address tss_base offset m =
    let n = load_segments tss_base (record m { hhdm_offset = offset }) in
    record n { vectors = setup address n.vectors; idt_register = n.idtr }

unfoldable pub detect_features : (ℕ → Cpuid) → Option Smp → Machine → Machine
unfolding detect
detect_features cpuid smp m = record m { features = detect cpuid smp m.features }

-- What `init` does in front of the interrupt controllers.
unfoldable pub prepare : (Handler → ℕ) → ℕ → (ℕ → Cpuid) → ℕ → Option Smp → Machine → Option Machine
unfolding load_tables detect_features enable_sse enable_avx
prepare address tss_base cpuid offset smp m =
    enable_avx (enable_sse (detect_features cpuid smp (load_tables address tss_base offset m)))

-- What it does behind them; `entry` is where the linker puts the entry of system calls.
unfoldable pub finish : ℕ → Machine → Machine
unfolding enable_syscall
finish entry m = say (write_line "CPU initialized") (enable_syscall entry (enable_interrupt m))

-- A null response for the offset, which is read without a test, is a fault.
unfoldable pub init :
    (Handler → ℕ) → ℕ → ℕ → (ℕ → Cpuid) → Option ℕ → Option Smp → Machine → Option Machine
unfolding prepare init_controllers finish
init address tss_base entry cpuid hhdm smp m = do
  offset ← hhdm
  k ← prepare address tss_base cpuid offset smp m
  n ← init_controllers offset k
  some (finish entry n)
