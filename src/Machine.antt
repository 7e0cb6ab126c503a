-- ===== src/Machine.antt =====
-- arch/x86_64/src/cpu_impl.cpp and arch/x86_64/src/io_impl.cpp: the static state of the processor's
-- code, the registers that it reads and writes by inline assembly, and its ports.
pub mod Msr
pub mod Sample
use oronyx.Base.{
  ℕ, ◌^◌, ◌+◌, ◌/◌, ◌%◌, bit_and, bit_or, u64, update, Bool, true, false, List, [], ◌∷◌, ◌++◌,
}
use oronyx.Base.{◌<<<◌, ◌>>>◌, Option, none, some, ◌>>=◌, ◌==◌, if◌then◌else◌}
use oronyx.Descriptors.{Vectors, GdtEntry, GdtDescriptor, IdtDescriptor, Tss}
use oronyx.Paging.{State}
use oronyx.Paging.Tables.{translate}
use oronyx.Pmm.{Print, print}

pub record CpuFeatures : Type 0 where
  pub apic : Bool
  pub x2apic : Bool
  pub sse : Bool
  pub avx : Bool
  pub avx2 : Bool
  pub avx512f : Bool
  pub avx512bw : Bool
  pub avx512cd : Bool
  pub avx512dq : Bool
  pub bsp_lapic_id : ℕ

-- `msr` and `apic` hold the model-specific registers and, by their index as 32-bit words, the
-- registers of the interrupt controller in memory; `ports` is what was written to ports, in order.
-- `gdt_register` and `idt_register` are what `lgdt` and `lidt` loaded, `cs`, `ds` and `tr` are
-- selectors (`ds` that of all the data segments), `interrupts` is the interrupt flag,
-- and behind `halt`, which loops for ever, `halted` is set.
pub record Machine : Type 0 where
  pub features : CpuFeatures
  pub tick : ℕ
  pub hhdm_offset : ℕ
  pub vectors : Vectors
  pub gdt : ℕ → GdtEntry
  pub gdtr : GdtDescriptor
  pub idtr : IdtDescriptor
  pub tss : Tss
  pub gdt_register : GdtDescriptor
  pub idt_register : IdtDescriptor
  pub cs : ℕ
  pub ds : ℕ
  pub tr : ℕ
  pub interrupts : Bool
  pub halted : Bool
  pub msr : ℕ → ℕ
  pub cr0 : ℕ
  pub cr4 : ℕ
  pub xcr0 : ℕ
  pub apic : ℕ → ℕ
  pub ports : List (ℕ × ℕ)
  pub memory : State

abbrev pub outb : ℕ → ℕ → Machine → Machine
outb port val m = record m { ports = m.ports ++ ((port, val) ∷ []) }

-- The processor writes the two bytes to this port and the next, the low one first.
abbrev pub outw : ℕ → ℕ → Machine → Machine
outw port val m = outb (port + 1) (val / 2 ^ 8) (outb port (val % 2 ^ 8) m)

-- The two halves of a 64-bit register, in edx and eax.
abbrev pub high_half : ℕ → ℕ
high_half value = value >>> 32

abbrev pub low_half : ℕ → ℕ
low_half value = bit_and value 0xffffffff

unfoldable pub join_halves : ℕ → ℕ → ℕ
join_halves high low = bit_or (u64 (high <<< 32)) low

-- The instruction leaves the register's halves in edx and eax.
unfoldable pub rdmsr : ℕ → Machine → ℕ
unfolding join_halves
rdmsr r m = join_halves (high_half (m.msr r)) (low_half (m.msr r))

-- The instruction takes the register's halves from edx and eax.
unfoldable pub wrmsr : ℕ → ℕ → Machine → Machine
wrmsr r value m = record m { msr = update m.msr r (high_half value <<< 32 + low_half value) }

abbrev pub apic_base : ℕ
apic_base = 0xfee00000

-- `apic[reg / 4] = value` through the pointer `apic_base + offset`, with the register's offset of the
-- data sheet. `none` is a page fault, or a walk that leads to other memory than that register.
unfoldable pub write_apic : ℕ → ℕ → ℕ → Machine → Option Machine
unfolding translate
write_apic offset reg value m = do
  p ← translate (u64 (apic_base + offset + reg)) m.memory
  if p == apic_base + reg then some (record m { apic = update m.apic (reg / 4) value }) else none

abbrev pub enable_interrupt : Machine → Machine
enable_interrupt m = record m { interrupts = true }

abbrev pub disable_interrupt : Machine → Machine
disable_interrupt m = record m { interrupts = false }

abbrev pub halt : Machine → Machine
halt m = record m { halted = true }

-- The output goes to the log of the memory manager's state.
abbrev pub say : Print → Machine → Machine
say p m = record m { memory = record m.memory { pmm = print p m.memory.pmm } }

abbrev pub get_features : Machine → CpuFeatures
get_features m = m.features

abbrev pub get_tick : Machine → ℕ
get_tick m = m.tick
