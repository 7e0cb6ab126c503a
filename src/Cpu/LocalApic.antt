-- ===== src/Cpu/LocalApic.antt =====
-- What a machine whose local APIC has its registers in memory is like once `init` has returned.
use oronyx.Base.{ℕ, ◌+◌, u64, bit_or, Option}
use oronyx.Interrupts.{Handler}
use oronyx.Features.{Cpuid, Smp}
use oronyx.Controllers.{enable_apic, mask_pics}
use oronyx.Machine.{Machine, apic_base}
use oronyx.Paging.{State, present, writable, cache_disable}
use oronyx.Cpu.Start.{prepared}

-- The virtual address of the registers, and the flags of their page.
abbrev pub apic_virt : ℕ → ℕ
apic_virt offset = u64 (apic_base + offset)

abbrev apic_flags : ℕ
apic_flags = bit_or (bit_or present writable) cache_disable

-- Behind the mapping of the registers.
abbrev with_registers : Machine → State → Machine
with_registers k s = record (enable_apic (mask_pics k)) { memory = s }

module _ (address : Handler → ℕ) (tss_base entry : ℕ) (cpuid : ℕ → Cpuid) (offset : ℕ)
    (smp : Option Smp) (m : Machine) where
  abbrev k : Machine
  k = prepared address tss_base cpuid offset smp m
