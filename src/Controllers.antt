-- ===== src/Controllers.antt =====
-- arch/x86_64/src/cpu_impl.cpp, `init`: the setup of the interrupt controllers, which is the local
-- APIC, by model-specific registers (x2APIC) or in memory, or else the two 8259A PICs.
pub mod Pic
pub mod Service
pub mod Apic
mod Tests
use oronyx.Base.{
  ℕ, ◌+◌, ◌*◌, ◌/◌, ◌^◌, bit_or, u64, update, Bool, true, false, not, Option, none, some, List, [],
  ◌∷◌,
}
use oronyx.Base.{◌==◌, if◌then◌else◌, ◌>>=◌}
use oronyx.Interrupts.Numbers.{irq_timer, irq_thermal, irq_perfmon, irq_lint0, irq_lint1, irq_error}
use oronyx.Machine.{Machine, outb, rdmsr, wrmsr, apic_base, write_apic}
use oronyx.Paging.{map_page, present, writable, cache_disable}

-- Stores to registers, in order, through the pointer `apic`.
unfoldable pub write_all : ℕ → List (ℕ × ℕ) → Machine → Option Machine
unfolding write_apic
write_all offset [] m = some m
write_all offset ((reg, value) ∷ writes) m = do
  n ← write_apic offset reg value m
  write_all offset writes n

-- All lines of the two PICs are masked.
abbrev pub mask_pics : Machine → Machine
mask_pics m = outb 0x21 0xff (outb 0xa1 0xff m)

-- The bits of the register 0x1B that turn the APIC on, and its x2APIC mode.
unfoldable pub enable_apic : Machine → Machine
unfolding rdmsr wrmsr
enable_apic m =
    if m.features.x2apic
    then wrmsr 0x1b (bit_or (bit_or (rdmsr 0x1b m) (2 ^ 10)) (2 ^ 11)) m
    else wrmsr 0x1b (bit_or (rdmsr 0x1b m) (2 ^ 11)) m

-- `offset` is that of the boot loader's response.
unfoldable pub map_apic : ℕ → Machine → Option Machine
unfolding map_page
map_apic offset m = do
  s ←
      map_page (u64 (apic_base + offset)) apic_base (bit_or (bit_or present writable) cache_disable)
        m.memory
  some (record m { memory = s })

-- Whether the pointer `apic` is not null.
abbrev pub is_mapped : ℕ → Bool
is_mapped offset = not (u64 (apic_base + offset) == 0)

-- The divide configuration, the initial count and the timer's vector in periodic mode.
abbrev pub timer_writes : List (ℕ × ℕ)
timer_writes = (0x3e0, 0x3) ∷ (0x380, 0x100000) ∷ (0x320, bit_or irq_timer 0x20000) ∷ []

unfoldable pub x2apic_timer : Machine → Machine
unfolding wrmsr
x2apic_timer m = wrmsr 0x832 (bit_or irq_timer 0x20000) (wrmsr 0x838 0x100000 (wrmsr 0x832 0x3 m))

unfoldable pub start_timer : ℕ → Machine → Option Machine
unfolding x2apic_timer write_all
start_timer offset m =
    if m.features.x2apic
    then some (x2apic_timer m)
    else if is_mapped offset
    then write_all offset timer_writes m
    else some m

-- The local vector table and the spurious vector.
abbrev pub lvt_writes : List (ℕ × ℕ)
lvt_writes =
    (0x320, irq_timer)
    ∷ (0x330, irq_thermal)
    ∷ (0x340, irq_perfmon)
    ∷ (0x350, irq_lint0)
    ∷ (0x360, irq_lint1)
    ∷ (0x370, irq_error)
    ∷ (0xf0, bit_or 0x100 0xff)
    ∷ []

unfoldable pub x2apic_lvt : Machine → Machine
unfolding wrmsr
x2apic_lvt m = wrmsr 0x80f (bit_or 0x100 0xff) (
    wrmsr 0x834 irq_error (
      wrmsr 0x837 irq_lint1 (
        wrmsr 0x836 irq_lint0
          (wrmsr 0x835 irq_perfmon (wrmsr 0x834 irq_thermal (wrmsr 0x833 irq_timer m))))))

unfoldable pub set_lvt : ℕ → Machine → Option Machine
unfolding x2apic_lvt write_all
set_lvt offset m =
    if m.features.x2apic
    then some (x2apic_lvt m)
    else if is_mapped offset
    then write_all offset lvt_writes m
    else some m

unfoldable pub init_apic : ℕ → Machine → Option Machine
unfolding enable_apic map_apic start_timer set_lvt
init_apic offset m = do
  n ← map_apic offset (enable_apic (mask_pics m))
  n ← start_timer offset n
  set_lvt offset n

-- The initialization command words, to the master's ports 0x20 and 0x21 and the slave's 0xA0 and
-- 0xA1.
unfoldable pub init_pic : Machine → Machine
init_pic m = outb 0xa1 0x01 (
    outb 0x21 0x01 (
      outb 0xa1 0x02
        (outb 0x21 0x04 (outb 0xa1 0x28 (outb 0x21 0x20 (outb 0xa0 0x11 (outb 0x20 0x11 m)))))))

unfoldable pub init_controllers : ℕ → Machine → Option Machine
unfolding init_apic init_pic
init_controllers offset m = if m.features.apic then init_apic offset m else some (init_pic m)
