-- ===== src/Features/Tests.antt =====
-- The theorems on the processor's features at a concrete processor.
use oronyx.Base.{ℕ, ◌≡◌, refl, arith, true, some, ◌==◌, if◌then◌else◌}
use oronyx.Base.BitAt.{bit_at}
use oronyx.Machine.{Machine}
use oronyx.Machine.Sample.{machine}
use oronyx.Features.{Cpuid, Smp, detect, enable_sse, enable_avx}
use oronyx.Features.Detect.{Reports, has_x2apic, detect-Reports}
use oronyx.Features.Enable.{IsXcr0, is_vector_bit, enable_sse_bits, enable_avx_bits}

-- A processor with SSE, AVX and the foundation of AVX-512.
abbrev cpuid : ℕ → Cpuid
cpuid leaf =
    if leaf == 1
    then record { eax = 0; ebx = 0; ecx = 0x14000000; edx = 0x02000200 }
    else record { eax = 0; ebx = 0x10020; ecx = 0; edx = 0 }

abbrev smp : Smp
smp = record { flags = 1; bsp_lapic_id = 4 }

detect-Reports_example :
    Reports cpuid (detect cpuid (some smp) machine.features)
    × ((detect cpuid (some smp) machine.features).x2apic
        ≡ has_x2apic (some smp) machine.features.x2apic)
detect-Reports_example = detect-Reports cpuid (some smp) machine.features (refl, refl, refl, refl)

abbrev vector_machine : Machine
vector_machine = record machine {
  features = record machine.features { sse = true; avx = true; avx512f = true };
}

enable_sse_bits_example :
    (bit_at 2 (enable_sse vector_machine).cr0
      ≡ (if ◌==◌ 2 2 then 0 else if ◌==◌ 2 1 then 1 else bit_at 2 vector_machine.cr0))
    × (bit_at 2 (enable_sse vector_machine).cr4
        ≡ (if ◌==◌ 2 9 then 1 else if ◌==◌ 2 10 then 1 else bit_at 2 vector_machine.cr4))
enable_sse_bits_example = enable_sse_bits 2 vector_machine (omega arith) refl

-- A boot loader that turned OSXSAVE on.
abbrev xsave_machine : Machine
xsave_machine = record vector_machine { cr4 = 0x40020 }

osxsave : bit_at 18 xsave_machine.cr4 ≡ 1
unfolding bit_at
osxsave = refl

xsave_machine-IsXcr0 : IsXcr0 xsave_machine.xcr0
unfolding bit_at
xsave_machine-IsXcr0 = (refl, omega arith, refl, refl, omega arith)

enable_avx_bits_example :
    (t : Machine) × (enable_avx xsave_machine ≡ some t)
    × (bit_at 6 t.xcr0 ≡ (if is_vector_bit true 6 then 1 else bit_at 6 xsave_machine.xcr0))
    × IsXcr0 t.xcr0
enable_avx_bits_example =
    enable_avx_bits 6 xsave_machine refl osxsave (omega arith) xsave_machine-IsXcr0
