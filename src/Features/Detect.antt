-- ===== src/Features/Detect.antt =====
-- Which features are detected, in terms of the bits of the registers.
use oronyx.Base.{
  ℕ, ◌*◌, ◌^◌, ◌<◌, zero, suc, ◌≡◌, arith, Bool, false, ◌&&◌, not, Option, none, some,
}
use oronyx.Base.{◌==◌}
use native.Mathlib.Nat.{one-le-pow}
use oronyx.Base.BitAt.{bit_at, bit_at-lt, bit_and-pow}
use oronyx.Machine.{CpuFeatures}
use oronyx.Features.{Cpuid, Smp, has, detect, detect_basic, detect_extended, detect_smp}

flag : (b p : ℕ) → b < 2 → 0 < p → not (b * p == 0) ≡ (b == 1)
flag zero p hb hp = ground arith
flag (suc zero) p hb hp = ground arith
flag (suc (suc b)) p hb hp = absurd (omega arith)

pub has-bit_at : (k r : ℕ) → has k r ≡ (bit_at k r == 1)
unfolding has
has-bit_at k r =
    rw (bit_and-pow k r) (flag (bit_at k r) (2 ^ k) (bit_at-lt k r) (omega (arith, one-le-pow k 2)))

-- The processor's features by the bits of `cpuid`: AVX wants XSAVE too, and each part of AVX-512
-- wants AVX.
abbrev pub Reports : (ℕ → Cpuid) → CpuFeatures → Type 0
Reports cpuid f =
    (f.apic ≡ (bit_at 9 (cpuid 1).edx == 1))
    × (f.sse ≡ (bit_at 25 (cpuid 1).edx == 1))
    × (f.avx ≡ ((bit_at 28 (cpuid 1).ecx == 1) && (bit_at 26 (cpuid 1).ecx == 1)))
    × (f.avx2 ≡ (bit_at 5 (cpuid 7).ebx == 1))
    × (f.avx512f ≡ (f.avx && (bit_at 16 (cpuid 7).ebx == 1)))
    × (f.avx512dq ≡ (f.avx && (bit_at 17 (cpuid 7).ebx == 1)))
    × (f.avx512cd ≡ (f.avx && (bit_at 28 (cpuid 7).ebx == 1)))
    × (f.avx512bw ≡ (f.avx && (bit_at 30 (cpuid 7).ebx == 1)))

-- No part of AVX-512 is on record, as in the static initial value.
abbrev pub IsPlain : CpuFeatures → Type 0
IsPlain f = (f.avx512f ≡ false) × (f.avx512dq ≡ false) × (f.avx512cd ≡ false) × (f.avx512bw ≡ false)

abbrev pub has_x2apic : Option Smp → Bool → Bool
has_x2apic none old = old
has_x2apic (some smp) old = bit_at 0 smp.flags == 1

module _ (cpuid : ℕ → Cpuid) where
  detect_extended-Reports :
      (f : CpuFeatures)
      → IsPlain f
      → Reports cpuid (detect_extended (cpuid 7) (detect_basic (cpuid 1) f))
  unfolding detect_extended detect_basic
  detect_extended-Reports f plain = (
    ground (arith, has-bit_at 9 (cpuid 1).edx),
    ground (arith, has-bit_at 25 (cpuid 1).edx),
    ground (arith, has-bit_at 28 (cpuid 1).ecx, has-bit_at 26 (cpuid 1).ecx),
    ground (arith, has-bit_at 5 (cpuid 7).ebx),
    ground (arith, has-bit_at 16 (cpuid 7).ebx),
    ground (arith, has-bit_at 17 (cpuid 7).ebx),
    ground (arith, has-bit_at 28 (cpuid 7).ebx),
    ground (arith, has-bit_at 30 (cpuid 7).ebx),
  )

  detect-Reports_of :
      (smp : Option Smp) (f : CpuFeatures) → IsPlain f → Reports cpuid (detect cpuid smp f)
  unfolding detect detect_smp
  detect-Reports_of none f plain = detect_extended-Reports f plain
  detect-Reports_of (some smp) f plain = detect_extended-Reports f plain

  detect-x2apic :
      (smp : Option Smp) (f : CpuFeatures) → (detect cpuid smp f).x2apic ≡ has_x2apic smp f.x2apic
  unfolding detect detect_basic detect_extended detect_smp
  detect-x2apic none f = ground arith
  detect-x2apic (some smp) f = has-bit_at 0 smp.flags

-- From features with no part of AVX-512 on record `detect` records the features that the processor
-- reports, and the x2APIC mode exactly if the boot loader's response has its flag; without a
-- response it stays as it was.
pub detect-Reports :
    (cpuid : ℕ → Cpuid) (smp : Option Smp) (f : CpuFeatures)
    → IsPlain f
    → Reports cpuid (detect cpuid smp f) × ((detect cpuid smp f).x2apic ≡ has_x2apic smp f.x2apic)
detect-Reports cpuid smp f plain = (detect-Reports_of cpuid smp f plain, detect-x2apic cpuid smp f)
