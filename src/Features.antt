-- ===== src/Features.antt =====
-- arch/x86_64/src/cpu_impl.cpp, `init`: the detection of the processor's features and the enabling
-- of its vector units.
pub mod Detect
pub mod Enable
mod Tests
use oronyx.Base.{
  ℕ, ◌+◌, ◌^◌, ◌-◌, bit_and, bit_or, u32, Bool, true, false, not, ◌&&◌, Option, none, some,
}
use oronyx.Base.{◌==◌, if◌then◌else◌, ◌<<<◌}
use oronyx.Machine.{CpuFeatures, Machine, join_halves, high_half, low_half}

-- What the instruction `cpuid` leaves in the registers.
pub record Cpuid : Type 0 where
  pub eax : ℕ
  pub ebx : ℕ
  pub ecx : ℕ
  pub edx : ℕ

-- What `init` reads of the response to the boot loader's request for the processors.
pub record Smp : Type 0 where
  pub flags : ℕ
  pub bsp_lapic_id : ℕ

-- `r & (1 << k)` as a truth value.
unfoldable pub has : ℕ → ℕ → Bool
has k r = not (bit_and r (2 ^ k) == 0)

-- Leaf 1.
unfoldable pub detect_basic : Cpuid → CpuFeatures → CpuFeatures
unfolding has
detect_basic c f =
    let xsave = has 26 c.ecx in
    record f { apic = has 9 c.edx; sse = has 25 c.edx; avx = has 28 c.ecx && xsave }

-- Leaf 7.
unfoldable pub detect_extended : Cpuid → CpuFeatures → CpuFeatures
unfolding has
detect_extended c f =
    let g = record f { avx2 = has 5 c.ebx } in
    if g.avx
    then record g {
      avx512f = has 16 c.ebx;
      avx512dq = has 17 c.ebx;
      avx512cd = has 28 c.ebx;
      avx512bw = has 30 c.ebx;
    }
    else g

-- No response, or no request, is a `none`.
unfoldable pub detect_smp : Option Smp → CpuFeatures → CpuFeatures
unfolding has
detect_smp none f = f
detect_smp (some smp) f = record f { bsp_lapic_id = smp.bsp_lapic_id; x2apic = has 0 smp.flags }

-- `cpuid` gives the registers for each leaf.
unfoldable pub detect : (ℕ → Cpuid) → Option Smp → CpuFeatures → CpuFeatures
unfolding detect_basic detect_extended detect_smp
detect cpuid smp f = detect_smp smp (detect_extended (cpuid 7) (detect_basic (cpuid 1) f))

-- `~(1 << 2)`, a negative number of type `int`, on `uint64_t`.
abbrev pub em_mask : ℕ
em_mask = 2 ^ 64 - 1 - 2 ^ 2

unfoldable pub enable_sse : Machine → Machine
enable_sse m =
    if m.features.sse
    then record m {
      cr0 = bit_or (bit_and m.cr0 em_mask) (2 ^ 1);
      cr4 = bit_or (bit_or m.cr4 (2 ^ 9)) (2 ^ 10);
    }
    else m

-- The value that `xsetbv` is given, from the value that `xgetbv` gave.
unfoldable pub extend_xcr0 : Bool → ℕ → ℕ
extend_xcr0 avx512f xcr0 =
    let base = bit_or xcr0 7 in
    if avx512f then bit_or (bit_or (bit_or base (2 ^ 5)) (2 ^ 6)) (2 ^ 7) else base

unfoldable pub set_xcr0 : Machine → Machine
unfolding extend_xcr0 join_halves
set_xcr0 m =
    let xcr0 = join_halves (high_half m.xcr0) (low_half m.xcr0) in
    let value = extend_xcr0 m.features.avx512f xcr0 in
    record m { xcr0 = high_half value <<< 32 + low_half value }

-- `xgetbv` and `xsetbv` are invalid instructions, here `none`, while OSXSAVE (bit 18) of cr4 is clear.
unfoldable pub enable_avx : Machine → Option Machine
unfolding set_xcr0 has
enable_avx m = if m.features.avx then (if has 18 m.cr4 then some (set_xcr0 m) else none) else some m
