-- ===== src/Machine/Msr.antt =====
-- The model-specific registers go through two 32-bit halves.
use oronyx.Base.{ℕ, ◌+◌, ◌*◌, ◌/◌, ◌%◌, ◌^◌, ◌<◌, ◌≡◌, arith, ◌==◌, if◌then◌else◌, u64}
use oronyx.Base.{Bool-cases, inl, inr, refl}
use oronyx.Base.Bits.{bit_and-low, bit_or-parts, bit_or-zero, bit_or-zero_left}
use oronyx.Machine.{Machine, rdmsr, wrmsr, join_halves, high_half, low_half}

pub join_halves_lem : (v : ℕ) → v < 2 ^ 64 → join_halves (high_half v) (low_half v) ≡ v
unfolding join_halves
join_halves_lem v h =
    let low = bit_and-low 32 v in
    let fits : u64 (v / 2 ^ 32 * 2 ^ 32) ≡ v / 2 ^ 32 * 2 ^ 32 + 0 = omega arith in
    let none_above : v % 2 ^ 32 ≡ 0 * 2 ^ 32 + v % 2 ^ 32 = omega arith in
    let parts = bit_or-parts 32 (v / 2 ^ 32) 0 0 (v % 2 ^ 32) (omega arith) (omega arith) in
    rw (low, fits, none_above)
      (omega (arith, parts, bit_or-zero (v / 2 ^ 32), bit_or-zero_left (v % 2 ^ 32)))

-- A register that was written with a 64-bit value reads as it, and every other register as before.
rdmsr-wrmsr :
    (r q v : ℕ) (m : Machine)
    → v < 2 ^ 64
    → rdmsr q (wrmsr r v m) ≡ (if q == r then v else rdmsr q m)
unfolding rdmsr wrmsr
rdmsr-wrmsr r q v m h =
    let whole : v / 2 ^ 32 * 2 ^ 32 + low_half v ≡ v = omega (arith, bit_and-low 32 v) in
    elim (Bool-cases (q == r)) [
      | inl same ↦ rw (same, whole) (join_halves_lem v h)
      | inr other ↦ rw other refl
    ]
