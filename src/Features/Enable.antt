-- ===== src/Features/Enable.antt =====
-- What the enabling of the vector units does to each bit of the control registers.
use oronyx.Base.{
  ℕ, zero, suc, ◌+◌, ◌*◌, ◌/◌, ◌^◌, ◌≤◌, ◌<◌, ◌≡◌, refl, arith, Bool, true, false, ◌&&◌,
}
use oronyx.Base.{bit_and, bit_or, ◌==◌, leb, if◌then◌else◌, every, every_sound}
use oronyx.Base.Bits.{bit_and-low}
use oronyx.Base.BitAt.{
  bit_at, bit_at-lt, bit_at-zero, bit_at-pow, bit_at-bit_or, bit_at-bit_and, bit_or-lt,
}
use oronyx.Machine.{Machine, low_half}
use oronyx.Machine.Msr.{join_halves_lem}
use oronyx.Base.{Bool-cases, ◌⊎◌, inl, inr, some, none, ap, ◌∙◌}
use oronyx.Features.{has, enable_sse, enable_avx, set_xcr0, extend_xcr0, em_mask}
use oronyx.Features.Detect.{has-bit_at}

mask_table : every (λ k. bit_at k em_mask == (if k == 2 then 0 else 1)) 64 ≡ true
unfolding every bit_at
mask_table = refl

bit_at-em_mask : (k : ℕ) → k < 64 → bit_at k em_mask ≡ (if k == 2 then 0 else 1)
bit_at-em_mask k h =
    let row = every_sound (λ k. bit_at k em_mask == (if k == 2 then 0 else 1)) 64 k h mask_table in
    ground arith

-- On a processor with SSE `enable_sse` clears EM (bit 2) and sets MP (bit 1) of cr0, sets OSFXSR
-- (bit 9) and OSXMMEXCPT (bit 10) of cr4, and keeps every other bit of the two, OSXSAVE (bit 18)
-- included.
pub enable_sse_bits :
    (k : ℕ) (m : Machine)
    → k < 64
    → m.features.sse ≡ true
    → (bit_at k (enable_sse m).cr0 ≡ (if k == 2 then 0 else if k == 1 then 1 else bit_at k m.cr0))
      × (bit_at k (enable_sse m).cr4
          ≡ (if k == 9 then 1 else if k == 10 then 1 else bit_at k m.cr4))
unfolding enable_sse
enable_sse_bits k m h sse = (
  rw (sse, bit_at-bit_or k (bit_and m.cr0 em_mask) (2 ^ 1), bit_at-bit_and k m.cr0 em_mask)
      (ground (arith, bit_at-em_mask k h, bit_at-pow k 1, bit_at-lt k m.cr0)),
  rw (sse, bit_at-bit_or k (bit_or m.cr4 (2 ^ 9)) (2 ^ 10), bit_at-bit_or k m.cr4 (2 ^ 9))
      (ground (arith, bit_at-pow k 9, bit_at-pow k 10, bit_at-lt k m.cr4)),
)

without_sse :
    (m : Machine) → m.features.sse ≡ false → bit_at 18 (enable_sse m).cr4 ≡ bit_at 18 m.cr4
unfolding enable_sse
without_sse m h = rw h refl

bit_at-seven : (k : ℕ) → bit_at k 7 ≡ (if leb k 2 then 1 else 0)
unfolding bit_at
bit_at-seven zero = refl
bit_at-seven (suc zero) = refl
bit_at-seven (suc (suc zero)) = refl
bit_at-seven (suc (suc (suc k))) = ground (arith, bit_at-zero k)

-- The states that XCR0 turns on: x87, SSE and AVX, and the three of AVX-512.
abbrev pub is_vector_bit : Bool → ℕ → Bool
is_vector_bit avx512 k = if leb k 2 then true else avx512 && (leb 5 k && leb k 7)

bit_at-extend_xcr0 :
    (k : ℕ) (avx512 : Bool) (x : ℕ)
    → bit_at k (extend_xcr0 avx512 x) ≡ (if is_vector_bit avx512 k then 1 else bit_at k x)
unfolding extend_xcr0
bit_at-extend_xcr0 k false x =
    rw (bit_at-bit_or k x 7) (ground (arith, bit_at-seven k, bit_at-lt k x))
bit_at-extend_xcr0 k true x =
    rw
      (
        bit_at-bit_or k (bit_or (bit_or (bit_or x 7) (2 ^ 5)) (2 ^ 6)) (2 ^ 7),
        bit_at-bit_or k (bit_or (bit_or x 7) (2 ^ 5)) (2 ^ 6),
        bit_at-bit_or k (bit_or x 7) (2 ^ 5),
        bit_at-bit_or k x 7,
      )
      (ground
        (arith, bit_at-seven k, bit_at-pow k 5, bit_at-pow k 6, bit_at-pow k 7, bit_at-lt k x))

extend_xcr0-lt : (avx512 : Bool) (x : ℕ) → x < 2 ^ 64 → extend_xcr0 avx512 x < 2 ^ 64
unfolding extend_xcr0
extend_xcr0-lt false x h = bit_or-lt 64 x 7 h (omega arith)
extend_xcr0-lt true x h =
    bit_or-lt 64 _ (2 ^ 7)
      (bit_or-lt 64 _ (2 ^ 6)
        (bit_or-lt 64 _ (2 ^ 5) (bit_or-lt 64 x 7 h (omega arith)) (omega arith)) (omega arith))
      (omega arith)

-- What the processor wants of XCR0: x87 is on, AVX only with SSE, and the three states of AVX-512
-- all or none, and only with AVX.
abbrev pub IsXcr0 : ℕ → Type 0
IsXcr0 x =
    (bit_at 0 x ≡ 1)
    × (bit_at 2 x ≤ bit_at 1 x)
    × (bit_at 5 x ≡ bit_at 6 x)
    × (bit_at 6 x ≡ bit_at 7 x)
    × (bit_at 7 x ≤ bit_at 2 x)

extend_xcr0-IsXcr0 : (avx512 : Bool) (x : ℕ) → IsXcr0 x → IsXcr0 (extend_xcr0 avx512 x)
extend_xcr0-IsXcr0 avx512 x (b0, b1, b5, b6, b7) =
    let e = λ (k : ℕ). bit_at-extend_xcr0 k avx512 x in
    (
      ground (arith, e 0),
      ground (arith, e 1, e 2),
      ground (arith, e 5, e 6),
      ground (arith, e 6, e 7),
      ground (arith, e 7, e 2, bit_at-lt 7 x),
    )

set_xcr0_lem :
    (m : Machine) → m.xcr0 < 2 ^ 64 → (set_xcr0 m).xcr0 ≡ extend_xcr0 m.features.avx512f m.xcr0
unfolding set_xcr0
set_xcr0_lem m fits =
    let v = extend_xcr0 m.features.avx512f m.xcr0 in
    let whole : v / 2 ^ 32 * 2 ^ 32 + low_half v ≡ v = omega (arith, bit_and-low 32 v) in
    rw (join_halves_lem m.xcr0 fits, whole) refl

-- The state that `enable_avx` leaves if its instructions are valid.
abbrev pub with_avx : Machine → Machine
with_avx m = if m.features.avx then set_xcr0 m else m

pub enable_avx_valid :
    (m : Machine)
    → (m.features.avx ≡ false) ⊎ (bit_at 18 m.cr4 ≡ 1)
    → enable_avx m ≡ some (with_avx m)
unfolding enable_avx
enable_avx_valid m (inl no_avx) = rw no_avx refl
enable_avx_valid m (inr on) =
    let valid : has 18 m.cr4 ≡ true = ground (arith, has-bit_at 18 m.cr4) in
    elim (Bool-cases m.features.avx) [
      | inl avx ↦ rw (avx, valid) refl
      | inr no_avx ↦ rw no_avx refl
    ]

pub enable_avx_invalid :
    (m : Machine) → m.features.avx ≡ true → bit_at 18 m.cr4 ≡ 0 → enable_avx m ≡ none
unfolding enable_avx
enable_avx_invalid m avx off =
    let invalid : has 18 m.cr4 ≡ false = ground (arith, has-bit_at 18 m.cr4) in
    rw (avx, invalid) refl

pub enable_sse-osxsave : (m : Machine) → bit_at 18 (enable_sse m).cr4 ≡ bit_at 18 m.cr4
enable_sse-osxsave m = elim (Bool-cases m.features.sse) [
  | inl sse ↦ (enable_sse_bits 18 m (omega arith) sse).1
  | inr no_sse ↦ without_sse m no_sse
]

-- On a processor with AVX and with OSXSAVE (bit 18) of cr4 set, `enable_avx` returns: it turns on the
-- states x87, SSE and AVX of XCR0, with AVX-512 also its three states, and keeps every other bit. A
-- valid XCR0 stays valid.
pub enable_avx_bits :
    (k : ℕ) (m : Machine)
    → m.features.avx ≡ true
    → bit_at 18 m.cr4 ≡ 1
    → m.xcr0 < 2 ^ 64
    → IsXcr0 m.xcr0
    → (t : Machine) × (enable_avx m ≡ some t)
      × (bit_at k t.xcr0 ≡ (if is_vector_bit m.features.avx512f k then 1 else bit_at k m.xcr0))
      × IsXcr0 t.xcr0
enable_avx_bits k m avx on fits valid =
    let same : with_avx m ≡ set_xcr0 m = rw avx refl in
    (
      set_xcr0 m,
      enable_avx_valid m (inr on) ∙ ap (λ (t : Machine). some t) same,
      rw (set_xcr0_lem m fits) (bit_at-extend_xcr0 k m.features.avx512f m.xcr0),
      rw (set_xcr0_lem m fits) (extend_xcr0-IsXcr0 m.features.avx512f m.xcr0 valid),
    )
