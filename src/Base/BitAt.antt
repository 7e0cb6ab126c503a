-- ===== src/Base/BitAt.antt =====
-- Single bits of a number, and what `&` and `|` do to each of them.
use Prim.Native.Nat.{ℕ, zero, suc, ◌*◌, ◌/◌, ◌%◌, ◌^◌, ◌<◌, min, max, bit_and, bit_or}
use mathlib.Core.Path.{◌≡◌, refl, ap}
use native.Mathlib.Nat.{pow-suc}
use native.Mathlib.Omega.{arith}
use oronyx.Base.Tests.{◌==◌, if◌then◌else◌}
use oronyx.Base.Bits.{bit_and_halves, bit_or_halves, bit_and-zero}

-- Bit `k` of `a`, counted from the lowest.
unfoldable pub bit_at : ℕ → ℕ → ℕ
bit_at zero a = a % 2
bit_at (suc k) a = bit_at k (a / 2)

pub bit_at-lt : (k a : ℕ) → bit_at k a < 2
unfolding bit_at
bit_at-lt zero a = omega arith
bit_at-lt (suc k) a = bit_at-lt k (a / 2)

pub bit_at-bit_or : (k a b : ℕ) → bit_at k (bit_or a b) ≡ max (bit_at k a) (bit_at k b)
unfolding bit_at
bit_at-bit_or zero a b = omega (arith, bit_or_halves a b)
bit_at-bit_or (suc k) a b =
    let half : bit_or a b / 2 ≡ bit_or (a / 2) (b / 2) = omega (arith, bit_or_halves a b) in
    rw half (bit_at-bit_or k (a / 2) (b / 2))

pub bit_at-bit_and : (k a b : ℕ) → bit_at k (bit_and a b) ≡ min (bit_at k a) (bit_at k b)
unfolding bit_at
bit_at-bit_and zero a b = omega (arith, bit_and_halves a b)
bit_at-bit_and (suc k) a b =
    let half : bit_and a b / 2 ≡ bit_and (a / 2) (b / 2) = omega (arith, bit_and_halves a b) in
    rw half (bit_at-bit_and k (a / 2) (b / 2))

pub bit_at-zero : (k : ℕ) → bit_at k 0 ≡ 0
unfolding bit_at
bit_at-zero zero = refl
bit_at-zero (suc k) = bit_at-zero k

pub bit_at-pow : (k j : ℕ) → bit_at k (2 ^ j) ≡ (if k == j then 1 else 0)
unfolding bit_at
bit_at-pow zero zero = refl
bit_at-pow zero (suc j) = ground (arith, pow-suc 2 j)
bit_at-pow (suc k) zero = ground (arith, bit_at-zero k)
bit_at-pow (suc k) (suc j) =
    let half : 2 ^ suc j / 2 ≡ 2 ^ j = omega (arith, pow-suc 2 j) in
    rw half (ground (arith, bit_at-pow k j))

-- The mask of one bit keeps that bit.
pub bit_and-pow : (k a : ℕ) → bit_and a (2 ^ k) ≡ bit_at k a * 2 ^ k
unfolding bit_at
bit_and-pow zero a = omega (arith, bit_and_halves a 1, bit_and-zero (a / 2))
bit_and-pow (suc k) a =
    let half : 2 ^ suc k / 2 ≡ 2 ^ k = omega (arith, pow-suc 2 k) in
    let halves = bit_and_halves a (2 ^ suc k) in
    omega (
      arith,
      rw half at halves,
      bit_and-pow k (a / 2),
      ap (λ (t : ℕ). bit_at k (a / 2) * t) (pow-suc 2 k),
      pow-suc 2 k,
    )

pub bit_or-lt : (k a b : ℕ) → a < 2 ^ k → b < 2 ^ k → bit_or a b < 2 ^ k
bit_or-lt zero a b ha hb =
    let ea : a ≡ 0 = omega arith in let eb : b ≡ 0 = omega arith in rw (ea, eb) (omega arith)
bit_or-lt (suc k) a b ha hb =
    let p = pow-suc 2 k in
    omega (arith, bit_or_halves a b, bit_or-lt k (a / 2) (b / 2) (omega arith) (omega arith))
