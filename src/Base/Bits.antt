-- ===== src/Base/Bits.antt =====
-- Laws of `&` and `|` with masks of adjacent bits, at every width.
use Prim.Native.Nat.{ℕ, zero, suc, ◌+◌, ◌-◌, ◌*◌, ◌/◌, ◌%◌, ◌^◌, ◌≤◌, ◌<◌}
use Prim.Native.Nat.{min, max, digits, bitwise, bit_and, bit_or, bit_and-bitwise, bit_or-bitwise}
use mathlib.Core.Path.{◌≡◌, refl, ap}
use native.Mathlib.Nat.{le_refl, pow-suc, one-le-pow, div-add-mod'}
use native.Mathlib.Omega.{arith}

-- `digits` counts its rounds down; from the first operand on, more rounds change nothing.
module _ (low : ℕ → ℕ) (join : ℕ → ℕ → ℕ) where
  digits-zero : (rounds b : ℕ) → digits low join rounds 0 b ≡ low b
  digits-zero zero b = refl
  digits-zero (suc rounds) b = refl

  digits_settled :
      (k l a b : ℕ) → a < suc k → a < suc l → digits low join k a b ≡ digits low join l a b
  digits_settled k l zero b hk hl = rw (digits-zero k b, digits-zero l b)
  digits_settled zero l (suc a) b hk hl = absurd (omega arith)
  digits_settled (suc k) zero (suc a) b hk hl = absurd (omega arith)
  digits_settled (suc k) (suc l) (suc a) b hk hl =
      ap (λ (t : ℕ). t * 2 + join (suc a % 2) (b % 2))
        (digits_settled k l (suc a / 2) (b / 2) (omega arith) (omega arith))

  halve : (a b : ℕ) → digits low join a (suc a / 2) b ≡ bitwise low join (suc a / 2) b
  halve a b = digits_settled a (suc a / 2) (suc a / 2) b (omega arith) (omega arith)

-- The lowest digit, split off.
pub bit_and_halves : (x y : ℕ) → min (x % 2) (y % 2) + 2 * bit_and (x / 2) (y / 2) ≡ bit_and x y
bit_and_halves zero y = simp bit_and-bitwise (omega arith)
bit_and_halves (suc x) y = omega (
  arith,
  bit_and-bitwise (suc x) y,
  bit_and-bitwise (suc x / 2) (y / 2),
  halve (λ c. 0) min x (y / 2),
)

pub bit_or_halves : (x y : ℕ) → max (x % 2) (y % 2) + 2 * bit_or (x / 2) (y / 2) ≡ bit_or x y
bit_or_halves zero y = simp bit_or-bitwise (omega arith)
bit_or_halves (suc x) y = omega (
  arith,
  bit_or-bitwise (suc x) y,
  bit_or-bitwise (suc x / 2) (y / 2),
  halve (λ c. c) max x (y / 2),
)

bit_and-zero_below : (n a : ℕ) → a ≤ n → bit_and a 0 ≡ 0
bit_and-zero_below n zero h = refl
bit_and-zero_below zero (suc a) h = absurd (omega arith)
bit_and-zero_below (suc n) (suc a) h =
    omega (arith, bit_and_halves (suc a) 0, bit_and-zero_below n (suc a / 2) (omega arith))

pub bit_and-zero : (a : ℕ) → bit_and a 0 ≡ 0
bit_and-zero a = bit_and-zero_below a a (le_refl _)

bit_or-zero_below : (n a : ℕ) → a ≤ n → bit_or a 0 ≡ a
bit_or-zero_below n zero h = refl
bit_or-zero_below zero (suc a) h = absurd (omega arith)
bit_or-zero_below (suc n) (suc a) h =
    omega (arith, bit_or_halves (suc a) 0, bit_or-zero_below n (suc a / 2) (omega arith))

pub bit_or-zero : (a : ℕ) → bit_or a 0 ≡ a
bit_or-zero a = bit_or-zero_below a a (le_refl _)

bit_or-zero_left_below : (n a : ℕ) → a ≤ n → bit_or 0 a ≡ a
bit_or-zero_left_below n zero h = refl
bit_or-zero_left_below zero (suc a) h = absurd (omega arith)
bit_or-zero_left_below (suc n) (suc a) h =
    omega (arith, bit_or_halves 0 (suc a), bit_or-zero_left_below n (suc a / 2) (omega arith))

pub bit_or-zero_left : (a : ℕ) → bit_or 0 a ≡ a
bit_or-zero_left a = bit_or-zero_left_below a a (le_refl _)

two_mul_pow : (q k : ℕ) → q * 2 ^ suc k ≡ 2 * (q * 2 ^ k)
two_mul_pow q k = omega (arith, ap (λ (t : ℕ). q * t) (pow-suc 2 k))

-- Both operands split into a part above bit `k` and one below it.
pub bit_and-parts :
    (k p q r s : ℕ)
    → r < 2 ^ k
    → s < 2 ^ k
    → bit_and (p * 2 ^ k + r) (q * 2 ^ k + s) ≡ bit_and p q * 2 ^ k + bit_and r s
bit_and-parts zero p q r s hr hs =
    let er : r ≡ 0 = omega arith in
    let es : s ≡ 0 = omega arith in
    let ep : p * 2 ^ 0 + r ≡ p = omega arith in
    let eq : q * 2 ^ 0 + s ≡ q = omega arith in rw (ep, eq, er, es, bit_and-zero) (omega arith)
bit_and-parts (suc k) p q r s hr hs = ground (
  arith,
  bit_and_halves (p * 2 ^ suc k + r) (q * 2 ^ suc k + s),
  bit_and_halves r s,
  two_mul_pow p k,
  two_mul_pow q k,
  two_mul_pow (bit_and p q) k,
  pow-suc 2 k,
  bit_and-parts k p q (r / 2) (s / 2) (omega arith) (omega arith),
)

pub bit_or-parts :
    (k p q r s : ℕ)
    → r < 2 ^ k
    → s < 2 ^ k
    → bit_or (p * 2 ^ k + r) (q * 2 ^ k + s) ≡ bit_or p q * 2 ^ k + bit_or r s
bit_or-parts zero p q r s hr hs =
    let er : r ≡ 0 = omega arith in
    let es : s ≡ 0 = omega arith in
    let ep : p * 2 ^ 0 + r ≡ p = omega arith in
    let eq : q * 2 ^ 0 + s ≡ q = omega arith in rw (ep, eq, er, es, bit_or-zero) (omega arith)
bit_or-parts (suc k) p q r s hr hs = ground (
  arith,
  bit_or_halves (p * 2 ^ suc k + r) (q * 2 ^ suc k + s),
  bit_or_halves r s,
  two_mul_pow p k,
  two_mul_pow q k,
  two_mul_pow (bit_or p q) k,
  pow-suc 2 k,
  bit_or-parts k p q (r / 2) (s / 2) (omega arith) (omega arith),
)

-- The mask of `k` ones keeps what fits in `k` bits.
pub bit_and-ones : (k a : ℕ) → a < 2 ^ k → bit_and a (2 ^ k - 1) ≡ a
bit_and-ones zero a h = let e : a ≡ 0 = omega arith in rw e refl
bit_and-ones (suc k) a h = ground (
  arith,
  bit_and_halves a (2 ^ suc k - 1),
  pow-suc 2 k,
  one-le-pow k 2,
  bit_and-ones k (a / 2) (omega (arith, pow-suc 2 k)),
)

-- Clearing the low 12 bits of a 64-bit word.
pub bit_and-pages : (x : ℕ) → x < 2 ^ 64 → bit_and x 0xffff_ffff_ffff_f000 ≡ x / 4096 * 4096
bit_and-pages x h =
    let e : x / 4096 * 2 ^ 12 + x % 4096 ≡ x = omega arith in
    let parts = bit_and-parts 12 (x / 4096) (2 ^ 52 - 1) (x % 4096) 0 (omega arith) (omega arith) in
    omega (arith, rw e at parts, bit_and-ones 52 (x / 4096) (omega arith), bit_and-zero (x % 4096))

pub bit_and-large_pages :
    (x : ℕ) → x < 2 ^ 64 → bit_and x 0xffff_ffff_ffe0_0000 ≡ x / 2 ^ 21 * 2 ^ 21
bit_and-large_pages x h =
    let e : x / 2 ^ 21 * 2 ^ 21 + x % 2 ^ 21 ≡ x = omega arith in
    let parts =
      bit_and-parts 21 (x / 2 ^ 21) (2 ^ 43 - 1) (x % 2 ^ 21) 0 (omega arith) (omega arith) in
    omega
      (arith, rw e at parts, bit_and-ones 43 (x / 2 ^ 21) (omega arith), bit_and-zero (x % 2 ^ 21))

-- The `k` low bits.
pub bit_and-low : (k a : ℕ) → bit_and a (2 ^ k - 1) ≡ a % 2 ^ k
bit_and-low k a =
    let pos = one-le-pow k 2 in
    let e = div-add-mod' a (2 ^ k) in
    let small : a % 2 ^ k < 2 ^ k = omega (arith, pos (omega arith)) in
    let parts =
      bit_and-parts k (a / 2 ^ k) 0 (a % 2 ^ k) (2 ^ k - 1) small
        (omega (arith, pos (omega arith))) in
    let z : 0 * 2 ^ k + (2 ^ k - 1) ≡ 2 ^ k - 1 = omega arith in
    let whole : bit_and a (2 ^ k - 1)
        ≡ bit_and (a / 2 ^ k) 0 * 2 ^ k + bit_and (a % 2 ^ k) (2 ^ k - 1) =
      rw (e, z) at parts in
    rw (whole, bit_and-zero, bit_and-ones k (a % 2 ^ k) small) (omega arith)
