-- ===== src/Base/Sums.antt =====
-- Sums over the first `n` elements of an array, and what writes, insertions and swaps do to them.
use mathlib.Core.Logic.{◌≢◌}
use mathlib.Core.Path.{refl, ◌≡◌}
use Prim.Native.Nat.{suc, zero, ℕ, ◌<◌, ◌≤◌, ◌+◌}
use native.Mathlib.Decide.{dec_le, dec_lt}
use native.Mathlib.Omega.{arith}
use oronyx.Base.Array.{update}

module _ {A : Type 0} (f : A → ℕ) where
  abbrev pub sum : (ℕ → A) → ℕ → ℕ
  sum a zero = 0
  sum a (suc n) = sum a n + f (a n)

  pub sum_ext : (a b : ℕ → A) (n : ℕ) → ((m : ℕ) → m < n → a m ≡ b m) → sum a n ≡ sum b n
  sum_ext a b zero h = refl
  sum_ext a b (suc n) h =
      rw (h n (omega arith)) (omega (arith, sum_ext a b n (λ m l. h m (omega arith))))

  pub sum-update_out : (a : ℕ → A) (i : ℕ) (v : A) (n : ℕ) → n ≤ i → sum (update a i v) n ≡ sum a n
  sum-update_out a i v zero h = refl
  sum-update_out a i v (suc n) h = ground (arith, sum-update_out a i v n)

  -- A write at `i` exchanges one term.
  pub sum-update :
      (a : ℕ → A) (i : ℕ) (v : A) (n : ℕ) → i < n → sum (update a i v) n + f (a i) ≡ sum a n + f v
  sum-update a i v zero h = absurd (omega arith)
  sum-update a i v (suc n) h = ground (arith, sum-update a i v n, sum-update_out a i v n)

  -- `b` is `a` with one more element, at the index `i`.
  pub sum-insert :
      (a b : ℕ → A) (i n : ℕ)
      → i ≤ n
      → ((m : ℕ) → m < i → b m ≡ a m)
      → ((m : ℕ) → i ≤ m → m < n → b (suc m) ≡ a m)
      → sum b (suc n) ≡ sum a n + f (b i)
  sum-insert a b i zero l before after = let e : i ≡ 0 = omega arith in rw e refl
  sum-insert a b i (suc n) l before after = elim (dec_le i n) [
    | yes p ↦
        rw (after n p (omega arith))
          (omega (arith, sum-insert a b i n p before (λ m q r. after m q (omega arith))))
    | no p ↦
        let e : i ≡ suc n = omega arith in
        rw e (omega (arith, sum_ext b a (suc n) (λ m q. before m (omega arith))))
  ]

  -- Two terms are at most the sum.
  pub le-sum : (a : ℕ → A) (i n : ℕ) → i < n → f (a i) ≤ sum a n
  le-sum a i zero h = absurd (omega arith)
  le-sum a i (suc n) h = elim (dec_lt i n) [
    | yes p ↦ omega (arith, le-sum a i n p)
    | no p ↦ let e : i ≡ n = omega arith in rw e (omega arith)
  ]

  pub sum-zero : (a : ℕ → A) (n : ℕ) → ((m : ℕ) → m < n → f (a m) ≡ 0) → sum a n ≡ 0
  sum-zero a zero h = refl
  sum-zero a (suc n) h = omega (arith, h n (omega arith), sum-zero a n (λ m l. h m (omega arith)))

  -- A positive sum has a positive term.
  pub sum_pos : (a : ℕ → A) (n : ℕ) → 0 < sum a n → (m : ℕ) × (m < n) × (0 < f (a m))
  sum_pos a zero h = absurd (omega arith)
  sum_pos a (suc n) h = elim (dec_lt 0 (f (a n))) [
    | yes p ↦ (n, omega arith, p)
    | no p ↦ let (m, l, q) = sum_pos a n (omega arith) in (m, omega arith, q)
  ]

  pub add-le-sum : (a : ℕ → A) (i j n : ℕ) → i < j → j < n → f (a i) + f (a j) ≤ sum a n
  add-le-sum a i j zero h l = absurd (omega arith)
  add-le-sum a i j (suc n) h l = elim (dec_lt j n) [
    | yes p ↦ omega (arith, add-le-sum a i j n h p)
    | no p ↦ let e : j ≡ n = omega arith in rw e (omega (arith, le-sum a i n (omega arith)))
  ]

  -- An exchange of two elements.
  pub sum-swap :
      (a : ℕ → A) (i j n : ℕ)
      → i ≢ j
      → i < n
      → j < n
      → sum (update (update a i (a j)) j (a i)) n ≡ sum a n
  sum-swap a i j n d h l =
      ground (arith, sum-update a i (a j) n h, sum-update (update a i (a j)) j (a i) n l)

pub sum_le :
    {A : Type 0} (f g : A → ℕ) (a : ℕ → A) (n : ℕ)
    → ((m : ℕ) → m < n → f (a m) ≤ g (a m))
    → sum f a n ≤ sum g a n
sum_le f g a zero h = omega arith
sum_le f g a (suc n) h = omega (arith, h n (omega arith), sum_le f g a n (λ m l. h m (omega arith)))
