-- ===== src/Regions/Sort.antt =====
-- The bubble sort of `PMM::init`: it stays inside the array, orders the regions by their base and
-- only exchanges them.
use oronyx.Base.{ℕ, zero, suc, ◌+◌, ◌-◌, ◌^◌, ◌≤◌, ◌<◌, ◌≡◌, refl, arith, ◌∙◌, sub64, update}
use oronyx.Base.{some, none, ltb, if◌then◌else◌}
use native.Mathlib.Decide.{dec_le, dec_lt}
use oronyx.Base.Sums.{sum, sum-swap}
use oronyx.Regions.{Region, Regions, sort_step, sort_pass, sort_from, sort}

abbrev stepped : ℕ → Regions → Regions
stepped j a =
    if ltb (a (j + 1)).base (a j).base then update (update a j (a (j + 1))) (j + 1) (a j) else a

sort_step_lem : (j : ℕ) (a : Regions) → j + 1 < 64 → sort_step j a ≡ some (stepped j a)
unfolding sort_step
sort_step_lem j a h = ground arith

sum-stepped :
    (f : Region → ℕ) (j n : ℕ) (a : Regions) → j + 1 < n → sum f (stepped j a) n ≡ sum f a n
sum-stepped f j n a h = ground (arith, sum-swap f a j (j + 1) n)

passed : ℕ → ℕ → Regions → Regions
passed zero j a = a
passed (suc k) j a = passed k (j + 1) (stepped j a)

sort_pass_lem : (k j : ℕ) (a : Regions) → j + k < 64 → sort_pass k j a ≡ some (passed k j a)
unfolding sort_pass passed
sort_pass_lem zero j a h = refl
sort_pass_lem (suc k) j a h =
    rw (sort_step_lem j a (omega arith)) (sort_pass_lem k (j + 1) (stepped j a) (omega arith))

sum-passed :
    (f : Region → ℕ) (k j n : ℕ) (a : Regions) → j + k < n → sum f (passed k j a) n ≡ sum f a n
unfolding passed
sum-passed f zero j n a h = refl
sum-passed f (suc k) j n a h =
    sum-passed f k (j + 1) n (stepped j a) (omega arith) ∙ sum-stepped f j n a (omega arith)

passed-above : (k j m : ℕ) (a : Regions) → j + k < m → passed k j a m ≡ a m
unfolding passed
passed-above zero j m a h = refl
passed-above (suc k) j m a h = ground (arith, passed-above k (j + 1) m (stepped j a))

passed-below : (k j m : ℕ) (a : Regions) → m < j → passed k j a m ≡ a m
unfolding passed
passed-below zero j m a h = refl
passed-below (suc k) j m a h = ground (arith, passed-below k (j + 1) m (stepped j a))

-- A pass keeps a common bound of the bases that it visits.
passed-le :
    (k j u : ℕ) (a : Regions)
    → ((m : ℕ) → j ≤ m → m ≤ j + k → (a m).base ≤ u)
    → (m : ℕ) → j ≤ m
    → m ≤ j + k
    → (passed k j a m).base ≤ u
unfolding passed
passed-le zero j u a h m l r = h m l r
passed-le (suc k) j u a h m l r = elim (dec_le (j + 1) m) [
  | yes p ↦
      passed-le k (j + 1) u (stepped j a) (λ q lo hi. ground (arith, h q, h j, h (j + 1))) m p
        (omega arith)
  | no p ↦ ground (arith, h j, h (j + 1), passed-below k (j + 1) m (stepped j a))
]

-- The last place, `e`, ends with a greatest base.
le-passed :
    (k j e m : ℕ) (a : Regions) → j + k ≡ e → j ≤ m → m ≤ e → (a m).base ≤ (passed k j a e).base
unfolding passed
le-passed zero j e m a end l r = let same : m ≡ e = omega arith in rw same (omega arith)
le-passed (suc k) j e m a end l r = elim (dec_le m (j + 1)) [
  | yes p ↦ ground (arith, le-passed k (j + 1) e (j + 1) (stepped j a))
  | no p ↦ ground (arith, le-passed k (j + 1) e m (stepped j a))
]

-- From `t` on each region has a base at least that of every earlier one.
abbrev IsSortedFrom : ℕ → ℕ → Regions → Type 0
IsSortedFrom t n a = (p q : ℕ) → p < q → q < n → t ≤ q → (a p).base ≤ (a q).base

passed-IsSortedFrom :
    (t n : ℕ) (a : Regions) → suc t ≤ n → IsSortedFrom (suc t) n a → IsSortedFrom t n (passed t 0 a)
passed-IsSortedFrom t n a h sorted p q lt below from = elim (dec_le q t) [
  | yes e ↦
      let same : q ≡ t = omega arith in
      rw same (
        passed-le t 0 (passed t 0 a t).base a
          (λ m lo hi. le-passed t 0 t m a (omega arith) lo (omega arith)) p (omega arith)
          (omega arith))
  | no e ↦ rw (passed-above t 0 q a (omega arith)) (elim (dec_le p t) [
    | yes l ↦
        passed-le t 0 (a q).base a (λ m lo hi. sorted m q (omega arith) below (omega arith)) p
          (omega arith) (omega arith)
    | no l ↦ rw (passed-above t 0 p a (omega arith)) (sorted p q lt below (omega arith))
  ])
]

-- The passes with the bounds `r`, `r - 1`, down to 1.
ordered : ℕ → Regions → Regions
ordered zero a = a
ordered (suc r) a = ordered r (passed (suc r) 0 a)

sort_from_lem :
    (r i n : ℕ) (a : Regions) → i + suc r ≡ n → n ≤ 64 → sort_from r i n a ≡ some (ordered r a)
unfolding sort_from ordered
sort_from_lem zero i n a e h = refl
sort_from_lem (suc r) i n a e h =
    let bound : sub64 (sub64 n i) 1 ≡ suc r = omega arith in
    rw (bound, sort_pass_lem (suc r) 0 a (omega arith))
      (sort_from_lem r (i + 1) n (passed (suc r) 0 a) (omega arith) h)

ordered-IsSortedFrom :
    (r n : ℕ) (a : Regions) → suc r ≤ n → IsSortedFrom (suc r) n a → IsSortedFrom 1 n (ordered r a)
unfolding ordered
ordered-IsSortedFrom zero n a h s = s
ordered-IsSortedFrom (suc r) n a h s =
    ordered-IsSortedFrom r n (passed (suc r) 0 a) (omega arith)
      (passed-IsSortedFrom (suc r) n a h s)

sum-ordered :
    (f : Region → ℕ) (r n : ℕ) (a : Regions) → suc r ≤ n → sum f (ordered r a) n ≡ sum f a n
unfolding ordered
sum-ordered f zero n a h = refl
sum-ordered f (suc r) n a h =
    sum-ordered f r n (passed (suc r) 0 a) (omega arith) ∙ sum-passed f (suc r) 0 n a (omega arith)

pub sorted : ℕ → Regions → Regions
unfolding ordered passed
sorted n a = ordered (n - 1) a

-- With one region or more the sort reads and writes inside the array only.
pub sort_lem : (n : ℕ) (a : Regions) → 0 < n → n ≤ 64 → sort n a ≡ some (sorted n a)
unfolding sort sorted
sort_lem n a h l =
    let bound : sub64 n 1 ≡ n - 1 = omega arith in
    rw bound (sort_from_lem (n - 1) 0 n a (omega arith) l)

pub sorted-le :
    (n : ℕ) (a : Regions)
    → 0 < n
    → (p q : ℕ) → p < q
    → q < n
    → (sorted n a p).base ≤ (sorted n a q).base
unfolding sorted
sorted-le n a h p q lt below =
    ordered-IsSortedFrom (n - 1) n a (omega arith) (λ p' q' lt' below' from. absurd (omega arith)) p
      q lt below (omega arith)

-- The sort keeps every sum over the regions, hence which regions there are and how often.
pub sum-sorted : (f : Region → ℕ) (n : ℕ) (a : Regions) → 0 < n → sum f (sorted n a) n ≡ sum f a n
unfolding sorted
sum-sorted f n a h = sum-ordered f (n - 1) n a (omega arith)

sort_pass_fault : (k j : ℕ) (a : Regions) → j < 64 → 63 < j + k → sort_pass k j a ≡ none
unfolding sort_pass sort_step
sort_pass_fault zero j a h l = absurd (omega arith)
sort_pass_fault (suc k) j a h l = elim (dec_lt (j + 1) 64) [
  | yes p ↦ rw (sort_step_lem j a p) (sort_pass_fault k (j + 1) (stepped j a) p (omega arith))
  | no p ↦ ground arith
]

sort_from_fault : (r : ℕ) (a : Regions) → sort_from (suc r) 0 0 a ≡ none
unfolding sort_from
sort_from_fault r a =
    rw (sort_pass_fault (sub64 (sub64 0 0) 1) 0 a (omega arith) (omega arith)) refl

-- With no region at all the loop bounds wrap around, and the sort leaves the array.
pub sort_fault : (a : Regions) → sort 0 a ≡ none
unfolding sort
sort_fault a = sort_from_fault (2 ^ 64 - 2) a
