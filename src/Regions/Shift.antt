-- ===== src/Regions/Shift.antt =====
-- The shifting loops of mm/pmm.cpp: which array they leave, in one expression, and what that does
-- to a sum over the regions.
use oronyx.Base.{ℕ, zero, suc, ◌+◌, ◌-◌, ◌≤◌, ◌<◌, ◌≡◌, arith, ap, fun_ext, u64, sub64, update}
use oronyx.Base.{◌&&◌, some, ltb, leb, if◌then◌else◌}
use oronyx.Base.Sums.{sum, sum-update, sum-insert}
use oronyx.Regions.{Region, Regions, shift_down, shift_up, absorb}

-- The elements after `lo` up to `hi` move down, or those from `lo` to below `hi` move up.
abbrev pub moved_down : ℕ → ℕ → Regions → Regions
moved_down lo hi a m = if leb lo m && ltb m hi then a (m + 1) else a m

abbrev pub moved_up : ℕ → ℕ → Regions → Regions
moved_up lo hi a m = if ltb lo m && leb m hi then a (m - 1) else a m

moved_down-none : (j : ℕ) (a : Regions) → moved_down j (j + 0) a ≡ a
moved_down-none j a = fun_ext λ m. ground arith

moved_down-suc :
    (k j : ℕ) (a : Regions)
    → moved_down (j + 1) (j + 1 + k) (update a j (a (j + 1))) ≡ moved_down j (j + suc k) a
moved_down-suc k j a = fun_ext λ m. ground arith

pub shift_down_lem :
    (k j : ℕ) (a : Regions) → j + k < 64 → shift_down k j a ≡ some (moved_down j (j + k) a)
unfolding shift_down
shift_down_lem zero j a h = ground (arith, moved_down-none j a)
shift_down_lem (suc k) j a h =
    ground (arith, shift_down_lem k (j + 1) (update a j (a (j + 1))), moved_down-suc k j a)

moved_up-none : (j : ℕ) (a : Regions) → moved_up (j - 0) j a ≡ a
moved_up-none j a = fun_ext λ m. ground arith

moved_up-suc :
    (k j : ℕ) (a : Regions)
    → suc k ≤ j
    → moved_up (j - 1 - k) (j - 1) (update a j (a (j - 1))) ≡ moved_up (j - suc k) j a
moved_up-suc k j a h = fun_ext λ m. ground arith

pub shift_up_lem :
    (k j : ℕ) (a : Regions) → k ≤ j → j < 64 → shift_up k j a ≡ some (moved_up (j - k) j a)
unfolding shift_up
shift_up_lem zero j a h l = ground (arith, moved_up-none j a)
shift_up_lem (suc k) j a h l =
    ground (arith, shift_up_lem k (j - 1) (update a j (a (j - 1))), moved_up-suc k j a)

-- The region that `absorb` leaves at `i`, and the array, `l` the last index before.
abbrev pub joined : Regions → ℕ → Region
joined a i = record (a i) { len = u64 ((a i).len + (a (i + 1)).len) }

abbrev pub absorbed : ℕ → ℕ → Regions → Regions
absorbed i l a = moved_down (i + 1) l (update a i (joined a i))

pub absorb_lem :
    (i l : ℕ) (a : Regions) → i < l → l < 64 → absorb i (suc l) a ≡ some (absorbed i l a)
unfolding absorb
absorb_lem i l a h k =
    let e : sub64 (suc l) 1 - (i + 1) ≡ l - (i + 1) = omega arith in
    let e' : i + 1 + (l - (i + 1)) ≡ l = omega arith in
    ground (arith, e, e', shift_down_lem (l - (i + 1)) (i + 1) (update a i (joined a i)))

pub absorb_at :
    (i n : ℕ) (a : Regions) → suc i < n → n ≤ 64 → absorb i n a ≡ some (absorbed i (n - 1) a)
absorb_at i zero a h k = absurd (omega arith)
absorb_at i (suc l) a h k =
    let e : suc l - 1 ≡ l = omega arith in rw e (absorb_lem i l a (omega arith) (omega arith))

-- The joined region replaces the two.
pub sum-absorbed :
    (f : Region → ℕ) (i l : ℕ) (a : Regions)
    → i < l
    → sum f (absorbed i l a) l + f (a i) + f (a (i + 1)) ≡ sum f a (suc l) + f (joined a i)
sum-absorbed f i l a h =
    let b = update a i (joined a i) in
    let rest : sum f b (suc l) ≡ sum f (absorbed i l a) l + f (b (i + 1)) =
      sum-insert f (absorbed i l a) b (i + 1) l (omega arith) (λ m q. ground arith)
        (λ m q r. ground arith) in
    let eb : b (i + 1) ≡ a (i + 1) = ground arith in
    omega (arith, rest, ap f eb, sum-update f a i (joined a i) (suc l) (omega arith))

-- The array with the region at `i` split in two.
abbrev pub split_at : ℕ → ℕ → Region → Region → Regions → Regions
split_at i n x y a = update (update (moved_up (i + 1) n a) (i + 1) y) i x

pub sum-split_at :
    (f : Region → ℕ) (i n : ℕ) (x y : Region) (a : Regions)
    → i < n
    → sum f (split_at i n x y a) (suc n) + f (a i) ≡ sum f a n + f x + f y
sum-split_at f i n x y a h =
    let b = update a i x in
    let rest : sum f (split_at i n x y a) (suc n) ≡ sum f b n + f (split_at i n x y a (i + 1)) =
      sum-insert f b (split_at i n x y a) (i + 1) n (omega arith) (λ m q. ground arith)
        (λ m q r. ground arith) in
    let ey : split_at i n x y a (i + 1) ≡ y = ground arith in
    omega (arith, rest, ap f ey, sum-update f a i x n h)
