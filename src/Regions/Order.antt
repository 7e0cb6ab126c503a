-- ===== src/Regions/Order.antt =====
-- The order that mm/pmm.cpp keeps in `regions`: the regions are page ranges of the 64-bit address
-- space, ascending and disjoint. What joining two neighbours and splitting a region do to it.
use oronyx.Base.{ℕ, zero, suc, ◌+◌, ◌-◌, ◌%◌, ◌^◌, ◌≤◌, ◌<◌, ◌≡◌, arith, update, Bool, true, false}
use oronyx.Base.{◌&&◌, ltb, leb, if◌then◌else◌}
use native.Mathlib.Decide.{dec_le}
use oronyx.Base.Sums.{sum, sum-zero, add-le-sum}
use oronyx.Regions.{Region, Regions, page_size, max_regions}
use oronyx.Regions.Shift.{joined, absorbed, split_at, sum-absorbed, sum-split_at}

pub record IsTable (n : ℕ) (a : Regions) : Type 0 where
  pub count_in : n ≤ max_regions
  pub sized : (i : ℕ) → i < n → 0 < (a i).len
  pub inside : (i : ℕ) → i < n → (a i).base + (a i).len < 2 ^ 64
  pub aligned : (i : ℕ) → i < n → ((a i).base % page_size ≡ 0) × ((a i).len % page_size ≡ 0)
  pub apart : (i : ℕ) → suc i < n → (a i).base + (a i).len ≤ (a (suc i)).base

-- Whether a region holds the address `x`, and whether it does so as free memory.
abbrev pub holds : ℕ → Region → ℕ
holds x r = if leb r.base x && ltb x (r.base + r.len) then 1 else 0

abbrev pub holds_free : ℕ → Region → ℕ
holds_free x r = if r.is_free then holds x r else 0

abbrev pub free_len : Region → ℕ
free_len r = if r.is_free then r.len else 0

-- A measure of the regions that are not free.
abbrev pub used_by : (ℕ → ℕ → ℕ) → Region → ℕ
used_by g r = if r.is_free then 0 else g r.base r.len

module _ {n : ℕ} {a : Regions} (t : IsTable n a) where
  pub ascending : (k i : ℕ) → suc (i + k) < n → (a i).base + (a i).len ≤ (a (suc (i + k))).base
  ascending zero i h = let e : i + 0 ≡ i = omega arith in rw e (t.apart i (omega arith))
  ascending (suc k) i h =
      let e : i + suc k ≡ suc (i + k) = omega arith in
      rw e (omega (arith, ascending k i (omega arith), t.apart (suc (i + k)) (omega arith)))

  pub apart_lt : (i j : ℕ) → i < j → j < n → (a i).base + (a i).len ≤ (a j).base
  apart_lt i j h l =
      let e : suc (i + (j - suc i)) ≡ j = omega arith in
      rw e at (ascending (j - suc i) i (omega arith))

module _ {l : ℕ} {a : Regions} (t : IsTable (suc l) a) (i : ℕ) (below : i < l) where
  -- The lengths of neighbours add up with no wrap.
  pub len-joined : (joined a i).len ≡ (a i).len + (a (i + 1)).len
  len-joined =
      let e : i + 1 ≡ suc i = omega arith in
      rw e (omega (arith, t.apart i (omega arith), t.inside (suc i) (omega arith)))

  pub absorbed-IsTable : IsTable l (absorbed i l a)
  absorbed-IsTable = record {
    count_in = omega (arith, t.count_in);
    sized = λ m h. ground (arith, t.sized m, t.sized (m + 1), len-joined, t.sized i);
    inside = λ m h.
        ground (arith, t.inside m, t.inside (m + 1), len-joined, t.apart i, t.inside (i + 1));
    aligned = λ m h. (
      ground (arith, t.aligned m, t.aligned (m + 1)),
      ground (arith, t.aligned m, t.aligned (m + 1), len-joined, t.aligned i),
    );
    apart = λ m h. ground (arith, t.apart m, t.apart (m + 1), len-joined, t.apart i);
  }

  -- Neighbours that touch: the joined region holds what the two held, no more.
  pub sum-holds-absorbed :
      (x : ℕ)
      → (a i).base + (a i).len ≡ (a (i + 1)).base
      → sum (holds x) (absorbed i l a) l ≡ sum (holds x) a (suc l)
  sum-holds-absorbed x touch = ground (arith, sum-absorbed (holds x) i l a below, len-joined)

  -- The free bytes stay the same, wherever the two lie.
  pub sum-free_len-absorbed :
      (a i).is_free ≡ true
      → (a (i + 1)).is_free ≡ true
      → sum free_len (absorbed i l a) l ≡ sum free_len a (suc l)
  sum-free_len-absorbed f g = ground (arith, sum-absorbed free_len i l a below, len-joined)

-- The two parts that `alloc_pages` makes of a region.
abbrev pub front : ℕ → Region → Region
front sz r = record r { len = sz; is_free = false }

abbrev pub back : ℕ → Region → Region
back sz r = record { base = r.base + sz; len = r.len - sz; is_free = true }

module _ {n : ℕ} {a : Regions} (t : IsTable n a) (i sz : ℕ) (below : i < n) where
  pub split_at-IsTable :
      n < 64
      → 0 < sz
      → sz < (a i).len
      → sz % page_size ≡ 0
      → IsTable (suc n) (split_at i n (front sz (a i)) (back sz (a i)) a)
  split_at-IsTable room pos fits whole = record {
    count_in = omega arith;
    sized = λ m h. ground (arith, t.sized m, t.sized (m - 1));
    inside = λ m h. ground (arith, t.inside m, t.inside (m - 1), t.inside i);
    aligned = λ m h. (
      ground (arith, t.aligned m, t.aligned (m - 1), t.aligned i),
      ground (arith, t.aligned m, t.aligned (m - 1), t.aligned i),
    );
    apart = λ m h. ground (arith, t.apart m, t.apart (m - 1), t.apart i);
  }

  -- The parts hold what the region held; the front part is no longer free.
  pub sum-holds-split_at :
      (x : ℕ)
      → sz < (a i).len
      → sum (holds x) (split_at i n (front sz (a i)) (back sz (a i)) a) (suc n) ≡ sum (holds x) a n
  sum-holds-split_at x fits =
      ground (arith, sum-split_at (holds x) i n (front sz (a i)) (back sz (a i)) a below)

  pub sum-holds_free-split_at :
      (x : ℕ)
      → sz < (a i).len
      → (a i).is_free ≡ true
      → sum (holds_free x) (split_at i n (front sz (a i)) (back sz (a i)) a) (suc n)
          + holds x (front sz (a i))
        ≡ sum (holds_free x) a n
  sum-holds_free-split_at x fits free =
      ground (arith, sum-split_at (holds_free x) i n (front sz (a i)) (back sz (a i)) a below)

  pub sum-free_len-split_at :
      sz < (a i).len
      → (a i).is_free ≡ true
      → sum free_len (split_at i n (front sz (a i)) (back sz (a i)) a) (suc n) + sz
        ≡ sum free_len a n
  sum-free_len-split_at fits free =
      ground (arith, sum-split_at free_len i n (front sz (a i)) (back sz (a i)) a below)

-- Only the flag of one region changes.
abbrev pub flagged : Bool → ℕ → Regions → Regions
flagged b i a = update a i (record (a i) { is_free = b })

module _ {n : ℕ} {a : Regions} (t : IsTable n a) (i : ℕ) (below : i < n) where
  pub flagged-IsTable : (b : Bool) → IsTable n (flagged b i a)
  flagged-IsTable b = record {
    count_in = t.count_in;
    sized = λ m h. ground (arith, t.sized m);
    inside = λ m h. ground (arith, t.inside m);
    aligned = λ m h. (ground (arith, t.aligned m), ground (arith, t.aligned m));
    apart = λ m h. ground (arith, t.apart m);
  }

-- The free bytes lie below the end of the last region, so their sum does not wrap.
pub sum-free_len-le :
    (n : ℕ) (a : Regions)
    → ((i : ℕ) → suc i < suc n → (a i).base + (a i).len ≤ (a (suc i)).base)
    → sum free_len a (suc n) ≤ (a n).base + (a n).len
sum-free_len-le zero a apart = ground arith
sum-free_len-le (suc n) a apart =
    ground (arith, sum-free_len-le n a (λ i h. apart i (omega arith)), apart n (omega arith))

-- Ascending regions, of which no two hold the same address, are disjoint.
pub apart_of_holds :
    (n : ℕ) (a : Regions)
    → ((i : ℕ) → i < n → 0 < (a i).len)
    → ((p q : ℕ) → p < q → q < n → (a p).base ≤ (a q).base)
    → ((x : ℕ) → sum (holds x) a n ≤ 1)
    → (i : ℕ) → suc i < n
    → (a i).base + (a i).len ≤ (a (suc i)).base
apart_of_holds n a sized asc once i h = ground (
  arith,
  once (a (suc i)).base,
  add-le-sum (holds (a (suc i)).base) a i (suc i) n,
  asc i (suc i),
  sized (suc i),
)

-- The regions of a table do not overlap.
pub sum-holds-le : (n m x : ℕ) (a : Regions) → IsTable n a → m ≤ n → sum (holds x) a m ≤ 1
sum-holds-le n zero x a t l = omega arith
sum-holds-le n (suc m) x a t l = elim (dec_le (a m).base x) [
  | yes above ↦
      let before = sum-zero (holds x) a m (λ q k. ground (arith, apart_lt t q m k (omega arith))) in
      ground (arith, before)
  | no below ↦ ground (arith, sum-holds-le n m x a t (omega arith))
]
