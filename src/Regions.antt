-- ===== src/Regions.antt =====
-- The array `regions` of mm/pmm.cpp and the loops of `PMM` that work on it: the bubble sort and
-- the merging loop of `init`, and the loops that shift a tail of the array by one place.
-- An index outside the array is a fault: the `none` of a result.
pub mod Shift
pub mod Order
pub mod Sort
pub mod Merge
use oronyx.Base.{ℕ, zero, suc, ◌+◌, ◌-◌, u64, sub64, update, Bool, Option, none, some}
use oronyx.Base.{ltb, ◌==◌, if◌then◌else◌, ◌>>=◌}

pub record Region : Type 0 where
  pub base : ℕ
  pub len : ℕ
  pub is_free : Bool

abbrev pub page_size : ℕ
page_size = 4096

abbrev pub max_regions : ℕ
max_regions = 64

abbrev pub Regions : Type 0
Regions = ℕ → Region

-- `regions[i]` and `regions[i] = r`.
abbrev pub load : Regions → ℕ → Option Region
load a i = if ltb i max_regions then some (a i) else none

abbrev pub store : Regions → ℕ → Region → Option Regions
store a i r = if ltb i max_regions then some (update a i r) else none

-- One comparison of the bubble sort.
pub sort_step : ℕ → Regions → Option Regions
sort_step j a = do
  x ← load a j
  y ← load a (j + 1)
  if ltb y.base x.base then (do a' ← store a j y; store a' (j + 1) x) else some a

-- The inner loop, with `rounds` left from `j` on.
pub sort_pass : ℕ → ℕ → Regions → Option Regions
sort_pass zero j a = some a
sort_pass (suc rounds) j a = do a' ← sort_step j a; sort_pass rounds (j + 1) a'

-- The outer loop: the inner bound is `region_count - i - 1`.
pub sort_from : ℕ → ℕ → ℕ → Regions → Option Regions
sort_from zero i n a = some a
sort_from (suc rounds) i n a = do
  a' ← sort_pass (sub64 (sub64 n i) 1) 0 a
  sort_from rounds (i + 1) n a'

unfoldable pub sort : ℕ → Regions → Option Regions
unfolding sort_from sort_pass sort_step
sort n a = sort_from (sub64 n 1) 0 n a

-- `regions[j] = regions[j + 1]` for `rounds` values of `j`, upwards.
pub shift_down : ℕ → ℕ → Regions → Option Regions
shift_down zero j a = some a
shift_down (suc rounds) j a = do r ← load a (j + 1); a' ← store a j r; shift_down rounds (j + 1) a'

-- `regions[j] = regions[j - 1]` for `rounds` values of `j`, downwards.
unfoldable pub shift_up : ℕ → ℕ → Regions → Option Regions
shift_up zero j a = some a
shift_up (suc rounds) j a = do r ← load a (j - 1); a' ← store a j r; shift_up rounds (j - 1) a'

-- `regions[i].len += regions[i + 1].len`, and the tail from `i + 1` on moves down by one.
unfoldable pub absorb : ℕ → ℕ → Regions → Option Regions
unfolding shift_down
absorb i n a = do
  x ← load a i
  y ← load a (i + 1)
  a' ← store a i (record x { len = u64 (x.len + y.len) })
  shift_down (sub64 n 1 - (i + 1)) (i + 1) a'

-- `region_count` and `regions`.
abbrev pub Table : Type 0
Table = ℕ × Regions

-- The merging loop of `init` at `i`. A run out of fuel is a `none` too.
unfoldable pub merge_from : ℕ → ℕ → ℕ → Regions → Option Table
unfolding absorb
merge_from zero i n a = none
merge_from (suc fuel) i n a =
    let more : Option Table = (do
      x ← load a i
      y ← load a (i + 1)
      if u64 (x.base + x.len) == y.base
          then (do a' ← absorb i n a; merge_from fuel (u64 (sub64 i 1 + 1)) (sub64 n 1) a')
          else merge_from fuel (i + 1) n a) in
    if ltb i (sub64 n 1) then more else some (n, a)
