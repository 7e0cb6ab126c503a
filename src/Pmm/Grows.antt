-- ===== src/Pmm/Grows.antt =====
-- What every call of `alloc_pages` keeps, whatever it answers.
use oronyx.Base.{ℕ, ◌≤◌, arith, List}
use oronyx.Base.Sums.{sum}
use oronyx.Regions.Order.{used_by}
use oronyx.Pmm.{State, Print}
use oronyx.Pmm.Alloc.{IsTiled, IsGranted}

-- Regions without gaps stay so, and used regions stay used.
pub record Grows (s s' : State) : Type 0 where
  pub tiled : IsTiled s → IsTiled s'
  pub used :
      (g : ℕ → ℕ → ℕ)
      → sum (used_by g) s.regions s.region_count ≤ sum (used_by g) s'.regions s'.region_count

-- Only the memory or the log differ.
pub printed-Grows :
    (s : State) (memory : ℕ → ℕ) (log : List Print)
    → Grows s (record s { memory = memory; log = log })
printed-Grows s memory log = record { tiled = λ c. c; used = λ g. omega arith }

pub Grows-trans : {s t u : State} → Grows s t → Grows t u → Grows s u
Grows-trans a b = record {
  tiled = λ c. b.tiled (a.tiled c);
  used = λ g. omega (arith, a.used g, b.used g);
}

pub granted-Grows : {sz p : ℕ} {s s' : State} → IsGranted sz s p s' → Grows s s'
granted-Grows g = record { tiled = g.tiled; used = λ f. omega (arith, g.used_more f) }
