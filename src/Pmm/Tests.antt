-- ===== src/Pmm/Tests.antt =====
-- Runs of the memory manager, and its theorems at concrete states.
use oronyx.Base.{ℕ, ◌+◌, ◌%◌, ◌^◌, ◌*◌, ◌≤◌, ◌≡◌, refl, arith, true, false, some, none}
use oronyx.Base.{Option, List, [], ◌∷◌, ◌==◌, if◌then◌else◌, ◌>>=◌}
use oronyx.Base.Sums.{sum}
use oronyx.Regions.{page_size}
use oronyx.Regions.Order.{holds, holds_free}
use mathlib.Core.Option
use oronyx.Pmm.{
  State, Entry, init, aligned_base, aligned_end, alloc_pages, free_pages, get_free_memory,
}
use oronyx.Pmm.Entries.{kept, total}
use oronyx.Pmm.Init.{IsInitialized, init-IsInitialized, init-fault}
use oronyx.Pmm.Alloc.{IsValid, IsGranted, exact, exact-IsGranted}
use oronyx.Pmm.Joins.{Touching}
use oronyx.Pmm.FirstFit.{AllocReply, alloc_pages_outcome, alloc_pages_wraps}
use oronyx.Pmm.Free.{IsFreed, free_pages-IsFreed}
use oronyx.Pmm.Total.{free_pages-IsGranted}
use oronyx.Pmm.Outcome.{Replies, free_pages_outcome}
use oronyx.Pmm.Gap.{free_pages_gap}

abbrev pub nothing : State
nothing = record {
  regions = λ i. record { base = 0; len = 0; is_free = false };
  region_count = 0;
  hhdm_offset = 0;
  memory = λ x. 7;
  log = [];
}

-- Two usable ranges that touch, out of order and not on page bounds, and a reserved one.
abbrev pub memmap : List Entry
memmap =
    record { base = 0x5000; length = 0x2800; type = 0 }
    ∷ record { base = 0x1000; length = 0x1000; type = 1 }
    ∷ record { base = 0x2800; length = 0x2800; type = 0 }
    ∷ []

abbrev bases : State → List ℕ
bases s = s.region_count ∷ (s.regions 0).base ∷ (s.regions 0).len ∷ []

init_runs :
    Option.map bases (init (some memmap) 0x10_0000 nothing) ≡ some (1 ∷ 0x3000 ∷ 0x4000 ∷ [])
unfolding init
init_runs = refl

pub kept-memmap : total kept memmap ≡ 2
unfolding aligned_base aligned_end
kept-memmap = refl

init-IsInitialized_example :
    (s' : State) × (init (some memmap) 0x10_0000 nothing ≡ some s')
    × IsInitialized memmap 0x10_0000 nothing s'
init-IsInitialized_example =
    init-IsInitialized memmap 0x10_0000 nothing refl (omega arith) (omega (arith, kept-memmap))
      (omega (arith, kept-memmap)) (λ x. ground arith)

abbrev reserved_only : List Entry
reserved_only = record { base = 0x1000; length = 0x1000; type = 1 } ∷ []

init-fault_example : init (some reserved_only) 0 nothing ≡ none
init-fault_example = init-fault reserved_only 0 nothing refl (omega arith) refl

-- Used pages at 0x1000 and free ones at 0x4000, with a gap between.
abbrev two_regions : State
two_regions = record nothing {
  regions = λ i.
      if i == 0
      then record { base = 0x1000; len = 0x1000; is_free = true }
      else record { base = 0x4000; len = 0x2000; is_free = false };
  region_count = 2;
}

two_regions-IsValid : IsValid two_regions
two_regions-IsValid = record {
  count_in = omega arith;
  sized = λ i h. ground arith;
  inside = λ i h. ground arith;
  aligned = λ i h. (ground arith, ground arith);
  apart = λ i h. ground arith;
}

free_pages_gap_example :
    (s' : State) × (free_pages 0x4000 2 two_regions ≡ some s')
    × (sum (holds 0x2000) two_regions.regions 2 ≡ 0)
    × (1 ≤ sum (holds_free 0x2000) s'.regions s'.region_count)
free_pages_gap_example =
    free_pages_gap 0x4000 2 0 two_regions two_regions-IsValid (omega arith)
      (record { below = omega arith; range = refl }) refl (omega arith)

free_pages-IsFreed_example :
    (s' : State) × (free_pages 0x4000 2 two_regions ≡ some s')
    × IsFreed 0x4000 0x2000 1 two_regions s'
free_pages-IsFreed_example =
    free_pages-IsFreed 0x4000 2 1 two_regions two_regions-IsValid (omega arith)
      (record { below = omega arith; range = refl })

abbrev pub one_region : State
one_region = record nothing {
  regions = λ i. record { base = 0x3000; len = 0x4000; is_free = true };
  region_count = 1;
  hhdm_offset = 0x10_0000;
}

pub one_region-IsValid : IsValid one_region
one_region-IsValid = record {
  count_in = omega arith;
  sized = λ i h. omega arith;
  inside = λ i h. omega arith;
  aligned = λ i h. (refl, refl);
  apart = λ i h. omega arith;
}

abbrev answer : Option (ℕ × State) → Option (List ℕ)
answer r = Option.map (λ t. t.0 ∷ t.1.memory 0x10_3000 ∷ bases t.1) r

alloc_pages_runs : answer (alloc_pages 1 one_region) ≡ some (0x3000 ∷ 0 ∷ 2 ∷ 0x3000 ∷ 0x1000 ∷ [])
unfolding alloc_pages
alloc_pages_runs = refl

alloc_pages_outcome_example : AllocReply 1 one_region
alloc_pages_outcome_example =
    alloc_pages_outcome 1 one_region one_region-IsValid (λ i h. omega arith) (omega arith)
      (omega arith)

alloc_pages_wraps_example :
    (alloc_pages (2 ^ 52) one_region ≡ alloc_pages (2 ^ 52 % 2 ^ 52) one_region)
    × ((u : State) × (alloc_pages 0 one_region ≡ some ((one_region.regions 0).base, u))
        × (u.region_count ≡ one_region.region_count + 1)
        × ((u.regions 0).len ≡ 0)
        × ((u.regions (0 + 1)).base ≡ (one_region.regions 0).base)
        × ((u.regions (0 + 1)).is_free ≡ true)
        × ¬ IsValid u)
alloc_pages_wraps_example =
    alloc_pages_wraps (2 ^ 52) 0 one_region one_region-IsValid (omega arith)
      (record { below = omega arith; fit = refl; first = λ q h. absurd (omega arith) })

-- A call for all four pages, and their release.
abbrev all_granted : State
all_granted = exact 0x4000 0 one_region

all_granted-IsGranted : IsGranted (4 * page_size) one_region 0x3000 all_granted
all_granted-IsGranted =
    exact-IsGranted 0x4000 0 one_region one_region-IsValid (λ i h. omega arith) (omega arith) refl
      (omega arith) refl refl

free_pages-IsGranted_example :
    (s'' : State) × (free_pages 0x3000 4 all_granted ≡ some s'')
    × (get_free_memory s'' ≡ get_free_memory one_region)
    × (Touching all_granted-IsGranted.place all_granted
        → (x : ℕ)
        → sum (holds_free x) s''.regions s''.region_count ≡ sum (holds_free x) one_region.regions 1)
free_pages-IsGranted_example =
    free_pages-IsGranted 4 0x3000 one_region all_granted one_region-IsValid (omega arith)
      all_granted-IsGranted

-- The region at 0x1000 is free already.
free_pages_outcome_example : Replies 0x1000 1 two_regions
free_pages_outcome_example = free_pages_outcome 0x1000 1 two_regions two_regions-IsValid

-- Two usable pages with a reserved one between them, a call for a page, its release, and a call for
-- two pages.
abbrev split_memmap : List Entry
split_memmap =
    record { base = 0x1000; length = 0x1000; type = 0 }
    ∷ record { base = 0x2000; length = 0x1000; type = 1 }
    ∷ record { base = 0x3000; length = 0x1000; type = 0 }
    ∷ []

reserved_granted :
    (do
      s ← init (some split_memmap) 0x10_0000 nothing
      t ← alloc_pages 1 s
      s ← free_pages t.0 1 t.1
      r ← alloc_pages 2 s
      some (t.0 ∷ r.0 ∷ []))
    ≡ some (0x1000 ∷ 0x1000 ∷ [])
unfolding init alloc_pages free_pages
reserved_granted = refl
