-- ===== src/Pmm/History/Tests.antt =====
-- The theorems on calls of the memory manager, at concrete states.
use oronyx.Regions.{page_size}
use oronyx.Base.{inl, ℕ, ◌+◌, ◌*◌, ◌≢◌, ◌⊎◌, ◌≤◌, ◌≡◌, refl, arith, some, none}
use oronyx.Base.{Option, List, [], ◌∷◌}
use oronyx.Base.Sums.{sum}
use oronyx.Regions.Order.{holds, holds_free}
use oronyx.Pmm.{State, init, alloc_pages, free_pages, get_free_memory}
use oronyx.Pmm.Entries.{total, entry_holds_page}
use oronyx.Pmm.Alloc.{IsValid, page_range}
use oronyx.Pmm.History.{Block, History, start, granted, here, total_of, bytes_of}
use oronyx.Pmm.History.Kept.{IsUnused}
use oronyx.Pmm.History.Calls.{History_exclusive, History_allocates, History_frees}
use oronyx.Pmm.History.Memory.{IsReachable, init-History}
use oronyx.Pmm.Tests.{nothing, memmap, kept-memmap, one_region, one_region-IsValid}

one_region-IsUnused : IsUnused one_region
one_region-IsUnused = record {
  valid = one_region-IsValid;
  mapped = λ i h. omega arith;
  placed = λ i h. omega arith;
  free = λ i h. refl;
}

-- After a call for one page, and after one more call for two pages.
abbrev state_of : State → Option (ℕ × State) → State
state_of s none = s
state_of s (some t) = t.1

unfoldable page_taken : State
unfolding alloc_pages
page_taken = state_of one_region (alloc_pages 1 one_region)

unfoldable pages_taken : State
unfolding alloc_pages page_taken
pages_taken = state_of page_taken (alloc_pages 2 page_taken)

abbrev blocks : List Block
blocks = (0x4000, 2) ∷ (0x3000, 1) ∷ []

pages_taken-History : History one_region pages_taken blocks
unfolding alloc_pages page_taken pages_taken
pages_taken-History =
    granted 2 0x4000 pages_taken
      (granted 1 0x3000 page_taken start (omega arith) (omega arith) refl (omega arith))
      (omega arith) (omega arith) refl (omega arith)

History_exclusive_example :
    IsValid pages_taken
    × (total_of (λ p size. holds 0x3800 (page_range p size)) blocks ≤ 1)
    × ((n : ℕ) × (m : ℕ) × (get_free_memory one_region ≡ some n)
        × (get_free_memory pages_taken ≡ some m)
        × (m + bytes_of blocks ≡ n))
History_exclusive_example = History_exclusive 0x3800 one_region-IsUnused pages_taken-History

History_allocates_example :
    ((q : ℕ) × (u : State) × (alloc_pages 1 pages_taken ≡ some (q, u))
      × (q ≢ 0)
      × History one_region u ((q, 1) ∷ blocks))
    ⊎ ((u : State) × (alloc_pages 1 pages_taken ≡ some (0, u)) × History one_region u blocks)
History_allocates_example =
    History_allocates 1 one_region-IsUnused pages_taken-History (omega arith) (omega arith)

History_frees_example :
    (u : State) × (free_pages 0x4000 2 pages_taken ≡ some u)
    × History one_region u ((0x3000, 1) ∷ [])
    × ((n : ℕ) × (get_free_memory pages_taken ≡ some n)
        × (get_free_memory u ≡ some (n + 2 * page_size)))
History_frees_example =
    History_frees 0x4000 2 one_region-IsUnused pages_taken-History (here ((0x3000, 1) ∷ []))

-- The states behind `init` and behind one more call for three pages.
abbrev state_or : Option State → State
state_or none = nothing
state_or (some s) = s

unfoldable started : State
unfolding init
started = state_or (init (some memmap) 0x10_0000 nothing)

unfoldable three_taken : State
unfolding started init alloc_pages
three_taken = state_of started (alloc_pages 3 started)

three_taken-History : History started three_taken ((0x3000, 3) ∷ [])
unfolding started three_taken init alloc_pages
three_taken-History =
    granted 3 0x3000 three_taken start (omega arith) (omega arith) refl (omega arith)

started_run : init (some memmap) 0x10_0000 nothing ≡ some started
unfolding init started
started_run = refl

started_single : started.region_count ≡ 1
unfolding init started
started_single = refl

memmap-IsReachable : IsReachable memmap 0x10_0000
memmap-IsReachable = record { mapped = λ x h. ground arith; no_zero = refl }

init-History_example :
    total_of (λ p size. holds 0x4800 (page_range p size)) ((0x3000, 3) ∷ [])
      + sum (holds_free 0x4800) three_taken.regions three_taken.region_count
    ≡ total (entry_holds_page 0x4800) memmap
init-History_example =
    init-History memmap 0x10_0000 nothing started three_taken ((0x3000, 3) ∷ []) 0x4800 refl
      (omega arith) (omega (arith, kept-memmap)) (omega (arith, kept-memmap)) (λ x. ground arith)
      memmap-IsReachable started_run three_taken-History (inl started_single)
