-- ===== src/Pmm/History/Calls.antt =====
-- What callers of `alloc_pages` and `free_pages` can rely on, in any order of their calls.
use oronyx.Base.{refl, ◌∙◌, ℕ, ◌+◌, ◌*◌, ◌^◌, ◌≤◌, ◌<◌, ◌≡◌, ◌≢◌, ◌⊎◌, inl, inr, arith}
use oronyx.Base.{List, ◌∷◌, some}
use oronyx.Base.Sums.{sum, sum_le}
use oronyx.Regions.{page_size}
use oronyx.Regions.Order.{holds, free_len, used_by, sum-holds-le}
use oronyx.Pmm.{State, alloc_pages, free_pages, get_free_memory}
use oronyx.Pmm.Alloc.{IsValid, page_range}
use oronyx.Pmm.FirstFit.{no_room, no_fit, alloc_pages_outcome}
use oronyx.Pmm.Free.{free_pages-IsFreed}
use oronyx.Pmm.Total.{get_free_memory_lem}
use oronyx.Pmm.History.{
  Block, Removes, History, start, granted, refused, freed, total_of, total_of-Removes, bytes_of,
  frees,
}
use oronyx.Pmm.History.Kept.{
  IsKept, IsUnused, start-IsKept, granted-IsKept, held-IsUsed, freed-IsKept, printed-IsKept,
}

-- The regions of the two states hold the same addresses.
abbrev SameHeld : State → State → Type 0
SameHeld s u =
    (x : ℕ) → sum (holds x) u.regions u.region_count ≡ sum (holds x) s.regions s.region_count

-- A call for pages grants a block at an address that is not 0, or only prints.
abbrev Allocates : ℕ → State → State → List Block → Type 0
Allocates count s0 s held =
    ((p : ℕ) × (u : State) × (alloc_pages count s ≡ some (p, u))
      × (p ≢ 0)
      × SameHeld s u
      × IsKept s0 u ((p, count) ∷ held))
    ⊎ ((u : State) × (alloc_pages count s ≡ some (0, u)) × SameHeld s u × IsKept s0 u held)

alloc_pages_cases :
    (count : ℕ) (s0 s : State) (held : List Block)
    → IsKept s0 s held
    → 0 < count
    → count * page_size < 2 ^ 64
    → Allocates count s0 s held
alloc_pages_cases count s0 s held k pos small =
    elim (alloc_pages_outcome count s k.valid k.mapped pos small) [
      | inl (m, f, c, (u, run, g)) ↦ inl (
        (s.regions m).base,
        u,
        run,
        λ e. omega (arith, k.placed m f.below),
        g.same_held,
        granted-IsKept s0 s u held (s.regions m).base count k g,
      )
      | inr (inl (m, f, l, full, run)) ↦
          inr (no_room s, run, λ x. refl, printed-IsKept s0 s held (no_room s).log k)
      | inr (inr (none_fits, run)) ↦
          inr (no_fit s, run, λ x. refl, printed-IsKept s0 s held (no_fit s).log k)
    ]

-- A held block can be given back.
free_pages_case :
    (s0 s : State) (held rest : List Block) (p count : ℕ)
    → IsKept s0 s held
    → Removes (p, count) held rest
    → (u : State) × (free_pages p count s ≡ some u) × IsKept s0 u rest
free_pages_case s0 s held rest p count k r =
    let (i, used) = held-IsUsed s held rest p count (λ g. omega (arith, k.used g)) r in
    let small : count * page_size < 2 ^ 64 =
      ground (arith, k.valid.inside i used.below, used.range) in
    let (u, run, f) = free_pages-IsFreed p count i s k.valid small used in
    (u, run, freed-IsKept s0 s u held rest p count i k r used.below f)

pub History-IsKept :
    {s0 s : State} {held : List Block} → IsUnused s0 → History s0 s held → IsKept s0 s held
History-IsKept {s0} t start = start-IsKept s0 t
History-IsKept {s0} t (granted {s} {held} count p u h pos small e ne) =
    elim (alloc_pages_cases count s0 s held (History-IsKept t h) pos small) [
      | inl (q, v, run, _, _, k) ↦
          let same_p : q ≡ p = cc in let same_u : v ≡ u = cc in rw (same_p, same_u) at k
      | inr (v, run, _, k) ↦ absurd (ne (cc))
    ]
History-IsKept {s0} t (refused {s} {held} count u h pos small e) =
    elim (alloc_pages_cases count s0 s held (History-IsKept t h) pos small) [
      | inl (q, v, run, ne, _, k) ↦ absurd (ne (cc))
      | inr (v, run, _, k) ↦ let same_u : v ≡ u = cc in rw same_u at k
    ]
History-IsKept {s0} t (freed {s} {held} {rest} count p u h r e) =
    let (v, run, k) = free_pages_case s0 s held rest p count (History-IsKept t h) r in
    let same_u : v ≡ u = cc in rw same_u at k

-- Calls of `alloc_pages` alone keep the addresses that the regions hold.
pub frees-SameHeld :
    {s0 s : State} {held : List Block} (h : History s0 s held)
    → IsUnused s0
    → frees h ≡ 0
    → SameHeld s0 s
unfolding frees
frees-SameHeld start t e = λ x. refl
frees-SameHeld {s0} (granted {s} {held} count p u h pos small run ne) t e =
    elim (alloc_pages_cases count s0 s held (History-IsKept t h) pos small) [
      | inl (q, v, run', _, same, _) ↦
          λ x. let same_u : v ≡ u = cc in (rw same_u at (same x)) ∙ frees-SameHeld h t e x
      | inr (v, run', _, _) ↦ absurd (ne (cc))
    ]
frees-SameHeld {s0} (refused {s} {held} count u h pos small run) t e =
    elim (alloc_pages_cases count s0 s held (History-IsKept t h) pos small) [
      | inl (q, v, run', ne, _, _) ↦ absurd (ne (cc))
      | inr (v, run', same, _) ↦
          λ x. let same_u : v ≡ u = cc in (rw same_u at (same x)) ∙ frees-SameHeld h t e x
    ]
frees-SameHeld (freed count p u h r run) t e = absurd (omega arith)

-- From a state with all memory free whose regions are valid, mapped below 2 ^ 64 and not at 0, after any
-- calls for one page or more, of less than 2 ^ 64 bytes, and any calls that free held blocks:
-- the state is valid, no address is in two held blocks, and the free memory that the manager reports
-- is the memory at the start without the held blocks.
pub History_exclusive :
    {s0 s : State} {held : List Block} (x : ℕ)
    → IsUnused s0
    → History s0 s held
    → IsValid s
      × (total_of (λ p size. holds x (page_range p size)) held ≤ 1)
      × ((n : ℕ) × (m : ℕ) × (get_free_memory s0 ≡ some n)
          × (get_free_memory s ≡ some m)
          × (m + bytes_of held ≡ n))
History_exclusive {s0} {s} {held} x t h =
    let k = History-IsKept t h in
    let g : ℕ → ℕ → ℕ = λ p size. holds x (page_range p size) in
    (
      k.valid,
      omega (
        arith,
        k.used g,
        sum_le (used_by g) (holds x) s.regions s.region_count (λ m l. ground arith),
        sum-holds-le s.region_count s.region_count x s.regions k.valid (omega arith),
      ),
      (
        sum free_len s0.regions s0.region_count,
        sum free_len s.regions s.region_count,
        get_free_memory_lem s0 t.valid,
        get_free_memory_lem s k.valid,
        k.bytes,
      ),
    )

-- From a state with all memory free whose regions are valid, mapped below 2 ^ 64 and not at 0, after any
-- calls for one page or more, of less than 2 ^ 64 bytes, and any calls that free held blocks: one more
-- such call for pages grants a block or returns 0, without an access outside `regions`.
pub History_allocates :
    {s0 s : State} {held : List Block} (count : ℕ)
    → IsUnused s0
    → History s0 s held
    → 0 < count
    → count * page_size < 2 ^ 64
    → ((q : ℕ) × (u : State) × (alloc_pages count s ≡ some (q, u))
        × (q ≢ 0)
        × History s0 u ((q, count) ∷ held))
      ⊎ ((u : State) × (alloc_pages count s ≡ some (0, u)) × History s0 u held)
History_allocates {s0} {s} {held} count t h pos small =
    elim (alloc_pages_cases count s0 s held (History-IsKept t h) pos small) [
      | inl (q, u, run, ne, _, _) ↦ inl (q, u, run, ne, granted count q u h pos small run ne)
      | inr (u, run, _, _) ↦ inr (u, run, refused count u h pos small run)
    ]

-- From a state with all memory free whose regions are valid, mapped below 2 ^ 64 and not at 0, after any
-- calls for one page or more, of less than 2 ^ 64 bytes, and any calls that free held blocks: one more
-- call that frees a held block returns, without an access outside `regions`, and the free memory that
-- the manager reports grows by the size of the block.
pub History_frees :
    {s0 s : State} {held rest : List Block} (p count : ℕ)
    → IsUnused s0
    → History s0 s held
    → Removes (p, count) held rest
    → (u : State) × (free_pages p count s ≡ some u)
      × History s0 u rest
      × ((n : ℕ) × (get_free_memory s ≡ some n)
          × (get_free_memory u ≡ some (n + count * page_size)))
History_frees {s0} {s} {held} {rest} p count t h r =
    let k = History-IsKept t h in
    let (u, run, k') = free_pages_case s0 s held rest p count k r in
    let sized = total_of-Removes (λ q size. size) p count r in
    let grown : sum free_len u.regions u.region_count
        ≡ sum free_len s.regions s.region_count + count * page_size =
      omega (arith, k.bytes, k'.bytes, sized) in
    (
      u,
      run,
      freed count p u h r run,
      (
        sum free_len s.regions s.region_count,
        get_free_memory_lem s k.valid,
        rw grown at (get_free_memory_lem u k'.valid),
      ),
    )
