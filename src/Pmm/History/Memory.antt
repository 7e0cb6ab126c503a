-- ===== src/Pmm/History/Memory.antt =====
-- Calls of `alloc_pages` and `free_pages` after `PMM::init`, against the memory map.
use oronyx.Base.{◌⊎◌, inl, inr, ℕ, zero, suc, ◌+◌, ◌-◌, ◌^◌, ◌≤◌, ◌<◌, ◌≡◌, refl, arith, List, some}
use oronyx.Base.Sums.{sum, le-sum}
use oronyx.Regions.{Regions}
use oronyx.Regions.Order.{holds, holds_free, used_by}
use oronyx.Pmm.{State, Entry, init}
use oronyx.Pmm.Entries.{kept, total, entry_holds, entry_holds_page, AllFit}
use oronyx.Pmm.Init.{IsInitialized, init-IsInitialized}
use oronyx.Pmm.Alloc.{page_range}
use oronyx.Pmm.History.{Block, History, total_of, frees}
use oronyx.Pmm.History.Kept.{IsUnused}
use oronyx.Pmm.History.Calls.{History-IsKept, frees-SameHeld}

sum_split :
    (x : ℕ) (a : Regions) (n : ℕ)
    → sum (holds_free x) a n + sum (used_by (λ p size. holds x (page_range p size))) a n
      ≡ sum (holds x) a n
sum_split x a zero = refl
sum_split x a (suc n) = ground (arith, sum_split x a n)

-- `offset` maps the pages of `es` that are usable inside the address space, and the page at 0 is not
-- usable.
pub record IsReachable (es : List Entry) (offset : ℕ) : Type 0 where
  pub mapped : (x : ℕ) → 0 < total (entry_holds_page x) es → x + offset < 2 ^ 64
  pub no_zero : total (entry_holds_page 0) es ≡ 0

module _ (es : List Entry) (offset : ℕ) (s s' : State) (i : IsInitialized es offset s s')
    (r : IsReachable es offset) where
  -- A region's address is usable.
  usable :
      (x m : ℕ)
      → m < s'.region_count
      → holds x (s'.regions m) ≡ 1
      → 0 < total (entry_holds_page x) es
  usable x m l h = omega (arith, h, le-sum (holds x) s'.regions m s'.region_count l, i.held x)

  IsInitialized-IsUnused : IsUnused s'
  IsInitialized-IsUnused = record {
    valid = i.table;
    mapped = λ m l.
        let p = s'.regions m in
        let last = p.base + p.len - 1 in
        ground (
          arith,
          i.offset_set,
          i.table.sized m l,
          r.mapped last (usable last m l (ground (arith, i.table.sized m l))),
        );
    placed = λ m l. ground (arith, r.no_zero, i.table.sized m l, usable 0 m l);
    free = i.free;
  }

-- From a manager without regions, on a memory map of entries whose bounds do not wrap around, the
-- usable ones disjoint and with one to 64 ranges of whole pages, all of them mapped and none at 0: after
-- `init`, any calls for one page or more, of less than 2 ^ 64 bytes, and any calls that free held
-- blocks, if `init` leaves one region or none of the calls frees, each address is in one held block or
-- free, not both, if a usable entry holds its whole page, and else in none of them.
pub init-History :
    (es : List Entry) (offset : ℕ) (s s' u : State) (held : List Block) (x : ℕ)
    → s.region_count ≡ 0
    → AllFit es
    → 0 < total kept es
    → total kept es ≤ 64
    → ((x : ℕ) → total (entry_holds x) es ≤ 1)
    → IsReachable es offset
    → init (some es) offset s ≡ some s'
    → (h : History s' u held) → (s'.region_count ≡ 1) ⊎ (frees h ≡ 0)
    → total_of (λ p size. holds x (page_range p size)) held
        + sum (holds_free x) u.regions u.region_count
      ≡ total (entry_holds_page x) es
init-History es offset s s' u held x fresh fit some_kept few once r e h safe =
    let (v, run, i) = init-IsInitialized es offset s fresh fit some_kept few once in
    let same : v ≡ s' = cc in
    let j = rw same at i in
    let unused = IsInitialized-IsUnused es offset s s' j r in
    let k = History-IsKept unused h in
    let same : sum (holds x) u.regions u.region_count ≡ sum (holds x) s'.regions s'.region_count =
      elim safe [
        | inl single ↦ (k.whole (λ m l. absurd (omega arith))).same x
        | inr none_freed ↦ frees-SameHeld h unused none_freed x
      ] in
    omega (
      arith,
      j.held x,
      same,
      k.used (λ p size. holds x (page_range p size)),
      sum_split x u.regions u.region_count,
    )
