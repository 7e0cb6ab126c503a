-- ===== src/Paging/Shared.antt =====
-- One memory manager under both kinds of callers, in any order: `map_page`, which takes pages for
-- tables, and callers of `alloc_pages` that write into their blocks and free them.
pub mod Kept
pub mod Steps
pub mod Release
pub mod Invariant
pub mod Isolation
mod Tests
use oronyx.Base.{
  ℕ, suc, ◌+◌, ◌*◌, ◌%◌, ◌^◌, ◌<◌, ◌≡◌, ◌≢◌, Option, none, some, List, [], ◌∷◌, bit_and, update,
  ◌==◌, if◌then◌else◌,
}
use oronyx.Regions.{page_size}
use oronyx.Regions.Order.{holds}
use oronyx.Pmm.{alloc_pages, free_pages}
use oronyx.Pmm.Alloc.{page_range}
use oronyx.Pmm.History.{Block, Removes, total_of}
use oronyx.Paging.{State, map_page, huge}
use oronyx.Paging.Tables.{translate}
use oronyx.Paging.Clear.{IsClear}
use oronyx.Paging.Refine.{remap}

abbrev pub with_pmm : oronyx.Pmm.State → State → State
with_pmm q t = record t { pmm = q }

-- How many of the blocks hold a physical address.
abbrev pub held_at : ℕ → List Block → ℕ
held_at x held = total_of (λ p size. holds x (page_range p size)) held

-- `alloc_pages` clears the block.
abbrev pub fill : ℕ → ℕ → (ℕ → ℕ) → ℕ → ℕ
fill p size words x = if holds x (page_range p size) == 1 then 0 else words x

-- A caller's write at a physical address.
abbrev pub write_word : ℕ → ℕ → State → State
write_word x value t =
    with_pmm (record t.pmm { memory = update t.pmm.memory (x + t.hhdm_offset) value }) t

-- The states that calls lead to from tables with no large page on the way of the pages to map, with
-- the function from virtual to physical addresses that the calls
-- of `map_page` ask for, the blocks that callers hold, and the words that they have written.
pub data Use (s : State) : State → (ℕ → Option ℕ) → List Block → (ℕ → ℕ) → Type 0 where
  start : Use s s (λ v. translate v s) [] (λ x. 0)
  mapped :
      {t : State} {f : ℕ → Option ℕ} {held : List Block} {words : ℕ → ℕ} (virt phys flags : ℕ)
      (u : State)
      → Use s t f held words
      → IsClear virt s
      → phys < 2 ^ 64
      → flags % 2 ≡ 1
      → bit_and flags huge ≡ 0
      → map_page virt phys flags t ≡ some u
      → u.flushed ≡ virt ∷ t.flushed
      → Use s u (remap 12 virt phys f) held words
  left :
      {t : State} {f : ℕ → Option ℕ} {held : List Block} {words : ℕ → ℕ} (virt phys flags : ℕ)
      (u : State)
      → Use s t f held words
      → IsClear virt s
      → phys < 2 ^ 64
      → flags % 2 ≡ 1
      → bit_and flags huge ≡ 0
      → map_page virt phys flags t ≡ some u
      → u.flushed ≡ t.flushed
      → Use s u f held words
  granted :
      {t : State} {f : ℕ → Option ℕ} {held : List Block} {words : ℕ → ℕ} (count p : ℕ)
      (q : oronyx.Pmm.State)
      → Use s t f held words
      → 0 < count
      → count * page_size < 2 ^ 64
      → alloc_pages count t.pmm ≡ some (p, q)
      → p ≢ 0
      → Use s (with_pmm q t) f ((p, count) ∷ held) (fill p (count * page_size) words)
  refused :
      {t : State} {f : ℕ → Option ℕ} {held : List Block} {words : ℕ → ℕ} (count : ℕ)
      (q : oronyx.Pmm.State)
      → Use s t f held words
      → 0 < count
      → count * page_size < 2 ^ 64
      → alloc_pages count t.pmm ≡ some (0, q)
      → Use s (with_pmm q t) f held words
  written :
      {t : State} {f : ℕ → Option ℕ} {held : List Block} {words : ℕ → ℕ} (x value : ℕ)
      → Use s t f held words
      → 0 < held_at x held
      → Use s (write_word x value t) f held (update words x value)
  freed :
      {t : State} {f : ℕ → Option ℕ} {held rest : List Block} {words : ℕ → ℕ} (count p : ℕ)
      (q : oronyx.Pmm.State)
      → Use s t f held words
      → Removes (p, count) held rest
      → free_pages p count t.pmm ≡ some q
      → Use s (with_pmm q t) f rest words

-- The number of calls of `free_pages`.
unfoldable pub frees :
    {s t : State} {f : ℕ → Option ℕ} {held : List Block} {words : ℕ → ℕ} → Use s t f held words → ℕ
frees start = 0
frees (mapped virt phys flags u h c small odd page e flushed) = frees h
frees (left virt phys flags u h c small odd page e flushed) = frees h
frees (granted count p q h pos small e ne) = frees h
frees (refused count q h pos small e) = frees h
frees (written x value h own) = frees h
frees (freed count p q h r e) = suc (frees h)
