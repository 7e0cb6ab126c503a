-- ===== src/Paging/Shared/Tests.antt =====
-- A page table and a caller's block from one manager.
use oronyx.Base.{ℕ, Option, none, some, List, [], ◌∷◌, update}
use oronyx.Pmm.{alloc_pages}
use oronyx.Pmm.History.{Block}
use oronyx.Paging.{State, map_page}
use oronyx.Paging.Tests.{one_page}
use oronyx.Paging.Sample.{empty_tables}
use oronyx.Paging.Shared.{fill, with_pmm, write_word}

-- Three pages are tables behind the call of `map_page`, and the next two are a block.
abbrev pmm_of : Option (ℕ × oronyx.Pmm.State) → oronyx.Pmm.State
pmm_of none = empty_tables.pmm
pmm_of (some t) = t.1

unfoldable block_taken : State
unfolding alloc_pages map_page one_page
block_taken = with_pmm (pmm_of (alloc_pages 2 one_page.pmm)) one_page

unfoldable block_written : State
unfolding block_taken
block_written = write_word 0x6008 77 block_taken

abbrev blocks : List Block
blocks = (0x6000, 2) ∷ []

abbrev words : ℕ → ℕ
words = update (fill 0x6000 0x2000 (λ x. 0)) 0x6008 77
