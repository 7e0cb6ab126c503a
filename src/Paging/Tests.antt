-- ===== src/Paging/Tests.antt =====
-- The theorems on paging at concrete tables.
use oronyx.Paging.Sample.{empty_tables, empty_tables-IsBlank}
use oronyx.Base.{◌≡◌, refl, arith, Option, some, none, false, [], ◌==◌, if◌then◌else◌, ◌>>=◌}
use oronyx.Paging.{State, map_page}
use oronyx.Paging.Tables.{translate, HasDirectory}
use oronyx.Paging.Refine.{remap, Remaps, IsRemapped, map_page-Remaps}
use oronyx.Paging.RefineLarge.{map_page_remaps_large}
use oronyx.Paging.Runs.{Run, start, mapped, Run-Stands, blank-IsClear}

-- Tables of three levels at 0x1000, 0x2000 and 0x3000, and an empty one at 0x4000.
abbrev tables : State
tables = record {
  pmm = record {
    regions = λ i. record { base = 0; len = 0; is_free = false };
    region_count = 0;
    hhdm_offset = 0;
    memory = λ a.
        if a == 0x1000
        then 0x2003
        else if a == 0x2000
        then 0x3003
        else if a == 0x3000
        then 0x4003
        else 0;
    log = [];
  };
  hhdm_offset = 0;
  cr3 = 0x1000;
  flushed = [];
}

unmapped : translate 0x5678 tables ≡ none
unfolding translate
unmapped = refl

empty_tables_run : (map_page 0x5678 0x9000 3 empty_tables >>= λ s. translate 0x5678 s) ≡ some 0x9678
unfolding map_page translate
empty_tables_run = refl

-- After one call.
abbrev pub state_of : Option State → State
state_of none = empty_tables
state_of (some s) = s

unfoldable pub one_page : State
unfolding map_page
one_page = state_of (map_page 0x5678 0x9000 3 empty_tables)

one_page-Run : Run empty_tables one_page (remap 12 0x5678 0x9000 (λ v. none))
unfolding map_page one_page
one_page-Run = mapped 0x5678 0x9000 3 one_page start (omega arith) refl refl refl refl

map_page-Remaps_example : Remaps 0x7000 0xa000 3 one_page
map_page-Remaps_example =
    map_page-Remaps 0x7000 0xa000 3 one_page (omega arith) refl refl
      (Run-Stands empty_tables-IsBlank one_page-Run).space
      ((Run-Stands empty_tables-IsBlank one_page-Run).clear 0x7000
        (blank-IsClear empty_tables empty_tables-IsBlank 0x7000))

one_page-HasDirectory : HasDirectory 0x205678 one_page
unfolding map_page one_page
one_page-HasDirectory = (refl, refl, refl)

map_page_remaps_large_example :
    (s' : State) × (map_page 0x205678 0x60_0000 0x83 one_page ≡ some s')
    × IsRemapped 21 0x205678 0x60_0000 one_page s'
map_page_remaps_large_example =
    map_page_remaps_large 0x205678 0x60_0000 0x83 one_page (omega arith) refl refl
      (Run-Stands empty_tables-IsBlank one_page-Run).space one_page-HasDirectory
