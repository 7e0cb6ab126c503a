-- ===== src/Paging/Sample.antt =====
-- A page table without entries, as a first table, for the tests.
use oronyx.Base.{refl, arith, true, []}
use oronyx.Paging.{State}
use oronyx.Paging.Fresh.{IsReady}
use oronyx.Paging.Runs.{IsBlank}

-- An empty first table, and eight free pages.
abbrev pub empty_tables : State
empty_tables = record {
  pmm = record {
    regions = λ i. record { base = 0x3000; len = 0x8000; is_free = true };
    region_count = 1;
    hhdm_offset = 0x10_0000;
    memory = λ a. 0;
    log = [];
  };
  hhdm_offset = 0x10_0000;
  cr3 = 0x1000;
  flushed = [];
}

pub empty_tables-IsReady : IsReady empty_tables
empty_tables-IsReady = record {
  valid = record {
    count_in = omega arith;
    sized = λ i h. omega arith;
    inside = λ i h. omega arith;
    aligned = λ i h. (refl, refl);
    apart = λ i h. omega arith;
  };
  mapped = λ i h. omega arith;
  same_offset = refl;
}

pub empty_tables-IsBlank : IsBlank empty_tables
empty_tables-IsBlank = record {
  ready = empty_tables-IsReady;
  fits = omega arith;
  taken = λ i h p e. ground arith;
  absent = λ i h. refl;
}
