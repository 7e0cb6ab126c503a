-- ===== src/Paging.antt =====
-- arch/x86_64/src/mem_impl.cpp: pages and page tables, on the memory of the physical memory manager.
pub mod Tables
pub mod Walk
pub mod Huge
pub mod Fresh
pub mod Link
pub mod Space
pub mod Empty
pub mod Level
pub mod Change
pub mod Effect
pub mod Step
pub mod Prepare
pub mod Clear
pub mod Frame
pub mod Leaf
pub mod Refine
pub mod RefineLarge
pub mod Runs
pub mod Shared
pub mod Sample
mod Tests
use oronyx.Base.{
  ℕ, ◌+◌, ◌*◌, ◌-◌, ◌^◌, bit_and, bit_or, u64, sub64, update, Option, none, some, List, ◌∷◌,
}
use oronyx.Base.{◌==◌, if◌then◌else◌, ◌>>=◌, ◌>>>◌}
use oronyx.Pmm.{alloc_pages, print, write_line}

abbrev pub present : ℕ
present = 1

abbrev pub writable : ℕ
writable = 2 ^ 1

abbrev pub cache_disable : ℕ
cache_disable = 2 ^ 4

abbrev pub huge : ℕ
huge = 2 ^ 7

-- `~0xFFF` and `~0x1FFFFF`, which are negative numbers of type `int`, on `uint64_t`.
abbrev pub frame_mask : ℕ
frame_mask = 2 ^ 64 - 0x1000

abbrev pub huge_mask : ℕ
huge_mask = 2 ^ 64 - 0x200000

-- The manager's state with `hhdm_offset`, the register cr3 and the addresses given to `invlpg`, the
-- last one first.
pub record State : Type 0 where
  pub pmm : oronyx.Pmm.State
  pub hhdm_offset : ℕ
  pub cr3 : ℕ
  pub flushed : List ℕ

-- The null pointer is 0.
unfoldable pub alloc_page : State → Option (ℕ × State)
unfolding alloc_pages
alloc_page s = do
  t ← alloc_pages 1 s.pmm
  some (
      if t.0 == 0
      then (0, record s { pmm = print (write_line "Failed to allocate physical page") t.1 })
      else (u64 (t.0 + s.hhdm_offset), record s { pmm = t.1 }))

abbrev pub flush_tlb : ℕ → State → State
flush_tlb addr s = record s { flushed = addr ∷ s.flushed }

-- `table[index]` and its assignment.
abbrev pub entry : ℕ → ℕ → State → ℕ
entry table index s = s.pmm.memory (u64 (table + 8 * index))

abbrev pub set_entry : ℕ → ℕ → ℕ → State → State
set_entry table index value s = record s {
  pmm = record s.pmm { memory = update s.pmm.memory (u64 (table + 8 * index)) value };
}

-- The index of `virt` in the table of a level whose entries span 2 ^ shift bytes.
abbrev pub index_of : ℕ → ℕ → ℕ
index_of shift virt = bit_and (virt >>> shift) 0x1ff

-- The table that an entry points to, made if the entry is not present; the inner `none` is the
-- `return` when no page is left.
unfoldable pub next_table : ℕ → ℕ → ℕ → State → Option (Option ℕ × State)
unfolding alloc_page
next_table table index flags s =
    let fresh : Option (Option ℕ × State) = (do
      t ← alloc_page s
      let value = bit_or (sub64 t.0 s.hhdm_offset) (bit_and flags 0xfff)
      some (if t.0 == 0 then (none, t.1) else (some t.0, set_entry table index value t.1))) in
    if bit_and (entry table index s) present == 0
    then fresh
    else some (some (u64 (bit_and (entry table index s) frame_mask + s.hhdm_offset)), s)

-- The code behind a table, or the early `return`.
abbrev pub with_table : (ℕ → State → Option State) → Option ℕ × State → Option State
with_table f (none, s) = some s
with_table f (some table, s) = f table s

unfoldable pub map_page : ℕ → ℕ → ℕ → State → Option State
unfolding next_table
map_page virt phys flags s =
    let pml4 = u64 (bit_and s.cr3 frame_mask + s.hhdm_offset) in
    let last_huge : ℕ → State → Option State = λ pd s'. some (
      flush_tlb virt (
        set_entry pd (index_of 21 virt)
          (bit_or (bit_or (bit_and phys huge_mask) (bit_and flags 0xfff)) huge) s')) in
    let last : ℕ → State → Option State = λ pt s'. some (
      flush_tlb virt (
        set_entry pt (index_of 12 virt) (bit_or (bit_and phys frame_mask) (bit_and flags 0xfff))
          s')) in
    if bit_and flags huge == 0
    then (do
      t ← next_table pml4 (index_of 39 virt) flags s
      with_table
          (λ pdpt s'. do
            t ← next_table pdpt (index_of 30 virt) flags s'
            with_table
                (λ pd s'. do t ← next_table pd (index_of 21 virt) flags s'; with_table last t) t)
          t)
    else (do
      t ← next_table pml4 (index_of 39 virt) flags s
      with_table
          (λ pdpt s'. do t ← next_table pdpt (index_of 30 virt) flags s'; with_table last_huge t) t)
