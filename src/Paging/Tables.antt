-- ===== src/Paging/Tables.antt =====
-- The processor's walk of the page tables.
use oronyx.Base.{ℕ, ◌+◌, ◌*◌, ◌/◌, ◌%◌, ◌^◌, ◌≡◌, bit_and, u64}
use oronyx.Base.{Option, none, some, Bool, true, false, ◌==◌, if◌then◌else◌}
use oronyx.Paging.{State, index_of, frame_mask}

-- The address of an entry, and the table that an entry's value points to.
abbrev pub slot : ℕ → ℕ → ℕ
slot table index = u64 (table + 8 * index)

abbrev pub table_of : State → ℕ → ℕ
table_of s value = u64 (bit_and value frame_mask + s.hhdm_offset)

abbrev pub pml4_slot : ℕ → State → ℕ
pml4_slot virt s = slot (table_of s s.cr3) (index_of 39 virt)

abbrev pub next_slot : ℕ → ℕ → ℕ → State → ℕ
next_slot shift virt above s = slot (table_of s (s.pmm.memory above)) (index_of shift virt)

abbrev pub pdpt_slot : ℕ → State → ℕ
pdpt_slot virt s = next_slot 30 virt (pml4_slot virt s) s

abbrev pub pd_slot : ℕ → State → ℕ
pd_slot virt s = next_slot 21 virt (pdpt_slot virt s) s

abbrev pub pt_slot : ℕ → State → ℕ
pt_slot virt s = next_slot 12 virt (pd_slot virt s) s

-- Bit 0, and bit 7 of an entry above the last level, which makes it a page and not a table.
abbrev pub is_present : ℕ → State → Bool
is_present addr s = bit_and (s.pmm.memory addr) 1 == 1

abbrev pub is_page : ℕ → State → Bool
is_page addr s = bit_and (s.pmm.memory addr) 0x80 == 0x80

-- The address of `virt` in the page of 2 ^ shift bytes of an entry.
abbrev pub physical : ℕ → ℕ → ℕ → State → ℕ
physical shift virt addr s = s.pmm.memory addr / 2 ^ shift * 2 ^ shift + virt % 2 ^ shift

-- The physical address of `virt`, on entries whose bits from 52 on are clear; `none` is a page fault.
unfoldable pub translate : ℕ → State → Option ℕ
translate virt s =
    if is_present (pml4_slot virt s) s
    then (if is_present (pdpt_slot virt s) s
        then (if is_page (pdpt_slot virt s) s
            then some (physical 30 virt (pdpt_slot virt s) s)
            else (if is_present (pd_slot virt s) s
                then (if is_page (pd_slot virt s) s
                    then some (physical 21 virt (pd_slot virt s) s)
                    else (if is_present (pt_slot virt s) s
                        then some (physical 12 virt (pt_slot virt s) s)
                        else none))
                else none))
        else none)
    else none

-- The page directory of `virt` is there.
abbrev pub HasDirectory : ℕ → State → Type 0
HasDirectory virt s =
    (is_present (pml4_slot virt s) s ≡ true)
    × (is_present (pdpt_slot virt s) s ≡ true)
    × (is_page (pdpt_slot virt s) s ≡ false)

-- So is the last table.
abbrev pub HasTable : ℕ → State → Type 0
HasTable virt s =
    HasDirectory virt s
    × (is_present (pd_slot virt s) s ≡ true)
    × (is_page (pd_slot virt s) s ≡ false)

-- An address is none of the entries that lead to the page directory, to the last table, or to the
-- page of `virt`.
abbrev pub AvoidsDirectory : ℕ → ℕ → State → Type 0
AvoidsDirectory addr virt s =
    ((pml4_slot virt s == addr) ≡ false) × ((pdpt_slot virt s == addr) ≡ false)

abbrev pub AvoidsTable : ℕ → ℕ → State → Type 0
AvoidsTable addr virt s = AvoidsDirectory addr virt s × ((pd_slot virt s == addr) ≡ false)

abbrev pub AvoidsPage : ℕ → ℕ → State → Type 0
AvoidsPage addr virt s = AvoidsTable addr virt s × ((pt_slot virt s == addr) ≡ false)
