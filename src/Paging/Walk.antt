-- ===== src/Paging/Walk.antt =====
-- `map_page` of a page of 4 KB, and the processor's walk after it.
use oronyx.Base.{ℕ, ◌+◌, ◌*◌, ◌/◌, ◌%◌, ◌^◌, ◌<◌, ◌≡◌, refl, arith, bit_and, bit_or}
use oronyx.Base.{some, true, false, ◌==◌, ◌>>=◌}
use oronyx.Base.Bits.{bit_and-low, bit_and-pages, bit_or-parts, bit_or-zero_left, bit_or-zero}
use oronyx.Paging.{State, map_page, next_table, set_entry, index_of, flush_tlb, frame_mask}
use oronyx.Paging.{present, huge}
use oronyx.Paging.Tables.{slot, table_of, pd_slot, pt_slot, is_present}
use oronyx.Paging.Tables.{translate, HasTable, AvoidsTable}

abbrev pub page_value : ℕ → ℕ → ℕ
page_value phys flags = bit_or (bit_and phys frame_mask) (bit_and flags 0xfff)

pub page_value_lem :
    (phys flags : ℕ) → phys < 2 ^ 64 → page_value phys flags ≡ phys / 4096 * 4096 + flags % 4096
page_value_lem phys flags h =
    let page = bit_and-pages phys h in
    let low = bit_and-low 12 flags in
    let e : phys / 4096 * 2 ^ 12 + 0 ≡ phys / 4096 * 4096 = omega arith in
    let f : 0 * 2 ^ 12 + flags % 4096 ≡ flags % 4096 = omega arith in
    let parts = bit_or-parts 12 (phys / 4096) 0 0 (flags % 4096) (omega arith) (omega arith) in
    rw (page, low)
      (omega
        (arith, rw (e, f) at parts, bit_or-zero (phys / 4096), bit_or-zero_left (flags % 4096)))

pub page_present :
    (phys flags : ℕ) → phys < 2 ^ 64 → flags % 2 ≡ 1 → bit_and (page_value phys flags) 1 ≡ 1
page_present phys flags h odd =
    rw (page_value_lem phys flags h)
      (omega (arith, bit_and-low 1 (phys / 4096 * 4096 + flags % 4096)))

pub next_table_present :
    (table index flags : ℕ) (s : State)
    → is_present (slot table index) s ≡ true
    → next_table table index flags s ≡ some (some (table_of s (s.pmm.memory (slot table index))), s)
unfolding next_table
next_table_present table index flags s h =
    let there : (bit_and (s.pmm.memory (slot table index)) present == 0) ≡ false = ground arith in
    rw there refl

-- With the tables above the page there, `map_page` of a small page writes one entry.
pub map_page_present :
    (virt phys flags : ℕ) (s : State)
    → bit_and flags huge ≡ 0
    → HasTable virt s
    → map_page virt phys flags s
      ≡ some (
          flush_tlb virt (
            set_entry
              (table_of s (s.pmm.memory (pd_slot virt s)))
              (index_of 12 virt)
              (page_value phys flags)
              s))
unfolding map_page
map_page_present virt phys flags s small ((p1, p2, _), p3, _) =
    let no_huge : (bit_and flags huge == 0) ≡ true = ground arith in
    rw
      (
        no_huge,
        next_table_present _ _ flags s p1,
        next_table_present _ _ flags s p2,
        next_table_present _ _ flags s p3,
      )
      refl

-- With the tables above the page there and the entry of the page in none of them, the walk of a
-- small page that `map_page` mapped as present gives the physical page with the offset in it.
pub translate-map_page :
    (virt phys flags : ℕ) (s : State)
    → phys < 2 ^ 64
    → flags % 2 ≡ 1
    → bit_and flags huge ≡ 0
    → HasTable virt s
    → AvoidsTable (pt_slot virt s) virt s
    → (map_page virt phys flags s >>= translate virt)
      ≡ some (phys / 0x1000 * 0x1000 + virt % 0x1000)
unfolding translate
translate-map_page virt phys flags s h odd small tables ((n1, n2), n3) =
    let ((p1, p2, l2), p3, l3) = tables in
    let own : (pt_slot virt s == pt_slot virt s) ≡ true = ground arith in
    let there : (bit_and (page_value phys flags) 1 == 1) ≡ true =
      rw (page_present phys flags h odd) refl in
    let frame : page_value phys flags / 2 ^ 12 * 2 ^ 12 ≡ phys / 4096 * 4096 =
      rw (page_value_lem phys flags h) (omega arith) in
    rw
      (
        map_page_present virt phys flags s small tables,
        n1,
        p1,
        n2,
        p2,
        l2,
        n3,
        p3,
        l3,
        own,
        there,
        frame,
      )
      refl
