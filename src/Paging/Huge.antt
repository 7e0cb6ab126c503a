-- ===== src/Paging/Huge.antt =====
-- `map_page` of a page of 2 MB, and the processor's walk after it.
use oronyx.Base.{ℕ, ◌+◌, ◌*◌, ◌/◌, ◌%◌, ◌^◌, ◌<◌, ◌≡◌, refl, arith, bit_and, bit_or}
use oronyx.Base.{some, true, false, ◌==◌, ◌>>=◌}
use oronyx.Base.Bits.{bit_and-low, bit_and-large_pages, bit_or-parts, bit_or_halves}
use oronyx.Base.Bits.{bit_or-zero_left, bit_or-zero}
use oronyx.Base.BitAt.{bit_at-bit_or, bit_at-lt, bit_at-pow, bit_and-pow, bit_or-lt}
use oronyx.Paging.{State, map_page, set_entry, index_of, flush_tlb, huge, huge_mask}
use oronyx.Paging.Tables.{table_of, pdpt_slot, pd_slot, translate, HasDirectory}
use oronyx.Paging.Tables.{AvoidsDirectory}
use oronyx.Paging.Walk.{next_table_present}

abbrev pub large_value : ℕ → ℕ → ℕ
large_value phys flags = bit_or (bit_or (bit_and phys huge_mask) (bit_and flags 0xfff)) huge

-- Parts above and below bit 21 do not meet.
bit_or-above :
    (a b c : ℕ) → b < 2 ^ 21 → c < 2 ^ 21 → bit_or (a * 2 ^ 21 + b) c ≡ a * 2 ^ 21 + bit_or b c
bit_or-above a b c hb hc =
    let e : 0 * 2 ^ 21 + c ≡ c = omega arith in
    let parts = bit_or-parts 21 a 0 b c hb hc in omega (arith, rw e at parts, bit_or-zero a)

large_value_lem :
    (phys flags : ℕ)
    → phys < 2 ^ 64
    → large_value phys flags ≡ phys / 2 ^ 21 * 2 ^ 21 + bit_or (flags % 4096) 0x80
large_value_lem phys flags h =
    let c = flags % 4096 in
    let e : phys / 2 ^ 21 * 2 ^ 21 + 0 ≡ phys / 2 ^ 21 * 2 ^ 21 = omega arith in
    let first = bit_or-above (phys / 2 ^ 21) 0 c (omega arith) (omega arith) in
    rw (bit_and-large_pages phys h, bit_and-low 12 flags, rw (e, bit_or-zero_left c) at first)
      (bit_or-above (phys / 2 ^ 21) c 0x80 (omega arith) (omega arith))

pub large_present :
    (phys flags : ℕ) → phys < 2 ^ 64 → flags % 2 ≡ 1 → bit_and (large_value phys flags) 1 ≡ 1
large_present phys flags h odd = rw (large_value_lem phys flags h) (
    omega (
      arith,
      bit_and-low 1 (phys / 2 ^ 21 * 2 ^ 21 + bit_or (flags % 4096) 0x80),
      bit_or_halves (flags % 4096) 0x80,
    ))

pub large_page : (phys flags : ℕ) → bit_and (large_value phys flags) 0x80 ≡ 0x80
large_page phys flags =
    let low = bit_or (bit_and phys huge_mask) (bit_and flags 0xfff) in
    omega (
      arith,
      bit_and-pow 7 (large_value phys flags),
      bit_at-bit_or 7 low huge,
      bit_at-lt 7 low,
      bit_at-pow 7 7,
    )

pub large_frame :
    (phys flags : ℕ)
    → phys < 2 ^ 64
    → large_value phys flags / 2 ^ 21 * 2 ^ 21 ≡ phys / 2 ^ 21 * 2 ^ 21
large_frame phys flags h =
    rw (large_value_lem phys flags h)
      (omega (arith, bit_or-lt 12 (flags % 4096) 0x80 (omega arith) (omega arith)))

-- With the page directory there, `map_page` of a large page writes one of its entries.
pub map_page_large :
    (virt phys flags : ℕ) (s : State)
    → (bit_and flags huge == 0) ≡ false
    → HasDirectory virt s
    → map_page virt phys flags s
      ≡ some (
          flush_tlb virt (
            set_entry
              (table_of s (s.pmm.memory (pdpt_slot virt s)))
              (index_of 21 virt)
              (large_value phys flags)
              s))
unfolding map_page
map_page_large virt phys flags s large (p1, p2, _) =
    rw (large, next_table_present _ _ flags s p1, next_table_present _ _ flags s p2) refl

-- With the page directory there and its entry not among those that lead to it, the walk of a page
-- that `map_page` mapped as present and huge gives the physical page of 2 MB with the offset in it.
translate-map_page_large :
    (virt phys flags : ℕ) (s : State)
    → phys < 2 ^ 64
    → flags % 2 ≡ 1
    → (bit_and flags huge == 0) ≡ false
    → HasDirectory virt s
    → AvoidsDirectory (pd_slot virt s) virt s
    → (map_page virt phys flags s >>= translate virt)
      ≡ some (phys / 2 ^ 21 * 2 ^ 21 + virt % 2 ^ 21)
unfolding translate
translate-map_page_large virt phys flags s h odd large tables (n1, n2) =
    let (p1, p2, l2) = tables in
    let own : (pd_slot virt s == pd_slot virt s) ≡ true = ground arith in
    let there : (bit_and (large_value phys flags) 1 == 1) ≡ true =
      rw (large_present phys flags h odd) refl in
    let page : (bit_and (large_value phys flags) 0x80 == 0x80) ≡ true =
      rw (large_page phys flags) refl in
    rw
      (
        map_page_large virt phys flags s large tables,
        n1,
        p1,
        n2,
        p2,
        l2,
        own,
        there,
        page,
        large_frame phys flags h,
      )
      refl
