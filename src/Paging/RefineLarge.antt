-- ===== src/Paging/RefineLarge.antt =====
-- `map_page` of a page of 2 MB as an update of the function that the page tables stand for.
use oronyx.Base.{ℕ, ◌+◌, ◌*◌, ◌/◌, ◌%◌, ◌^◌, ◌<◌, ◌≡◌, refl, ◌∙◌, ap, arith, true, false}
use oronyx.Base.{some, bit_and, ◌==◌}
use native.Mathlib.Decide.{ℕ_discrete}
use oronyx.Pmm.Grows.{printed-Grows}
use oronyx.Paging.{State, map_page, huge, index_of}
use oronyx.Paging.Tables.{slot, table_of, translate, pdpt_slot, HasDirectory}
use oronyx.Paging.Huge.{large_value, large_present, large_page, large_frame, map_page_large}
use oronyx.Paging.Level.{entry_at, leads, Reached, Shares}
use oronyx.Paging.Change.{IsSpace}
use oronyx.Paging.Frame.{change-Keeps}
use oronyx.Paging.Effect.{change-IsSpace, translate-other, translate-shared}
use oronyx.Paging.Prepare.{IsAt}
use oronyx.Paging.Leaf.{
  written, written-entry, written-IsChange, same_large_page, walk-large, large_ends,
}
use oronyx.Paging.Refine.{IsRemapped}

module _ (virt phys flags pd : ℕ) (s : State) (a : IsAt 2 virt pd s) (h : phys < 2 ^ 64)
    (odd : flags % 2 ≡ 1) where
  abbrev large : State
  large = written 2 virt pd (large_value phys flags) s a

  value_at : large.pmm.memory (entry_at 2 virt s) ≡ large_value phys flags
  value_at = written-entry 2 virt pd (large_value phys flags) s a

  page_at : bit_and (large.pmm.memory (entry_at 2 virt s)) 0x80 ≡ 0x80
  page_at = ap (λ (x : ℕ). bit_and x 0x80) value_at ∙ large_page phys flags

  large-walk :
      (v : ℕ) → Shares 2 v virt → translate v large ≡ some (phys / 2 ^ 21 * 2 ^ 21 + v % 2 ^ 21)
  large-walk v same =
      let c =
        written-IsChange 2 virt pd (large_value phys flags) s a
          (large_ends (entry_at 2 virt s) large page_at) in
      translate-shared 2 virt s large a.space c v same
      ∙ walk-large v (entry_at 2 virt s) large
          (ap (λ (x : ℕ). bit_and x 1) value_at ∙ large_present phys flags h odd) page_at
      ∙ ap (λ (x : ℕ). some (x / 2 ^ 21 * 2 ^ 21 + v % 2 ^ 21)) value_at
      ∙ ap (λ (x : ℕ). some (x + v % 2 ^ 21)) (large_frame phys flags h)

  large-IsRemapped : IsRemapped 21 virt phys s large
  large-IsRemapped =
      let c =
        written-IsChange 2 virt pd (large_value phys flags) s a
          (large_ends (entry_at 2 virt s) large page_at) in
      record {
        space = change-IsSpace 2 virt s large a.space c;
        walks = λ v. elim (ℕ_discrete (v / 2 ^ 21 % 2 ^ 27) (virt / 2 ^ 21 % 2 ^ 27)) [
          | yes e ↦
              let hit : (v / 2 ^ 21 % 2 ^ 27 == virt / 2 ^ 21 % 2 ^ 27) ≡ true = ground arith in
              rw hit (large-walk v ((same_large_page v virt).0 e))
          | no ne ↦
              let miss : (v / 2 ^ 21 % 2 ^ 27 == virt / 2 ^ 21 % 2 ^ 27) ≡ false = ground arith in
              rw miss (
                translate-other 2 virt s large a.space c v (λ e. ne ((same_large_page v virt).1 e)))
        ];
        flushed = refl;
        keeps = change-Keeps 2 virt s large a.space c;
        same_offset = refl;
        grows = printed-Grows s.pmm large.pmm.memory s.pmm.log;
      }

HasDirectory-Reached : (virt : ℕ) (s : State) → HasDirectory virt s → Reached 2 virt s
unfolding leads entry_at
HasDirectory-Reached virt s (p, q, l) = ((tt, rw p refl), rw (q, l) refl)

directory-place :
    (virt : ℕ) (s : State)
    → slot (table_of s (s.pmm.memory (pdpt_slot virt s))) (index_of 21 virt) ≡ entry_at 2 virt s
unfolding entry_at
directory-place virt s = refl

-- On tables that share no table, with the page directory there, `map_page` of a present huge page
-- never faults, and the tables after it share no table. The walk of every address in the page of
-- 2 MB gives the physical page with the offset in it, also where small pages were mapped before, and
-- every other walk is as it was.
pub map_page_remaps_large :
    (virt phys flags : ℕ) (s : State)
    → phys < 2 ^ 64
    → flags % 2 ≡ 1
    → (bit_and flags huge == 0) ≡ false
    → IsSpace s
    → HasDirectory virt s
    → (s' : State) × (map_page virt phys flags s ≡ some s') × IsRemapped 21 virt phys s s'
map_page_remaps_large virt phys flags s h odd is_huge p d =
    let pd = table_of s (s.pmm.memory (pdpt_slot virt s)) in
    let a : IsAt 2 virt pd s = record {
      space = p;
      reached = HasDirectory-Reached virt s d;
      place = directory-place virt s;
    } in
    (
      large virt phys flags pd s a h odd,
      map_page_large virt phys flags s is_huge d,
      large-IsRemapped virt phys flags pd s a h odd,
    )
