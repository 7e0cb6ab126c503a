-- ===== src/Paging/Refine.antt =====
-- `map_page` as an update of the function that the page tables stand for.
use oronyx.Base.{ℕ, ◌+◌, ◌-◌, ◌*◌, ◌/◌, ◌%◌, ◌^◌, ◌<◌, ◌≡◌, ◌⊎◌, refl, ◌∙◌, ap, arith, true, false}
use oronyx.Base.{Option, some, bit_and, ◌==◌, if◌then◌else◌, ◌∷◌, inl, inr}
use native.Mathlib.Decide.{ℕ_discrete}
use oronyx.Pmm.Grows.{Grows, Grows-trans, printed-Grows}
use oronyx.Paging.{State, map_page, huge}
use oronyx.Paging.Tables.{table_of, translate}
use oronyx.Paging.Fresh.{HasPages}
use oronyx.Paging.Walk.{page_value, page_value_lem, page_present}
use oronyx.Paging.Level.{entry_at, Shares, no_table}
use oronyx.Paging.Change.{IsSpace}
use oronyx.Paging.Clear.{IsClear, change-IsClear}
use oronyx.Paging.Frame.{Keeps, Keeps-trans, change-Keeps}
use oronyx.Paging.Effect.{change-IsSpace, translate-other, translate-shared}
use oronyx.Paging.Prepare.{IsAt, IsSame, IsSame-trans, prepare}
use oronyx.Paging.Leaf.{written, written-entry, written-IsChange, same_page, walk-small}

-- A function on addresses changed at a page of 2 ^ shift bytes, of the 48 bits of an address that the
-- walk reads.
abbrev pub remap : ℕ → ℕ → ℕ → (ℕ → Option ℕ) → ℕ → Option ℕ
remap shift virt phys f v =
    if v / 2 ^ shift % 2 ^ (48 - shift) == virt / 2 ^ shift % 2 ^ (48 - shift)
    then some (phys / 2 ^ shift * 2 ^ shift + v % 2 ^ shift)
    else f v

-- The walks are changed at the page, and its address was flushed.
pub record IsRemapped (shift virt phys : ℕ) (s s' : State) : Type 0 where
  pub space : IsSpace s'
  pub walks : (v : ℕ) → translate v s' ≡ remap shift virt phys (λ w. translate w s) v
  pub flushed : s'.flushed ≡ virt ∷ s.flushed
  pub keeps : Keeps s s'
  pub same_offset : s'.hhdm_offset ≡ s.hhdm_offset
  pub grows : Grows s.pmm s'.pmm

module _ (virt phys flags pt : ℕ) (s : State) (a : IsAt 3 virt pt s) (h : phys < 2 ^ 64)
    (odd : flags % 2 ≡ 1) where
  abbrev mapped : State
  mapped = written 3 virt pt (page_value phys flags) s a

  mapped-walk :
      (v : ℕ) → Shares 3 v virt → translate v mapped ≡ some (phys / 2 ^ 12 * 2 ^ 12 + v % 2 ^ 12)
  mapped-walk v same =
      let c =
        written-IsChange 3 virt pt (page_value phys flags) s a
          (no_table 0 (entry_at 3 virt s) mapped) in
      let value = written-entry 3 virt pt (page_value phys flags) s a in
      let frame : page_value phys flags / 2 ^ 12 * 2 ^ 12 ≡ phys / 4096 * 4096 =
        rw (page_value_lem phys flags h) (omega arith) in
      translate-shared 3 virt s mapped a.space c v same
      ∙ walk-small v (entry_at 3 virt s) mapped
          (ap (λ (x : ℕ). bit_and x 1) value ∙ page_present phys flags h odd)
      ∙ ap (λ (x : ℕ). some (x / 2 ^ 12 * 2 ^ 12 + v % 2 ^ 12)) value
      ∙ ap (λ (x : ℕ). some (x + v % 2 ^ 12)) frame

  mapped-IsRemapped : IsRemapped 12 virt phys s mapped
  mapped-IsRemapped =
      let c =
        written-IsChange 3 virt pt (page_value phys flags) s a
          (no_table 0 (entry_at 3 virt s) mapped) in
      record {
        space = change-IsSpace 3 virt s mapped a.space c;
        walks = λ v. elim (ℕ_discrete (v / 2 ^ 12 % 2 ^ 36) (virt / 2 ^ 12 % 2 ^ 36)) [
          | yes e ↦
              let hit : (v / 2 ^ 12 % 2 ^ 36 == virt / 2 ^ 12 % 2 ^ 36) ≡ true = ground arith in
              rw hit (mapped-walk v ((same_page v virt).0 e))
          | no ne ↦
              let miss : (v / 2 ^ 12 % 2 ^ 36 == virt / 2 ^ 12 % 2 ^ 36) ≡ false = ground arith in
              rw miss
                (translate-other 3 virt s mapped a.space c v (λ e. ne ((same_page v virt).1 e)))
        ];
        flushed = refl;
        keeps = change-Keeps 3 virt s mapped a.space c;
        same_offset = refl;
        grows = printed-Grows s.pmm mapped.pmm.memory s.pmm.log;
      }

  mapped-IsClear : (w : ℕ) → IsClear w s → IsClear w mapped
  mapped-IsClear =
      let c =
        written-IsChange 3 virt pt (page_value phys flags) s a
          (no_table 0 (entry_at 3 virt s) mapped) in
      change-IsClear 3 virt s mapped a.space c (λ l q. absurd (omega arith))

IsSame-IsRemapped :
    (virt phys : ℕ) (s t u : State)
    → IsSame s t
    → IsRemapped 12 virt phys t u
    → IsRemapped 12 virt phys s u
IsSame-IsRemapped virt phys s t u same r = record {
  space = r.space;
  walks = λ v. rw (same.same_walks v) at (r.walks v);
  flushed = r.flushed ∙ ap (λ l. virt ∷ l) same.same_flushed;
  keeps = Keeps-trans s t u same.keeps r.keeps;
  same_offset = r.same_offset ∙ same.same_offset;
  grows = Grows-trans same.grows r.grows;
}

start-IsAt : (virt : ℕ) (s : State) → IsSpace s → IsAt 0 virt (table_of s s.cr3) s
unfolding entry_at
start-IsAt virt s p = record { space = p; reached = tt; place = refl }

abbrev pub Remaps : ℕ → ℕ → ℕ → State → Type 0
Remaps virt phys flags s =
    (s' : State) × (map_page virt phys flags s ≡ some s')
    × ((w : ℕ) → IsClear w s → IsClear w s')
    × (IsRemapped 12 virt phys s s' ⊎ (IsSame s s' × ¬ HasPages 3 s))

-- On tables that share no table, with no large page on the way, `map_page` of a present small page
-- never faults, and the tables after it share no table and have no large page on a way that had none
-- before. Either the walk of every address in the page
-- gives the physical page with the offset in it and every other walk is as it was, or all walks are
-- as they were. The second never happens while three pages of memory are free, none of them at 0, and
-- the manager has room for three regions more.
pub map_page-Remaps :
    (virt phys flags : ℕ) (s : State)
    → phys < 2 ^ 64
    → flags % 2 ≡ 1
    → bit_and flags huge ≡ 0
    → IsSpace s
    → IsClear virt s
    → Remaps virt phys flags s
unfolding map_page
map_page-Remaps virt phys flags s h odd small p clear =
    let no_huge : (bit_and flags huge == 0) ≡ true = ground arith in
    elim (prepare 0 virt (table_of s s.cr3) flags s (omega arith) small odd (start-IsAt virt s p)
      clear) [
        | inr (t, run, same, spent) ↦
            (t, rw (no_huge, run) refl, same.same_clear, inr (same, λ e. spent (omega arith)))
        | inl (pdpt, s1, run1, same1, a1, rest1) ↦
            elim (prepare 1 virt pdpt flags s1 (omega arith) small odd a1
              (same1.same_clear virt clear)) [
                | inr (t, run, same, spent) ↦ (
                  t,
                  rw (no_huge, run1, run) refl,
                  (IsSame-trans s s1 t same1 same).same_clear,
                  inr (IsSame-trans s s1 t same1 same, λ e. spent (omega (arith, rest1 2 e))),
                )
                | inl (pd, s2, run2, same2, a2, rest2) ↦
                    let same12 = IsSame-trans s s1 s2 same1 same2 in
                    elim (prepare 2 virt pd flags s2 (omega arith) small odd a2
                      (same12.same_clear virt clear)) [
                        | inr (t, run, same, spent) ↦ (
                          t,
                          rw (no_huge, run1, run2, run) refl,
                          (IsSame-trans s s2 t same12 same).same_clear,
                          inr (IsSame-trans s s2 t same12 same, λ e. spent (rest2 1 (rest1 2 e))),
                        )
                        | inl (pt, s3, run3, same3, a3, _) ↦ (
                          mapped virt phys flags pt s3 a3 h odd,
                          rw (no_huge, run1, run2, run3) refl,
                          (λ w c.
                              mapped-IsClear virt phys flags pt s3 a3 h odd w
                                ((IsSame-trans s s2 s3 same12 same3).same_clear w c)),
                          inl (
                              IsSame-IsRemapped virt phys s s3
                                (mapped virt phys flags pt s3 a3 h odd)
                                (IsSame-trans s s2 s3 same12 same3)
                                (mapped-IsRemapped virt phys flags pt s3 a3 h odd)),
                        )
                      ]
              ]
      ]
