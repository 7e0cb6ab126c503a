-- ===== src/Paging/Leaf.antt =====
-- The write of a page's entry, small (level 3) or large (level 2).
use oronyx.Base.{ℕ, ◌+◌, ◌*◌, ◌/◌, ◌%◌, ◌^◌, ◌≡◌, ◌↔◌, refl, arith, true, false}
use oronyx.Base.{some, bit_and, ◌==◌}
use oronyx.Base.Bits.{bit_and-low}
use oronyx.Paging.Empty.{index_of-lt}
use oronyx.Paging.{State, set_entry, flush_tlb}
use oronyx.Paging.Tables.{slot, is_page}
use oronyx.Paging.Level.{entry_at, index_at, leads, Shares, walk_at, walk}
use oronyx.Paging.Change.{IsChange}
use oronyx.Paging.Prepare.{IsAt}

module _ (k virt table value : ℕ) (s : State) (a : IsAt k virt table s) where
  abbrev pub written : State
  written = flush_tlb virt (set_entry table (index_at k virt) value s)

  pub written-entry : written.pmm.memory (entry_at k virt s) ≡ value
  written-entry =
      let own : (entry_at k virt s == slot table (index_at k virt)) ≡ true =
        ground (arith, a.place) in
      rw own refl

  pub written-IsChange : ¬ (leads k (entry_at k virt s) written ≡ true) → IsChange k virt s written
  written-IsChange leaf = record {
    reached = a.reached;
    kept = λ x t ne.
        let off : (x == slot table (index_at k virt)) ≡ false = ground (arith, a.place) in
        rw off refl;
    taken = λ x t. t;
    ready = record {
      valid = a.space.ready.valid;
      mapped = a.space.ready.mapped;
      same_offset = a.space.ready.same_offset;
    };
    same_offset = refl;
    same_cr3 = refl;
    new = λ ld. absurd (leaf ld);
  }

-- The indices of an address as the digits of its page number.
digits_21 :
    (v : ℕ) → v / 2 ^ 21 % 2 ^ 27 ≡ index_at 0 v * 2 ^ 18 + index_at 1 v * 2 ^ 9 + index_at 2 v
digits_21 v =
    omega
      (arith, bit_and-low 9 (v / 2 ^ 39), bit_and-low 9 (v / 2 ^ 30), bit_and-low 9 (v / 2 ^ 21))

digits_12 : (v : ℕ) → v / 2 ^ 12 % 2 ^ 36 ≡ v / 2 ^ 21 % 2 ^ 27 * 2 ^ 9 + index_at 3 v
digits_12 v = omega (arith, bit_and-low 9 (v / 2 ^ 12))

-- Two addresses share the entries above a page if they are in one page, of the 48 bits that the walk
-- reads.
pub same_large_page : (v w : ℕ) → (v / 2 ^ 21 % 2 ^ 27 ≡ w / 2 ^ 21 % 2 ^ 27) ↔ Shares 2 v w
same_large_page v w =
    let dv = digits_21 v in
    let dw = digits_21 w in
    let v1 = index_of-lt 30 v in
    let v2 = index_of-lt 21 v in
    let w1 = index_of-lt 30 w in
    let w2 = index_of-lt 21 w in
    (λ e. ((omega arith, omega arith), omega arith), λ h. omega (arith, h.0.0, h.0.1, h.1))

pub same_page : (v w : ℕ) → (v / 2 ^ 12 % 2 ^ 36 ≡ w / 2 ^ 12 % 2 ^ 36) ↔ Shares 3 v w
same_page v w =
    let dv = digits_12 v in
    let dw = digits_12 w in
    let v3 = index_of-lt 12 v in
    let w3 = index_of-lt 12 w in
    (
      λ e. ((same_large_page v w).0 (omega arith), omega arith),
      λ h. omega (arith, (same_large_page v w).1 h.0, h.1),
    )

-- The walk ends at a present page.
pub walk-small :
    (v addr : ℕ) (s : State)
    → bit_and (s.pmm.memory addr) 1 ≡ 1
    → walk_at 3 v addr s ≡ some (s.pmm.memory addr / 2 ^ 12 * 2 ^ 12 + v % 2 ^ 12)
unfolding walk
walk-small v addr s e = rw e refl

pub walk-large :
    (v addr : ℕ) (s : State)
    → bit_and (s.pmm.memory addr) 1 ≡ 1
    → bit_and (s.pmm.memory addr) 0x80 ≡ 0x80
    → walk_at 2 v addr s ≡ some (s.pmm.memory addr / 2 ^ 21 * 2 ^ 21 + v % 2 ^ 21)
unfolding walk
walk-large v addr s e f = rw (e, f) refl

pub large_ends :
    (addr : ℕ) (s : State) → bit_and (s.pmm.memory addr) 0x80 ≡ 0x80 → ¬ (leads 2 addr s ≡ true)
unfolding leads
large_ends addr s e l = let page : is_page addr s ≡ true = rw e refl in ground arith
