-- ===== src/Pmm/Entries.antt =====
-- An entry of the memory map against the region that `PMM::init` makes of it.
use oronyx.Base.{ℕ, ◌+◌, ◌-◌, ◌*◌, ◌/◌, ◌%◌, ◌^◌, ◌≤◌, ◌<◌, ◌≡◌, arith, Bool, true, ◌&&◌}
use oronyx.Base.{List, [], ◌∷◌, sub64, u64, ltb, leb, ◌==◌, if◌then◌else◌}
use oronyx.Base.Bits.{bit_and-pages}
use oronyx.Regions.{Region, page_size}
use oronyx.Regions.Order.{holds}
use oronyx.Pmm.{Entry, memmap_usable, aligned_base, aligned_end}

-- An entry that `init` keeps, and its region.
abbrev pub is_kept : Entry → Bool
is_kept e = e.type == memmap_usable && ltb (aligned_base e) (aligned_end e)

abbrev pub region_of : Entry → Region
region_of e = record {
  base = aligned_base e;
  len = sub64 (aligned_end e) (aligned_base e);
  is_free = true;
}

-- No sum of the rounding wraps.
abbrev pub Fits : Entry → Type 0
Fits e = e.base + e.length + page_size < 2 ^ 64

-- The entry is usable and holds the address `x`, or the whole page around `x`.
abbrev pub entry_holds : ℕ → Entry → ℕ
entry_holds x e =
    if e.type == memmap_usable && (leb e.base x && ltb x (e.base + e.length)) then 1 else 0

abbrev pub page_of : ℕ → ℕ
page_of x = x / page_size * page_size

abbrev pub entry_holds_page : ℕ → Entry → ℕ
entry_holds_page x e =
    if e.type == memmap_usable
      && (leb e.base (page_of x) && leb (page_of x + page_size) (e.base + e.length))
    then 1
    else 0

abbrev pub total : (Entry → ℕ) → List Entry → ℕ
total f [] = 0
total f (e ∷ es) = f e + total f es

abbrev pub kept : Entry → ℕ
kept e = if is_kept e then 1 else 0

abbrev pub AllFit : List Entry → Type 0
AllFit [] = Unit
AllFit (e ∷ es) = Fits e × AllFit es

pub aligned_base_lem :
    (e : Entry) → Fits e → aligned_base e ≡ (e.base + (page_size - 1)) / page_size * page_size
unfolding aligned_base
aligned_base_lem e h =
    let plain : sub64 (u64 (e.base + page_size)) 1 ≡ e.base + (page_size - 1) = omega arith in
    omega (arith, plain, bit_and-pages (sub64 (u64 (e.base + page_size)) 1) (omega arith))

pub aligned_end_lem :
    (e : Entry) → Fits e → aligned_end e ≡ (e.base + e.length) / page_size * page_size
unfolding aligned_end
aligned_end_lem e h = omega (arith, bit_and-pages (u64 (e.base + e.length)) (omega arith))

-- A kept entry's region is a range of free pages.
pub record IsPages (r : Region) : Type 0 where
  pub sized : 0 < r.len
  pub inside : r.base + r.len < 2 ^ 64
  pub base_aligned : r.base % page_size ≡ 0
  pub len_aligned : r.len % page_size ≡ 0
  pub free : r.is_free ≡ true

pub region_of-IsPages : (e : Entry) → Fits e → is_kept e ≡ true → IsPages (region_of e)
region_of-IsPages e h k = ground (arith, aligned_base_lem e h, aligned_end_lem e h)

pub holds-region_of :
    (x : ℕ) (e : Entry)
    → Fits e
    → (if is_kept e then holds x (region_of e) else 0) ≡ entry_holds_page x e
holds-region_of x e h = ground (arith, aligned_base_lem e h, aligned_end_lem e h)

pub total-entry_holds_page-le :
    (x : ℕ) (es : List Entry) → total (entry_holds_page x) es ≤ total (entry_holds x) es
total-entry_holds_page-le x [] = omega arith
total-entry_holds_page-le x (e ∷ es) = ground (arith, total-entry_holds_page-le x es)
