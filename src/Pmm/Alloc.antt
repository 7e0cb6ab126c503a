-- ===== src/Pmm/Alloc.antt =====
-- `PMM::alloc_pages`: first fit, with the rest of a longer region split off.
use oronyx.Base.{ℕ, suc, ◌+◌, ◌-◌, ◌*◌, ◌/◌, ◌%◌, ◌^◌, ◌≤◌, ◌<◌, ◌≡◌, ◌⊎◌, refl, arith}
use oronyx.Base.{true, false, some, ◌&&◌, leb, u64}
use oronyx.Base.{sub64}
use oronyx.Base.Sums.{sum, sum-update}
use oronyx.Regions.{Region, page_size}
use oronyx.Regions.Shift.{sum-split_at, split_at, shift_up_lem}
use oronyx.Regions.Order.{used_by, IsTable, holds, holds_free, free_len, front, back, flagged}
use oronyx.Regions.Order.{flagged-IsTable, split_at-IsTable, sum-holds-split_at}
use oronyx.Regions.Order.{sum-holds_free-split_at, sum-free_len-split_at}
use oronyx.Pmm.{State, print, putln, zero_words, take_region}
use oronyx.Pmm.Zero.{zero_words-outside, zero_words-inside}

abbrev pub IsValid : State → Type 0
IsValid s = IsTable s.region_count s.regions

abbrev pub cleared : ℕ → Region → State → State
cleared sz r s = record s { memory = zero_words (sz / 8) 0 (u64 (r.base + s.hhdm_offset)) s.memory }

-- The states after an exact fit and after a split of the region at `i`.
abbrev pub exact : ℕ → ℕ → State → State
exact sz i s = cleared sz (s.regions i) (record s { regions = flagged false i s.regions })

abbrev pub cut : ℕ → ℕ → State → State
cut sz i s = cleared sz (s.regions i) (record s {
  regions = split_at i s.region_count (front sz (s.regions i)) (back sz (s.regions i)) s.regions;
  region_count = s.region_count + 1;
})

pub take_region-exact :
    (sz i : ℕ) (s : State)
    → i < 64
    → (s.regions i).len ≡ sz
    → take_region sz i (s.regions i) s ≡ some ((s.regions i).base, exact sz i s)
unfolding take_region
take_region-exact sz i s h e = ground arith

pub take_region-full :
    (sz i : ℕ) (s : State)
    → sz < (s.regions i).len
    → 64 ≤ s.region_count
    → take_region sz i (s.regions i) s ≡ some (0, print (putln "PMM: No space for new region!") s)
unfolding take_region
take_region-full sz i s h e = ground arith

pub take_region-cut :
    (sz i : ℕ) (s : State)
    → IsValid s
    → i < s.region_count
    → s.region_count < 64
    → sz < (s.regions i).len
    → take_region sz i (s.regions i) s ≡ some ((s.regions i).base, cut sz i s)
unfolding take_region
take_region-cut sz i s t below room fits =
    let n = s.region_count in
    let shift = shift_up_lem (n - (i + 1)) n s.regions (omega arith) room in
    let e : n - (n - (i + 1)) ≡ i + 1 = omega arith in
    let b : u64 ((s.regions i).base + sz) ≡ (s.regions i).base + sz =
      omega (arith, t.inside i below) in
    let l : sub64 (s.regions i).len sz ≡ (s.regions i).len - sz = omega (arith, t.inside i below) in
    let c : u64 (n + 1) ≡ n + 1 = omega arith in ground (arith, rw e at shift, b, l, c)

-- The higher-half mapping of each region stays inside the address space.
abbrev pub IsMapped : State → Type 0
IsMapped s =
    (i : ℕ) → i < s.region_count → (s.regions i).base + (s.regions i).len + s.hhdm_offset ≤ 2 ^ 64

-- No region starts at the address that stands for a failure.
abbrev pub IsPlaced : State → Type 0
IsPlaced s = (i : ℕ) → i < s.region_count → 0 < (s.regions i).base

-- Each region ends where the next one starts.
abbrev pub IsTiled : State → Type 0
IsTiled s =
    (i : ℕ)
    → suc i < s.region_count
    → (s.regions i).base + (s.regions i).len ≡ (s.regions (suc i)).base

abbrev pub page_range : ℕ → ℕ → Region
page_range p sz = record { base = p; len = sz; is_free = false }

-- `sz` bytes at `p`, free in `s`, are a used region of `s'`; all else stays.
pub record IsGranted (sz : ℕ) (s : State) (p : ℕ) (s' : State) : Type 0 where
  pub table : IsValid s'
  pub mapped : IsMapped s'
  pub placed : IsPlaced s → IsPlaced s'
  pub tiled : IsTiled s → IsTiled s'
  pub place : ℕ
  pub in_table : place < s'.region_count
  pub used : s'.regions place ≡ page_range p sz
  pub same_held :
      (x : ℕ) → sum (holds x) s'.regions s'.region_count ≡ sum (holds x) s.regions s.region_count
  pub taken :
      (x : ℕ)
      → sum (holds_free x) s'.regions s'.region_count + holds x (page_range p sz)
        ≡ sum (holds_free x) s.regions s.region_count
  pub less : sum free_len s'.regions s'.region_count + sz ≡ sum free_len s.regions s.region_count
  pub zeroed : (w : ℕ) → 8 * w < sz → s'.memory (p + s.hhdm_offset + 8 * w) ≡ 0
  pub same_words :
      (x : ℕ) → (x < p + s.hhdm_offset) ⊎ (p + s.hhdm_offset + sz ≤ x) → s'.memory x ≡ s.memory x
  pub same_offset : s'.hhdm_offset ≡ s.hhdm_offset
  pub same_log : s'.log ≡ s.log
  pub count_le : s'.region_count ≤ s.region_count + 1
  pub used_more :
      (g : ℕ → ℕ → ℕ)
      → sum (used_by g) s'.regions s'.region_count
        ≡ sum (used_by g) s.regions s.region_count + g p sz

abbrev pub IsFit : ℕ → Region → Type 0
IsFit sz r = (r.is_free && leb sz r.len) ≡ true

module _ (sz i : ℕ) (s : State) (t : IsValid s) (mapped : IsMapped s) (below : i < s.region_count)
    (whole : sz % page_size ≡ 0) (pos : 0 < sz) (fit : IsFit sz (s.regions i)) where
  abbrev here : ℕ
  here = (s.regions i).base + s.hhdm_offset

  window : 8 * (0 + sz / 8) ≡ sz
  window = omega arith

  in_space : u64 here ≡ here
  in_space = ground (arith, mapped i below)

  ends : here + 8 * (0 + sz / 8) ≤ 2 ^ 64
  ends = ground (arith, mapped i below)

  clear : (ℕ → ℕ) → ℕ → ℕ
  clear memory = zero_words (sz / 8) 0 (u64 here) memory

  clear-inside : (w : ℕ) → 8 * w < sz → clear s.memory (here + 8 * w) ≡ 0
  unfolding clear
  clear-inside w h =
      let e : here + 8 * (0 + w) ≡ here + 8 * w = omega arith in
      rw (in_space, ← e) (zero_words-inside (sz / 8) 0 here w s.memory ends (omega arith))

  clear-outside : (x : ℕ) → (x < here) ⊎ (here + sz ≤ x) → clear s.memory x ≡ s.memory x
  unfolding clear
  clear-outside x o = rw in_space (zero_words-outside (sz / 8) 0 here x s.memory ends (omega arith))

  pub exact-IsGranted : (s.regions i).len ≡ sz → IsGranted sz s (s.regions i).base (exact sz i s)
  unfolding clear
  exact-IsGranted e = record {
    table = flagged-IsTable t i below false;
    mapped = λ m h. ground (arith, mapped m h, mapped i below);
    placed = λ l m h. ground (arith, l m h);
    tiled = λ c m h. ground (arith, c m h);
    place = i;
    in_table = below;
    used = ground arith;
    same_held = λ x. ground (
      arith,
      sum-update (holds x) s.regions i (record (s.regions i) { is_free = false }) s.region_count,
    );
    taken = λ x. ground (
      arith,
      sum-update (holds_free x) s.regions i (record (s.regions i) { is_free = false })
          s.region_count,
    );
    less = ground (
      arith,
      sum-update free_len s.regions i (record (s.regions i) { is_free = false }) s.region_count,
    );
    zeroed = clear-inside;
    same_words = clear-outside;
    same_offset = refl;
    same_log = refl;
    count_le = omega arith;
    used_more = λ g. ground (
      arith,
      sum-update (used_by g) s.regions i (record (s.regions i) { is_free = false }) s.region_count,
    );
  }

  pub cut-IsGranted :
      s.region_count < 64 → sz < (s.regions i).len → IsGranted sz s (s.regions i).base (cut sz i s)
  unfolding clear
  cut-IsGranted room longer =
      let e : s.region_count + 1 ≡ suc s.region_count = omega arith in
      let free : (s.regions i).is_free ≡ true = ground arith in
      record {
        table = rw e (split_at-IsTable t i sz below room pos longer whole);
        mapped = λ m h. ground (arith, mapped m, mapped (m - 1), mapped i below);
        placed = λ l m h. ground (arith, l m, l (m - 1), l i below);
        tiled = λ c m h. ground (arith, c m, c (m - 1));
        place = i;
        in_table = omega arith;
        used = ground arith;
        same_held = λ x. rw e (sum-holds-split_at t i sz below x longer);
        taken = λ x. rw e (sum-holds_free-split_at t i sz below x longer free);
        less = rw e (sum-free_len-split_at t i sz below longer free);
        zeroed = clear-inside;
        same_words = clear-outside;
        same_offset = refl;
        same_log = refl;
        count_le = omega arith;
        used_more = λ g. rw e (
            ground (
              arith,
              sum-split_at (used_by g) i s.region_count (front sz (s.regions i))
                  (back sz (s.regions i)) s.regions below,
            ));
      }
