-- ===== src/Pmm/Init.antt =====
-- `PMM::init` on a memory map that follows the boot protocol.
use oronyx.Base.{ℕ, zero, suc, ◌+◌, ◌%◌, ◌^◌, ◌≤◌, ◌<◌, ◌≡◌, refl, arith, true, some, none}
use oronyx.Base.{List, [], ◌∷◌, ◌&&◌, ltb, ◌==◌, if◌then◌else◌, ◌∙◌, ap, ◌++◌, ◌>>=◌}
use oronyx.Base.Sums.{sum, sum-zero, le-sum}
use oronyx.Regions.{load, Region, Regions, Table, page_size, merge_from}
use oronyx.Regions.Order.{IsTable, holds, apart_of_holds}
use oronyx.Regions.Sort.{sorted, sort_lem, sorted-le, sum-sorted, sort_fault}
use oronyx.Regions.Merge.{IsMerged, merge_from_lem}
use mathlib.Core.List.{append-nil, append_assoc}
use oronyx.Pmm.{State, Entry, Print, init, print, print_regions, print_regions_from}
use oronyx.Pmm.{region_line, putln, write_line}
use oronyx.Pmm.Entries.{kept, total, entry_holds, entry_holds_page, total-entry_holds_page-le}
use oronyx.Pmm.Entries.{AllFit, IsPages}
use oronyx.Pmm.Collect.{IsCollected, collect_lem}

-- What `init` promises for the entries `es`.
pub record IsInitialized (es : List Entry) (offset : ℕ) (s s' : State) : Type 0 where
  pub table : IsTable s'.region_count s'.regions
  pub gaps :
      (m : ℕ)
      → suc m < s'.region_count
      → (s'.regions m).base + (s'.regions m).len < (s'.regions (suc m)).base
  pub free : (m : ℕ) → m < s'.region_count → (s'.regions m).is_free ≡ true
  pub held : (x : ℕ) → sum (holds x) s'.regions s'.region_count ≡ total (entry_holds_page x) es
  pub offset_set : s'.hhdm_offset ≡ offset
  pub same_memory : s'.memory ≡ s.memory

-- A test of `IsPages`, to carry it through the sort by a sum.
abbrev is_pages : Region → ℕ
is_pages r =
    if ltb 0 r.len
      && (ltb (r.base + r.len) (2 ^ 64)
          && (r.base % page_size == 0 && (r.len % page_size == 0 && r.is_free)))
    then 0
    else 1

sorted-IsPages :
    (n : ℕ) (a : Regions)
    → 0 < n
    → ((m : ℕ) → m < n → IsPages (a m))
    → (m : ℕ) → m < n
    → IsPages (sorted n a m)
sorted-IsPages n a h pages m l = ground (arith, none_bad, le-sum is_pages (sorted n a) m n l)
  where
    none_bad : sum is_pages (sorted n a) n ≡ 0
    none_bad = sum-sorted is_pages n a h ∙ sum-zero is_pages a n (λ q b. ground (arith, pages q b))

sorted-IsTable :
    (n : ℕ) (a : Regions)
    → 0 < n
    → n ≤ 64
    → ((m : ℕ) → m < n → IsPages (a m))
    → ((x : ℕ) → sum (holds x) a n ≤ 1)
    → IsTable n (sorted n a)
sorted-IsTable n a h l pages once = record {
  count_in = l;
  sized = λ m b. (sorted-IsPages n a h pages m b).sized;
  inside = λ m b. (sorted-IsPages n a h pages m b).inside;
  aligned = λ m b.
      ((sorted-IsPages n a h pages m b).base_aligned, (sorted-IsPages n a h pages m b).len_aligned);
  apart =
      apart_of_holds n (sorted n a) (λ m b. (sorted-IsPages n a h pages m b).sized)
        (sorted-le n a h) (λ x. omega (arith, once x, sum-sorted (holds x) n a h));
}

-- The sort and the merging loop on collected regions.
arranged :
    (n : ℕ) (a : Regions)
    → 0 < n
    → n ≤ 64
    → ((m : ℕ) → m < n → IsPages (a m))
    → ((x : ℕ) → sum (holds x) a n ≤ 1)
    → (t : Table) × (merge_from (n + 1) 0 n (sorted n a) ≡ some t) × IsMerged n (sorted n a) t
arranged n a h l pages once =
    merge_from_lem (n + 1) 0 n (sorted n a) (sorted-IsTable n a h l pages once) h (omega arith)
      (λ m b. absurd (omega arith)) (λ m b. (sorted-IsPages n a h pages m b).free)

-- The lines of `rounds` regions from `i` on.
abbrev region_lines : ℕ → ℕ → Regions → List Print
region_lines zero i a = []
region_lines (suc rounds) i a = region_line i (a i) ++ region_lines rounds (i + 1) a

print_regions_from_lem :
    (k i : ℕ) (s : State)
    → i + k ≤ 64
    → print_regions_from k i s ≡ some (record s { log = s.log ++ region_lines k i s.regions })
unfolding print_regions_from
print_regions_from_lem zero i s h = rw append-nil
print_regions_from_lem (suc k) i s h =
    let e : load s.regions i ≡ some (s.regions i) = ground arith in
    rw e (
      print_regions_from_lem k (i + 1) (record s { log = s.log ++ region_line i (s.regions i) })
        (omega arith)
      ∙ ap (λ l. some (record s { log = l }))
          (append_assoc s.log (region_line i (s.regions i)) (region_lines k (i + 1) s.regions)))

-- What `init` prints after the regions are arranged.
abbrev pub printed : State → State
printed s = record s {
  log =
      (s.log ++ (putln "Physical Memory Regions:" ∷ []))
      ++ region_lines s.region_count 0 s.regions
      ++ (write_line "PMM initialized" ∷ []);
}

print_regions_lem :
    (s : State)
    → s.region_count ≤ 64
    → (print_regions s >>= λ s'. some (print (write_line "PMM initialized") s')) ≡ some (printed s)
unfolding print_regions
print_regions_lem s h = rw (
    print_regions_from_lem s.region_count 0 (print (putln "Physical Memory Regions:") s)
      (omega arith))

abbrev after : State → Table → State
after c t = printed (record c { regions = t.1; region_count = t.0 })

IsInitialized-after :
    {es : List Entry} {offset : ℕ} {s c : State} {t : Table}
    → s.region_count ≡ 0
    → 0 < c.region_count
    → IsCollected es (record s { hhdm_offset = offset }) c
    → IsMerged c.region_count (sorted c.region_count c.regions) t
    → IsInitialized es offset s (after c t)
IsInitialized-after {es} {s = s} {c} fresh pos coll m = record {
  table = m.table;
  gaps = m.gaps;
  free = m.free;
  held = λ x. omega (
    arith,
    m.same x,
    sum-sorted (holds x) c.region_count c.regions pos,
    coll.held x,
    ap (λ (n : ℕ). sum (holds x) s.regions n) fresh,
  );
  offset_set = coll.same_offset;
  same_memory = coll.same_memory;
}

-- From a manager without regions, on a memory map of entries whose bounds do not wrap around, the
-- usable ones disjoint and with one to 64 ranges of whole pages, `init` makes no
-- access outside the array and ends within its fuel. The regions are then free, page-aligned,
-- ascending with a gap between each two, and hold exactly the pages that usable entries hold whole.
pub init-IsInitialized :
    (es : List Entry) (offset : ℕ) (s : State)
    → s.region_count ≡ 0
    → AllFit es
    → 0 < total kept es
    → total kept es ≤ 64
    → ((x : ℕ) → total (entry_holds x) es ≤ 1)
    → (s' : State) × (init (some es) offset s ≡ some s') × IsInitialized es offset s s'
unfolding init
init-IsInitialized es offset s fresh fit some_kept few once =
    let (c, run, coll) =
      collect_lem es (record s { hhdm_offset = offset }) fit (omega arith)
        (λ m b. absurd (omega arith)) in
    let pos : 0 < c.region_count = omega (arith, coll.count) in
    let room : c.region_count ≤ 64 = omega (arith, coll.count) in
    let alone : (x : ℕ) → sum (holds x) c.regions c.region_count ≤ 1 = λ x. omega (
      arith,
      once x,
      coll.held x,
      total-entry_holds_page-le x es,
      ap (λ (n : ℕ). sum (holds x) s.regions n) fresh,
    ) in
    let (t, merge, m) = arranged c.region_count c.regions pos room coll.pages alone in
    (
      after c t,
      rw (run, sort_lem c.region_count c.regions pos room, merge)
          (print_regions_lem (record c { regions = t.1; region_count = t.0 }) m.table.count_in),
      IsInitialized-after {t = t} fresh pos coll m,
    )

-- On a memory map with no range of whole pages in a usable entry, `init` leaves the array: the
-- loop bounds `region_count - 1` wrap around.
pub init-fault :
    (es : List Entry) (offset : ℕ) (s : State)
    → s.region_count ≡ 0
    → AllFit es
    → total kept es ≡ 0
    → init (some es) offset s ≡ none
unfolding init
init-fault es offset s fresh fit nothing =
    let (c, run, coll) =
      collect_lem es (record s { hhdm_offset = offset }) fit (omega arith)
        (λ m b. absurd (omega arith)) in
    let e : c.region_count ≡ 0 = omega (arith, coll.count) in rw (run, e, sort_fault c.regions) refl
